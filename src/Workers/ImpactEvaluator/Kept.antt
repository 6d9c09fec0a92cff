-- ===== src/Workers/ImpactEvaluator/Kept.antt =====
-- The assessments of trips over whole batches of events.
use smart_logistics_accessib.Base.{
  String, str_eq, ◌≡◌, refl, Bool, true, false, ◌||◌, Option, none, some, List, [], ◌∷◌, Uuid,
  DateTime, ℕ, ◌+◌, Result, ok, err, ◌>>=◌, Bool-cases, inl, inr,
}
use smart_logistics_accessib.Incidents.Entities.{OutboxEvent}
use smart_logistics_accessib.Impact.Store.{ImpactStore}
use smart_logistics_accessib.Impact.Evaluation.{
  ImpactError, ImpactSummary, Disruption, evaluate_disruption_impact,
}
use smart_logistics_accessib.Impact.Evaluation.Assessed.{Rising, evaluate-Rising}
use smart_logistics_accessib.Workers.Outbox.{
  OutboxStore, dispatch_outbox_batch, dispatch_all, settle, poll,
}
use smart_logistics_accessib.Workers.ImpactEvaluator.{
  HandlerSurroundings, EventFields, evaluated, incident_disruption, evaluate_edges, edges_of,
  status_disruption, edge_status_updated, handle_fields, fields_of, handle_impact_evaluator_event,
  evaluate_outbox_batch, text_or,
}

-- When the call returns, the versions in the tables rise.
abbrev KeepsRising : Result String ImpactStore → Type 0
KeepsRising (err e) = Unit
KeepsRising (ok s) = Rising s.trip_impacts

evaluated-KeepsRising :
    (env : HandlerSurroundings) (n : ℕ) (d : Disruption) (s : ImpactStore)
    → Rising s.trip_impacts
    → KeepsRising (evaluated env n d s)
evaluated-KeepsRising env n d s r =
    by_result (evaluate_disruption_impact (env.evaluation n) d s) refl
  where
    by_result :
        (x : Result ImpactError (ImpactSummary × ImpactStore))
        → evaluate_disruption_impact (env.evaluation n) d s ≡ x
        → KeepsRising (elim x [ err e ↦ err (env.error_text e) | ok y ↦ ok y.1 ])
    by_result (err e) h = tt
    by_result (ok (summary, s')) h = (evaluate-Rising (env.evaluation n) d s s' summary r h).0

after :
    (x : Result String ImpactStore) (next : ImpactStore → Result String ImpactStore)
    → KeepsRising x
    → ((t : ImpactStore) → Rising t.trip_impacts → KeepsRising (next t))
    → KeepsRising (x >>= next)
after (err e) next r keep = tt
after (ok t) next r keep = keep t r

edges-KeepsRising :
    (env : HandlerSurroundings) (e : OutboxEvent) (f : EventFields) (n : ℕ) (edges : List Uuid)
    (s : ImpactStore)
    → Rising s.trip_impacts
    → KeepsRising (evaluate_edges env e f n edges s)
unfolding evaluate_edges
edges-KeepsRising env e f n [] s r = r
edges-KeepsRising env e f n (edge_id ∷ edges) s r =
    after (evaluated env n (incident_disruption env e f edge_id) s)
      (evaluate_edges env e f (n + 1) edges)
      (evaluated-KeepsRising env n (incident_disruption env e f edge_id) s r)
      (λ t q. edges-KeepsRising env e f (n + 1) edges t q)

handled-KeepsRising :
    (env : HandlerSurroundings) (e : OutboxEvent) (f : EventFields) (s : ImpactStore)
    → Rising s.trip_impacts
    → KeepsRising (handle_fields env e f s)
unfolding handle_fields
handled-KeepsRising env e f s r =
    elim (Bool-cases
      (str_eq e.event_type "incident.verified" || str_eq e.event_type "incident.created")) [
        | inl incident ↦
            rw incident (edges-KeepsRising env e f 0 (edges_of f.affected_edges f.edge_id) s r)
        | inr no_incident ↦
            rw no_incident (elim (Bool-cases (str_eq e.event_type "edge_status.updated")) [
              | inl status ↦ rw status (status-KeepsRising f.edge_id)
              | inr no_status ↦ rw no_status r
            ])
      ]
  where
    status-KeepsRising : (edge : Option Uuid) → KeepsRising (edge_status_updated env e f edge s)
    status-KeepsRising none = r
    status-KeepsRising (some edge_id) =
        let t = env.upper (text_or "" f.status) in
        elim (Bool-cases (str_eq t "BLOCKED" || str_eq t "IMPASSABLE")) [
          | inl blocked ↦
              rw blocked (evaluated-KeepsRising env 0 (status_disruption env e f edge_id true) s r)
          | inr open_yet ↦ rw open_yet (elim (Bool-cases (str_eq t "RESTRICTED")) [
            | inl restricted ↦
                rw restricted
                  (evaluated-KeepsRising env 0 (status_disruption env e f edge_id false) s r)
            | inr other ↦ rw other r
          ])
        ]

settled-Rising :
    (now : DateTime) (e : OutboxEvent) (x : Result String ImpactStore)
    (y : ℕ × OutboxStore ImpactStore)
    → KeepsRising x
    → Rising y.1.world.trip_impacts
    → Rising (settle "impact_evaluator" now e x y).1.world.trip_impacts
settled-Rising now e (ok s) y new old = new
settled-Rising now e (err m) y new old = old

all-Rising :
    (env : OutboxEvent → HandlerSurroundings) (now : DateTime) (es : List OutboxEvent)
    (y : ℕ × OutboxStore ImpactStore)
    → Rising y.1.world.trip_impacts
    → Rising
        (dispatch_all
          (λ e. handle_impact_evaluator_event (env e) e)
          "impact_evaluator"
          now
          es
          y).1.world.trip_impacts
unfolding handle_impact_evaluator_event
all-Rising env now [] y r = r
all-Rising env now (e ∷ es) y r =
    all-Rising env now es _
      (settled-Rising now e _ y (handled-KeepsRising (env e) e (fields_of e.payload) y.1.world r) r)

-- Whatever events a batch hands to the impact evaluator, and whichever of them fail, the versions of
-- the assessments of a trip on an edge keep rising.
pub batch-Rising :
    (env : OutboxEvent → HandlerSurroundings) (batch_size : ℕ) (now : DateTime)
    (locked : Uuid → Bool) (s : OutboxStore ImpactStore)
    → Rising s.world.trip_impacts
    → Rising (evaluate_outbox_batch env batch_size now locked s).1.world.trip_impacts
unfolding evaluate_outbox_batch dispatch_outbox_batch
batch-Rising env batch_size now locked s r =
    all-Rising env now (poll "impact_evaluator" batch_size now locked s) (0, s) r
