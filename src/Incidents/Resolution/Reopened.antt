-- ===== src/Incidents/Resolution/Reopened.antt =====
-- What a resolution leaves active, and the status that it declares.
use smart_logistics_accessib.Base.{
  ◌≡◌, ◌≢◌, inl, inr, refl, ap, sym, ◌∙◌, arith, Bool, true, false, Option, none, some, List, [],
  ◌∷◌, ◌++◌, Uuid, ℕ, ◌+◌, ◌==◌, ==_iff, Bool-cases, if◌then◌else◌, Result, ok, err, >>=-eq-ok,
  ok-injective, In, here, there, In-append, update_where, find, find-holds,
}
use smart_logistics_accessib.Identity.Principal.{PrincipalContext}
use smart_logistics_accessib.Network.Enums.{open_road}
use smart_logistics_accessib.Network.Status.{StatusStore, get_current_status}
use smart_logistics_accessib.Incidents.Enums.{IncidentLifecycle}
use smart_logistics_accessib.Incidents.Entities.{
  Incident, IncidentEdgeLink, OutboxEvent, resolve, incident_resolved,
}
use smart_logistics_accessib.Incidents.Recalculation.{
  ActiveIncidentCondition, is_open_lifecycle, recalculate_effective_edge_status, effective_status,
}
use smart_logistics_accessib.Incidents.Store.{
  IncidentStore, get_incident_by_id, update_incident, get_active_incidents_for_edge,
  create_outbox_event, active_conditions, conditions_of, links_edge, incident_written,
}
use smart_logistics_accessib.Incidents.Adjudication.{ReviewError, declare_all, pending_event}
use smart_logistics_accessib.Incidents.Adjudication.Outcome.{some-injective}
use smart_logistics_accessib.Incidents.Adjudication.Declared.{
  events_of, declare_all-events, declare_all-Stands,
}
use smart_logistics_accessib.Incidents.Resolution.{
  ResolutionRequest, ResolutionSurroundings, known_incident, incident_saved, re_evaluation,
  edges_declared, resolve_incident,
}
use smart_logistics_accessib.Network.Entities.{EdgeStatusCurrent}

abbrev pub Triple : Type 0
Triple = Incident × IncidentStore × StatusStore

abbrev pub resolution_event :
    ResolutionSurroundings → PrincipalContext → ResolutionRequest → Uuid → OutboxEvent
resolution_event env p req id =
    pending_event env.outbox_id env.published_at "INCIDENT_RESOLVED"
      (incident_resolved id req.reason p.user_id req.affected_edge_ids)

-- The steps of a resolution that goes through.
pub record Resolved (with_declare : Bool) (env : ResolutionSurroundings) (p : PrincipalContext)
    (req : ResolutionRequest) (s : IncidentStore) (network : StatusStore) (i : Incident)
    (s' : IncidentStore) (network' : StatusStore) : Type 0 where
  pub row : Incident
  pub found : get_incident_by_id req.incident_id s ≡ some row
  pub answer : i ≡ record (resolve p.user_id req.reason req.notes env.resolved_at row) {
    version = row.version + 2;
  }
  pub incidents : s' ≡ record s {
    incidents =
        update_where
          (λ m. m.id == req.incident_id)
          (incident_written (resolve p.user_id req.reason req.notes env.resolved_at row))
          s.incidents;
    outbox_events = s.outbox_events ++ resolution_event env p req req.incident_id ∷ [];
  }
  pub declared :
      declare_all
        (re_evaluation env p req.reason i s')
        env.declared_at
        env.status_event_id
        0
        (if with_declare then req.affected_edge_ids else [])
        network
      ≡ ok network'
  pub edges :
      network'.edge_status_events
      ≡ network.edge_status_events
        ++ events_of
            (re_evaluation env p req.reason i s')
            env.declared_at
            env.status_event_id
            0
            (if with_declare then req.affected_edge_ids else [])

known-ok : (o : Option Incident) {r : Incident} → known_incident o ≡ ok r → o ≡ some r
known-ok none h = cc
known-ok (some x) h = ap some (ok-injective h)

saved-ok :
    (o : Option (Incident × IncidentStore)) {x : Incident × IncidentStore}
    → incident_saved o ≡ ok x
    → o ≡ some x
saved-ok none h = cc
saved-ok (some x) h = ap some (ok-injective h)

declared-ok :
    (o : Result ReviewError StatusStore) {x : StatusStore} → edges_declared o ≡ ok x → o ≡ ok x
declared-ok (err e) h = cc
declared-ok (ok x) h = ap ok (ok-injective h)

update-ok :
    (i : Incident) (s : IncidentStore) (m : Incident) {x : Incident × IncidentStore}
    → find (λ k. k.id == i.id) s.incidents ≡ some m
    → update_incident i s ≡ some x
    → (
      record i { version = i.version + 1 },
      record s { incidents = update_where (λ k. k.id == i.id) (incident_written i) s.incidents },
    )
      ≡ x
unfolding update_incident
update-ok i s m found h = some-injective (rw found at h)

abbrev after :
    ResolutionSurroundings
    → PrincipalContext
    → ResolutionRequest
    → Incident
    → Uuid
    → IncidentStore
    → Incident × IncidentStore
after env p req row id s = (
  record (resolve p.user_id req.reason req.notes env.resolved_at row) { version = row.version + 2 },
  record s {
    incidents =
        update_where (λ m. m.id == id)
          (incident_written (resolve p.user_id req.reason req.notes env.resolved_at row))
          s.incidents;
  },
)

two_more : (n : ℕ) → n + 1 + 1 ≡ n + 2
two_more n = omega arith

saved_after :
    (env : ResolutionSurroundings) (p : PrincipalContext) (req : ResolutionRequest)
    (s : IncidentStore) (row : Incident) {x : Incident × IncidentStore}
    → get_incident_by_id req.incident_id s ≡ some row
    → update_incident (resolve p.user_id req.reason req.notes env.resolved_at row) s ≡ some x
    → (after env p req row req.incident_id s ≡ x) × (row.id ≡ req.incident_id)
unfolding get_incident_by_id resolve
saved_after env p req s row found h =
    let named =
      (==_iff row.id req.incident_id).0
        (find-holds (λ m. m.id == req.incident_id) s.incidents row found) in
    let there = ap (λ n. find (λ m. m.id == n) s.incidents) named ∙ found in
    let e = update-ok (resolve p.user_id req.reason req.notes env.resolved_at row) s row there h in
    (ap (λ n. after env p req row n s) (sym named) ∙ (rw (two_more row.version) at e), named)

-- A resolution that goes through has found the incident. It marks the incident's row resolved by the
-- caller for the request's reason, with the version two higher, publishes one event, and appends one
-- edge status decision for each edge of the request, in order, when the edges are to be updated: the
-- status is recalculated from the incidents that are still open on the edge.
pub resolve-Resolved :
    (w : Bool) (env : ResolutionSurroundings) (p : PrincipalContext) (req : ResolutionRequest)
    (s : IncidentStore) (network : StatusStore) (i : Incident) (s' : IncidentStore)
    (network' : StatusStore)
    → resolve_incident w env p req s network ≡ ok (i, s', network')
    → Resolved w env p req s network i s' network'
unfolding resolve_incident create_outbox_event get_active_incidents_for_edge resolve
resolve-Resolved w env p req s network i s' network' h =
    let (row, found, h1) = >>=-eq-ok (known_incident (get_incident_by_id req.incident_id s)) _ h in
    let (x, saved, h2) =
      >>=-eq-ok
        (incident_saved
          (update_incident (resolve p.user_id req.reason req.notes env.resolved_at row) s))
        _ h1 in
    let (n, declared, h3) =
      >>=-eq-ok
        (edges_declared (
          declare_all (re_evaluation env p req.reason x.0 x.1) env.declared_at env.status_event_id 0
            (if w then req.affected_edge_ids else []) network))
        _ h2 in
    let (kept, named) = saved_after env p req s row (known-ok _ found) (saved-ok _ saved) in
    let e = ok-injective h3 in
    let logged =
      declare_all-events (re_evaluation env p req.reason x.0 x.1) env.declared_at
        env.status_event_id 0 (if w then req.affected_edge_ids else []) network
        (declared-ok _ declared) in
    record {
      row = row;
      found = known-ok _ found;
      answer =
          sym (ap (λ (z : Triple). z.0) e) ∙ sym (ap (λ (z : Incident × IncidentStore). z.0) kept);
      incidents =
          sym (ap (λ (z : Triple). z.1) e)
          ∙ ap
              (λ (z : Incident × IncidentStore).
                create_outbox_event (resolution_event env p req z.0.id) z.1)
              (sym kept)
          ∙ ap
              (λ n.
                create_outbox_event (resolution_event env p req n)
                  (after env p req row req.incident_id s).1)
              named;
      declared =
          ap
            (λ (z : Triple).
              declare_all (re_evaluation env p req.reason z.0 z.1) env.declared_at
                env.status_event_id 0 (if w then req.affected_edge_ids else []) network)
            (sym e)
          ∙ declared-ok _ declared
          ∙ ap (λ (z : Triple). ok z.2) e;
      edges =
          sym (ap (λ (z : Triple). z.2.edge_status_events) e)
          ∙ logged
          ∙ ap
              (λ (z : Triple).
                network.edge_status_events
                ++ events_of (re_evaluation env p req.reason z.0 z.1) env.declared_at
                    env.status_event_id 0 (if w then req.affected_edge_ids else []))
              e;
    }

conditions_of-id :
    (e : Uuid) (i : Incident) (ls : List IncidentEdgeLink) (c : ActiveIncidentCondition)
    → In c (conditions_of e i ls)
    → c.incident_id ≡ i.id
conditions_of-id e i [] c m = elim m [ ]
conditions_of-id e i (l ∷ ls) c m = elim (Bool-cases (links_edge i.id e l)) [
  | inl hit ↦ elim (rw hit at m) [
    | here q ↦ ap (λ (x : ActiveIncidentCondition). x.incident_id) q
    | there n ↦ conditions_of-id e i ls c n
  ]
  | inr miss ↦ conditions_of-id e i ls c (rw miss at m)
]

active_conditions-open :
    (e : Uuid) (is : List Incident) (ls : List IncidentEdgeLink) (c : ActiveIncidentCondition)
    → In c (active_conditions e is ls)
    → (i : Incident) × In i is × (is_open_lifecycle i.lifecycle ≡ true) × (c.incident_id ≡ i.id)
active_conditions-open e [] ls c m = elim m [ ]
active_conditions-open e (i ∷ is) ls c m = elim (Bool-cases (is_open_lifecycle i.lifecycle)) [
  | inl hit ↦ elim (In-append c (conditions_of e i ls) _ (rw hit at m)) [
    | inl l ↦ (i, here refl, hit, conditions_of-id e i ls c l)
    | inr r ↦ let (k, n, o, d) = active_conditions-open e is ls c r in (k, there n, o, d)
  ]
  | inr miss ↦
      let (k, n, o, d) = active_conditions-open e is ls c (rw miss at m) in (k, there n, o, d)
]

-- Every row of the incident is closed by the update.
update_where-closed :
    (n : Uuid) (x : Incident) (is : List Incident) (i : Incident)
    → x.lifecycle ≡ IncidentLifecycle.resolved
    → In i (update_where (λ m. m.id == n) (incident_written x) is)
    → i.id ≡ n
    → is_open_lifecycle i.lifecycle ≡ false
update_where-closed n x [] i r m e = elim m [ ]
update_where-closed n x (k ∷ is) i r (there m) e = update_where-closed n x is i r m e
update_where-closed n x (k ∷ is) i r (here q) e = elim (Bool-cases (k.id == n)) [
  | inl hit ↦ rw q (rw hit (rw r refl))
  | inr miss ↦
      let kept : i ≡ k = rw miss at q in
      let id = ap (λ (y : Incident). y.id) (sym kept) ∙ e in cc ((==_iff k.id n).1 id, miss)
]

-- After a resolution that goes through, the incident is no active condition of any edge.
pub resolve_closes :
    (w : Bool) (env : ResolutionSurroundings) (p : PrincipalContext) (req : ResolutionRequest)
    (s : IncidentStore) (network : StatusStore) (i : Incident) (s' : IncidentStore)
    (network' : StatusStore)
    → resolve_incident w env p req s network ≡ ok (i, s', network')
    → (e : Uuid) (c : ActiveIncidentCondition) → In c (get_active_incidents_for_edge e s')
    → c.incident_id ≢ req.incident_id
unfolding get_active_incidents_for_edge resolve
resolve_closes w env p req s network i s' network' h e c m same =
    let r = resolve-Resolved w env p req s network i s' network' h in
    let (k, row, is_open, named) = active_conditions-open e s'.incidents s'.incident_edges c m in
    let moved = ap (λ (x : IncidentStore). x.incidents) r.incidents in
    let closed =
      update_where-closed req.incident_id
        (resolve p.user_id req.reason req.notes env.resolved_at r.row) s.incidents k refl
        (rw (moved) at row) (sym named ∙ same) in
    cc (is_open, closed)

-- No row of an incident links the edge, by any of the links.
abbrev pub Unlinked : Uuid → Incident → List IncidentEdgeLink → Type 0
Unlinked e k ls = (l : IncidentEdgeLink) → In l ls → links_edge k.id e l ≡ false

conditions_of-none :
    (e : Uuid) (i : Incident) (ls : List IncidentEdgeLink)
    → Unlinked e i ls
    → conditions_of e i ls ≡ []
conditions_of-none e i [] u = refl
conditions_of-none e i (l ∷ ls) u =
    rw (u l (here refl)) (conditions_of-none e i ls (λ k m. u k (there m)))

active_conditions-none :
    (e : Uuid) (is : List Incident) (ls : List IncidentEdgeLink)
    → ((k : Incident) → In k is → is_open_lifecycle k.lifecycle ≡ true → Unlinked e k ls)
    → active_conditions e is ls ≡ []
active_conditions-none e [] ls u = refl
active_conditions-none e (i ∷ is) ls u =
    let rest = active_conditions-none e is ls (λ k m. u k (there m)) in
    elim (Bool-cases (is_open_lifecycle i.lifecycle)) [
      | inl hit ↦ rw (hit, conditions_of-none e i ls (u i (here refl) hit)) rest
      | inr miss ↦ rw miss rest
    ]

In-update_where :
    (n : Uuid) (x : Incident) (is : List Incident) (i : Incident)
    → In i (update_where (λ m. m.id == n) (incident_written x) is)
    → i.id ≢ n
    → In i is
In-update_where n x [] i m d = elim m [ ]
In-update_where n x (k ∷ is) i (there m) d = there (In-update_where n x is i m d)
In-update_where n x (k ∷ is) i (here q) d = elim (Bool-cases (k.id == n)) [
  | inl hit ↦
      let kept : i ≡ incident_written x k = rw hit at q in
      elim (d (ap (λ (y : Incident). y.id) kept ∙ (==_iff k.id n).0 hit)) [ ]
  | inr miss ↦ here (rw miss at q)
]

-- When the edges are to be updated, and no other open incident is linked to an edge of the request,
-- the current status of the edge is open after the resolution.
pub resolve_opens :
    (env : ResolutionSurroundings) (p : PrincipalContext) (req : ResolutionRequest)
    (s : IncidentStore) (network : StatusStore) (i : Incident) (s' : IncidentStore)
    (network' : StatusStore) (e : Uuid)
    → resolve_incident true env p req s network ≡ ok (i, s', network')
    → In e req.affected_edge_ids
    → ((k : Incident)
        → In k s.incidents
        → k.id ≢ req.incident_id
        → is_open_lifecycle k.lifecycle ≡ true
        → Unlinked e k s.incident_edges)
    → (c : EdgeStatusCurrent) × (get_current_status e network' ≡ some c) × (c.status ≡ open_road)
unfolding get_active_incidents_for_edge resolve recalculate_effective_edge_status effective_status
resolve_opens env p req s network i s' network' e h asked alone =
    let r = resolve-Resolved true env p req s network i s' network' h in
    let x = resolve p.user_id req.reason req.notes env.resolved_at r.row in
    let after = update_where (λ m. m.id == req.incident_id) (incident_written x) s.incidents in
    let none_left : active_conditions e after s.incident_edges ≡ [] =
      active_conditions-none e after s.incident_edges (λ k m o.
        let other : k.id ≢ req.incident_id =
          (λ q. cc (o, update_where-closed req.incident_id x s.incidents k refl m q)) in
        alone k (In-update_where req.incident_id x s.incidents k m other) other o) in
    let opens : (re_evaluation env p req.reason i s' e).status ≡ open_road =
      rw (r.incidents, none_left) refl in
    declare_all-Stands (re_evaluation env p req.reason i s') env.declared_at env.status_event_id e
      open_road 0 req.affected_edge_ids network e r.declared
      (λ y m q. ap (λ k. (re_evaluation env p req.reason i s' k).status) q ∙ opens) asked refl
