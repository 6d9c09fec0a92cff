-- ===== src/Incidents/Adjudication/Confirmed.antt =====
-- What a confirmation writes, table by table.
use smart_logistics_accessib.Base.{
  ◌≡◌, ◌↔◌, ◌⊎◌, inl, inr, refl, ap, Bool, true, false, ◌||◌, Option, none, some, List, [], ◌∷◌,
  ◌++◌, map, any, any_iff, Some, Uuid, ℕ, ◌+◌, String, Bool-cases, Result, ok, >>=-eq-ok,
  ok-injective, if◌then◌else◌,
}
use smart_logistics_accessib.Identity.Principal.{PrincipalContext}
use smart_logistics_accessib.Network.Enums.{AccessibilityStatus, blocked, restricted, field_report}
use smart_logistics_accessib.Network.Entities.{EdgeStatusEvent}
use smart_logistics_accessib.Reporting.Entities.{FieldReport}
use smart_logistics_accessib.Reporting.Enums.{ReportSeverity, critical}
use smart_logistics_accessib.Incidents.Enums.{outbox_status_value, active, both, confirm_incident}
use smart_logistics_accessib.Incidents.Recalculation.{is_critical}
use smart_logistics_accessib.Incidents.Entities.{
  Incident, ReviewDecision, OutboxEvent, incident_confirmed,
}
use smart_logistics_accessib.Incidents.Store.{
  IncidentStore, AffectedEdge, create_incident, create_review_decision, create_outbox_event,
  get_incident_by_id,
}
use smart_logistics_accessib.Incidents.Adjudication.{
  ReviewStore, ReviewError, ReviewRequest, ReviewSurroundings, adjudicate, incident_for,
  known_target, declare_confirmed, confirmation, confirmed_status, edges_to_link, decision_of,
  new_incident, confirmation_event,
}
use smart_logistics_accessib.Incidents.Adjudication.Outcome.{Adjudged}
use smart_logistics_accessib.Incidents.Adjudication.Declared.{events_of, declare_all-events}

-- The edges that the confirmation is about: those of the request, or else the report's candidate,
-- closed fully in both directions.
abbrev pub Affects : List AffectedEdge → Option Uuid → List AffectedEdge → Type 0
Affects (e ∷ es) candidate edges = edges ≡ e ∷ es
Affects [] (some c) edges =
    edges ≡ record { edge_id = c; direction = both; is_full_closure = true } ∷ []
Affects [] none edges = edges ≡ []

-- The incident and its tables: the one that the request names, with no table changed, or a new row
-- with the report as its primary one and a link to each of the edges.
abbrev pub Opens :
    ReviewSurroundings
    → FieldReport
    → List AffectedEdge
    → IncidentStore
    → IncidentStore
    → Incident
    → Option Uuid
    → Type 0
Opens env r edges s t i (some id) =
    (get_incident_by_id id s ≡ some i)
    × (t.incidents ≡ s.incidents)
    × (t.incident_reports ≡ s.incident_reports)
    × (t.incident_edges ≡ s.incident_edges)
Opens env r edges s t i none =
    ((i.id ≡ env.incident_id)
      × (i.primary_report_id ≡ r.id)
      × (i.lifecycle ≡ active)
      × (i.severity ≡ r.severity)
      × (i.description ≡ r.description)
      × (i.version ≡ 1)
      × (i.resolved_at ≡ none))
    × (t.incidents ≡ s.incidents ++ i ∷ [])
    × (t.incident_reports
        ≡ s.incident_reports
          ++ record {
            incident_id = env.incident_id;
            report_id = r.id;
            is_primary = true;
            linked_at = env.now;
          }
            ∷ [])
    × (t.incident_edges
        ≡ s.incident_edges
          ++ map
              (λ e. record {
                incident_id = env.incident_id;
                edge_id = e.edge_id;
                affected_direction = e.direction;
                is_full_closure = e.is_full_closure;
                linked_at = env.now;
              })
              edges)

-- One edge status decision for each edge, in order.
abbrev pub Declares :
    PrincipalContext
    → Incident
    → AccessibilityStatus
    → List AffectedEdge
    → List EdgeStatusEvent
    → Type 0
Declares p i status [] vs = vs ≡ []
Declares p i status (e ∷ es) [] = ⊥
Declares p i status (e ∷ es) (v ∷ vs) =
    ((v.edge_id ≡ e.edge_id)
      × (v.status ≡ status)
      × (v.source_event_type ≡ field_report)
      × (v.actor_user_id ≡ some p.user_id)
      × (v.source_reference_id ≡ some i.id))
    × Declares p i status es vs

-- Whether the confirmed report closes its edges.
abbrev pub Closes : FieldReport → List AffectedEdge → Type 0
Closes r edges = (r.severity ≡ critical) ⊎ Some (λ e. e.is_full_closure) edges

abbrev pub event_name : Option Uuid → String
event_name none = "incident.created"
event_name (some id) = "incident.verified"

-- What a confirmation leaves.
pub record Confirmed (with_declare : Bool) (env : ReviewSurroundings) (p : PrincipalContext)
    (req : ReviewRequest) (r : FieldReport) (s : ReviewStore) (incident_id : Option Uuid)
    (s' : ReviewStore) : Type 0 where
  pub incident : Incident
  pub named : incident_id ≡ some incident.id
  pub edges : List AffectedEdge
  pub affected : Affects req.affected_edges r.candidate_edge_id edges
  pub opened : Opens env r edges s.incidents s'.incidents incident req.existing_incident_id
  pub decision :
      (d : ReviewDecision) × (s'.incidents.review_decisions
        ≡ s.incidents.review_decisions ++ d ∷ [])
      × (d.report_id ≡ r.id)
      × (d.reviewer_id ≡ p.user_id)
      × (d.decision ≡ req.decision)
      × (d.notes ≡ req.notes)
      × (d.incident_id ≡ some incident.id)
  pub event :
      (v : OutboxEvent) × (s'.incidents.outbox_events ≡ s.incidents.outbox_events ++ v ∷ [])
      × (v.event_type ≡ event_name req.existing_incident_id)
      × (v.status ≡ "PENDING")
      × (v.retry_count ≡ 0)
      × (v.payload
          ≡ incident_confirmed incident.id r.id r.severity incident.title
              (map (λ e. e.edge_id) edges))
  pub status : AccessibilityStatus
  pub blocks : (status ≡ blocked) ↔ Closes r edges
  pub restricts : (status ≡ restricted) ↔ ¬ Closes r edges
  pub declared :
      (vs : List EdgeStatusEvent) × (s'.network.edge_status_events
        ≡ s.network.edge_status_events ++ vs)
      × Declares p incident status (if with_declare then edges else []) vs

link-Affects :
    (given : List AffectedEdge) (r : FieldReport) (c : Option Uuid)
    → r.candidate_edge_id ≡ c
    → Affects given c (edges_to_link given r)
link-Affects (e ∷ es) r c h = refl
link-Affects [] r none h = rw h refl
link-Affects [] r (some c) h = rw h refl

critical_iff : (v : ReportSeverity) → (is_critical v ≡ true) ↔ (v ≡ critical)
critical_iff critical = ((λ h. refl), (λ h. refl))
critical_iff _ = ((λ h. cc), (λ h. cc))

closes_iff :
    (r : FieldReport) (edges : List AffectedEdge)
    → ((is_critical r.severity || any (λ e. e.is_full_closure) edges) ≡ true) ↔ Closes r edges
closes_iff r edges = (there_is, it_is)
  where
    there_is :
        (is_critical r.severity || any (λ e. e.is_full_closure) edges) ≡ true → Closes r edges
    there_is h = elim (Bool-cases (is_critical r.severity)) [
      | inl hit ↦ inl ((critical_iff r.severity).0 hit)
      | inr miss ↦ inr ((any_iff (λ e. e.is_full_closure) edges).0 (rw miss at h))
    ]

    it_is : Closes r edges → (is_critical r.severity || any (λ e. e.is_full_closure) edges) ≡ true
    it_is (inl e) = rw ((critical_iff r.severity).1 e) refl
    it_is (inr x) = elim (Bool-cases (is_critical r.severity)) [
      | inl hit ↦ rw hit refl
      | inr miss ↦ rw miss ((any_iff (λ e. e.is_full_closure) edges).1 x)
    ]

by_closing :
    (b : Bool) {P : Type 0}
    → (b ≡ true) ↔ P
    → (((if b then blocked else restricted) ≡ blocked) ↔ P)
      × (((if b then blocked else restricted) ≡ restricted) ↔ ¬ P)
by_closing true (a, c) = (((λ h. a refl), (λ x. refl)), ((λ h. cc), (λ no. elim (no (a refl)) [ ])))
by_closing false (a, c) = (
  ((λ h. cc), (λ x. let no : false ≡ true = c x in cc)),
  ((λ h x. let no : false ≡ true = c x in cc), (λ no. refl)),
)

opened-Opens :
    (env : ReviewSurroundings) (req : ReviewRequest) (r : FieldReport) (o : Option Uuid)
    (s : IncidentStore) {x : Incident × IncidentStore}
    → incident_for env req r o s ≡ ok x
    → Opens env r (edges_to_link req.affected_edges r) s x.1 x.0 o
      × (x.1.outbox_events ≡ s.outbox_events)
      × (x.1.review_decisions ≡ s.review_decisions)
unfolding create_incident new_incident
opened-Opens env req r none s h =
    rw (← ok-injective h)
      (((refl, refl, refl, refl, refl, refl, refl), refl, refl, refl), refl, refl)
opened-Opens env req r (some id) s h =
    let (i, found, h1) = >>=-eq-ok (known_target (get_incident_by_id id s)) _ h in
    rw (← ok-injective h1) ((target-ok _ found, refl, refl, refl), refl, refl)
  where
    target-ok : (o : Option Incident) {i : Incident} → known_target o ≡ ok i → o ≡ some i
    target-ok none h = cc
    target-ok (some x) h = ap some (ok-injective h)

events-Declares :
    (env : ReviewSurroundings) (p : PrincipalContext) (i : Incident) (status : AccessibilityStatus)
    (n : ℕ) (es : List AffectedEdge)
    → Declares p i status es
        (events_of (confirmation p i status) env.declared_at env.status_event_id n es)
events-Declares env p i status n [] = refl
events-Declares env p i status n (e ∷ es) =
    ((refl, refl, refl, refl, refl), events-Declares env p i status (n + 1) es)

named_so :
    (env : ReviewSurroundings) (req : ReviewRequest) (r : FieldReport) (i : Incident)
    (o : Option Uuid)
    → req.existing_incident_id ≡ o
    → (confirmation_event env req r i).event_type ≡ event_name o
named_so env req r i none h = rw h refl
named_so env req r i (some id) h = rw h refl

carried :
    {w : Bool} {env : ReviewSurroundings} {p : PrincipalContext} {req : ReviewRequest}
    {r : FieldReport} {s : ReviewStore} (a : Adjudged) {b : Adjudged}
    → ◌≡◌ {A = Result ReviewError Adjudged} (ok a) (ok b)
    → Confirmed w env p req r s a.1 a.2
    → Confirmed w env p req r s b.1 b.2
carried a e x = rw (← ok-injective e) x

pub adjudicate-Confirmed :
    (w : Bool) (env : ReviewSurroundings) (p : PrincipalContext) (req : ReviewRequest)
    (r : FieldReport) (s : ReviewStore) {j : FieldReport} {n : Option Uuid} {s' : ReviewStore}
    → adjudicate w env p req r confirm_incident s ≡ ok (j, n, s')
    → Confirmed w env p req r s n s'
unfolding create_outbox_event create_review_decision outbox_status_value
adjudicate-Confirmed w env p req r s h =
    let edges = edges_to_link req.affected_edges r in
    let (x, opened, h1) =
      >>=-eq-ok (incident_for env req r req.existing_incident_id s.incidents) _ h in
    let (network, declared, h2) = >>=-eq-ok (declare_confirmed w env p req r x.0 s.network) _ h1 in
    let (opens, events, decisions) =
      opened-Opens env req r req.existing_incident_id s.incidents opened in
    let logged =
      declare_all-events (confirmation p x.0 (confirmed_status r edges)) env.declared_at
        env.status_event_id 0 (if w then edges else []) s.network declared in
    let (blocks, restricts) = by_closing _ (closes_iff r edges) in
    carried _ h2 (record {
      incident = x.0;
      named = refl;
      edges = edges;
      affected = link-Affects req.affected_edges r r.candidate_edge_id refl;
      opened = opens;
      decision = (
        decision_of env p req r none (some x.0.id),
        ap (λ l. l ++ decision_of env p req r none (some x.0.id) ∷ []) decisions,
        refl,
        refl,
        refl,
        refl,
        refl,
      );
      event = (
        confirmation_event env req r x.0,
        ap (λ l. l ++ confirmation_event env req r x.0 ∷ []) events,
        named_so env req r x.0 req.existing_incident_id refl,
        refl,
        refl,
        refl,
      );
      status = confirmed_status r edges;
      blocks = blocks;
      restricts = restricts;
      declared = (
        _,
        logged,
        events-Declares env p x.0 (confirmed_status r edges) 0 (if w then edges else []),
      );
    })
