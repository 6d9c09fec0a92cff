-- ===== src/Incidents/Adjudication.antt =====
-- backend/app/modules/incidents/application/{verify_report,triage_report}.py
-- A raised error leaves the tables as they were: the request's transaction ends without a commit.
-- Fresh identifiers and the clock are arguments.
pub mod Outcome
pub mod Declared
pub mod Confirmed
pub mod Effects
mod Tests
use smart_logistics_accessib.Base.{
  String, str_append, str_eq, Bool, true, false, ◌&&◌, ◌||◌, not, Option, none, some, List, [], ◌∷◌,
  map, Uuid, DateTime, ℕ, ◌+◌, ◌==◌, is_some, if◌then◌else◌, any, Result, ok, err, ◌>>=◌, ◌>>◌,
  raise_if,
}
use smart_logistics_accessib.Identity.Principal.{PrincipalContext, has_jurisdiction}
use smart_logistics_accessib.Network.Enums.{AccessibilityStatus, blocked, restricted, field_report}
use smart_logistics_accessib.Network.Entities.{EdgeStatusCurrent}
use smart_logistics_accessib.Network.Status.{
  StatusStore, Declaration, NetworkError, declare_edge_status,
}
use smart_logistics_accessib.Reporting.Enums.{
  ReportType, RejectionReason, ReviewState, landslide, flooding, road_damage, bridge_collapse,
  tree_fall, weather_hazard, security_incident, more_info_needed, verified, under_review,
}
use smart_logistics_accessib.Reporting.Entities.{FieldReport}
use smart_logistics_accessib.Reporting.Store.{ReportingStore, get_report_by_id, update_report}
use smart_logistics_accessib.Incidents.Enums.{
  ReviewDecisionKind, AffectedDirection, active, both, pending, outbox_status_value,
  confirm_incident, reject_report, request_more_info,
}
use smart_logistics_accessib.Incidents.Entities.{
  Incident, ReviewDecision, OutboxEvent, Payload, incident_confirmed,
}
use smart_logistics_accessib.Incidents.Recalculation.{is_critical}
use smart_logistics_accessib.Incidents.Store.{
  IncidentStore, AffectedEdge, get_incident_by_id, create_incident, create_review_decision,
  create_outbox_event,
}

pub record ReviewStore : Type 0 where
  pub reporting : ReportingStore
  pub incidents : IncidentStore
  pub network : StatusStore

pub data ReviewError : Type 0 where
  report_not_found self_verification jurisdiction_out_of_scope version_conflict : ReviewError
  target_incident_not_found rejection_reason_required edge_not_found row_missing : ReviewError

pub record ReviewRequest : Type 0 where
  pub report_id : Uuid
  pub decision : ReviewDecisionKind
  pub notes : Option String
  pub rejection_reason : Option RejectionReason
  pub existing_incident_id : Option Uuid
  pub affected_edges : List AffectedEdge
  pub incident_title : Option String
  pub if_match_version : Option ℕ

-- what the surroundings give an adjudication: `status_event_id` and `declared_at` by the place of
-- the edge in the loop
pub record ReviewSurroundings : Type 0 where
  pub now : DateTime
  pub published_at : DateTime
  pub incident_id : Uuid
  pub decision_id : Uuid
  pub outbox_id : Uuid
  pub status_event_id : ℕ → Uuid
  pub declared_at : ℕ → DateTime

abbrev pub known_report : Option FieldReport → Result ReviewError FieldReport
known_report none = err report_not_found
known_report (some r) = ok r

-- `report.jurisdiction_id and not principal.has_jurisdiction(...)`
abbrev pub out_of_scope : PrincipalContext → Option Uuid → Bool
out_of_scope p none = false
out_of_scope p (some j) = not (has_jurisdiction p j)

-- `if_match_version is not None and report.version != if_match_version`
abbrev pub is_stale : Option ℕ → ℕ → Bool
is_stale none version = false
is_stale (some v) version = not (version == v)

-- The edges that a confirmation affects: those given, or the report's candidate.
abbrev pub candidate : Option Uuid → List AffectedEdge
candidate none = []
candidate (some e) = record { edge_id = e; direction = both; is_full_closure = true } ∷ []

abbrev pub edges_to_link : List AffectedEdge → FieldReport → List AffectedEdge
edges_to_link [] r = candidate r.candidate_edge_id
edges_to_link (e ∷ es) r = e ∷ es

-- `f"{report_type.value.replace('_', ' ').title()} Alert"`
default_title : ReportType → String
default_title landslide = "Landslide Alert"
default_title flooding = "Flooding Alert"
default_title road_damage = "Road Damage Alert"
default_title bridge_collapse = "Bridge Collapse Alert"
default_title tree_fall = "Tree Fall Alert"
default_title weather_hazard = "Weather Hazard Alert"
default_title security_incident = "Security Incident Alert"
default_title ReportType.other = "Other Alert"

-- `incident_title or ...`
abbrev title_or : Option String → String → String
title_or none d = d
title_or (some t) d = if str_eq t "" then d else t

pub new_incident : ReviewSurroundings → ReviewRequest → FieldReport → Incident
new_incident env req r = record {
  id = env.incident_id;
  primary_report_id = r.id;
  lifecycle = active;
  severity = r.severity;
  title = title_or req.incident_title (default_title r.report_type);
  description = r.description;
  created_at = env.now;
  version = 1;
  resolution_reason = none;
  resolution_notes = none;
  resolved_by = none;
  resolved_at = none;
  reopened_reason = none;
  reopened_at = none;
  reopened_by = none;
}

abbrev pub known_target : Option Incident → Result ReviewError Incident
known_target none = err target_incident_not_found
known_target (some i) = ok i

-- the incident that a confirmation is about, and the tables with it
abbrev pub incident_for :
    ReviewSurroundings
    → ReviewRequest
    → FieldReport
    → Option Uuid
    → IncidentStore
    → Result ReviewError (Incident × IncidentStore)
incident_for env req r none s = ok (
  new_incident env req r,
  create_incident env.now (new_incident env req r) r.id (edges_to_link req.affected_edges r) s,
)
incident_for env req r (some id) s = known_target (get_incident_by_id id s) >>= λ i. ok (i, s)

abbrev pub decision_of :
    ReviewSurroundings
    → PrincipalContext
    → ReviewRequest
    → FieldReport
    → Option RejectionReason
    → Option Uuid
    → ReviewDecision
decision_of env p req r rejection_reason incident_id = record {
  id = env.decision_id;
  report_id = r.id;
  reviewer_id = p.user_id;
  decision = req.decision;
  notes = req.notes;
  rejection_reason = rejection_reason;
  incident_id = incident_id;
  created_at = env.now;
}

-- the status that a confirmation gives every edge
abbrev pub confirmed_status : FieldReport → List AffectedEdge → AccessibilityStatus
confirmed_status r edges =
    if is_critical r.severity || any (λ e. e.is_full_closure) edges then blocked else restricted

abbrev pub confirmation :
    PrincipalContext → Incident → AccessibilityStatus → AffectedEdge → Declaration
confirmation p i status e = record {
  edge_id = e.edge_id;
  status = status;
  reason = str_append "Incident confirmed: " i.title;
  source_event_type = field_report;
  actor_user_id = some p.user_id;
  source_reference_id = some i.id;
  restrictions = none;
  valid_from = none;
  valid_until = none;
}

abbrev pub declared :
    Result NetworkError (EdgeStatusCurrent × StatusStore) → Result ReviewError StatusStore
declared (ok (c, s)) = ok s
declared (err e) = err edge_not_found

-- the loop over the edges, from the place on
abbrev pub declare_all :
    {A : Type 0}
    → (A → Declaration)
    → (ℕ → DateTime)
    → (ℕ → Uuid)
    → ℕ
    → List A
    → StatusStore
    → Result ReviewError StatusStore
declare_all d at ids n [] s = ok s
declare_all d at ids n (e ∷ es) s =
    declared (declare_edge_status (d e) (at n) (ids n) s) >>= declare_all d at ids (n + 1) es

abbrev pub event_type_of : Option Uuid → String
event_type_of none = "incident.created"
event_type_of (some id) = "incident.verified"

abbrev pub pending_event : Uuid → DateTime → String → Payload → OutboxEvent
pending_event id now event_type payload = record {
  id = id;
  event_type = event_type;
  payload = payload;
  status = outbox_status_value pending;
  retry_count = 0;
  max_retries = 5;
  last_error = none;
  next_attempt_at = none;
  dead_lettered_at = none;
  created_at = now;
  dispatched_at = none;
  failed_at = none;
}

-- the update of the edges that a confirmation makes
abbrev pub declare_confirmed :
    Bool
    → ReviewSurroundings
    → PrincipalContext
    → ReviewRequest
    → FieldReport
    → Incident
    → StatusStore
    → Result ReviewError StatusStore
declare_confirmed with_declare env p req r i network =
    let edges = edges_to_link req.affected_edges r in
    declare_all (confirmation p i (confirmed_status r edges)) env.declared_at env.status_event_id 0
      (if with_declare then edges else []) network

-- the event that a confirmation publishes
abbrev pub confirmation_event :
    ReviewSurroundings → ReviewRequest → FieldReport → Incident → OutboxEvent
confirmation_event env req r i =
    pending_event env.outbox_id env.published_at (event_type_of req.existing_incident_id) (
      incident_confirmed i.id r.id r.severity i.title
        (map (λ e. e.edge_id) (edges_to_link req.affected_edges r)))

-- the decision and the event of a confirmation
abbrev pub confirmed_incidents :
    ReviewSurroundings
    → PrincipalContext
    → ReviewRequest
    → FieldReport
    → Incident
    → IncidentStore
    → IncidentStore
confirmed_incidents env p req r i incidents =
    create_outbox_event (confirmation_event env req r i)
      (create_review_decision (decision_of env p req r none (some i.id)) incidents)

abbrev pub rejected_report : ReviewRequest → FieldReport → FieldReport
rejected_report req r = record r {
  review_state = ReviewState.rejected;
  rejection_reason = req.rejection_reason;
  rejection_notes = req.notes;
}

-- The adjudication of a report: what becomes of it, the incident it confirms, and the tables but the
-- report's.
abbrev pub adjudicate :
    Bool
    → ReviewSurroundings
    → PrincipalContext
    → ReviewRequest
    → FieldReport
    → ReviewDecisionKind
    → ReviewStore
    → Result ReviewError (FieldReport × Option Uuid × ReviewStore)
adjudicate with_declare env p req r confirm_incident s = do
  (i, incidents) ← incident_for env req r req.existing_incident_id s.incidents
  network ← declare_confirmed with_declare env p req r i s.network
  ok (
    record r { review_state = verified },
    some i.id,
    record s { incidents = confirmed_incidents env p req r i incidents; network = network },
  )
adjudicate with_declare env p req r reject_report s = do
  raise_if (not (is_some req.rejection_reason)) rejection_reason_required
  ok (
    rejected_report req r,
    none,
    record s {
      incidents =
          create_review_decision (decision_of env p req r req.rejection_reason none) s.incidents;
    },
  )
adjudicate with_declare env p req r request_more_info s = ok (
  record r { review_state = more_info_needed },
  none,
  record s { incidents = create_review_decision (decision_of env p req r none none) s.incidents },
)

pub record ReviewOutcome : Type 0 where
  pub report_id : Uuid
  pub review_state : ReviewState
  pub version : ℕ
  pub incident_id : Option Uuid
  pub decision : ReviewDecisionKind

abbrev pub written :
    Option (FieldReport × ReportingStore) → Result ReviewError (FieldReport × ReportingStore)
written none = err row_missing
written (some x) = ok x

-- VerifyReportUseCase.execute; `with_declare` says whether a use case for the edges was given.
pub verify_report :
    Bool
    → ReviewSurroundings
    → PrincipalContext
    → ReviewRequest
    → ReviewStore
    → Result ReviewError (ReviewOutcome × ReviewStore)
verify_report with_declare env p req s = do
  r ← known_report (get_report_by_id req.report_id s.reporting)
  raise_if (r.reporter_id == p.user_id) self_verification
  raise_if (out_of_scope p r.jurisdiction_id) jurisdiction_out_of_scope
  raise_if (is_stale req.if_match_version r.version) version_conflict
  (judged, incident, s1) ← adjudicate with_declare env p req r req.decision s
  (saved, reporting) ← written (update_report judged s.reporting)
  ok (
    record {
      report_id = saved.id;
      review_state = saved.review_state;
      version = saved.version;
      incident_id = incident;
      decision = req.decision;
    },
    record s1 { reporting = reporting },
  )

-- TriageReportUseCase.execute
pub triage_report :
    PrincipalContext → Uuid → ReportingStore → Result ReviewError (FieldReport × ReportingStore)
triage_report p report_id s = do
  r ← known_report (get_report_by_id report_id s)
  raise_if (r.reporter_id == p.user_id) self_verification
  raise_if (out_of_scope p r.jurisdiction_id) jurisdiction_out_of_scope
  written (update_report (record r { review_state = under_review }) s)
