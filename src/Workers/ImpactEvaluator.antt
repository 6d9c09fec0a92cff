-- ===== src/Workers/ImpactEvaluator.antt =====
-- backend/app/workers/outbox_dispatcher.py: what the impact evaluator does with a published event.
-- `upper` is Python's; what an evaluation takes from its surroundings is given by its place among
-- those of one event.
pub mod Kept
use smart_logistics_accessib.Base.{
  String, str_eq, Bool, true, false, ◌||◌, Option, none, some, List, [], ◌∷◌, Uuid, DateTime, ℕ,
  ◌+◌, if◌then◌else◌, Result, ok, err, ◌>>=◌,
}
use smart_logistics_accessib.Reporting.Enums.{severity_value}
use smart_logistics_accessib.Incidents.Entities.{
  OutboxEvent, Payload, incident_confirmed, incident_resolved, incident_merged, review_required,
}
use smart_logistics_accessib.Impact.Enums.{
  ImpactSeverity, blocked_route, restricted_delay, critical, high, moderate,
}
use smart_logistics_accessib.Impact.Store.{ImpactStore}
use smart_logistics_accessib.Impact.Evaluation.{
  ImpactError, ImpactSurroundings, Disruption, evaluate_disruption_impact,
}
use smart_logistics_accessib.Workers.Outbox.{OutboxStore, dispatch_outbox_batch}

-- the keys that the handler reads of a payload
pub record EventFields : Type 0 where
  pub incident_id : Option Uuid
  pub affected_edges : List Uuid
  pub edge_id : Option Uuid
  pub severity : Option String
  pub status : Option String
  pub status_version : Option ℕ

abbrev pub no_fields : EventFields
no_fields = record {
  incident_id = none;
  affected_edges = [];
  edge_id = none;
  severity = none;
  status = none;
  status_version = none;
}

-- the documents of the payloads that the modelled use cases publish
abbrev pub fields_of : Payload → EventFields
fields_of (incident_confirmed incident report severity title edges) = record no_fields {
  incident_id = some incident;
  affected_edges = edges;
  severity = some (severity_value severity);
}
fields_of (incident_resolved incident reason by edges) = record no_fields {
  incident_id = some incident;
  affected_edges = edges;
}
fields_of (incident_merged source target by) = no_fields
fields_of (review_required report edge type severity at) = record no_fields {
  edge_id = edge;
  severity = some (severity_value severity);
}

-- `payload.get("affected_edges") or []`, or else the one edge that is named
abbrev pub edges_of : List Uuid → Option Uuid → List Uuid
edges_of (e ∷ es) edge = e ∷ es
edges_of [] none = []
edges_of [] (some e) = e ∷ []

abbrev pub text_or : String → Option String → String
text_or default none = default
text_or default (some t) = t

abbrev pub severity_of : String → ImpactSeverity
severity_of t = if str_eq t "CRITICAL" || str_eq t "HIGH" then critical else moderate

abbrev pub version_or : ℕ → Option ℕ → ℕ
version_or default none = default
version_or default (some n) = n

pub record HandlerSurroundings : Type 0 where
  pub upper : String → String
  pub error_text : ImpactError → String
  pub global_status_version : ℕ
  pub evaluation : ℕ → ImpactSurroundings

-- the use case's tables, with the text of what it raised
abbrev pub evaluated :
    HandlerSurroundings → ℕ → Disruption → ImpactStore → Result String ImpactStore
evaluated env n d s = elim (evaluate_disruption_impact (env.evaluation n) d s) [
  | err e ↦ err (env.error_text e)
  | ok x ↦ ok x.1
]

abbrev pub incident_disruption : HandlerSurroundings → OutboxEvent → EventFields → Uuid → Disruption
incident_disruption env e f edge_id = record {
  edge_id = edge_id;
  source_status_version = env.global_status_version;
  source_event_id = e.id;
  incident_id = f.incident_id;
  impact_type = blocked_route;
  severity = severity_of (env.upper (text_or "HIGH" f.severity));
  delay_estimated_seconds = 1800;
}

-- the loop over the edges of an incident
pub evaluate_edges :
    HandlerSurroundings
    → OutboxEvent
    → EventFields
    → ℕ
    → List Uuid
    → ImpactStore
    → Result String ImpactStore
evaluate_edges env e f n [] s = ok s
evaluate_edges env e f n (edge_id ∷ edges) s =
    evaluated env n (incident_disruption env e f edge_id) s >>= evaluate_edges env e f (n + 1) edges

abbrev pub status_disruption :
    HandlerSurroundings → OutboxEvent → EventFields → Uuid → Bool → Disruption
status_disruption env e f edge_id is_blocked = record {
  edge_id = edge_id;
  source_status_version = version_or env.global_status_version f.status_version;
  source_event_id = e.id;
  incident_id = none;
  impact_type = if is_blocked then blocked_route else restricted_delay;
  severity = if is_blocked then critical else high;
  delay_estimated_seconds = if is_blocked then 3600 else 1800;
}

abbrev pub by_new_status :
    HandlerSurroundings
    → OutboxEvent
    → EventFields
    → Uuid
    → String
    → ImpactStore
    → Result String ImpactStore
by_new_status env e f edge_id status s =
    if str_eq status "BLOCKED" || str_eq status "IMPASSABLE"
    then evaluated env 0 (status_disruption env e f edge_id true) s
    else if str_eq status "RESTRICTED"
    then evaluated env 0 (status_disruption env e f edge_id false) s
    else ok s

abbrev pub edge_status_updated :
    HandlerSurroundings
    → OutboxEvent
    → EventFields
    → Option Uuid
    → ImpactStore
    → Result String ImpactStore
edge_status_updated env e f none s = ok s
edge_status_updated env e f (some edge_id) s =
    by_new_status env e f edge_id (env.upper (text_or "" f.status)) s

-- _handle_impact_evaluator_event, on the keys of the payload
pub handle_fields :
    HandlerSurroundings → OutboxEvent → EventFields → ImpactStore → Result String ImpactStore
handle_fields env e f s =
    if str_eq e.event_type "incident.verified" || str_eq e.event_type "incident.created"
    then evaluate_edges env e f 0 (edges_of f.affected_edges f.edge_id) s
    else if str_eq e.event_type "edge_status.updated"
    then edge_status_updated env e f f.edge_id s
    else ok s

pub handle_impact_evaluator_event :
    HandlerSurroundings → OutboxEvent → ImpactStore → Result String ImpactStore
handle_impact_evaluator_event env e s = handle_fields env e (fields_of e.payload) s

-- a batch of the outbox for the impact evaluator
pub evaluate_outbox_batch :
    (OutboxEvent → HandlerSurroundings)
    → ℕ
    → DateTime
    → (Uuid → Bool)
    → OutboxStore ImpactStore
    → ℕ × OutboxStore ImpactStore
evaluate_outbox_batch env batch_size now locked s =
    dispatch_outbox_batch (λ e. handle_impact_evaluator_event (env e) e) "impact_evaluator"
      batch_size now locked s
