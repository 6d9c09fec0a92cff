-- ===== src/Incidents/Resolution.antt =====
-- backend/app/modules/incidents/application/resolve_incident.py
-- A raised error leaves the tables as they were: the request's transaction ends without a commit.
pub mod Reopened
mod Tests
use smart_logistics_accessib.Base.{
  String, str_append, Bool, true, false, Option, none, some, List, [], Uuid, DateTime, ℕ,
  if◌then◌else◌, Result, ok, err, ◌>>=◌,
}
use smart_logistics_accessib.Identity.Principal.{PrincipalContext}
use smart_logistics_accessib.Network.Enums.{official_decision}
use smart_logistics_accessib.Network.Status.{StatusStore, Declaration}
use smart_logistics_accessib.Incidents.Enums.{ResolutionReason, resolution_reason_value}
use smart_logistics_accessib.Incidents.Entities.{Incident, resolve, incident_resolved}
use smart_logistics_accessib.Incidents.Recalculation.{recalculate_effective_edge_status}
use smart_logistics_accessib.Incidents.Store.{
  IncidentStore, get_incident_by_id, update_incident, get_active_incidents_for_edge,
  create_outbox_event,
}
use smart_logistics_accessib.Incidents.Adjudication.{ReviewError, declare_all, pending_event}

pub data ResolutionError : Type 0 where
  incident_not_found edge_not_found row_missing : ResolutionError

pub record ResolutionRequest : Type 0 where
  pub incident_id : Uuid
  pub reason : ResolutionReason
  pub notes : Option String
  pub affected_edge_ids : List Uuid

-- what the surroundings give a resolution; `show_uuid` is Python's `str` of a UUID
pub record ResolutionSurroundings : Type 0 where
  pub show_uuid : Uuid → String
  pub resolved_at : DateTime
  pub published_at : DateTime
  pub outbox_id : Uuid
  pub status_event_id : ℕ → Uuid
  pub declared_at : ℕ → DateTime

abbrev pub known_incident : Option Incident → Result ResolutionError Incident
known_incident none = err incident_not_found
known_incident (some i) = ok i

abbrev pub incident_saved :
    Option (Incident × IncidentStore) → Result ResolutionError (Incident × IncidentStore)
incident_saved none = err row_missing
incident_saved (some x) = ok x

-- The recalculation is given neither restrictions nor a caution.
abbrev pub re_evaluation :
    ResolutionSurroundings
    → PrincipalContext
    → ResolutionReason
    → Incident
    → IncidentStore
    → Uuid
    → Declaration
re_evaluation env p reason i s edge_id = record {
  edge_id = edge_id;
  status =
      (recalculate_effective_edge_status env.show_uuid (get_active_incidents_for_edge edge_id s)
        none false).0;
  reason =
      str_append "Edge re-evaluated upon resolution of incident "
        (str_append (env.show_uuid i.id) (str_append ": " (resolution_reason_value reason)));
  source_event_type = official_decision;
  actor_user_id = some p.user_id;
  source_reference_id = some i.id;
  restrictions = none;
  valid_from = none;
  valid_until = none;
}

abbrev pub edges_declared : Result ReviewError StatusStore → Result ResolutionError StatusStore
edges_declared (ok s) = ok s
edges_declared (err e) = err edge_not_found

-- ResolveIncidentUseCase.execute; `with_declare` says whether a use case for the edges was given.
pub resolve_incident :
    Bool
    → ResolutionSurroundings
    → PrincipalContext
    → ResolutionRequest
    → IncidentStore
    → StatusStore
    → Result ResolutionError (Incident × IncidentStore × StatusStore)
resolve_incident with_declare env p req s network = do
  found ← known_incident (get_incident_by_id req.incident_id s)
  (i, saved) ←
      incident_saved
        (update_incident (resolve p.user_id req.reason req.notes env.resolved_at found) s)
  declared ← edges_declared (
      declare_all (re_evaluation env p req.reason i saved) env.declared_at env.status_event_id 0
        (if with_declare then req.affected_edge_ids else []) network)
  ok (
    i,
    create_outbox_event
        (pending_event env.outbox_id env.published_at "INCIDENT_RESOLVED"
          (incident_resolved i.id req.reason p.user_id req.affected_edge_ids))
        saved,
    declared,
  )
