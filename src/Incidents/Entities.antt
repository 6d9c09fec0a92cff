-- ===== src/Incidents/Entities.antt =====
-- backend/app/modules/incidents/domain/entities.py
-- `strip` is an argument of what calls it.
use smart_logistics_accessib.Base.{
  String, Bool, Option, none, some, List, Uuid, DateTime, ℕ, ◌+◌, ◌||◌, str_eq, if◌then◌else◌,
}
use smart_logistics_accessib.Incidents.Enums.{
  IncidentLifecycle, ReviewDecisionKind, ResolutionReason, AffectedDirection, active,
}
use smart_logistics_accessib.Reporting.Enums.{RejectionReason, ReportSeverity, ReportType}

pub record Incident : Type 0 where
  pub id : Uuid
  pub primary_report_id : Uuid
  pub lifecycle : IncidentLifecycle
  pub severity : ReportSeverity
  pub title : String
  pub description : String
  pub created_at : DateTime
  pub version : ℕ
  pub resolution_reason : Option ResolutionReason
  pub resolution_notes : Option String
  pub resolved_by : Option Uuid
  pub resolved_at : Option DateTime
  pub reopened_reason : Option String
  pub reopened_at : Option DateTime
  pub reopened_by : Option Uuid

-- `Incident.resolve`, with an instant given
unfoldable pub resolve : Uuid → ResolutionReason → Option String → DateTime → Incident → Incident
resolve resolver_id reason notes at i = record i {
  lifecycle = IncidentLifecycle.resolved;
  resolution_reason = some reason;
  resolution_notes = notes;
  resolved_by = some resolver_id;
  resolved_at = some at;
  version = i.version + 1;
}

-- `Incident.reopen`: none where a reason is missing
pub reopen : (String → String) → Uuid → String → DateTime → Incident → Option Incident
reopen strip reopener_id reason at i =
    if str_eq reason "" || str_eq (strip reason) ""
    then none
    else some (record i {
      lifecycle = active;
      reopened_reason = some (strip reason);
      reopened_by = some reopener_id;
      reopened_at = some at;
      version = i.version + 1;
    })

pub record ReviewDecision : Type 0 where
  pub id : Uuid
  pub report_id : Uuid
  pub reviewer_id : Uuid
  pub decision : ReviewDecisionKind
  pub notes : Option String
  pub rejection_reason : Option RejectionReason
  pub incident_id : Option Uuid
  pub created_at : DateTime

pub record IncidentReportLink : Type 0 where
  pub incident_id : Uuid
  pub report_id : Uuid
  pub is_primary : Bool
  pub linked_at : DateTime

pub record IncidentEdgeLink : Type 0 where
  pub incident_id : Uuid
  pub edge_id : Uuid
  pub affected_direction : AffectedDirection
  pub is_full_closure : Bool
  pub linked_at : DateTime

pub record IncidentMerge : Type 0 where
  pub id : Uuid
  pub source_incident_id : Uuid
  pub target_incident_id : Uuid
  pub merged_by : Uuid
  pub notes : Option String
  pub merged_at : DateTime

-- The payloads that the use cases of this module publish, and the one of a submitted report.
pub data Payload : Type 0 where
  incident_confirmed :
      (incident_id report_id : Uuid)
      → ReportSeverity
      → (title : String) → (affected_edges : List Uuid) → Payload
  incident_resolved :
      (incident_id : Uuid) → ResolutionReason → (resolved_by : Uuid) → List Uuid → Payload
  incident_merged : (source_incident_id target_incident_id merged_by : Uuid) → Payload
  review_required :
      (report_id : Uuid)
      → (edge_id : Option Uuid) → ReportType
      → ReportSeverity
      → (observed_at : DateTime) → Payload

-- OutboxEvent, with the columns that only its row has. The status is the text in its column.
pub record OutboxEvent : Type 0 where
  pub id : Uuid
  pub event_type : String
  pub payload : Payload
  pub status : String
  pub retry_count : ℕ
  pub max_retries : ℕ
  pub last_error : Option String
  pub next_attempt_at : Option DateTime
  pub dead_lettered_at : Option DateTime
  pub created_at : DateTime
  pub dispatched_at : Option DateTime
  pub failed_at : Option DateTime
