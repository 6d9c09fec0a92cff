-- ===== src/Incidents/Enums.antt =====
-- backend/app/modules/incidents/domain/enums.py
use smart_logistics_accessib.Base.{String}

pub data IncidentLifecycle : Type 0 where
  active monitoring resolved : IncidentLifecycle

pub data ReviewDecisionKind : Type 0 where
  confirm_incident reject_report request_more_info : ReviewDecisionKind

pub data ResolutionReason : Type 0 where
  repairs_completed hazard_cleared merged_into false_alarm expired other : ResolutionReason

-- `reason.value`
pub resolution_reason_value : ResolutionReason → String
resolution_reason_value repairs_completed = "REPAIRS_COMPLETED"
resolution_reason_value hazard_cleared = "HAZARD_CLEARED"
resolution_reason_value merged_into = "MERGED_INTO"
resolution_reason_value false_alarm = "FALSE_ALARM"
resolution_reason_value expired = "EXPIRED"
resolution_reason_value other = "OTHER"

pub data OutboxStatus : Type 0 where
  pending dispatched dead_letter : OutboxStatus

-- `status.value`
unfoldable pub outbox_status_value : OutboxStatus → String
outbox_status_value pending = "PENDING"
outbox_status_value dispatched = "DISPATCHED"
outbox_status_value dead_letter = "DEAD_LETTER"

pub data AffectedDirection : Type 0 where
  both forward backward : AffectedDirection
