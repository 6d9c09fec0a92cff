-- ===== src/Reporting/Verification.antt =====
-- backend/app/modules/reporting/application/apply_cv_verification.py: what the model of the ai
-- module found on a report's photograph.
mod Tests
pub mod Escalated
use smart_logistics_accessib.Base.{
  String, Float, quarters, Bool, true, false, ◌&&◌, Option, none, some, Uuid, DateTime,
  if◌then◌else◌, Result, ok, err, ◌>>=◌,
}
use smart_logistics_accessib.Reporting.Enums.{ReviewState, submitted, provisional_caution}
use smart_logistics_accessib.Reporting.Entities.{
  FieldReport, should_auto_provisional_caution_from_cv,
}
use smart_logistics_accessib.Reporting.Store.{ReportingStore, get_report_by_id, update_report}

pub data VerificationError : Type 0 where
  report_not_found row_missing : VerificationError

-- what the model found
pub record CvFinding : Type 0 where
  pub hazard_class : String
  pub severity_score : Float
  pub confidence : Float
  pub is_roadway_blocked : Bool

abbrev pub known : Option FieldReport → Result VerificationError FieldReport
known none = err report_not_found
known (some r) = ok r

abbrev pub is_submitted : ReviewState → Bool
is_submitted submitted = true
is_submitted _ = false

abbrev pub with_finding : DateTime → CvFinding → FieldReport → FieldReport
with_finding now c r = record r {
  cv_hazard_class = some c.hazard_class;
  cv_severity_score = some c.severity_score;
  cv_confidence = some c.confidence;
  cv_is_roadway_blocked = some c.is_roadway_blocked;
  cv_verified_at = some now;
}

-- the default of the threshold is 0.75
abbrev pub escalated : FieldReport → FieldReport
escalated r =
    if is_submitted r.review_state && should_auto_provisional_caution_from_cv r (quarters 3)
    then record r { is_provisional_caution = true; review_state = provisional_caution }
    else r

abbrev pub written :
    Option (FieldReport × ReportingStore) → Result VerificationError (FieldReport × ReportingStore)
written none = err row_missing
written (some x) = ok x

-- ApplyCvVerificationUseCase.execute
pub apply_cv_verification :
    DateTime
    → Uuid
    → CvFinding
    → ReportingStore
    → Result VerificationError (FieldReport × ReportingStore)
apply_cv_verification now report_id c s = do
  r ← known (get_report_by_id report_id s)
  written (update_report (escalated (with_finding now c r)) s)
