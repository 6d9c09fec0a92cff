-- ===== src/Reporting/Amendment.antt =====
-- backend/app/modules/reporting/application/amend_report.py
-- `strip`, fresh identifiers and the clock are arguments. A raised error leaves the tables as they
-- were.
pub mod Linked
mod Tests
use smart_logistics_accessib.Base.{
  String, str_eq, Bool, true, false, ◌&&◌, ◌||◌, not, Option, none, some, Uuid, DateTime, ◌==◌,
  Result, ok, err, ◌>>=◌, ◌>>◌, raise_if,
}
use smart_logistics_accessib.Identity.Enums.{
  Role, district_verifier, state_authority, regional_authority,
}
use smart_logistics_accessib.Identity.Principal.{PrincipalContext}
use smart_logistics_accessib.Reporting.Enums.{ReviewState, verified, more_info_needed, under_review}
use smart_logistics_accessib.Reporting.Entities.{FieldReport, ReportAmendment}
use smart_logistics_accessib.Reporting.Store.{
  ReportingStore, get_report_by_id, update_report, create_amendment,
}
use smart_logistics_accessib.Reporting.Submission.{
  SubmissionStore, SubmissionError, Observation, SubmissionSurroundings, submit_field_report,
}

pub data AmendmentError : Type 0 where
  reason_required report_not_found report_already_adjudicated not_permitted : AmendmentError
  row_missing : AmendmentError
  refused_by : SubmissionError → AmendmentError

pub record AmendmentSurroundings : Type 0 where
  pub submission : SubmissionSurroundings
  pub amendment_id : Uuid
  pub amended_at : DateTime

-- the report that corrects another; the call gives no operation, device or instance
abbrev pub correction : Observation → Observation
correction o = record o { client_operation_id = none; device_id = none; app_instance_id = none }

abbrev pub known : Option FieldReport → Result AmendmentError FieldReport
known none = err report_not_found
known (some r) = ok r

abbrev pub is_terminal : ReviewState → Bool
is_terminal verified = true
is_terminal ReviewState.rejected = true
is_terminal _ = false

-- `role_name in {"DISTRICT_VERIFIER", "STATE_AUTHORITY", "REGIONAL_AUTHORITY"}`
abbrev pub is_verifier : Role → Bool
is_verifier district_verifier = true
is_verifier state_authority = true
is_verifier regional_authority = true
is_verifier _ = false

abbrev pub submitted_by :
    Result SubmissionError (FieldReport × SubmissionStore)
    → Result AmendmentError (FieldReport × SubmissionStore)
submitted_by (err e) = err (refused_by e)
submitted_by (ok x) = ok x

abbrev pub written :
    Option (FieldReport × ReportingStore) → Result AmendmentError (FieldReport × ReportingStore)
written none = err row_missing
written (some x) = ok x

abbrev pub is_waiting : ReviewState → Bool
is_waiting more_info_needed = true
is_waiting _ = false

-- the original goes back to the reviewers when they waited for it
abbrev pub reopened :
    FieldReport → Bool → ReportingStore → Result AmendmentError (FieldReport × ReportingStore)
reopened original true s =
    written (update_report (record original { review_state = under_review }) s)
reopened original false s = ok (original, s)

abbrev pub amendment_of :
    (String → String) → AmendmentSurroundings → Uuid → Uuid → String → ReportAmendment
amendment_of strip env original_id new_id reason = record {
  id = env.amendment_id;
  original_report_id = original_id;
  amendment_report_id = new_id;
  reason = strip reason;
  created_at = env.amended_at;
}

-- from the link on
unfoldable pub link_amendment :
    (String → String)
    → AmendmentSurroundings
    → String
    → FieldReport
    → FieldReport × SubmissionStore
    → Result AmendmentError (FieldReport × SubmissionStore)
link_amendment strip env reason original (new, s) = do
  linked ←
      written (update_report (record new { amendment_of_report_id = some original.id }) s.reporting)
  let recorded = create_amendment (amendment_of strip env original.id new.id reason) linked.1
  x ← reopened original (is_waiting original.review_state) recorded
  ok (linked.0, record s { reporting = x.1 })

-- AmendReportUseCase.execute
unfoldable pub amend_report :
    (String → String)
    → AmendmentSurroundings
    → PrincipalContext
    → Uuid
    → String
    → Observation
    → SubmissionStore
    → Result AmendmentError (FieldReport × SubmissionStore)
amend_report strip env p original_report_id reason o s = do
  raise_if (str_eq reason "" || str_eq (strip reason) "") reason_required
  original ← known (get_report_by_id original_report_id s.reporting)
  raise_if (is_terminal original.review_state) report_already_adjudicated
  raise_if (not (original.reporter_id == p.user_id) && not (is_verifier p.role)) not_permitted
  x ← submitted_by (submit_field_report env.submission p (correction o) s)
  link_amendment strip env reason original x
