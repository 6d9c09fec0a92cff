-- ===== src/Reporting/Submission.antt =====
-- backend/app/modules/reporting/application/submit_report.py
-- PostGIS's nearest edges and bridges, fresh identifiers and the clock are arguments. A raised error
-- leaves the tables as they were: the request's transaction ends without a commit.
pub mod Recorded
pub mod Resubmitted
mod Tests
use smart_logistics_accessib.Base.{
  String, str_eq, Float, Bool, true, false, ◌&&◌, not, Option, none, some, List, [], ◌∷◌, Uuid,
  DateTime, if◌then◌else◌, Result, ok, err, ◌>>=◌, ◌>>◌, raise_if,
}
use smart_logistics_accessib.Identity.Enums.{
  Role, regional_authority, state_authority, district_verifier, emergency_coordinator,
  field_officer, local_authority, road_inspection, fleet_manager, delivery_coordinator,
  transport_operator, platform_administrator,
}
use smart_logistics_accessib.Identity.Principal.{PrincipalContext}
use smart_logistics_accessib.Reporting.Enums.{
  ReportType, ReportSeverity, ReviewState, ScanStatus, submitted, provisional_caution, clean,
  pending_scan, severity_value, report_type_value,
}
use smart_logistics_accessib.Reporting.Entities.{
  LocationPoint, LocationError, FieldReport, MediaObject, validate_location, is_clock_skewed,
  should_auto_provisional_caution,
}
use smart_logistics_accessib.Reporting.Store.{
  ReportingStore, create_report, find_by_client_operation_id, get_media_by_id,
}
use smart_logistics_accessib.Incidents.Entities.{OutboxEvent, review_required}
use smart_logistics_accessib.Incidents.Store.{IncidentStore, create_outbox_event}
use smart_logistics_accessib.Incidents.Adjudication.{pending_event}

pub record SubmissionStore : Type 0 where
  pub reporting : ReportingStore
  pub incidents : IncidentStore

-- ValueError by the check of the location, and the exceptions of the use case
pub data SubmissionError : Type 0 where
  invalid_location : LocationError → SubmissionError
  duplicate_operation media_not_found media_scan_not_clean clock_skew : SubmissionError

-- the arguments of SubmitFieldReportUseCase.execute
pub record Observation : Type 0 where
  pub report_type : ReportType
  pub severity : ReportSeverity
  pub description : String
  pub location : LocationPoint
  pub observed_at : DateTime
  pub client_operation_id : Option String
  pub device_id : Option String
  pub app_instance_id : Option String
  pub media_ids : List Uuid
  pub candidate_edge_id : Option Uuid
  pub candidate_bridge_id : Option Uuid

-- what the surroundings give to one submission; PostGIS lists the nearest first
pub record SubmissionSurroundings : Type 0 where
  pub find_candidate_edges : Float → Float → List Uuid
  pub find_candidate_bridges : Float → Float → List Uuid
  pub received_at : DateTime
  pub published_at : DateTime
  pub report_id : Uuid
  pub outbox_id : Uuid

-- `principal.role.name`
abbrev pub role_name : Role → String
role_name regional_authority = "REGIONAL_AUTHORITY"
role_name state_authority = "STATE_AUTHORITY"
role_name district_verifier = "DISTRICT_VERIFIER"
role_name emergency_coordinator = "EMERGENCY_COORDINATOR"
role_name field_officer = "FIELD_OFFICER"
role_name local_authority = "LOCAL_AUTHORITY"
role_name road_inspection = "ROAD_INSPECTION"
role_name fleet_manager = "FLEET_MANAGER"
role_name delivery_coordinator = "DELIVERY_COORDINATOR"
role_name transport_operator = "TRANSPORT_OPERATOR"
role_name platform_administrator = "PLATFORM_ADMINISTRATOR"

-- step 1
abbrev pub located : Option LocationError → Result SubmissionError (Unit {0})
located none = ok tt
located (some e) = err (invalid_location e)

-- `if client_operation_id:` with the search under it
abbrev pub previous : Uuid → Option String → ReportingStore → Option FieldReport
previous reporter_id none s = none
previous reporter_id (some op) s =
    if str_eq op "" then none else find_by_client_operation_id reporter_id op s

-- step 2: the fields that a replay must repeat
abbrev pub is_same_report : FieldReport → Observation → Bool
is_same_report r o =
    str_eq (report_type_value r.report_type) (report_type_value o.report_type)
    && (str_eq (severity_value r.severity) (severity_value o.severity)
        && str_eq r.description o.description)

-- the first of a list, which may be empty
abbrev pub first {ℓ} : {A : Type ℓ} → List A → Option A
first [] = none
first (x ∷ xs) = some x

-- step 3
abbrev pub resolved : Option Uuid → List Uuid → Option Uuid
resolved (some id) candidates = some id
resolved none candidates = first candidates

-- step 4
abbrev pub is_attachable : ScanStatus → Bool
is_attachable clean = true
is_attachable pending_scan = true
is_attachable _ = false

abbrev pub check_medium : Option MediaObject → Result SubmissionError (Unit {0})
check_medium none = err media_not_found
check_medium (some m) = raise_if (not (is_attachable m.scan_status)) media_scan_not_clean

unfoldable pub check_media : List Uuid → ReportingStore → Result SubmissionError (Unit {0})
check_media [] s = ok tt
check_media (id ∷ ids) s = check_medium (get_media_by_id id s) >> check_media ids s

-- step 5; the set of jurisdictions is a list here, in the order in which it is iterated
abbrev pub new_report : SubmissionSurroundings → PrincipalContext → Observation → FieldReport
new_report env p o = record {
  id = env.report_id;
  reporter_id = p.user_id;
  report_type = o.report_type;
  severity = o.severity;
  description = o.description;
  location = o.location;
  observed_at = o.observed_at;
  received_at = env.received_at;
  created_at = env.received_at;
  review_state = submitted;
  organization_id = some p.org_id;
  jurisdiction_id = first p.jurisdiction_ids;
  client_operation_id = o.client_operation_id;
  device_id = o.device_id;
  app_instance_id = o.app_instance_id;
  candidate_edge_id =
      resolved o.candidate_edge_id
        (env.find_candidate_edges o.location.longitude o.location.latitude);
  candidate_bridge_id =
      resolved o.candidate_bridge_id
        (env.find_candidate_bridges o.location.longitude o.location.latitude);
  is_provisional_caution = false;
  rejection_reason = none;
  rejection_notes = none;
  amendment_of_report_id = none;
  media_ids = o.media_ids;
  version = 1;
  cv_hazard_class = none;
  cv_severity_score = none;
  cv_confidence = none;
  cv_is_roadway_blocked = none;
  cv_verified_at = none;
}

-- step 6
abbrev pub cautioned : FieldReport → FieldReport
cautioned r = record r { is_provisional_caution = true; review_state = provisional_caution }

abbrev pub caution_event : SubmissionSurroundings → FieldReport → OutboxEvent
caution_event env r =
    pending_event env.outbox_id env.published_at "REVIEW_REQUIRED_PROVISIONAL_CAUTION"
      (review_required r.id r.candidate_edge_id r.report_type r.severity r.observed_at)

-- steps 6 and 7
unfoldable pub keep_report :
    SubmissionSurroundings → Bool → FieldReport → SubmissionStore → FieldReport × SubmissionStore
keep_report env true r s = (
  cautioned r,
  record {
    reporting = create_report (cautioned r) s.reporting;
    incidents = create_outbox_event (caution_event env r) s.incidents;
  },
)
keep_report env false r s = (r, record s { reporting = create_report r s.reporting })

unfoldable pub submit_new :
    SubmissionSurroundings
    → PrincipalContext
    → Observation
    → SubmissionStore
    → Result SubmissionError (FieldReport × SubmissionStore)
submit_new env p o s = do
  check_media o.media_ids s.reporting
  let r = new_report env p o
  raise_if (is_clock_skewed r) clock_skew
  ok (keep_report env (should_auto_provisional_caution r (role_name p.role ∷ [])) r s)

-- step 2, with the rest where there is no earlier report
abbrev pub submit_after :
    SubmissionSurroundings
    → PrincipalContext
    → Observation
    → SubmissionStore
    → Option FieldReport
    → Result SubmissionError (FieldReport × SubmissionStore)
submit_after env p o s none = submit_new env p o s
submit_after env p o s (some existing) =
    if is_same_report existing o then ok (existing, s) else err duplicate_operation

-- SubmitFieldReportUseCase.execute, with the repository of incidents that the router gives it
unfoldable pub submit_field_report :
    SubmissionSurroundings
    → PrincipalContext
    → Observation
    → SubmissionStore
    → Result SubmissionError (FieldReport × SubmissionStore)
submit_field_report env p o s =
    located (validate_location o.location)
    >> submit_after env p o s (previous p.user_id o.client_operation_id s.reporting)
