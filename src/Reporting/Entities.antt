-- ===== src/Reporting/Entities.antt =====
-- backend/app/modules/reporting/domain/entities.py
use smart_logistics_accessib.Base.{
  String, Document, ℤ, Float, float, lt_float, le_float, quarters, Bool, true, false, ◌&&◌, ◌||◌,
  not, Option, none, some, List, Uuid, DateTime, ℕ, seconds, since, pos, ltb_ℤ, any, str_eq,
  if◌then◌else◌,
}
use smart_logistics_accessib.Reporting.Enums.{
  ReportType, ReportSeverity, ReviewState, LocationProvider, RejectionReason, ScanStatus, landslide,
  bridge_collapse, flooding, high, critical,
}

pub record LocationPoint : Type 0 where
  pub longitude : Float
  pub latitude : Float
  pub accuracy_m : Float
  pub location_provider : LocationProvider
  pub altitude_m : Option Float
  pub heading_deg : Option Float
  pub speed_mps : Option Float

pub data LocationError : Type 0 where
  longitude_outside latitude_outside accuracy_not_positive accuracy_too_coarse : LocationError

-- `validate`: the error that it raises, if any
unfoldable pub validate_location : LocationPoint → Option LocationError
validate_location p =
    if not (le_float (quarters 358) p.longitude && le_float p.longitude (quarters 390))
    then some longitude_outside
    else if not (le_float (quarters 86) p.latitude && le_float p.latitude (quarters 118))
    then some latitude_outside
    else if le_float p.accuracy_m (float 0)
    then some accuracy_not_positive
    else if lt_float (float 5000) p.accuracy_m
    then some accuracy_too_coarse
    else none

unfoldable pub is_low_accuracy : LocationPoint → Bool
is_low_accuracy p = lt_float (float 500) p.accuracy_m

pub record FieldReport : Type 0 where
  pub id : Uuid
  pub reporter_id : Uuid
  pub report_type : ReportType
  pub severity : ReportSeverity
  pub description : String
  pub location : LocationPoint
  pub observed_at : DateTime
  pub received_at : DateTime
  pub created_at : DateTime
  pub review_state : ReviewState
  pub organization_id : Option Uuid
  pub jurisdiction_id : Option Uuid
  pub client_operation_id : Option String
  pub device_id : Option String
  pub app_instance_id : Option String
  pub candidate_edge_id : Option Uuid
  pub candidate_bridge_id : Option Uuid
  pub is_provisional_caution : Bool
  pub rejection_reason : Option RejectionReason
  pub rejection_notes : Option String
  pub amendment_of_report_id : Option Uuid
  pub media_ids : List Uuid
  pub version : ℕ
  pub cv_hazard_class : Option String
  pub cv_severity_score : Option Float
  pub cv_confidence : Option Float
  pub cv_is_roadway_blocked : Option Bool
  pub cv_verified_at : Option DateTime

pub record MediaObject : Type 0 where
  pub id : Uuid
  pub uploader_id : Uuid
  pub bucket : String
  pub object_key : String
  pub file_name : String
  pub file_size_bytes : ℤ
  pub mime_type : String
  pub checksum_sha256 : String
  pub scan_status : ScanStatus
  pub scan_findings : Option Document
  pub width_px : Option ℤ
  pub height_px : Option ℤ
  pub exif_lat : Option Float
  pub exif_lon : Option Float
  pub created_at : DateTime

pub record ReportAmendment : Type 0 where
  pub id : Uuid
  pub original_report_id : Uuid
  pub amendment_report_id : Uuid
  pub reason : String
  pub created_at : DateTime

-- the answer to one observation of a batch; the document `response_payload` with its fields
pub record SyncPayload : Type 0 where
  pub client_operation_id : String
  pub report_id : Uuid
  pub review_state : ReviewState
  pub is_provisional_caution : Bool

pub record SyncResult : Type 0 where
  pub id : Uuid
  pub reporter_id : Uuid
  pub client_operation_id : String
  pub status_code : ℕ
  pub response_payload : SyncPayload
  pub created_at : DateTime

-- `validate_timestamps` with its default of 900 seconds: whether it raises
unfoldable pub is_clock_skewed : FieldReport → Bool
is_clock_skewed r = ltb_ℤ (pos (seconds 900)) (since r.observed_at r.received_at)

-- more than seven days
unfoldable pub is_stale_observation : FieldReport → Bool
is_stale_observation r = ltb_ℤ (pos (seconds 604800)) (since r.received_at r.observed_at)

abbrev pub is_caution_type : ReportType → Bool
is_caution_type landslide = true
is_caution_type bridge_collapse = true
is_caution_type flooding = true
is_caution_type _ = false

abbrev pub is_caution_severity : ReportSeverity → Bool
is_caution_severity high = true
is_caution_severity critical = true
is_caution_severity _ = false

abbrev pub is_officer_role : String → Bool
is_officer_role r =
    str_eq r "FIELD_OFFICER"
    || (str_eq r "ROAD_INSPECTOR" || (str_eq r "DISASTER_MANAGER" || str_eq r "FIELD_RESPONDER"))

unfoldable pub should_auto_provisional_caution : FieldReport → List String → Bool
should_auto_provisional_caution r reporter_roles =
    if is_stale_observation r
    then false
    else if is_caution_type r.report_type && is_caution_severity r.severity
    then le_float r.location.accuracy_m (float 100) && any is_officer_role reporter_roles
    else false

abbrev caution_by_cv : Option Float → Option Bool → Float → Bool
caution_by_cv (some confidence) (some is_blocked) threshold =
    is_blocked && le_float threshold confidence
caution_by_cv _ _ threshold = false

unfoldable pub should_auto_provisional_caution_from_cv : FieldReport → Float → Bool
should_auto_provisional_caution_from_cv r threshold =
    if is_stale_observation r
    then false
    else caution_by_cv r.cv_confidence r.cv_is_roadway_blocked threshold
