-- ===== src/Reporting/Sync.antt =====
-- backend/app/modules/reporting/application/sync_reports.py: batches from phones that were offline.
-- An observation is a JSON object: a key that may be missing is an Option. The reading of an
-- instant and of a UUID from a text (an instant without an offset is one of UTC), and what a
-- submission takes from its surroundings, are arguments. A savepoint undoes what a failed
-- observation wrote.
pub mod Retried
mod Tests
use smart_logistics_accessib.Base.{
  String, str_eq, Float, Bool, true, false, Option, none, some, List, [], ◌∷◌, ◌++◌, Uuid, DateTime,
  ℕ, ◌+◌, ltb, length, if◌then◌else◌, Result, ok, err, ◌>>=◌, ◌>>◌, raise_if,
}
use smart_logistics_accessib.Identity.Principal.{PrincipalContext}
use smart_logistics_accessib.Reporting.Enums.{
  ReportType, ReportSeverity, LocationProvider, landslide, flooding, road_damage, bridge_collapse,
  tree_fall, weather_hazard, security_incident, low, medium, high, critical, gps_hardware,
  network_coarse, manual_map_pick,
}
use smart_logistics_accessib.Reporting.Entities.{
  LocationPoint, FieldReport, SyncPayload, SyncResult,
}
use smart_logistics_accessib.Reporting.Store.{ReportingStore, get_sync_result, save_sync_result}
use smart_logistics_accessib.Reporting.Submission.{
  SubmissionStore, SubmissionError, Observation, SubmissionSurroundings, invalid_location,
  duplicate_operation, media_not_found, media_scan_not_clean, clock_skew, submit_field_report,
}

pub record LocationData : Type 0 where
  pub longitude : Option Float
  pub latitude : Option Float
  pub accuracy_m : Option Float
  pub location_provider : Option String
  pub altitude_m : Option Float

pub record SyncItem : Type 0 where
  pub client_operation_id : Option String
  pub location : Option LocationData
  pub observed_at : Option String
  pub media_ids : Option (List String)
  pub candidate_edge_id : Option String
  pub candidate_bridge_id : Option String
  pub report_type : Option String
  pub severity : Option String
  pub description : Option String
  pub device_id : Option String
  pub app_instance_id : Option String

-- KeyError, ValueError, and what the submission raises
pub data SyncError : Type 0 where
  key_missing value_refused : SyncError
  refused_by : SubmissionError → SyncError

-- `uuid.uuid4()` for an observation without an identifier, and for its stored answer
pub record SyncSurroundings : Type 0 where
  pub to_uuid : String → Option Uuid
  pub to_instant : String → Option DateTime
  pub submission : SubmissionSurroundings
  pub generated_operation_id : String
  pub sync_result_id : Uuid
  pub saved_at : DateTime

-- `item["key"]`
abbrev pub required {ℓ} : {A : Type ℓ} → Option A → Result SyncError A
required none = err key_missing
required (some a) = ok a

-- a conversion that may raise ValueError
abbrev pub converted {ℓ} : {A : Type ℓ} → Option A → Result SyncError A
converted none = err value_refused
converted (some a) = ok a

abbrev pub report_type_of : String → Option ReportType
report_type_of t =
    if str_eq t "LANDSLIDE"
    then some landslide
    else if str_eq t "FLOODING"
    then some flooding
    else if str_eq t "ROAD_DAMAGE"
    then some road_damage
    else if str_eq t "BRIDGE_COLLAPSE"
    then some bridge_collapse
    else if str_eq t "TREE_FALL"
    then some tree_fall
    else if str_eq t "WEATHER_HAZARD"
    then some weather_hazard
    else if str_eq t "SECURITY_INCIDENT"
    then some security_incident
    else if str_eq t "OTHER"
    then some ReportType.other
    else none

abbrev pub severity_of : String → Option ReportSeverity
severity_of t =
    if str_eq t "LOW"
    then some low
    else if str_eq t "MEDIUM"
    then some medium
    else if str_eq t "HIGH"
    then some high
    else if str_eq t "CRITICAL"
    then some critical
    else none

abbrev pub provider_of : String → Option LocationProvider
provider_of t =
    if str_eq t "GPS_HARDWARE"
    then some gps_hardware
    else if str_eq t "NETWORK_COARSE"
    then some network_coarse
    else if str_eq t "MANUAL_MAP_PICK"
    then some manual_map_pick
    else none

-- `get("location_provider", "GPS_HARDWARE")`
abbrev pub provider_text : Option String → String
provider_text none = "GPS_HARDWARE"
provider_text (some t) = t

pub location_of : LocationData → Result SyncError LocationPoint
location_of d = do
  longitude ← required d.longitude
  latitude ← required d.latitude
  accuracy_m ← required d.accuracy_m
  provider ← converted (provider_of (provider_text d.location_provider))
  ok (record {
    longitude = longitude;
    latitude = latitude;
    accuracy_m = accuracy_m;
    location_provider = provider;
    altitude_m = d.altitude_m;
    heading_deg = none;
    speed_mps = none;
  })

-- `[UUID(m) for m in ...]`
abbrev pub uuids_of : (String → Option Uuid) → List String → Result SyncError (List Uuid)
uuids_of to_uuid [] = ok []
uuids_of to_uuid (t ∷ ts) =
    converted (to_uuid t) >>= λ id. uuids_of to_uuid ts >>= λ ids. ok (id ∷ ids)

abbrev pub media_texts : Option (List String) → List String
media_texts none = []
media_texts (some ts) = ts

-- `UUID(item[key]) if item.get(key) else None`
abbrev pub optional_uuid : (String → Option Uuid) → Option String → Result SyncError (Option Uuid)
optional_uuid to_uuid none = ok none
optional_uuid to_uuid (some t) =
    if str_eq t "" then ok none else (converted (to_uuid t) >>= λ id. ok (some id))

-- `a or b` of two texts that may be missing
abbrev pub or_text : Option String → Option String → Option String
or_text none b = b
or_text (some t) b = if str_eq t "" then b else some t

-- what is read of an observation before it is submitted
pub observation_of :
    SyncSurroundings
    → Option String
    → Option String
    → String
    → SyncItem
    → Result SyncError Observation
observation_of env device_id app_instance_id op item = do
  place ← required item.location
  location ← location_of place
  observed ← required item.observed_at
  observed_at ← converted (env.to_instant observed)
  media_ids ← uuids_of env.to_uuid (media_texts item.media_ids)
  edge ← optional_uuid env.to_uuid item.candidate_edge_id
  bridge ← optional_uuid env.to_uuid item.candidate_bridge_id
  type_text ← required item.report_type
  report_type ← converted (report_type_of type_text)
  severity_text ← required item.severity
  severity ← converted (severity_of severity_text)
  description ← required item.description
  ok (record {
    report_type = report_type;
    severity = severity;
    description = description;
    location = location;
    observed_at = observed_at;
    client_operation_id = some op;
    device_id = or_text device_id item.device_id;
    app_instance_id = or_text app_instance_id item.app_instance_id;
    media_ids = media_ids;
    candidate_edge_id = edge;
    candidate_bridge_id = bridge;
  })

abbrev pub submitted_by :
    Result SubmissionError (FieldReport × SubmissionStore)
    → Result SyncError (FieldReport × SubmissionStore)
submitted_by (err e) = err (refused_by e)
submitted_by (ok x) = ok x

abbrev pub payload_of : String → FieldReport → SyncPayload
payload_of op r = record {
  client_operation_id = op;
  report_id = r.id;
  review_state = r.review_state;
  is_provisional_caution = r.is_provisional_caution;
}

abbrev pub result_of : SyncSurroundings → Uuid → SyncPayload → SyncResult
result_of env reporter_id payload = record {
  id = env.sync_result_id;
  reporter_id = reporter_id;
  client_operation_id = payload.client_operation_id;
  status_code = 201;
  response_payload = payload;
  created_at = env.saved_at;
}

abbrev pub saved :
    SyncSurroundings
    → PrincipalContext
    → String
    → FieldReport × SubmissionStore
    → SyncPayload × SubmissionStore
saved env p op (r, s) =
    let payload = payload_of op r in
    (
      payload,
      record s { reporting = save_sync_result (result_of env p.user_id payload) s.reporting },
    )

-- what runs within the savepoint
pub submit_item :
    SyncSurroundings
    → PrincipalContext
    → Option String
    → Option String
    → String
    → SyncItem
    → SubmissionStore
    → Result SyncError (SyncPayload × SubmissionStore)
submit_item env p device_id app_instance_id op item s = do
  o ← observation_of env device_id app_instance_id op item
  x ← submitted_by (submit_field_report env.submission p o s)
  ok (saved env p op x)

abbrev pub operation_id : Option String → String → String
operation_id none generated = generated
operation_id (some op) generated = if str_eq op "" then generated else op

pub record SyncFailure : Type 0 where
  pub client_operation_id : String
  pub error : SyncError

pub data Answer : Type 0 where
  succeeded : SyncPayload → Answer
  failed : SyncFailure → Answer

-- what comes of the savepoint: a failure keeps the tables of before
abbrev pub settled :
    String
    → Result SyncError (SyncPayload × SubmissionStore)
    → SubmissionStore
    → Answer × SubmissionStore
settled op (err e) s = (failed (record { client_operation_id = op; error = e }), s)
settled op (ok (payload, s')) s = (succeeded payload, s')

abbrev pub answered :
    Option SyncResult
    → String
    → Result SyncError (SyncPayload × SubmissionStore)
    → SubmissionStore
    → Answer × SubmissionStore
answered (some cached) op attempt s = (succeeded cached.response_payload, s)
answered none op attempt s = settled op attempt s

-- the body of the loop
unfoldable pub sync_item :
    SyncSurroundings
    → PrincipalContext
    → Option String
    → Option String
    → SyncItem
    → SubmissionStore
    → Answer × SubmissionStore
sync_item env p device_id app_instance_id item s =
    let op = operation_id item.client_operation_id env.generated_operation_id in
    answered (get_sync_result p.user_id op s.reporting) op
      (submit_item env p device_id app_instance_id op item s) s

-- `status_code` and `error_code` of a failure
pub status_of : SyncError → ℕ
status_of key_missing = 400
status_of value_refused = 400
status_of (refused_by (invalid_location e)) = 400
status_of (refused_by duplicate_operation) = 409
status_of (refused_by media_not_found) = 404
status_of (refused_by media_scan_not_clean) = 409
status_of (refused_by clock_skew) = 400

pub error_code_of : SyncError → String
error_code_of key_missing = "SUBMISSION_FAILED"
error_code_of value_refused = "SUBMISSION_FAILED"
error_code_of (refused_by (invalid_location e)) = "SUBMISSION_FAILED"
error_code_of (refused_by duplicate_operation) = "IDEMPOTENCY_PAYLOAD_MISMATCH"
error_code_of (refused_by media_not_found) = "MEDIA_NOT_FOUND"
error_code_of (refused_by media_scan_not_clean) = "MEDIA_SCAN_PENDING_OR_REJECTED"
error_code_of (refused_by clock_skew) = "CLOCK_SKEW_ANOMALY"

pub record SyncResponse : Type 0 where
  pub total_submitted : ℕ
  pub succeeded_count : ℕ
  pub failed_count : ℕ
  pub succeeded_items : List SyncPayload
  pub failed_items : List SyncFailure

-- the two lists that the loop fills
abbrev pub filed :
    Answer → List SyncPayload × List SyncFailure → List SyncPayload × List SyncFailure
filed (succeeded x) (good, bad) = (good ++ x ∷ [], bad)
filed (failed x) (good, bad) = (good, bad ++ x ∷ [])

-- the surroundings by the place of the observation in the batch
pub sync_loop :
    (ℕ → SyncSurroundings)
    → PrincipalContext
    → Option String
    → Option String
    → ℕ
    → List SyncItem
    → List SyncPayload × List SyncFailure
    → SubmissionStore
    → (List SyncPayload × List SyncFailure) × SubmissionStore
sync_loop env p device_id app_instance_id n [] acc s = (acc, s)
sync_loop env p device_id app_instance_id n (item ∷ items) acc s =
    let (answer, s') = sync_item (env n) p device_id app_instance_id item s in
    sync_loop env p device_id app_instance_id (n + 1) items (filed answer acc) s'

pub data BatchError : Type 0 where
  batch_size_exceeded : BatchError

abbrev pub response_of : ℕ → List SyncPayload × List SyncFailure → SyncResponse
response_of n (good, bad) = record {
  total_submitted = n;
  succeeded_count = length good;
  failed_count = length bad;
  succeeded_items = good;
  failed_items = bad;
}

-- SyncReportsBatchUseCase.execute
pub sync_reports :
    (ℕ → SyncSurroundings)
    → PrincipalContext
    → List SyncItem
    → Option String
    → Option String
    → SubmissionStore
    → Result BatchError (SyncResponse × SubmissionStore)
sync_reports env p items device_id app_instance_id s = do
  raise_if (ltb 50 (length items)) batch_size_exceeded
  let (acc, s') = sync_loop env p device_id app_instance_id 0 items ([], []) s
  ok (response_of (length items) acc, s')
