-- ===== src/Telemetry/Entities.antt =====
-- backend/app/modules/telemetry/domain/{enums,entities}.py
-- A sequence number is not negative: the request's schema refuses others.
use smart_logistics_accessib.Base.{
  String, Float, float, lt_float, le_float, minus, is_nan, is_inf, Bool, ◌&&◌, ◌||◌, not, Option,
  List, [], ◌∷◌, Uuid, DateTime, ℕ, any, seconds, since, pos, ltb_ℤ, if◌then◌else◌,
}

pub data DeviceStatus : Type 0 where
  active suspended revoked : DeviceStatus

pub data DeviceType : Type 0 where
  hardware_obd_cellular external_gps_gateway mobile_app_driver labeled_simulator_replay : DeviceType

pub data FixQuality : Type 0 where
  gps_fix_3d gps_fix_2d cell_tower_triangulated manual_checkin simulated_replay : FixQuality

pub data StaleStatus : Type 0 where
  fresh aging stale_warning feed_offline : StaleStatus

pub data FixOutcome : Type 0 where
  accepted duplicate_ignored accepted_with_anomaly quarantined rejected : FixOutcome

pub record Device : Type 0 where
  pub id : Uuid
  pub organization_id : Uuid
  pub vehicle_id : Option Uuid
  pub device_code : String
  pub device_type : DeviceType
  pub api_key_hash : String
  pub status : DeviceStatus
  pub last_seen_at : Option DateTime
  pub created_at : DateTime
  pub revoked_at : Option DateTime

pub record RawTelemetryFix : Type 0 where
  pub sequence_number : ℕ
  pub event_at : DateTime
  pub lat : Float
  pub lon : Float
  pub speed_kph : Float
  pub heading_deg : Float
  pub altitude_m : Option Float
  pub battery_pct : Option Float
  pub fix_quality : FixQuality

pub record DeviceReplayLedger : Type 0 where
  pub device_id : Uuid
  pub vehicle_id : Uuid
  pub last_sequence_number : ℕ
  pub last_event_at : DateTime
  pub last_received_at : DateTime
  pub updated_at : DateTime

pub record VehicleCurrentPosition : Type 0 where
  pub vehicle_id : Uuid
  pub device_id : Option Uuid
  pub active_trip_id : Option Uuid
  pub lat : Float
  pub lon : Float
  pub event_at : DateTime
  pub received_at : DateTime
  pub speed_kph : Float
  pub heading_deg : Float
  pub altitude_m : Option Float
  pub battery_pct : Option Float
  pub fix_quality : FixQuality
  pub source_type : DeviceType
  pub source_rank : ℕ
  pub snapped_edge_id : Option Uuid
  pub is_simulated : Bool
  pub updated_at : DateTime

pub record BreadcrumbPoint : Type 0 where
  pub id : Uuid
  pub vehicle_id : Uuid
  pub device_id : Option Uuid
  pub trip_id : Option Uuid
  pub lat : Float
  pub lon : Float
  pub event_at : DateTime
  pub received_at : DateTime
  pub sequence_number : Option ℕ
  pub speed_kph : Float
  pub heading_deg : Float
  pub fix_quality : FixQuality
  pub source_type : DeviceType
  pub is_anomalous_speed : Bool
  pub is_simulated : Bool
  pub created_at : DateTime

-- The texts that a result gives as its reason.
pub data FixReason : Type 0 where
  impossible_coordinates future_clock_skew already_processed clock_anomaly speed_anomaly : FixReason

pub record FixResult : Type 0 where
  pub sequence_number : ℕ
  pub outcome : FixOutcome
  pub reason : Option FixReason

pub record BatchIngestResult : Type 0 where
  pub device_id : Uuid
  pub vehicle_id : Uuid
  pub processed_count : ℕ
  pub accepted_count : ℕ
  pub quarantined_count : ℕ
  pub rejected_count : ℕ
  pub results : List FixResult

pub derive_stale_status : DateTime → DateTime → StaleStatus
derive_stale_status event_at now =
    if ltb_ℤ (since now event_at) (pos 0)
    then fresh
    else if ltb_ℤ (since now event_at) (pos (seconds 300))
    then fresh
    else if ltb_ℤ (since now event_at) (pos (seconds 900))
    then aging
    else if ltb_ℤ (since now event_at) (pos (seconds 3600))
    then stale_warning
    else feed_offline

-- whether a float lies between -n and n
abbrev pub within : ℕ → Float → Bool
within n x = le_float (minus n) x && le_float x (float n)

unfoldable pub validate_coordinates : Float → Float → Float → Float → Bool
validate_coordinates lat lon heading speed =
    not (any (λ v. is_nan v || is_inf v) (lat ∷ lon ∷ heading ∷ speed ∷ []))
    && (within 90 lat
        && (within 180 lon
            && (le_float (float 0) heading
                && lt_float heading (float 360)
                && not (lt_float speed (float 0)))))

unfoldable pub get_source_rank : DeviceType → ℕ
get_source_rank hardware_obd_cellular = 1
get_source_rank external_gps_gateway = 2
get_source_rank mobile_app_driver = 3
get_source_rank labeled_simulator_replay = 4
