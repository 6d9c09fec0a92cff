-- ===== src/Telemetry/Ingest.antt =====
-- backend/app/modules/telemetry/application/ingest_telemetry.py
-- A raised error leaves the tables as they were: the request's transaction ends without a commit.
-- `near` is PostGIS's ST_DWithin; fresh identifiers and the clock are arguments.
pub mod Ledger
pub mod Replay
mod Tests
use smart_logistics_accessib.Base.{
  Float, float, lt_float, Bool, true, false, ◌&&◌, ◌||◌, not, Option, none, some, List, [], ◌∷◌,
  ◌++◌, Uuid, DateTime, ℕ, ◌==◌, ltb, leb, seconds, since, pos, ltb_ℤ, count_if, length,
  if◌then◌else◌, Result, ok, err, ◌>>=◌, ◌>>◌, raise_if,
}
use smart_logistics_accessib.Logistics.Entities.{TripStop}
use smart_logistics_accessib.Telemetry.Entities.{
  Device, DeviceType, RawTelemetryFix, DeviceReplayLedger, VehicleCurrentPosition, BreadcrumbPoint,
  FixResult, FixOutcome, FixReason, BatchIngestResult, labeled_simulator_replay, accepted,
  duplicate_ignored, accepted_with_anomaly, quarantined, rejected, impossible_coordinates,
  future_clock_skew, already_processed, clock_anomaly, speed_anomaly, validate_coordinates,
  get_source_rank,
}
use smart_logistics_accessib.Telemetry.Store.{
  TelemetryStore, get_replay_ledger, get_current_position, get_active_trip_for_vehicle,
  save_replay_ledger, upsert_current_position, save_breadcrumbs, update_device_last_seen,
  check_and_update_stop_geofence,
}

pub data IngestError : Type 0 where
  device_not_assigned device_vehicle_mismatch : IngestError

-- what is fixed for a batch; `new_id` by the sequence number of the fix
pub record Batch : Type 0 where
  pub device : Device
  pub vehicle_id : Uuid
  pub is_simulated : Bool
  pub now : DateTime
  pub active_trip_id : Option Uuid
  pub new_id : ℕ → Uuid

-- what the loop keeps; `last_seq` is none where the code has -1
pub record Progress : Type 0 where
  pub last_seq : Option ℕ
  pub last_event_at : Option DateTime
  pub results : List FixResult
  pub breadcrumbs : List BreadcrumbPoint
  pub candidate : Option VehicleCurrentPosition

abbrev pub is_simulator : DeviceType → Bool
is_simulator labeled_simulator_replay = true
is_simulator _ = false

abbrev pub breadcrumb_of : Batch → RawTelemetryFix → Bool → BreadcrumbPoint
breadcrumb_of b f is_anomalous = record {
  id = b.new_id f.sequence_number;
  vehicle_id = b.vehicle_id;
  device_id = some b.device.id;
  trip_id = b.active_trip_id;
  lat = f.lat;
  lon = f.lon;
  event_at = f.event_at;
  received_at = b.now;
  sequence_number = some f.sequence_number;
  speed_kph = f.speed_kph;
  heading_deg = f.heading_deg;
  fix_quality = f.fix_quality;
  source_type = b.device.device_type;
  is_anomalous_speed = is_anomalous;
  is_simulated = b.is_simulated || is_simulator b.device.device_type;
  created_at = b.now;
}

abbrev pub position_of : Batch → RawTelemetryFix → VehicleCurrentPosition
position_of b f = record {
  vehicle_id = b.vehicle_id;
  device_id = some b.device.id;
  active_trip_id = b.active_trip_id;
  lat = f.lat;
  lon = f.lon;
  event_at = f.event_at;
  received_at = b.now;
  speed_kph = f.speed_kph;
  heading_deg = f.heading_deg;
  altitude_m = f.altitude_m;
  battery_pct = f.battery_pct;
  fix_quality = f.fix_quality;
  source_type = b.device.device_type;
  source_rank = get_source_rank b.device.device_type;
  snapped_edge_id = none;
  is_simulated = b.is_simulated || is_simulator b.device.device_type;
  updated_at = b.now;
}

-- `last_seq >= 0 and fix.sequence_number <= last_seq`
abbrev pub is_replayed : Option ℕ → ℕ → Bool
is_replayed none n = false
is_replayed (some last) n = leb n last

-- the timestamp went back by more than an hour
abbrev pub went_back : Option DateTime → DateTime → Bool
went_back none at = false
went_back (some last) at = ltb_ℤ (pos (seconds 3600)) (since last at)

abbrev pub can_update_pos : Batch → RawTelemetryFix → Option VehicleCurrentPosition → Bool
can_update_pos b f none = true
can_update_pos b f (some p) =
    ltb p.event_at f.event_at
    && (leb (get_source_rank b.device.device_type) p.source_rank
        || ltb_ℤ (pos (seconds 60)) (since b.now p.event_at))

abbrev pub candidate_after :
    Batch → RawTelemetryFix → Bool → Option VehicleCurrentPosition → Option VehicleCurrentPosition
candidate_after b f is_anomalous p =
    if not is_anomalous && can_update_pos b f p then some (position_of b f) else p

abbrev pub noted : RawTelemetryFix → FixOutcome → Option FixReason → Progress → Progress
noted f outcome reason g = record g {
  results =
      g.results
      ++ record { sequence_number = f.sequence_number; outcome = outcome; reason = reason } ∷ [];
}

abbrev pub taken : Batch → RawTelemetryFix → Bool → Progress → Progress
taken b f is_anomalous g =
    record (noted f (if is_anomalous then accepted_with_anomaly else accepted)
      (if is_anomalous then some speed_anomaly else none) g) {
        last_seq = some f.sequence_number;
        last_event_at = some f.event_at;
        breadcrumbs = g.breadcrumbs ++ breadcrumb_of b f is_anomalous ∷ [];
        candidate = candidate_after b f is_anomalous g.candidate;
      }

-- the body of the loop
unfoldable pub ingest_fix : Batch → RawTelemetryFix → Progress → Progress
ingest_fix b f g =
    if not (validate_coordinates f.lat f.lon f.heading_deg f.speed_kph)
    then noted f quarantined (some impossible_coordinates) g
    else if ltb_ℤ (pos (seconds 900)) (since f.event_at b.now)
    then noted f quarantined (some future_clock_skew) g
    else if is_replayed g.last_seq f.sequence_number
    then noted f duplicate_ignored (some already_processed) g
    else if went_back g.last_event_at f.event_at
    then noted f quarantined (some clock_anomaly) g
    else taken b f (lt_float (float 140) f.speed_kph) g

abbrev pub ingest_all : Batch → List RawTelemetryFix → Progress → Progress
ingest_all b [] g = g
ingest_all b (f ∷ fs) g = ingest_all b fs (ingest_fix b f g)

-- `sorted(fixes, key=...)`: fixes with one number keep their order
abbrev pub insert_fix : RawTelemetryFix → List RawTelemetryFix → List RawTelemetryFix
insert_fix f [] = f ∷ []
insert_fix f (x ∷ xs) =
    let rest = insert_fix f xs in
    if leb f.sequence_number x.sequence_number then f ∷ x ∷ xs else x ∷ rest

abbrev pub sort_fixes : List RawTelemetryFix → List RawTelemetryFix
sort_fixes [] = []
sort_fixes (f ∷ fs) = insert_fix f (sort_fixes fs)

abbrev pub start : Option DeviceReplayLedger → Option VehicleCurrentPosition → Progress
start ledger p = record {
  last_seq = elim ledger [ none ↦ none | some l ↦ some l.last_sequence_number ];
  last_event_at = elim ledger [ none ↦ none | some l ↦ some l.last_event_at ];
  results = [];
  breadcrumbs = [];
  candidate = p;
}

-- step 3, one call after the other
abbrev pub persist_ledger : Batch → Option ℕ → Option DateTime → TelemetryStore → TelemetryStore
persist_ledger b (some last) (some at) s =
    save_replay_ledger
      (record {
        device_id = b.device.id;
        vehicle_id = b.vehicle_id;
        last_sequence_number = last;
        last_event_at = at;
        last_received_at = b.now;
        updated_at = b.now;
      })
      s
persist_ledger b _ _ s = s

abbrev pub is_later : VehicleCurrentPosition → Option VehicleCurrentPosition → Bool
is_later c none = true
is_later c (some p) = ltb p.event_at c.event_at

abbrev pub persist_position :
    Option VehicleCurrentPosition → Option VehicleCurrentPosition → TelemetryStore → TelemetryStore
persist_position none current s = s
persist_position (some c) current s = if is_later c current then upsert_current_position c s else s

abbrev pub persist_breadcrumbs : List BreadcrumbPoint → TelemetryStore → TelemetryStore
persist_breadcrumbs [] s = s
persist_breadcrumbs (b ∷ bs) s = save_breadcrumbs (b ∷ bs) s

-- step 4
abbrev pub geofence :
    (TripStop → Float → Float → Bool)
    → Option Uuid
    → Option VehicleCurrentPosition
    → TelemetryStore
    → TelemetryStore
geofence near (some trip) (some c) s =
    if not c.is_simulated
    then check_and_update_stop_geofence near trip c.lat c.lon c.event_at s
    else s
geofence near _ _ s = s

abbrev pub is_accepted : FixOutcome → Bool
is_accepted accepted = true
is_accepted accepted_with_anomaly = true
is_accepted _ = false

abbrev pub is_quarantined : FixOutcome → Bool
is_quarantined quarantined = true
is_quarantined _ = false

abbrev pub is_rejected : FixOutcome → Bool
is_rejected rejected = true
is_rejected _ = false

abbrev pub batch_result : Batch → List FixResult → BatchIngestResult
batch_result b rs = record {
  device_id = b.device.id;
  vehicle_id = b.vehicle_id;
  processed_count = length rs;
  accepted_count = count_if (λ r. is_accepted r.outcome) rs;
  quarantined_count = count_if (λ r. is_quarantined r.outcome) rs;
  rejected_count = count_if (λ r. is_rejected r.outcome) rs;
  results = rs;
}

-- `device.vehicle_id`, which must be the vehicle of the batch
abbrev pub assigned : Option Uuid → Uuid → Result IngestError (Unit {0})
assigned none vehicle_id = err device_not_assigned
assigned (some v) vehicle_id = raise_if (not (v == vehicle_id)) device_vehicle_mismatch

abbrev pub batch_of : Device → Uuid → Bool → DateTime → (ℕ → Uuid) → TelemetryStore → Batch
batch_of device vehicle_id is_simulated now new_id s = record {
  device = device;
  vehicle_id = vehicle_id;
  is_simulated = is_simulated;
  now = now;
  active_trip_id = get_active_trip_for_vehicle vehicle_id s;
  new_id = new_id;
}

-- the loop over the sorted fixes
unfoldable pub ingest_loop : Batch → List RawTelemetryFix → TelemetryStore → Progress
ingest_loop b fixes s =
    ingest_all b (sort_fixes fixes)
      (start (get_replay_ledger b.device.id s) (get_current_position b.vehicle_id s))

unfoldable pub persist :
    (TripStop → Float → Float → Bool) → Batch → Progress → TelemetryStore → TelemetryStore
persist near b g s = geofence near b.active_trip_id g.candidate (
    update_device_last_seen b.device.id b.now (
      persist_breadcrumbs g.breadcrumbs (
        persist_position g.candidate (get_current_position b.vehicle_id s)
          (persist_ledger b g.last_seq g.last_event_at s))))

-- IngestTelemetryUseCase.execute
pub ingest_telemetry :
    (TripStop → Float → Float → Bool)
    → Device
    → Uuid
    → List RawTelemetryFix
    → Bool
    → DateTime
    → (ℕ → Uuid)
    → TelemetryStore
    → Result IngestError (BatchIngestResult × TelemetryStore)
ingest_telemetry near device vehicle_id fixes is_simulated now new_id s = do
  assigned device.vehicle_id vehicle_id
  let b = batch_of device vehicle_id is_simulated now new_id s
  let g = ingest_loop b fixes s
  ok (batch_result b g.results, persist near b g s)
