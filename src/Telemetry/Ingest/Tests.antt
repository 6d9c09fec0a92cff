-- ===== src/Telemetry/Ingest/Tests.antt =====
-- Runs of the ingestion.
use smart_logistics_accessib.Base.{
  ◌≡◌, refl, Float, float, quarter, Bool, false, none, some, List, [], ◌∷◌, ok, ℕ, hours, seconds,
  here, there, In, ◌≤◌, arith, ◌+◌,
}
use smart_logistics_accessib.Logistics.Entities.{TripStop}
use smart_logistics_accessib.Telemetry.Entities.{
  Device, RawTelemetryFix, BatchIngestResult, FixResult, active, mobile_app_driver, gps_fix_3d,
  accepted, duplicate_ignored, already_processed, validate_coordinates,
}
use smart_logistics_accessib.Telemetry.Store.{
  TelemetryStore, get_replay_ledger, get_current_position, save_replay_ledger,
  upsert_current_position, save_breadcrumbs, update_device_last_seen, get_active_trip_for_vehicle,
}
use smart_logistics_accessib.Telemetry.Ingest.{ingest_telemetry, ingest_loop, ingest_fix, persist}
use smart_logistics_accessib.Telemetry.Ingest.Replay.{Ingested, ingest_ascends, replay_ignored}

abbrev phone : Device
phone = record {
  id = 1;
  organization_id = 50;
  vehicle_id = some 9;
  device_code = "P1";
  device_type = mobile_app_driver;
  api_key_hash = "h";
  status = active;
  last_seen_at = none;
  created_at = 0;
  revoked_at = none;
}

abbrev fix_of : ℕ → RawTelemetryFix
fix_of n = record {
  sequence_number = n;
  event_at = hours 2 + seconds n;
  lat = float 26;
  lon = float 92;
  speed_kph = float 40;
  heading_deg = float 10;
  altitude_m = none;
  battery_pct = none;
  fix_quality = gps_fix_3d;
}

abbrev tracked : TelemetryStore
tracked = record {
  devices = phone ∷ [];
  ledgers =
      record {
        device_id = 1;
        vehicle_id = 9;
        last_sequence_number = 5;
        last_event_at = hours 2;
        last_received_at = hours 2;
        updated_at = hours 2;
      }
      ∷ [];
  positions = [];
  breadcrumbs = [];
  trips = [];
}

abbrev near : TripStop → Float → Float → Bool
near s x y = false

abbrev new_and_old : List RawTelemetryFix
new_and_old = fix_of 7 ∷ fix_of 4 ∷ []

abbrev one_new : BatchIngestResult
one_new = record {
  device_id = 1;
  vehicle_id = 9;
  processed_count = 2;
  accepted_count = 1;
  quarantined_count = 0;
  rejected_count = 0;
  results =
      record { sequence_number = 4; outcome = duplicate_ignored; reason = some already_processed }
      ∷ record { sequence_number = 7; outcome = accepted; reason = none }
      ∷ [];
}

abbrev id_at : ℕ → ℕ
id_at n = n

takes_one :
    (s' : TelemetryStore) × (ingest_telemetry near phone 9 new_and_old false (hours 3) id_at tracked
      ≡ ok (one_new, s'))
unfolding ingest_telemetry ingest_loop ingest_fix get_replay_ledger get_current_position
    validate_coordinates quarter
takes_one = (_, refl)

ingest_ascends_example : Ingested phone new_and_old tracked one_new takes_one.0
ingest_ascends_example =
    ingest_ascends near phone 9 new_and_old false (hours 3) id_at tracked one_new takes_one.0
      takes_one.1

-- The second batch has the first one's fixes, a minute later.
abbrev nothing_new : BatchIngestResult
nothing_new = record one_new {
  accepted_count = 0;
  results =
      record { sequence_number = 4; outcome = duplicate_ignored; reason = some already_processed }
      ∷ record { sequence_number = 7; outcome = duplicate_ignored; reason = some already_processed }
      ∷ [];
}

ignores :
    (t' : TelemetryStore) × (ingest_telemetry near phone 9 new_and_old false
        (hours 3 + seconds 60)
        id_at
        takes_one.0
      ≡ ok (nothing_new, t'))
unfolding takes_one ingest_telemetry ingest_loop ingest_fix persist get_replay_ledger
    save_replay_ledger get_current_position upsert_current_position save_breadcrumbs
    update_device_last_seen validate_coordinates quarter get_active_trip_for_vehicle
ignores = (_, refl)

abbrev seventh : FixResult
seventh = record { sequence_number = 7; outcome = accepted; reason = none }

up_to_seven : (f : RawTelemetryFix) → In f new_and_old → f.sequence_number ≤ 7
up_to_seven f (here e) = rw e (omega arith)
up_to_seven f (there (here e)) = rw e (omega arith)
up_to_seven f (there (there m)) = elim m [ ]

replay_ignored_example :
    (ignores.0.breadcrumbs ≡ takes_one.0.breadcrumbs)
    × (ignores.0.positions ≡ takes_one.0.positions)
    × (nothing_new.accepted_count ≡ 0)
replay_ignored_example =
    replay_ignored near phone 9 new_and_old false (hours 3) id_at tracked one_new takes_one.0 near 9
      new_and_old false (hours 3 + seconds 60) id_at takes_one.0 nothing_new ignores.0 seventh
      takes_one.1 (there (here refl)) refl refl up_to_seven ignores.1
