-- ===== src/Telemetry/Store.antt =====
-- backend/app/modules/telemetry/infrastructure/repository.py: the tables and the queries on them.
-- `near` is PostGIS's ST_DWithin between a stop and a point.
use smart_logistics_accessib.Base.{
  Float, Bool, true, false, ◌&&◌, Option, none, some, List, [], ◌∷◌, ◌++◌, Uuid, DateTime, ◌==◌,
  ltb, find, update_where, select, if◌then◌else◌,
}
use smart_logistics_accessib.Logistics.Enums.{TripStatus, StopStatus, pending}
use smart_logistics_accessib.Logistics.Entities.{Trip, TripStop}
use smart_logistics_accessib.Telemetry.Entities.{
  Device, DeviceReplayLedger, VehicleCurrentPosition, BreadcrumbPoint,
}

pub record TelemetryStore : Type 0 where
  pub devices : List Device
  pub ledgers : List DeviceReplayLedger
  pub positions : List VehicleCurrentPosition
  pub breadcrumbs : List BreadcrumbPoint
  pub trips : List Trip

unfoldable pub update_device_last_seen : Uuid → DateTime → TelemetryStore → TelemetryStore
update_device_last_seen device_id at s = record s {
  devices =
      update_where (λ d. d.id == device_id) (λ d. record d { last_seen_at = some at }) s.devices;
}

unfoldable pub get_replay_ledger : Uuid → TelemetryStore → Option DeviceReplayLedger
get_replay_ledger device_id s = find (λ l. l.device_id == device_id) s.ledgers

-- `greatest` of the two sequence numbers
abbrev pub ledger_update : DeviceReplayLedger → DeviceReplayLedger → DeviceReplayLedger
ledger_update l old = record l {
  device_id = old.device_id;
  last_sequence_number =
      if ltb l.last_sequence_number old.last_sequence_number
      then old.last_sequence_number
      else l.last_sequence_number;
}

-- `on_conflict_do_update`
abbrev pub put_ledger :
    DeviceReplayLedger
    → Option DeviceReplayLedger
    → List DeviceReplayLedger
    → List DeviceReplayLedger
put_ledger l none ls = ls ++ l ∷ []
put_ledger l (some old) ls = update_where (λ x. x.device_id == l.device_id) (ledger_update l) ls

unfoldable pub save_replay_ledger : DeviceReplayLedger → TelemetryStore → TelemetryStore
save_replay_ledger l s = record s {
  ledgers = put_ledger l (find (λ x. x.device_id == l.device_id) s.ledgers) s.ledgers;
}

unfoldable pub get_current_position : Uuid → TelemetryStore → Option VehicleCurrentPosition
get_current_position vehicle_id s = find (λ p. p.vehicle_id == vehicle_id) s.positions

abbrev pub put_position :
    VehicleCurrentPosition
    → Option VehicleCurrentPosition
    → List VehicleCurrentPosition
    → List VehicleCurrentPosition
put_position p none ps = ps ++ p ∷ []
put_position p (some old) ps = update_where (λ x. x.vehicle_id == p.vehicle_id) (λ x. p) ps

unfoldable pub upsert_current_position : VehicleCurrentPosition → TelemetryStore → TelemetryStore
upsert_current_position p s = record s {
  positions = put_position p (find (λ x. x.vehicle_id == p.vehicle_id) s.positions) s.positions;
}

unfoldable pub save_breadcrumbs : List BreadcrumbPoint → TelemetryStore → TelemetryStore
save_breadcrumbs bs s = record s { breadcrumbs = s.breadcrumbs ++ bs }

-- `status in ["DISPATCHED", "IN_TRANSIT"]`
abbrev pub is_under_way : TripStatus → Bool
is_under_way TripStatus.dispatched = true
is_under_way TripStatus.in_transit = true
is_under_way _ = false

-- the latest by its creation, of those from the first on
abbrev pub latest : Option Trip → List Trip → Option Trip
latest best [] = best
latest none (t ∷ ts) = latest (some t) ts
latest (some b) (t ∷ ts) = latest (some (if ltb b.created_at t.created_at then t else b)) ts

abbrev pub id_of : Option Trip → Option Uuid
id_of none = none
id_of (some t) = some t.id

unfoldable pub get_active_trip_for_vehicle : Uuid → TelemetryStore → Option Uuid
get_active_trip_for_vehicle vehicle_id s =
    id_of (latest none (select (λ t. t.vehicle_id == vehicle_id && is_under_way t.status) s.trips))

abbrev pub is_pending : StopStatus → Bool
is_pending pending = true
is_pending _ = false

-- the first stop by its order, of those from the first on
abbrev pub earliest : Option TripStop → List TripStop → Option TripStop
earliest best [] = best
earliest none (t ∷ ts) = earliest (some t) ts
earliest (some b) (t ∷ ts) =
    earliest (some (if ltb t.sequence_order b.sequence_order then t else b)) ts

-- a trip that was dispatched is in transit from the first arrival on
abbrev pub departed : DateTime → TripStatus → Trip → Trip
departed at TripStatus.dispatched t = record t {
  status = TripStatus.in_transit;
  actual_departure = some at;
}
departed at _ t = t

abbrev pub arrive : DateTime → Option TripStop → Trip → Trip
arrive at none t = t
arrive at (some stop) t = departed at t.status (record t {
  stops =
      update_where (λ x. x.id == stop.id)
        (λ x. record x { status = StopStatus.arrived; actual_arrival = some at }) t.stops;
})

unfoldable pub check_and_update_stop_geofence :
    (TripStop → Float → Float → Bool)
    → Uuid
    → Float
    → Float
    → DateTime
    → TelemetryStore
    → TelemetryStore
check_and_update_stop_geofence near trip_id lat lon at s = record s {
  trips =
      update_where (λ t. t.id == trip_id)
        (λ t.
          arrive at (earliest none (select (λ x. is_pending x.status && near x lat lon) t.stops)) t)
        s.trips;
}
