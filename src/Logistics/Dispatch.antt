-- ===== src/Logistics/Dispatch.antt =====
-- backend/app/modules/logistics/application/{dispatch_trip,update_trip_status}.py
-- A raised error leaves the tables as they were: the request's transaction ends without a commit.
-- The addition of floats, the cleaning of the trip code (`strip` and `upper` of Python's str), fresh
-- identifiers and the clock are arguments.
pub mod Checked
pub mod Exclusive
pub mod Diverted
mod Tests
use smart_logistics_accessib.Base.{
  String, Float, float, lt_float, Bool, true, false, ◌&&◌, ◌||◌, not, Option, none, some, List, [],
  ◌∷◌, Uuid, DateTime, ℕ, ◌+◌, Result, ok, err, ◌>>=◌, ◌>>◌, raise_if,
}
use smart_logistics_accessib.Logistics.Enums.{
  CargoCategory, StopType, TripStatus, StopStatus, oxygen_cylinders, cold_chain_vaccines,
}
use smart_logistics_accessib.Logistics.Entities.{
  Vehicle, Driver, DeliveryCommitment, TripStop, Trip,
}
use smart_logistics_accessib.Logistics.Rules.{validate_trip_state_transition}
use smart_logistics_accessib.Logistics.Store.{
  LogisticsStore, get_vehicle_by_id, get_driver_by_id, get_commitment_by_id, get_trip_by_id,
  is_vehicle_dispatched, is_driver_dispatched, save_trip, update_trip_status,
}

pub data LogisticsError : Type 0 where
  vehicle_not_found driver_not_found commitment_not_found : LogisticsError
  vehicle_already_dispatched driver_already_dispatched : LogisticsError
  capacity_exceeded hazmat_incapable not_refrigerated : LogisticsError
  trip_not_found invalid_transition : LogisticsError

-- an entry of `stops_data`
pub record StopData : Type 0 where
  pub stop_type : StopType
  pub facility_id : Option Uuid
  pub lat : Float
  pub lon : Float
  pub planned_arrival : DateTime
  pub planned_departure : DateTime

-- what a dispatch request names, and what the surroundings give it
pub record DispatchRequest : Type 0 where
  pub organization_id : Uuid
  pub vehicle_id : Uuid
  pub driver_id : Uuid
  pub trip_code : String
  pub scheduled_departure : DateTime
  pub stops_data : List StopData
  pub commitment_ids : List Uuid
  pub current_route_snapshot_id : Option Uuid

pub record Surroundings : Type 0 where
  pub plus : Float → Float → Float
  pub clean_code : String → String
  pub now : DateTime
  pub new_trip_id : Uuid
  pub new_stop_id : ℕ → Uuid

-- `x is None or not x.is_active`
abbrev active_vehicle : Option Vehicle → Result LogisticsError Vehicle
active_vehicle none = err vehicle_not_found
active_vehicle (some v) = raise_if (not v.is_active) vehicle_not_found >> ok v

abbrev active_driver : Option Driver → Result LogisticsError Driver
active_driver none = err driver_not_found
active_driver (some d) = raise_if (not d.is_active) driver_not_found >> ok d

-- what the loop of step 4 gathers
pub record Load : Type 0 where
  pub total_weight : Float
  pub has_hazmat : Bool
  pub has_cold_chain : Bool

add_cargo : (Float → Float → Float) → CargoCategory → Float → Load → Load
add_cargo plus oxygen_cylinders w l = record l {
  total_weight = plus l.total_weight w;
  has_hazmat = true;
}
add_cargo plus cold_chain_vaccines w l = record l {
  total_weight = plus l.total_weight w;
  has_cold_chain = true;
}
add_cargo plus _ w l = record l { total_weight = plus l.total_weight w }

abbrev known_commitment : Option DeliveryCommitment → Result LogisticsError DeliveryCommitment
known_commitment none = err commitment_not_found
known_commitment (some c) = ok c

-- the loop of step 4
pub gather :
    (Float → Float → Float) → LogisticsStore → List Uuid → Load → Result LogisticsError Load
gather plus s [] l = ok l
gather plus s (id ∷ ids) l = do
  c ← known_commitment (get_commitment_by_id id s)
  gather plus s ids (add_cargo plus c.cargo_category c.consigned_weight_kg l)

abbrev empty_load : Load
empty_load = record { total_weight = float 0; has_hazmat = false; has_cold_chain = false }

-- `enumerate(stops_data)`, from the index on
build_stops : (ℕ → Uuid) → Uuid → ℕ → List StopData → List TripStop
build_stops new_id trip_id idx [] = []
build_stops new_id trip_id idx (s ∷ ss) =
    record {
      id = new_id idx;
      trip_id = trip_id;
      sequence_order = idx + 1;
      stop_type = s.stop_type;
      facility_id = s.facility_id;
      lat = s.lat;
      lon = s.lon;
      planned_arrival = s.planned_arrival;
      planned_departure = s.planned_departure;
      actual_arrival = none;
      actual_departure = none;
      status = StopStatus.pending;
    }
    ∷ build_stops new_id trip_id (idx + 1) ss

-- step 5
pub build_trip : Surroundings → DispatchRequest → Trip
build_trip env req = record {
  id = env.new_trip_id;
  organization_id = req.organization_id;
  vehicle_id = req.vehicle_id;
  driver_id = req.driver_id;
  trip_code = env.clean_code req.trip_code;
  status = TripStatus.dispatched;
  current_route_snapshot_id = req.current_route_snapshot_id;
  scheduled_departure = req.scheduled_departure;
  actual_departure = none;
  actual_arrival = none;
  created_at = env.now;
  updated_at = env.now;
  stops = build_stops env.new_stop_id env.new_trip_id 0 req.stops_data;
  commitment_ids = req.commitment_ids;
}

-- DispatchTripUseCase.execute
pub dispatch_trip :
    Surroundings → DispatchRequest → LogisticsStore → Result LogisticsError (Trip × LogisticsStore)
dispatch_trip env req s = do
  vehicle ← active_vehicle (get_vehicle_by_id req.vehicle_id s)
  driver ← active_driver (get_driver_by_id req.driver_id s)
  raise_if (is_vehicle_dispatched req.vehicle_id s) vehicle_already_dispatched
  raise_if (is_driver_dispatched req.driver_id s) driver_already_dispatched
  load ← gather env.plus s req.commitment_ids empty_load
  raise_if (lt_float vehicle.max_weight_kg load.total_weight) capacity_exceeded
  raise_if (load.has_hazmat && not vehicle.is_hazmat_capable) hazmat_incapable
  raise_if (load.has_cold_chain && not vehicle.is_refrigerated) not_refrigerated
  ok (build_trip env req, save_trip (build_trip env req) s)

abbrev known_trip : Option Trip → Result LogisticsError Trip
known_trip none = err trip_not_found
known_trip (some t) = ok t

-- UpdateTripStatusUseCase.execute
pub update_trip_status_use_case :
    DateTime → Uuid → TripStatus → LogisticsStore → Result LogisticsError LogisticsStore
update_trip_status_use_case now trip_id target s = do
  trip ← known_trip (get_trip_by_id trip_id s)
  raise_if (not (validate_trip_state_transition trip.status target)) invalid_transition
  ok (update_trip_status trip_id target now s)
