-- ===== src/Logistics/Samples.antt =====
-- Rows that the tests of the logistics module share.
use smart_logistics_accessib.Base.{float, none, true, false, [], ◌∷◌, hours, Float, ℕ}
use smart_logistics_accessib.Logistics.Enums.{
  TripStatus, DeliveryStatus, truck_medium, oxygen_cylinders, tier_1_life_saving, diverted,
}
use smart_logistics_accessib.Logistics.Entities.{Vehicle, Driver, DeliveryCommitment, Trip}
use smart_logistics_accessib.Logistics.Store.{LogisticsStore}
use smart_logistics_accessib.Logistics.Dispatch.{DispatchRequest, Surroundings}

abbrev pub truck : Vehicle
truck = record {
  id = 1;
  organization_id = 50;
  registration_number = "AS-01";
  vehicle_type = truck_medium;
  make_model = "Medium";
  max_weight_kg = float 5000;
  empty_weight_kg = float 3000;
  height_m = float 3;
  width_m = float 2;
  length_m = float 6;
  axle_count = 2;
  is_hazmat_capable = true;
  is_refrigerated = false;
  is_active = true;
  created_at = 0;
  updated_at = 0;
}

abbrev pub at_the_wheel : Driver
at_the_wheel = record {
  id = 2;
  organization_id = 50;
  user_id = none;
  full_name = "Driver";
  phone_e164 = "0";
  license_number = "L";
  license_classes = [];
  is_active = true;
  created_at = 0;
  updated_at = 0;
}

abbrev pub oxygen : DeliveryCommitment
oxygen = record {
  id = 3;
  organization_id = 50;
  consignment_reference = "OX";
  cargo_category = oxygen_cylinders;
  priority_tier = tier_1_life_saving;
  consigned_weight_kg = float 800;
  consigned_volume_m3 = none;
  consigned_quantity_units = 40;
  delivered_quantity_units = 0;
  origin_facility_id = 60;
  destination_facility_id = 61;
  required_before = hours 20;
  status = DeliveryStatus.pending;
  shortage_reason = none;
  created_at = 0;
  updated_at = 0;
}

abbrev pub trip_of : ℕ → TripStatus → Trip
trip_of id status = record {
  id = id;
  organization_id = 50;
  vehicle_id = 1;
  driver_id = 7;
  trip_code = "T";
  status = status;
  current_route_snapshot_id = none;
  scheduled_departure = 0;
  actual_departure = none;
  actual_arrival = none;
  created_at = 0;
  updated_at = 0;
  stops = [];
  commitment_ids = [];
}

abbrev pub fleet : LogisticsStore
fleet = record {
  vehicles = truck ∷ [];
  drivers = at_the_wheel ∷ [];
  commitments = oxygen ∷ [];
  trips = trip_of 90 diverted ∷ [];
}

abbrev pub on_the_road : LogisticsStore
on_the_road = record fleet { trips = trip_of 91 TripStatus.in_transit ∷ [] }

abbrev pub order : DispatchRequest
order = record {
  organization_id = 50;
  vehicle_id = 1;
  driver_id = 2;
  trip_code = "T2";
  scheduled_departure = hours 13;
  stops_data = [];
  commitment_ids = 3 ∷ [];
  current_route_snapshot_id = none;
}

-- The one sum that the order asks for is 0 + 800.
abbrev pub depot : Surroundings
depot = record {
  plus = λ (x y : Float). y;
  clean_code = λ x. x;
  now = hours 12;
  new_trip_id = 100;
  new_stop_id = λ i. i;
}
