-- ===== src/Logistics/Enums.antt =====
-- backend/app/modules/logistics/domain/enums.py

pub data VehicleType : Type 0 where
  truck_heavy truck_medium van_light four_wheel_drive ambulance_rescue two_wheel_special :
      VehicleType

pub data CargoCategory : Type 0 where
  critical_medical cold_chain_vaccines oxygen_cylinders relief_food_water : CargoCategory
  disaster_equipment general_supplies : CargoCategory

pub data PriorityTier : Type 0 where
  tier_1_life_saving tier_2_essential tier_3_standard : PriorityTier

pub data TripStatus : Type 0 where
  planned dispatched in_transit held_for_inspection diverted completed cancelled aborted :
      TripStatus

pub data DeliveryStatus : Type 0 where
  pending dispatched in_transit delivered partially_delivered failed cancelled : DeliveryStatus

pub data StopType : Type 0 where
  pickup delivery waypoint rest_checkpoint relief_camp : StopType

pub data StopStatus : Type 0 where
  pending arrived departed skipped cancelled : StopStatus

pub data SlaStatus : Type 0 where
  on_time at_risk breached : SlaStatus
