-- ===== src/Logistics/Entities.antt =====
-- backend/app/modules/logistics/domain/entities.py, the records.
use smart_logistics_accessib.Base.{String, Float, Bool, Option, List, Uuid, DateTime, ℕ}
use smart_logistics_accessib.Logistics.Enums.{
  VehicleType, CargoCategory, PriorityTier, TripStatus, DeliveryStatus, StopType, StopStatus,
}

pub record Vehicle : Type 0 where
  pub id : Uuid
  pub organization_id : Uuid
  pub registration_number : String
  pub vehicle_type : VehicleType
  pub make_model : String
  pub max_weight_kg : Float
  pub empty_weight_kg : Float
  pub height_m : Float
  pub width_m : Float
  pub length_m : Float
  pub axle_count : ℕ
  pub is_hazmat_capable : Bool
  pub is_refrigerated : Bool
  pub is_active : Bool
  pub created_at : DateTime
  pub updated_at : DateTime

pub record Driver : Type 0 where
  pub id : Uuid
  pub organization_id : Uuid
  pub user_id : Option Uuid
  pub full_name : String
  pub phone_e164 : String
  pub license_number : String
  pub license_classes : List String
  pub is_active : Bool
  pub created_at : DateTime
  pub updated_at : DateTime

pub record DeliveryCommitment : Type 0 where
  pub id : Uuid
  pub organization_id : Uuid
  pub consignment_reference : String
  pub cargo_category : CargoCategory
  pub priority_tier : PriorityTier
  pub consigned_weight_kg : Float
  pub consigned_volume_m3 : Option Float
  pub consigned_quantity_units : ℕ
  pub delivered_quantity_units : ℕ
  pub origin_facility_id : Uuid
  pub destination_facility_id : Uuid
  pub required_before : DateTime
  pub status : DeliveryStatus
  pub shortage_reason : Option String
  pub created_at : DateTime
  pub updated_at : DateTime

pub record TripStop : Type 0 where
  pub id : Uuid
  pub trip_id : Uuid
  pub sequence_order : ℕ
  pub stop_type : StopType
  pub facility_id : Option Uuid
  pub lat : Float
  pub lon : Float
  pub planned_arrival : DateTime
  pub planned_departure : DateTime
  pub actual_arrival : Option DateTime
  pub actual_departure : Option DateTime
  pub status : StopStatus

pub record Trip : Type 0 where
  pub id : Uuid
  pub organization_id : Uuid
  pub vehicle_id : Uuid
  pub driver_id : Uuid
  pub trip_code : String
  pub status : TripStatus
  pub current_route_snapshot_id : Option Uuid
  pub scheduled_departure : DateTime
  pub actual_departure : Option DateTime
  pub actual_arrival : Option DateTime
  pub created_at : DateTime
  pub updated_at : DateTime
  pub stops : List TripStop
  pub commitment_ids : List Uuid
