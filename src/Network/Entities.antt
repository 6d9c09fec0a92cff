-- ===== src/Network/Entities.antt =====
-- backend/app/modules/network/domain/entities.py
use smart_logistics_accessib.Base.{
  ℕ, String, Float, lt_float, float, Bool, Option, List, Uuid, DateTime, Document,
}
use smart_logistics_accessib.Network.Enums.{
  AccessibilityStatus, RoadClass, SurfaceType, RestrictionKind, FacilityKind, StatusFreshness,
  SourceEventType,
}

pub record RoadEdge : Type 0 where
  pub id : Uuid
  pub network_version_id : Uuid
  pub edge_index : ℕ
  pub source_node_id : Uuid
  pub target_node_id : Uuid
  pub source_index : ℕ
  pub target_index : ℕ
  pub coordinates : List (Float × Float)
  pub length_meters : Float
  pub road_class : RoadClass
  pub surface_type : SurfaceType
  pub speed_limit_kmh : ℕ
  pub base_seconds : Float
  pub reverse_base_seconds : Float
  pub road_name : Option String
  pub elevation_gain_m : Float
  pub gradient_percent : Float
  pub is_bridge : Bool
  pub jurisdiction_id : Option Uuid

-- the property `is_one_way`
pub is_one_way : RoadEdge → Bool
is_one_way e = lt_float e.reverse_base_seconds (float 0)

pub record EdgeRestriction : Type 0 where
  pub id : Uuid
  pub edge_id : Uuid
  pub kind : RestrictionKind
  pub value_numeric : Option Float
  pub unit : Option String
  pub direction : String
  pub valid_from : Option DateTime
  pub valid_until : Option DateTime
  pub source_reference : Option String

pub record Facility : Type 0 where
  pub id : Uuid
  pub code : String
  pub name : String
  pub kind : FacilityKind
  pub jurisdiction_id : Uuid
  pub lon : Float
  pub lat : Float
  pub nearest_road_node_id : Option Uuid
  pub snap_distance_m : Option Float
  pub is_critical : Bool
  pub is_active : Bool

pub record EdgeStatusEvent : Type 0 where
  pub id : Uuid
  pub edge_id : Uuid
  pub status : AccessibilityStatus
  pub reason : String
  pub source_event_type : SourceEventType
  pub valid_from : DateTime
  pub created_at : DateTime
  pub restrictions : Document
  pub source_reference_id : Option Uuid
  pub actor_user_id : Option Uuid
  pub valid_until : Option DateTime

pub record EdgeStatusCurrent : Type 0 where
  pub edge_id : Uuid
  pub status_version : ℕ
  pub status : AccessibilityStatus
  pub freshness : StatusFreshness
  pub effective_restrictions : Document
  pub source_event_id : Option Uuid
  pub last_verified_at : Option DateTime
  pub expires_at : Option DateTime
  pub updated_at : Option DateTime

pub record VehicleProfile : Type 0 where
  pub vehicle_id : Option Uuid
  pub gross_weight_tonnes : Float
  pub height_meters : Float
  pub width_meters : Float
  pub axle_count : ℕ
  pub is_heavy_vehicle : Bool
  pub is_hazardous_cargo : Bool
  pub is_critical_dispatch : Bool

-- The texts that `evaluate_traversability` gives as its reason; the three with figures carry the
-- vehicle's and the limit's, which the code prints.
pub data Reason : Type 0 where
  verified_closure caution_excludes_critical status_unknown capacity_unknown : Reason
  hazardous_prohibited curfew_in_effect advisory_conditions fully_traversable : Reason
  weight_exceeds height_exceeds width_exceeds : Float → Float → Reason

pub record TraversabilityResult : Type 0 where
  pub can_traverse : Bool
  pub requires_review : Bool
  pub reason : Reason
  pub delay_penalty_seconds : Float
