-- ===== src/Routing/Entities.antt =====
-- backend/app/modules/routing/domain/{entities,enums}.py
use smart_logistics_accessib.Base.{
  String, Float, ℤ, Bool, ◌&&◌, ◌||◌, Option, List, Uuid, DateTime, ℕ, ◌+◌, ◌-◌, ◌%◌, leb, ltb,
  seconds, pos_part, neg_part, if◌then◌else◌,
}

pub data RouteResultStatus : Type 0 where
  feasible no_feasible_path insufficient_data : RouteResultStatus

pub data PolicyVersion : Type 0 where
  conservative_critical_v1 standard_dispatch_v1 : PolicyVersion

pub data DispatchAction : Type 0 where
  accepted rejected diverted : DispatchAction

pub record VehicleConstraints : Type 0 where
  pub vehicle_id : Option Uuid
  pub max_weight_kg : Float
  pub height_m : Float
  pub is_hazmat : Bool
  pub cargo_priority : String
  pub departure_time : DateTime

-- a GeoJSON line
abbrev pub Line : Type 0
Line = List (Float × Float)

pub record RouteEdge : Type 0 where
  pub edge_id : Uuid
  pub sequence_order : ℕ
  pub cumulative_distance_meters : ℤ
  pub cumulative_duration_seconds : ℤ
  pub is_alternative : Bool
  pub alternative_rank : ℕ
  pub road_name : Option String
  pub geometry : Option Line

pub record AlternativeRoute : Type 0 where
  pub rank : ℕ
  pub edges : List RouteEdge
  pub total_distance_meters : ℤ
  pub total_duration_seconds : ℤ
  pub risk_penalty_score : Float
  pub geometry_geojson : Line

-- why an edge is left out; the code writes each as a text, a limit with its number
pub data ExclusionReason : Type 0 where
  accessibility_blocked provisional_caution_critical_cargo : ExclusionReason
  bridge_weight_exceeded bridge_height_exceeded : Float → ExclusionReason
  hazmat_prohibited night_curfew_in_effect : ExclusionReason

pub record RoutePlan : Type 0 where
  pub id : Uuid
  pub organization_id : Uuid
  pub trip_id : Option Uuid
  pub network_version_id : Uuid
  pub graph_version : String
  pub status_version : ℕ
  pub policy_version : PolicyVersion
  pub origin_node_id : Uuid
  pub destination_node_id : Uuid
  pub result_status : RouteResultStatus
  pub total_distance_meters : ℤ
  pub total_duration_seconds : ℤ
  pub risk_penalty_score : Float
  pub requires_human_review : Bool
  pub excluded_edge_reasons : List (Uuid × List ExclusionReason)
  pub primary_geometry : Option Line
  pub alternative_geometries : List Line
  pub edges : List RouteEdge
  pub alternatives : List AlternativeRoute
  pub vehicle_id : Option Uuid
  pub vehicle_weight_kg : Float
  pub vehicle_height_m : Float
  pub is_hazmat : Bool
  pub cargo_priority : String
  pub departure_time : DateTime
  pub evaluated_at : DateTime
  pub expires_at : DateTime
  pub created_at : DateTime

pub record DispatchDecision : Type 0 where
  pub id : Uuid
  pub trip_id : Uuid
  pub route_plan_id : Uuid
  pub actor_id : Uuid
  pub action : DispatchAction
  pub selected_alternative_rank : ℕ
  pub reason : String
  pub status_version_at_decision : ℕ
  pub decided_at : DateTime
  pub created_at : DateTime

-- The time of the day in Asia/Kolkata, five hours and a half ahead of UTC, in microseconds. The sum
-- that the code makes as a float is exact to the microsecond.
unfoldable pub arrival_time : DateTime → ℤ → ℕ
arrival_time departure accumulated =
    (departure + seconds 19800 + seconds (pos_part accumulated) - seconds (neg_part accumulated))
    % seconds 86400

-- `curfew_start_time` and `curfew_end_time` as times of the day
unfoldable pub is_in_curfew : DateTime → ℤ → ℕ → ℕ → Bool
is_in_curfew departure accumulated curfew_start curfew_end =
    let t = arrival_time departure accumulated in
    if ltb curfew_end curfew_start
    then leb curfew_start t || ltb t curfew_end
    else leb curfew_start t && ltb t curfew_end
