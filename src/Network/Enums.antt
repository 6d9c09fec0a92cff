-- ===== src/Network/Enums.antt =====
-- backend/app/modules/network/domain/enums.py

pub data AccessibilityStatus : Type 0 where
  open_road restricted blocked provisional_caution unknown : AccessibilityStatus

pub data RoadClass : Type 0 where
  national_highway state_highway major_district_road rural_road_pmgsy urban_road : RoadClass

pub data SurfaceType : Type 0 where
  paved_asphalt paved_concrete unpaved_gravel unpaved_earth bridged : SurfaceType

pub data RestrictionKind : Type 0 where
  max_weight max_height max_width max_axle_load one_way night_curfew : RestrictionKind
  hazardous_cargo_prohibited seasonal_closure : RestrictionKind

pub data FacilityKind : Type 0 where
  hospital oxygen_plant relief_camp logistics_hub fuel_depot warehouse district_hq : FacilityKind

pub data ReachabilityStatus : Type 0 where
  reachable restricted_reachable no_feasible_path insufficient_data : ReachabilityStatus

pub data StatusFreshness : Type 0 where
  fresh stale expired : StatusFreshness

pub data SourceEventType : Type 0 where
  field_report official_decision weather_hazard system_expiry : SourceEventType

pub data StructuralCondition : Type 0 where
  good fair caution structurally_deficient closed uninspected : StructuralCondition
