-- ===== src/Network/Traversability/Tests.antt =====
-- Tests and instances for the passage rule.
use smart_logistics_accessib.Base.{
  ℕ, float, quarter, ◌≡◌, refl, true, false, none, some, List, [], ◌∷◌, hours,
}
use smart_logistics_accessib.Network.Enums.{
  restricted, night_curfew, max_weight, rural_road_pmgsy, unpaved_gravel,
}
use smart_logistics_accessib.Network.Entities.{
  RoadEdge, EdgeRestriction, VehicleProfile, curfew_in_effect, weight_exceeds,
}
use smart_logistics_accessib.Network.Traversability.{
  evaluate_traversability, time_or, has_weight_limit, check_all, check_restriction,
}
use smart_logistics_accessib.Network.Traversability.Passable.{Passable}
use smart_logistics_accessib.Network.Traversability.Explained.{Explains, evaluate-Explains}

abbrev bridge : RoadEdge
bridge = record {
  id = 1;
  network_version_id = 1;
  edge_index = 1;
  source_node_id = 1;
  target_node_id = 2;
  source_index = 1;
  target_index = 2;
  coordinates = [];
  length_meters = float 800;
  road_class = rural_road_pmgsy;
  surface_type = unpaved_gravel;
  speed_limit_kmh = 30;
  base_seconds = float 100;
  reverse_base_seconds = float 100;
  road_name = none;
  elevation_gain_m = float 0;
  gradient_percent = float 0;
  is_bridge = true;
  jurisdiction_id = none;
}

abbrev limit_of : ℕ → EdgeRestriction
limit_of tonnes = record {
  id = 1;
  edge_id = 1;
  kind = max_weight;
  value_numeric = some (float tonnes);
  unit = some "TONNES";
  direction = "BOTH";
  valid_from = none;
  valid_until = none;
  source_reference = none;
}

abbrev curfew : EdgeRestriction
curfew = record (limit_of 0) { kind = night_curfew; value_numeric = none }

abbrev lorry : VehicleProfile
lorry = record {
  vehicle_id = none;
  gross_weight_tonnes = float 12;
  height_meters = float 3;
  width_meters = float 2;
  axle_count = 2;
  is_heavy_vehicle = true;
  is_hazardous_cargo = false;
  is_critical_dispatch = false;
}

abbrev rules : List EdgeRestriction
rules = limit_of 16 ∷ curfew ∷ []

passes_by_day :
    (evaluate_traversability (hours 12) lorry bridge restricted rules none).can_traverse ≡ true
unfolding evaluate_traversability quarter has_weight_limit check_all check_restriction
passes_by_day = refl

stopped_by_night :
    (evaluate_traversability (hours 23) lorry bridge restricted rules none).reason
    ≡ curfew_in_effect
unfolding evaluate_traversability quarter has_weight_limit check_all check_restriction
stopped_by_night = refl

stopped_by_weight :
    (evaluate_traversability (hours 12) lorry bridge restricted (limit_of 10 ∷ []) none).reason
    ≡ weight_exceeds (float 12) (float 10)
unfolding evaluate_traversability quarter has_weight_limit check_all check_restriction
stopped_by_weight = refl

-- By night, the curfew is the reason, and a review is asked for.
evaluate-Explains_example :
    Explains lorry bridge restricted
      (time_or none (hours 23))
      rules
      (evaluate_traversability (hours 23) lorry bridge restricted rules none).can_traverse
      (evaluate_traversability (hours 23) lorry bridge restricted rules none)
evaluate-Explains_example = evaluate-Explains (hours 23) lorry bridge restricted rules none
