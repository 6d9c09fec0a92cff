-- ===== src/Routing/Samples.antt =====
-- A small network, and a plan on it, that the tests of the routing module share.
use smart_logistics_accessib.Base.{
  ◌≡◌, sym, ◌∙◌, float, true, false, Option, none, some, List, [], ◌∷◌, ℕ, hours, here, there, inl,
  inr, refl, pos, ok, int_of, quarter,
}
use smart_logistics_accessib.Network.Enums.{
  StatusFreshness, rural_road_pmgsy, unpaved_gravel, blocked,
}
use smart_logistics_accessib.Network.Entities.{RoadEdge}
use smart_logistics_accessib.Network.Status.{empty_document}
use smart_logistics_accessib.Logistics.Enums.{planned}
use smart_logistics_accessib.Logistics.Samples.{trip_of}
use smart_logistics_accessib.Routing.Entities.{
  VehicleConstraints, conservative_critical_v1, RoutePlan, RouteEdge, feasible,
  accessibility_blocked,
}
use smart_logistics_accessib.Routing.Constraints.{
  AdmissibleEdge, restriction_kind_value, surface_type_value, bridges_reasons, restrictions_reasons,
  reasons_against, cost_multiplier, admitted, sort_edges,
}
use smart_logistics_accessib.Routing.Store.{
  RoutingStore, PathRow, PgRouting, get_active_network_version, get_node_index,
  get_edge_constraints_and_metadata, joined, execute_dijkstra, execute_ksp, get_edge_geometry,
}
use smart_logistics_accessib.Routing.Plans.{save_route_plan}
use smart_logistics_accessib.Routing.Routes.{run, candidates}
use smart_logistics_accessib.Routing.Evaluation.{
  RouteRequest, RoutingSurroundings, resolve_node, prepare, evaluate_route,
}
use smart_logistics_accessib.Routing.Evaluation.Joined.{OnlyGiven, UsesGiven, SoleIndexes}
use smart_logistics_accessib.Routing.Geometry.{edge_rev, build_linestring}

abbrev pub road : RoadEdge
road = record {
  id = 11;
  network_version_id = 1;
  edge_index = 4;
  source_node_id = 21;
  target_node_id = 22;
  source_index = 1;
  target_index = 2;
  coordinates = (float 91, float 26) ∷ (float 92, float 26) ∷ [];
  length_meters = float 800;
  road_class = rural_road_pmgsy;
  surface_type = unpaved_gravel;
  speed_limit_kmh = 30;
  base_seconds = float 100;
  reverse_base_seconds = float 100;
  road_name = some "NH 6";
  elevation_gain_m = float 0;
  gradient_percent = float 0;
  is_bridge = false;
  jurisdiction_id = none;
}

abbrev pub closed : RoadEdge
closed = record road { id = 12; edge_index = 5 }

abbrev pub net : RoutingStore
net = record {
  versions =
      record { id = 1; code = "ne-1"; status_version = 5; is_active = true; built_at = 0 } ∷ [];
  nodes = record { id = 21; node_index = 1 } ∷ record { id = 22; node_index = 2 } ∷ [];
  edges = closed ∷ road ∷ [];
  statuses =
      record {
        edge_id = 12;
        status_version = 5;
        status = blocked;
        freshness = StatusFreshness.fresh;
        effective_restrictions = empty_document;
        source_event_id = none;
        last_verified_at = none;
        expires_at = none;
        updated_at = none;
      }
      ∷ [];
  bridges = [];
  restrictions = [];
  trips = trip_of 90 planned ∷ [];
  route_plans = [];
  route_plan_edges = [];
  dispatch_decisions = [];
}

abbrev pub lorry : VehicleConstraints
lorry = record {
  vehicle_id = none;
  max_weight_kg = float 9000;
  height_m = float 3;
  is_hazmat = false;
  cargo_priority = "TIER_1_CRITICAL";
  departure_time = hours 3;
}

abbrev pub request : RouteRequest
request = record {
  organization_id = 50;
  vehicle = lorry;
  trip_id = some 90;
  origin_node_id = some 21;
  origin_coords = none;
  destination_node_id = some 22;
  destination_coords = none;
  policy_version = conservative_critical_v1;
}

-- a search that takes the first edge
abbrev over_first : ℕ → List AdmissibleEdge → Option (List PathRow)
over_first a [] = some []
over_first a (e ∷ es) = some (
    record { path_id = 1; node = a; edge = some e.id; cost = e.cost }
    ∷ record { path_id = 1; node = e.target; edge = none; cost = float 0 }
    ∷ [])

abbrev first_edge : PgRouting
first_edge = record { dijkstra = λ es a b. over_first a es; ksp = λ es a b k. over_first a es }

over_first-OnlyGiven :
    (a : ℕ) (es : List AdmissibleEdge) (rows : List PathRow)
    → over_first a es ≡ some rows
    → OnlyGiven es rows
over_first-OnlyGiven a [] rows h = let e : [] ≡ rows = cc in rw (← e) tt
over_first-OnlyGiven a (e ∷ es) rows h =
    let same : record { path_id = 1; node = a; edge = some e.id; cost = e.cost }
          ∷ record { path_id = 1; node = e.target; edge = none; cost = float 0 }
          ∷ []
        ≡ rows =
      cc in
    rw (← same) (inr (e, here refl, refl), (inl refl, tt))

pub first_edge-UsesGiven : UsesGiven first_edge
first_edge-UsesGiven = record {
  dijkstra = λ es a b rows h. over_first-OnlyGiven a es rows h;
  ksp = λ es a b k rows h. over_first-OnlyGiven a es rows h;
}

apart : (e e' : RoadEdge) → e ≡ closed → e' ≡ road → e.edge_index ≡ e'.edge_index → e ≡ e'
apart e e' x y h = let k : ◌≡◌ {A = ℕ} 5 4 = rw (x, y) at h in cc

pub net-SoleIndexes : SoleIndexes net
net-SoleIndexes e e' m m' h = elim m [
  | here x ↦ elim m' [
    | here y ↦ x ∙ sym y
    | there (here y) ↦ apart e e' x y h
    | there (there n) ↦ elim n [ ]
  ]
  | there (here x) ↦ elim m' [
    | here y ↦ sym (apart e' e y x (sym h))
    | there (here y) ↦ x ∙ sym y
    | there (there n) ↦ elim n [ ]
  ]
  | there (there n) ↦ elim n [ ]
]

abbrev pub surroundings : RoutingSurroundings
surroundings = record {
  times = λ x y. x;
  snap = λ p. none;
  pg = first_edge;
  distances = record { is_flipped = λ last start end. false; is_joined = λ last start. true };
  plan_id = 300;
  now = hours 2;
  created_at = hours 2;
}

abbrev step : RouteEdge
step = record {
  edge_id = 11;
  sequence_order = 0;
  cumulative_distance_meters = pos 800;
  cumulative_duration_seconds = pos 100;
  is_alternative = false;
  alternative_rank = 0;
  road_name = some "NH 6";
  geometry = some road.coordinates;
}

abbrev pub plan : RoutePlan
plan = record {
  id = 300;
  organization_id = 50;
  trip_id = some 90;
  network_version_id = 1;
  graph_version = "ne-1";
  status_version = 5;
  policy_version = conservative_critical_v1;
  origin_node_id = 21;
  destination_node_id = 22;
  result_status = feasible;
  total_distance_meters = pos 800;
  total_duration_seconds = pos 100;
  risk_penalty_score = float 0;
  requires_human_review = false;
  excluded_edge_reasons = (12, accessibility_blocked ∷ []) ∷ [];
  primary_geometry = some road.coordinates;
  alternative_geometries = [];
  edges = step ∷ [];
  alternatives = [];
  vehicle_id = none;
  vehicle_weight_kg = float 9000;
  vehicle_height_m = float 3;
  is_hazmat = false;
  cargo_priority = "TIER_1_CRITICAL";
  departure_time = hours 3;
  evaluated_at = hours 2;
  expires_at = hours 3;
  created_at = hours 2;
}

pub evaluated : evaluate_route surroundings request net ≡ ok (plan, save_route_plan plan net)
unfolding evaluate_route prepare resolve_node get_node_index get_active_network_version
    get_edge_constraints_and_metadata sort_edges reasons_against restrictions_reasons
    bridges_reasons restriction_kind_value surface_type_value cost_multiplier admitted
    execute_dijkstra execute_ksp joined run candidates get_edge_geometry edge_rev build_linestring
    int_of quarter
evaluated = refl
