-- ===== src/Routing/Evaluation.antt =====
-- backend/app/modules/routing/application/evaluate_route.py
-- PostGIS, pgRouting, a fresh identifier, the clock and the default of `created_at` are arguments.
pub mod Segments
pub mod Joined
pub mod Admitted
mod Tests
use smart_logistics_accessib.Base.{
  String, Float, float, int_of, ℤ, pos, ◌+ℤ◌, Bool, true, false, ◌&&◌, ◌||◌, raise_if, ◌>>◌, Option,
  none, some, List, [], ◌∷◌, ◌++◌, map, Uuid, DateTime, ℕ, ◌+◌, ◌==◌, hours, find, if◌then◌else◌,
  Result, ok, err, ◌>>=◌,
}
use smart_logistics_accessib.Routing.Entities.{
  Line, VehicleConstraints, PolicyVersion, RouteEdge, AlternativeRoute, RoutePlan, ExclusionReason,
  feasible, no_feasible_path,
}
use smart_logistics_accessib.Routing.Constraints.{
  RoutingError, transaction_aborted, node_not_found, coordinate_out_of_bounds, number_expected,
  edge_missing, RawEdge, AdmissibleEdge, Sorted, sort_edges,
}
use smart_logistics_accessib.Routing.Store.{
  RoutingStore, VersionRow, Segment, PathRow, PgRouting, get_active_network_version, get_node_index,
  get_edge_constraints_and_metadata, execute_dijkstra, execute_ksp,
}
use smart_logistics_accessib.Routing.Plans.{save_route_plan}
use smart_logistics_accessib.Routing.Routes.{
  Run, Candidate, run, candidates, turns, group_all, all_turns,
}
use smart_logistics_accessib.Routing.Geometry.{
  Point, Distances, Turn, edge_rev, with_geometry, build_linestring,
}

-- the arguments of EvaluateRouteUseCase.execute
pub record RouteRequest : Type 0 where
  pub organization_id : Uuid
  pub vehicle : VehicleConstraints
  pub trip_id : Option Uuid
  pub origin_node_id : Option Uuid
  pub origin_coords : Option Point
  pub destination_node_id : Option Uuid
  pub destination_coords : Option Point
  pub policy_version : PolicyVersion

pub record RoutingSurroundings : Type 0 where
  pub times : Float → Float → Float
  pub snap : Point → Option (Uuid × ℕ)
  pub pg : PgRouting
  pub distances : Distances
  pub plan_id : Uuid
  pub now : DateTime
  pub created_at : DateTime

-- steps 1 and 2
abbrev pub snapped : Option (Uuid × ℕ) → Result RoutingError (Uuid × ℕ)
snapped none = err coordinate_out_of_bounds
snapped (some node) = ok node

abbrev pub indexed : Uuid → Option ℕ → Result RoutingError (Uuid × ℕ)
indexed id none = err node_not_found
indexed id (some i) = ok (id, i)

unfoldable pub resolve_node :
    RoutingSurroundings → Option Uuid → Option Point → RoutingStore → Result RoutingError (Uuid × ℕ)
resolve_node env none none s = err node_not_found
resolve_node env none (some p) s = snapped (env.snap p)
resolve_node env (some id) coords s = indexed id (get_node_index id s)

abbrev pub alternative_of :
    RoutingSurroundings → RoutingStore → (Uuid → Bool) → Candidate → AlternativeRoute
alternative_of env s is_rev c = record {
  rank = c.rank;
  edges = with_geometry s is_rev c.route.edges;
  total_distance_meters = c.route.distance;
  total_duration_seconds = c.route.duration;
  risk_penalty_score = float 0;
  geometry_geojson = build_linestring env.distances s (turns c.segments);
}

-- what is known before the search: the ends, the version and the sorted edges
pub record Prepared : Type 0 where
  pub origin : Uuid × ℕ
  pub destination : Uuid × ℕ
  pub version : VersionRow
  pub raw_edges : List RawEdge
  pub sorted : Sorted

-- the plan when no edge is admissible or no path was found
abbrev pub no_route : RoutingSurroundings → RouteRequest → Prepared → RoutePlan
no_route env req p = record {
  id = env.plan_id;
  organization_id = req.organization_id;
  trip_id = req.trip_id;
  network_version_id = p.version.id;
  graph_version = p.version.code;
  status_version = p.version.status_version;
  policy_version = req.policy_version;
  origin_node_id = p.origin.0;
  destination_node_id = p.destination.0;
  result_status = no_feasible_path;
  total_distance_meters = pos 0;
  total_duration_seconds = pos 0;
  risk_penalty_score = float 0;
  requires_human_review = true;
  excluded_edge_reasons = p.sorted.excluded;
  primary_geometry = none;
  alternative_geometries = [];
  edges = [];
  alternatives = [];
  vehicle_id = req.vehicle.vehicle_id;
  vehicle_weight_kg = req.vehicle.max_weight_kg;
  vehicle_height_m = req.vehicle.height_m;
  is_hazmat = req.vehicle.is_hazmat;
  cargo_priority = req.vehicle.cargo_priority;
  departure_time = req.vehicle.departure_time;
  evaluated_at = env.now;
  expires_at = env.now + hours 1;
  created_at = env.created_at;
}

abbrev pub route_found :
    RoutingSurroundings
    → RouteRequest
    → RoutingStore
    → Prepared
    → List Segment
    → Run
    → List Candidate
    → RoutePlan
route_found env req s p segments primary cs =
    let is_rev = edge_rev (turns segments) (all_turns cs) in
    let alternatives = map (alternative_of env s is_rev) cs in
    record (no_route env req p) {
      result_status = feasible;
      total_distance_meters = primary.distance;
      total_duration_seconds = primary.duration;
      requires_human_review = false;
      primary_geometry = some (build_linestring env.distances s (turns segments));
      alternative_geometries = map (λ (a : AlternativeRoute). a.geometry_geojson) alternatives;
      edges = with_geometry s is_rev primary.edges;
      alternatives = alternatives;
    }

-- steps 5 to 7
abbrev pub plan_along :
    RoutingSurroundings
    → RouteRequest
    → RoutingStore
    → Prepared
    → List Segment
    → Result RoutingError RoutePlan
plan_along env req s p [] = ok (no_route env req p)
plan_along env req s p (g ∷ gs) = do
  primary ← run p.raw_edges 0 0 (pos 0) (pos 0) (g ∷ gs)
  cs ←
      candidates p.raw_edges (g ∷ gs) 1
        (group_all [] (execute_ksp env.pg p.sorted.admissible p.origin.1 p.destination.1 3 s))
  ok (route_found env req s p (g ∷ gs) primary cs)

abbrev pub search_route :
    RoutingSurroundings
    → RouteRequest
    → RoutingStore
    → Prepared
    → List AdmissibleEdge
    → Result RoutingError RoutePlan
search_route env req s p [] = ok (no_route env req p)
search_route env req s p (a ∷ rest) =
    plan_along env req s p (execute_dijkstra env.pg (a ∷ rest) p.origin.1 p.destination.1 s)

-- Whether a query of the search failed. Its exception is caught, but there is no savepoint: the
-- transaction is lost, and the next statement raises, which is the save or an earlier one.
abbrev pub is_failed : Option (List PathRow) → Bool
is_failed none = true
is_failed (some rows) = false

abbrev pub ksp_failed : RoutingSurroundings → Prepared → List Segment → Bool
ksp_failed env p [] = false
ksp_failed env p (g ∷ gs) = is_failed (env.pg.ksp p.sorted.admissible p.origin.1 p.destination.1 3)

abbrev pub search_failed :
    RoutingSurroundings → RoutingStore → Prepared → List AdmissibleEdge → Bool
search_failed env s p [] = false
search_failed env s p (a ∷ rest) =
    is_failed (env.pg.dijkstra (a ∷ rest) p.origin.1 p.destination.1)
    || ksp_failed env p (execute_dijkstra env.pg (a ∷ rest) p.origin.1 p.destination.1 s)

-- steps 1 to 4
unfoldable pub prepare :
    RoutingSurroundings → RouteRequest → RoutingStore → Result RoutingError Prepared
prepare env req s = do
  origin ← resolve_node env req.origin_node_id req.origin_coords s
  destination ← resolve_node env req.destination_node_id req.destination_coords s
  version ← get_active_network_version s
  sorted ← sort_edges env.times req.vehicle (get_edge_constraints_and_metadata version.id s)
  ok (record {
    origin = origin;
    destination = destination;
    version = version;
    raw_edges = get_edge_constraints_and_metadata version.id s;
    sorted = sorted;
  })

unfoldable pub evaluate_route :
    RoutingSurroundings
    → RouteRequest
    → RoutingStore
    → Result RoutingError (RoutePlan × RoutingStore)
evaluate_route env req s = do
  p ← prepare env req s
  plan ← search_route env req s p p.sorted.admissible
  raise_if (search_failed env s p p.sorted.admissible) transaction_aborted
  ok (plan, save_route_plan plan s)
