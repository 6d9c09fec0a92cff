-- ===== src/Routing/Plans.antt =====
-- backend/app/modules/routing/infrastructure/repository.py, save_route_plan and
-- get_route_plan_by_id: a plan written as rows, and put together from them.
use smart_logistics_accessib.Base.{
  float, ℤ, pos, Bool, true, false, ◌&&◌, ◌||◌, not, Option, none, some, List, [], ◌∷◌, ◌++◌, map,
  Uuid, ℕ, zero, suc, ◌==◌, leb, ltb, find, select, if◌then◌else◌,
}
use smart_logistics_accessib.Routing.Entities.{Line, RouteEdge, AlternativeRoute, RoutePlan}
use smart_logistics_accessib.Routing.Store.{PlanEdgeRow, RoutingStore}

-- a line needs two points
abbrev pub stored_line : Option Line → Option Line
stored_line (some (p ∷ q ∷ rest)) = some (p ∷ q ∷ rest)
stored_line _ = none

abbrev pub edge_rows : Uuid → Bool → ℕ → List RouteEdge → List PlanEdgeRow
edge_rows plan_id is_alternative rank [] = []
edge_rows plan_id is_alternative rank (e ∷ es) =
    record {
      route_plan_id = plan_id;
      edge_id = e.edge_id;
      sequence_order = e.sequence_order;
      cumulative_distance_meters = e.cumulative_distance_meters;
      cumulative_duration_seconds = e.cumulative_duration_seconds;
      is_alternative = is_alternative;
      alternative_rank = rank;
    }
    ∷ edge_rows plan_id is_alternative rank es

abbrev pub alternative_rows : Uuid → List AlternativeRoute → List PlanEdgeRow
alternative_rows plan_id [] = []
alternative_rows plan_id (a ∷ rest) =
    edge_rows plan_id true a.rank a.edges ++ alternative_rows plan_id rest

unfoldable pub save_route_plan : RoutePlan → RoutingStore → RoutingStore
save_route_plan plan s = record s {
  route_plans =
      s.route_plans
      ++ record plan {
        primary_geometry = stored_line plan.primary_geometry;
        edges = [];
        alternatives = [];
      }
        ∷ [];
  route_plan_edges =
      s.route_plan_edges
      ++ (edge_rows plan.id false 0 plan.edges ++ alternative_rows plan.id plan.alternatives);
}

-- `order_by(alternative_rank, sequence_order)`
abbrev pub comes_before : PlanEdgeRow → PlanEdgeRow → Bool
comes_before a b =
    ltb a.alternative_rank b.alternative_rank
    || (a.alternative_rank == b.alternative_rank && leb a.sequence_order b.sequence_order)

abbrev pub insert_edge : PlanEdgeRow → List PlanEdgeRow → List PlanEdgeRow
insert_edge a [] = a ∷ []
insert_edge a (b ∷ bs) =
    let rest = insert_edge a bs in if comes_before a b then a ∷ b ∷ bs else b ∷ rest

abbrev pub in_order : List PlanEdgeRow → List PlanEdgeRow
in_order [] = []
in_order (a ∷ bs) = insert_edge a (in_order bs)

abbrev pub edge_of : PlanEdgeRow → RouteEdge
edge_of r = record {
  edge_id = r.edge_id;
  sequence_order = r.sequence_order;
  cumulative_distance_meters = r.cumulative_distance_meters;
  cumulative_duration_seconds = r.cumulative_duration_seconds;
  is_alternative = r.is_alternative;
  alternative_rank = r.alternative_rank;
  road_name = none;
  geometry = none;
}

-- the lists of the dictionary by rank, in the order of their first edges
abbrev pub group_into : RouteEdge → List (ℕ × List RouteEdge) → List (ℕ × List RouteEdge)
group_into e [] = (e.alternative_rank, e ∷ []) ∷ []
group_into e ((rank, es) ∷ groups) =
    let rest = group_into e groups in
    if rank == e.alternative_rank then (rank, es ++ e ∷ []) ∷ groups else (rank, es) ∷ rest

abbrev pub by_rank : List (ℕ × List RouteEdge) → List RouteEdge → List (ℕ × List RouteEdge)
by_rank groups [] = groups
by_rank groups (e ∷ es) = by_rank (group_into e groups) es

abbrev pub last_totals : ℤ × ℤ → List RouteEdge → ℤ × ℤ
last_totals t [] = t
last_totals t (e ∷ es) =
    last_totals (e.cumulative_distance_meters, e.cumulative_duration_seconds) es

abbrev pub last_line : Line → List Line → Line
last_line l [] = l
last_line l (m ∷ ls) = last_line m ls

abbrev pub line_at : ℕ → List Line → Line
line_at i [] = []
line_at zero (l ∷ ls) = l
line_at (suc i) (l ∷ ls) = line_at i ls

-- `alternative_geometries[rank - 1]`, where it exists; a rank of 0 takes the last
abbrev pub geometry_at : ℕ → List Line → Line
geometry_at zero ls = last_line [] ls
geometry_at (suc i) ls = line_at i ls

abbrev pub alternatives_of : List Line → List (ℕ × List RouteEdge) → List AlternativeRoute
alternatives_of ls [] = []
alternatives_of ls ((rank, es) ∷ groups) =
    let (distance, duration) = last_totals (pos 0, pos 0) es in
    record {
      rank = rank;
      edges = es;
      total_distance_meters = distance;
      total_duration_seconds = duration;
      risk_penalty_score = float 0;
      geometry_geojson = geometry_at rank ls;
    }
    ∷ alternatives_of ls groups

abbrev pub with_edges : RoutePlan → List RouteEdge → RoutePlan
with_edges row es = record row {
  edges = select (λ e. not e.is_alternative) es;
  alternatives =
      alternatives_of row.alternative_geometries (by_rank [] (select (λ e. e.is_alternative) es));
}

abbrev pub plan_from : List PlanEdgeRow → Option RoutePlan → Option RoutePlan
plan_from rows none = none
plan_from rows (some row) = some (with_edges row (map edge_of (in_order rows)))

unfoldable pub get_route_plan_by_id : Uuid → RoutingStore → Option RoutePlan
get_route_plan_by_id id s =
    plan_from (select (λ r. r.route_plan_id == id) s.route_plan_edges)
      (find (λ (p : RoutePlan). p.id == id) s.route_plans)
