-- ===== src/Routing/Store.antt =====
-- backend/app/modules/routing/infrastructure/repository.py: the tables that it writes, and the
-- queries on the tables of the network. PostGIS and pgRouting are arguments. The rows of a join come
-- in the order in which pgRouting numbers its rows, which is the order that the queries ask for.
use smart_logistics_accessib.Base.{
  String, Float, float, ℤ, Bool, true, false, Option, none, some, List, [], ◌∷◌, ◌++◌, map, Uuid,
  DateTime, ℕ, ◌==◌, ltb, find, select, update_where, if◌then◌else◌, Result, ok, err,
}
use smart_logistics_accessib.Network.Enums.{AccessibilityStatus}
use smart_logistics_accessib.Network.Entities.{RoadEdge, EdgeRestriction, EdgeStatusCurrent}
use smart_logistics_accessib.Logistics.Enums.{TripStatus, planned, dispatched}
use smart_logistics_accessib.Logistics.Entities.{Trip}
use smart_logistics_accessib.Routing.Entities.{
  Line, RoutePlan, DispatchDecision, DispatchAction, accepted, rejected,
}
use smart_logistics_accessib.Routing.Constraints.{
  RoutingError, no_active_version, BridgeLimits, RawEdge, AdmissibleEdge, is_nonzero,
}

-- the columns that the queries read
pub record VersionRow : Type 0 where
  pub id : Uuid
  pub code : String
  pub status_version : ℕ
  pub is_active : Bool
  pub built_at : DateTime

pub record NodeRow : Type 0 where
  pub id : Uuid
  pub node_index : ℕ

-- a bridge on an edge, the two tables joined
pub record BridgeRow : Type 0 where
  pub edge_id : Uuid
  pub limits : BridgeLimits

-- a row of `route_plans` is a plan without the edges, whose rows are in `route_plan_edges`
pub record PlanEdgeRow : Type 0 where
  pub route_plan_id : Uuid
  pub edge_id : Uuid
  pub sequence_order : ℕ
  pub cumulative_distance_meters : ℤ
  pub cumulative_duration_seconds : ℤ
  pub is_alternative : Bool
  pub alternative_rank : ℕ

pub record RoutingStore : Type 0 where
  pub versions : List VersionRow
  pub nodes : List NodeRow
  pub edges : List RoadEdge
  pub statuses : List EdgeStatusCurrent
  pub bridges : List BridgeRow
  pub restrictions : List EdgeRestriction
  pub trips : List Trip
  pub route_plans : List RoutePlan
  pub route_plan_edges : List PlanEdgeRow
  pub dispatch_decisions : List DispatchDecision

-- `order_by(built_at.desc()).limit(1)`
abbrev pub later_built : VersionRow → Option VersionRow → Option VersionRow
later_built v none = some v
later_built v (some w) = if ltb v.built_at w.built_at then some w else some v

abbrev pub last_built : List VersionRow → Option VersionRow
last_built [] = none
last_built (v ∷ vs) = later_built v (last_built vs)

unfoldable pub get_active_network_version : RoutingStore → Result RoutingError VersionRow
get_active_network_version s = elim (last_built (select (λ v. v.is_active) s.versions)) [
  | none ↦ err no_active_version
  | some v ↦ ok v
]

abbrev pub index_of : Option NodeRow → Option ℕ
index_of none = none
index_of (some n) = some n.node_index

unfoldable pub get_node_index : Uuid → RoutingStore → Option ℕ
get_node_index node_id s = index_of (find (λ n. n.id == node_id) s.nodes)

abbrev pub status_of : Option EdgeStatusCurrent → Option AccessibilityStatus
status_of none = none
status_of (some c) = some c.status

abbrev pub raw_edge_of : RoutingStore → RoadEdge → RawEdge
raw_edge_of s e = record {
  id = e.id;
  edge_index = e.edge_index;
  source_index = e.source_index;
  target_index = e.target_index;
  base_seconds = e.base_seconds;
  reverse_base_seconds = e.reverse_base_seconds;
  surface_type = e.surface_type;
  grade_percent = e.gradient_percent;
  road_name = e.road_name;
  status = status_of (find (λ c. c.edge_id == e.id) s.statuses);
  bridges = map (λ (b : BridgeRow). b.limits) (select (λ b. b.edge_id == e.id) s.bridges);
  restrictions =
      map (λ (r : EdgeRestriction). r.kind) (select (λ r. r.edge_id == e.id) s.restrictions);
}

unfoldable pub get_edge_constraints_and_metadata : Uuid → RoutingStore → List RawEdge
get_edge_constraints_and_metadata network_version_id s =
    map (raw_edge_of s) (select (λ e. e.network_version_id == network_version_id) s.edges)

-- a row of pgr_dijkstra or pgr_ksp; `edge` is missing for -1, the end of a path
pub record PathRow : Type 0 where
  pub path_id : ℕ
  pub node : ℕ
  pub edge : Option ℕ
  pub cost : Float

pub record Segment : Type 0 where
  pub path_id : ℕ
  pub edge_id : Option Uuid
  pub cost : Float
  pub length_meters : Float
  pub is_reverse : Bool

-- `r.length_meters or 0`
abbrev pub length_or_zero : Float → Float
length_or_zero x = if is_nonzero x then x else float 0

abbrev pub segments_on : PathRow → List RoadEdge → List Segment
segments_on r [] = []
segments_on r (e ∷ es) =
    record {
      path_id = r.path_id;
      edge_id = some e.id;
      cost = r.cost;
      length_meters = length_or_zero e.length_meters;
      is_reverse = r.node == e.target_index;
    }
    ∷ segments_on r es

abbrev pub unmatched : PathRow → Segment
unmatched r = record {
  path_id = r.path_id;
  edge_id = none;
  cost = r.cost;
  length_meters = float 0;
  is_reverse = false;
}

-- the LEFT JOIN: all edges with the index, of whatever network version
abbrev pub matched : PathRow → List RoadEdge → List Segment
matched r [] = unmatched r ∷ []
matched r (e ∷ es) = segments_on r (e ∷ es)

abbrev pub joined_row : List RoadEdge → PathRow → Option ℕ → List Segment
joined_row edges r none = []
joined_row edges r (some i) = matched r (select (λ e. e.edge_index == i) edges)

unfoldable pub joined : List RoadEdge → List PathRow → List Segment
joined edges [] = []
joined edges (r ∷ rs) = joined_row edges r r.edge ++ joined edges rs

-- The queries of pgRouting, on costs that are printed with two decimals into the text of the query;
-- nothing when PostgreSQL raises. The answer to that is no segment; the transaction is lost, and its
-- next statement raises, which is for the caller to model.
pub record PgRouting : Type 0 where
  pub dijkstra : List AdmissibleEdge → ℕ → ℕ → Option (List PathRow)
  pub ksp : List AdmissibleEdge → ℕ → ℕ → ℕ → Option (List PathRow)

abbrev pub joined_if : List RoadEdge → Option (List PathRow) → List Segment
joined_if edges none = []
joined_if edges (some rows) = joined edges rows

unfoldable pub execute_dijkstra :
    PgRouting → List AdmissibleEdge → ℕ → ℕ → RoutingStore → List Segment
execute_dijkstra pg admissible source target s =
    joined_if s.edges (pg.dijkstra admissible source target)

unfoldable pub execute_ksp :
    PgRouting → List AdmissibleEdge → ℕ → ℕ → ℕ → RoutingStore → List Segment
execute_ksp pg admissible source target k s = joined_if s.edges (pg.ksp admissible source target k)

abbrev pub line_of : Option RoadEdge → Option Line
line_of none = none
line_of (some e) = some e.coordinates

-- an entry of the answer
unfoldable pub get_edge_geometry : Uuid → RoutingStore → Option Line
get_edge_geometry edge_id s = line_of (find (λ e. e.id == edge_id) s.edges)

abbrev pub takes_route : DispatchAction → Bool
takes_route rejected = false
takes_route _ = true

abbrev pub status_after : DispatchAction → TripStatus → TripStatus
status_after accepted planned = dispatched
status_after _ status = status

abbrev pub routed : DispatchDecision → Trip → Trip
routed d t = record t {
  current_route_snapshot_id = some d.route_plan_id;
  status = status_after d.action t.status;
}

unfoldable pub save_dispatch_decision : DispatchDecision → RoutingStore → RoutingStore
save_dispatch_decision d s = record s {
  dispatch_decisions = s.dispatch_decisions ++ d ∷ [];
  trips =
      if takes_route d.action
      then update_where (λ t. t.id == d.trip_id) (routed d) s.trips
      else s.trips;
}
