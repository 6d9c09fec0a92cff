-- ===== src/Routing/Routes.antt =====
-- backend/app/modules/routing/application/evaluate_route.py, steps 5 and 6: the route edges of the paths
-- that pgRouting found. A segment without an edge is raised where its number is needed; the code gets
-- as far as the saving of the plan, where the missing key violates the column. No plan is stored
-- either way.
use smart_logistics_accessib.Base.{
  String, Float, int_of, ℤ, pos, ◌+ℤ◌, Bool, true, false, ◌&&◌, Option, none, some, List, [], ◌∷◌,
  ◌++◌, Uuid, ℕ, ◌+◌, ◌==◌, find, if◌then◌else◌, Result, ok, err, ◌>>=◌,
}
use smart_logistics_accessib.Routing.Entities.{RouteEdge}
use smart_logistics_accessib.Routing.Constraints.{
  RoutingError, number_expected, edge_missing, RawEdge,
}
use smart_logistics_accessib.Routing.Store.{Segment}
use smart_logistics_accessib.Routing.Geometry.{Turn}

-- a list of route edges with the totals that the loop has summed up
pub record Run : Type 0 where
  pub edges : List RouteEdge
  pub distance : ℤ
  pub duration : ℤ

abbrev pub whole : Float → Result RoutingError ℤ
whole x = elim (int_of x) [ none ↦ err number_expected | some n ↦ ok n ]

abbrev pub present : Option Uuid → Result RoutingError Uuid
present none = err edge_missing
present (some id) = ok id

abbrev pub name_of : Option RawEdge → Option String
name_of none = none
name_of (some e) = e.road_name

-- `road_names.get(edge_id)`
abbrev pub road_name : List RawEdge → Uuid → Option String
road_name raw id = name_of (find (λ e. e.id == id) raw)

-- the loops over segments, from a number and sums on; rank 0 is the primary route
unfoldable pub run : List RawEdge → ℕ → ℕ → ℤ → ℤ → List Segment → Result RoutingError Run
run raw rank seq distance duration [] =
    ok (record { edges = []; distance = distance; duration = duration })
run raw rank seq distance duration (g ∷ gs) = do
  d ← whole g.length_meters
  t ← whole g.cost
  id ← present g.edge_id
  rest ← run raw rank (seq + 1) (distance +ℤ d) (duration +ℤ t) gs
  ok (record rest {
    edges =
        record {
          edge_id = id;
          sequence_order = seq;
          cumulative_distance_meters = distance +ℤ d;
          cumulative_duration_seconds = duration +ℤ t;
          is_alternative = if rank == 0 then false else true;
          alternative_rank = rank;
          road_name = road_name raw id;
          geometry = none;
        }
        ∷ rest.edges;
  })

abbrev pub turns : List Segment → List Turn
turns [] = []
turns (g ∷ gs) = elim g.edge_id [ none ↦ turns gs | some id ↦ (id, g.is_reverse) ∷ turns gs ]

-- the lists of the dictionary by path, in the order of their first segments
abbrev pub group_into : Segment → List (ℕ × List Segment) → List (ℕ × List Segment)
group_into g [] = (g.path_id, g ∷ []) ∷ []
group_into g ((path, gs) ∷ groups) =
    let rest = group_into g groups in
    if path == g.path_id then (path, gs ++ g ∷ []) ∷ groups else (path, gs) ∷ rest

abbrev pub group_all : List (ℕ × List Segment) → List Segment → List (ℕ × List Segment)
group_all groups [] = groups
group_all groups (g ∷ gs) = group_all (group_into g groups) gs

abbrev pub same_id : Option Uuid → Option Uuid → Bool
same_id none none = true
same_id (some a) (some b) = a == b
same_id _ _ = false

-- `path_edge_ids == primary_edge_ids`
abbrev pub same_edges : List Segment → List Segment → Bool
same_edges [] [] = true
same_edges (g ∷ gs) (h ∷ hs) = same_id g.edge_id h.edge_id && same_edges gs hs
same_edges _ _ = false

-- an alternative before its geometry is known
pub record Candidate : Type 0 where
  pub rank : ℕ
  pub route : Run
  pub segments : List Segment

-- the loop over the paths; the next rank is counted up for each that differs from the primary route
unfoldable pub candidates :
    List RawEdge → List Segment → ℕ → List (ℕ × List Segment) → Result RoutingError (List Candidate)
candidates raw primary rank [] = ok []
candidates raw primary rank ((path, gs) ∷ groups) =
    let skipped = candidates raw primary rank groups in
    let kept = run raw rank 0 (pos 0) (pos 0) gs >>= λ r.
    candidates raw primary (rank + 1) groups >>= λ cs.
    ok (record { rank = rank; route = r; segments = gs } ∷ cs) in
    if same_edges gs primary then skipped else kept

abbrev pub all_turns : List Candidate → List Turn
all_turns [] = []
all_turns (c ∷ cs) = turns c.segments ++ all_turns cs
