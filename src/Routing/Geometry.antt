-- ===== src/Routing/Geometry.antt =====
-- backend/app/modules/routing/application/evaluate_route.py, step 7: the lines of a route. The two
-- tests on distances of points, sums and squares of floats, are arguments.
use smart_logistics_accessib.Base.{
  Float, Bool, true, false, Option, none, some, List, [], ◌∷◌, ◌++◌, Uuid, ◌==◌, if◌then◌else◌,
}
use smart_logistics_accessib.Routing.Entities.{Line, RouteEdge}
use smart_logistics_accessib.Routing.Store.{RoutingStore, get_edge_geometry}

abbrev pub Point : Type 0
Point = Float × Float

-- whether the end of a line is nearer to the last point than its start, and whether two points are
-- one junction
pub record Distances : Type 0 where
  pub is_flipped : Point → Point → Point → Bool
  pub is_joined : Point → Point → Bool

-- an edge with whether it is driven against its direction
abbrev pub Turn : Type 0
Turn = Uuid × Bool

abbrev pub reverse_onto : Line → Line → Line
reverse_onto [] done = done
reverse_onto (p ∷ ps) done = reverse_onto ps (p ∷ done)

abbrev pub reversed_if : Bool → Line → Line
reversed_if true line = reverse_onto line []
reversed_if false line = line

-- an entry of `edge_rev_map`: the last of the primary turns, or else the first of the others
abbrev pub last_turn : Uuid → Option Bool → List Turn → Option Bool
last_turn id found [] = found
last_turn id found ((edge_id, is_rev) ∷ turns) =
    last_turn id (if edge_id == id then some is_rev else found) turns

abbrev pub first_turn : Uuid → List Turn → Bool
first_turn id [] = false
first_turn id ((edge_id, is_rev) ∷ turns) =
    let rest = first_turn id turns in if edge_id == id then is_rev else rest

unfoldable pub edge_rev : List Turn → List Turn → Uuid → Bool
edge_rev primary others id = elim (last_turn id none primary) [
  | none ↦ first_turn id others
  | some is_rev ↦ is_rev
]

abbrev pub oriented : Bool → Option Line → Option Line
oriented is_rev none = none
oriented is_rev (some line) = some (reversed_if is_rev line)

abbrev pub with_geometry : RoutingStore → (Uuid → Bool) → List RouteEdge → List RouteEdge
with_geometry s is_rev [] = []
with_geometry s is_rev (e ∷ es) =
    record e { geometry = oriented (is_rev e.edge_id) (get_edge_geometry e.edge_id s) }
    ∷ with_geometry s is_rev es

abbrev pub last_point : Point → Line → Point
last_point p [] = p
last_point p (q ∷ qs) = last_point q qs

-- behind a junction point that is there already, the rest of the line
abbrev pub continue_at : Distances → Point → Line → Line → Line
continue_at env last all [] = all
continue_at env last all (start ∷ rest) =
    all ++ (if env.is_joined last start then rest else start ∷ rest)

-- the body of the loop, with the coordinates in the direction of travel
abbrev pub extend : Distances → Line → Line → Line
extend env all [] = all
extend env [] (p ∷ ps) = p ∷ ps
extend env (a ∷ as_) (p ∷ ps) =
    let last = last_point a as_ in
    continue_at env last (a ∷ as_) (reversed_if (env.is_flipped last p (last_point p ps)) (p ∷ ps))

abbrev pub extend_if : Distances → Line → Bool → Option Line → Line
extend_if env all is_rev none = all
extend_if env all is_rev (some line) = extend env all (reversed_if is_rev line)

abbrev pub extend_all : Distances → RoutingStore → Line → List Turn → Line
extend_all env s all [] = all
extend_all env s all ((edge_id, is_rev) ∷ turns) =
    extend_all env s (extend_if env all is_rev (get_edge_geometry edge_id s)) turns

unfoldable pub build_linestring : Distances → RoutingStore → List Turn → Line
build_linestring env s turns = extend_all env s [] turns
