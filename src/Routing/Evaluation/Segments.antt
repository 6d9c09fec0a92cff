-- ===== src/Routing/Evaluation/Segments.antt =====
-- What is known of the edges of a path holds for the route edges that are made of it.
use smart_logistics_accessib.Base.{
  ◌≡◌, refl, ℤ, pos, ◌+ℤ◌, Bool, some, List, [], ◌∷◌, Uuid, ℕ, ◌+◌, ◌==◌, ok, >>=-eq-ok,
  ok-injective, All, All-append, Bool-cases, inl, inr,
}
use smart_logistics_accessib.Routing.Entities.{RouteEdge}
use smart_logistics_accessib.Routing.Constraints.{RoutingError, RawEdge}
use smart_logistics_accessib.Routing.Store.{RoutingStore, Segment}
use smart_logistics_accessib.Routing.Plans.{last_totals}
use smart_logistics_accessib.Routing.Geometry.{with_geometry}
use smart_logistics_accessib.Routing.Routes.{
  Run, Candidate, whole, present, run, group_into, group_all, candidates, same_edges,
}

module _ (P : Uuid → Type 0) where
  -- A segment of an edge that P holds of, and a route edge of it.
  abbrev pub Names : Segment → Type 0
  Names g = (id : Uuid) × (g.edge_id ≡ some id) × P id

  abbrev pub IsOf : RouteEdge → Type 0
  IsOf e = P e.edge_id

  present-P : (g : Segment) (id : Uuid) → Names g → present g.edge_id ≡ ok id → P id
  present-P g id (own, e, p) h = rw (← ok-injective {E = RoutingError} (rw e at h)) p

  -- The edges of a run are those of its segments, and its totals are those of its last edge.
  pub run-IsOf :
      (raw : List RawEdge) (rank seq : ℕ) (distance duration : ℤ) (gs : List Segment) (u : Run)
      → All Names gs
      → run raw rank seq distance duration gs ≡ ok u
      → All IsOf u.edges × (last_totals (distance, duration) u.edges ≡ (u.distance, u.duration))
  unfolding run
  run-IsOf raw rank seq distance duration [] u all h =
      rw (← ok-injective {E = RoutingError} h) (tt, refl)
  run-IsOf raw rank seq distance duration (g ∷ gs) u (n, all) h =
      let (d, e₁, h₁) = >>=-eq-ok (whole g.length_meters) _ h in
      let (t, e₂, h₂) = >>=-eq-ok (whole g.cost) _ h₁ in
      let (id, e₃, h₃) = >>=-eq-ok (present g.edge_id) _ h₂ in
      let (rest, e₄, h₄) =
        >>=-eq-ok (run raw rank (seq + 1) (distance +ℤ d) (duration +ℤ t) gs) _ h₃ in
      let (more, totals) =
        run-IsOf raw rank (seq + 1) (distance +ℤ d) (duration +ℤ t) gs rest all e₄ in
      rw (← ok-injective {E = RoutingError} h₄) ((present-P g id n e₃, more), totals)

  abbrev pub AllGroups : List (ℕ × List Segment) → Type 0
  AllGroups groups = All (λ (x : ℕ × List Segment). All Names x.1) groups

  group_into-AllGroups :
      (g : Segment) (groups : List (ℕ × List Segment))
      → Names g
      → AllGroups groups
      → AllGroups (group_into g groups)
  group_into-AllGroups g [] n all = ((n, tt), tt)
  group_into-AllGroups g ((path, gs) ∷ groups) n (here_all, all) =
      elim (Bool-cases (path == g.path_id)) [
        | inl hit ↦ rw hit (All-append Names gs (g ∷ []) here_all (n, tt), all)
        | inr miss ↦ rw miss (here_all, group_into-AllGroups g groups n all)
      ]

  pub group_all-AllGroups :
      (gs : List Segment) (groups : List (ℕ × List Segment))
      → AllGroups groups
      → All Names gs
      → AllGroups (group_all groups gs)
  group_all-AllGroups [] groups all names = all
  group_all-AllGroups (g ∷ gs) groups all (n, names) =
      group_all-AllGroups gs (group_into g groups) (group_into-AllGroups g groups n all) names

  pub candidates-IsOf :
      (raw : List RawEdge) (primary : List Segment) (rank : ℕ) (groups : List (ℕ × List Segment))
      (cs : List Candidate)
      → AllGroups groups
      → candidates raw primary rank groups ≡ ok cs
      → All (λ (c : Candidate). All IsOf c.route.edges) cs
  unfolding candidates
  candidates-IsOf raw primary rank [] cs all h = rw (← ok-injective {E = RoutingError} h) tt
  candidates-IsOf raw primary rank ((path, gs) ∷ groups) cs (names, all) h =
      elim (Bool-cases (same_edges gs primary)) [
        | inl same ↦ candidates-IsOf raw primary rank groups cs all (rw same at h)
        | inr other ↦
            let (r, e₁, h₁) = >>=-eq-ok (run raw rank 0 (pos 0) (pos 0) gs) _ (rw other at h) in
            let (rest, e₂, h₂) = >>=-eq-ok (candidates raw primary (rank + 1) groups) _ h₁ in
            rw (← ok-injective {E = RoutingError} h₂) (
              (run-IsOf raw rank 0 (pos 0) (pos 0) gs r names e₁).0,
              candidates-IsOf raw primary (rank + 1) groups rest all e₂,
            )
      ]

  pub with_geometry-IsOf :
      (s : RoutingStore) (is_rev : Uuid → Bool) (es : List RouteEdge)
      → All IsOf es
      → All IsOf (with_geometry s is_rev es)
  with_geometry-IsOf s is_rev [] all = tt
  with_geometry-IsOf s is_rev (e ∷ es) (p, all) = (p, with_geometry-IsOf s is_rev es all)

pub last_totals-with_geometry :
    (s : RoutingStore) (is_rev : Uuid → Bool) (t : ℤ × ℤ) (es : List RouteEdge)
    → last_totals t (with_geometry s is_rev es) ≡ last_totals t es
last_totals-with_geometry s is_rev t [] = refl
last_totals-with_geometry s is_rev t (e ∷ es) = last_totals-with_geometry s is_rev _ es
