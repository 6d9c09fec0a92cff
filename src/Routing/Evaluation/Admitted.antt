-- ===== src/Routing/Evaluation/Admitted.antt =====
-- What an evaluation of a route answers and stores.
use smart_logistics_accessib.Base.{
  ◌≡◌, refl, sym, ap, ◌∙◌, ◌⊎◌, inl, inr, pos, Bool, true, false, List, [], ◌∷◌, map, Uuid, ◌+◌,
  hours, All, ok, >>=-eq-ok, ok-injective, raise_if-ok,
}
use smart_logistics_accessib.Routing.Entities.{
  AlternativeRoute, RoutePlan, feasible, no_feasible_path,
}
use smart_logistics_accessib.Routing.Constraints.{
  RoutingError, AdmissibleEdge, sort_edges, transaction_aborted,
}
use smart_logistics_accessib.Routing.Store.{
  RoutingStore, VersionRow, Segment, get_active_network_version, get_edge_constraints_and_metadata,
  execute_dijkstra, execute_ksp,
}
use smart_logistics_accessib.Routing.Plans.{last_totals, save_route_plan}
use smart_logistics_accessib.Routing.Geometry.{edge_rev}
use smart_logistics_accessib.Routing.Routes.{
  Candidate, run, turns, all_turns, group_all, candidates,
}
use smart_logistics_accessib.Routing.Evaluation.{
  RouteRequest, RoutingSurroundings, Prepared, alternative_of, no_route, plan_along, search_route,
  prepare, resolve_node, evaluate_route, search_failed,
}
use smart_logistics_accessib.Routing.Evaluation.Segments.{
  Names, IsOf, run-IsOf, group_all-AllGroups, candidates-IsOf, with_geometry-IsOf,
  last_totals-with_geometry,
}
use smart_logistics_accessib.Routing.Evaluation.Joined.{
  UsesGiven, SoleIndexes, MayUse, execute-Names,
}

-- A plan either has a route, with the totals of its last edge, or none and asks for a review.
abbrev pub HasRoute : RoutePlan → Type 0
HasRoute plan =
    (plan.result_status ≡ feasible)
    × (plan.requires_human_review ≡ false)
    × (last_totals (pos 0, pos 0) plan.edges
        ≡ (plan.total_distance_meters, plan.total_duration_seconds))

abbrev pub HasNoRoute : RoutePlan → Type 0
HasNoRoute plan =
    (plan.result_status ≡ no_feasible_path)
    × (plan.requires_human_review ≡ true)
    × (plan.edges ≡ [])
    × (plan.alternatives ≡ [])

module _ (P : Uuid → Type 0) where
  -- A plan over edges that P holds of.
  pub record Over (plan : RoutePlan) : Type 0 where
    pub outcome : HasRoute plan ⊎ HasNoRoute plan
    pub primary : All (IsOf P) plan.edges
    pub alternatives : All (λ (a : AlternativeRoute). All (IsOf P) a.edges) plan.alternatives

  module _ (env : RoutingSurroundings) (req : RouteRequest) (s : RoutingStore) (p : Prepared) where
    no_route-Over : Over (no_route env req p)
    no_route-Over = record {
      outcome = inr (refl, refl, refl, refl);
      primary = tt;
      alternatives = tt;
    }

    alternatives-IsOf :
        (is_rev : Uuid → Bool) (cs : List Candidate)
        → All (λ (c : Candidate). All (IsOf P) c.route.edges) cs
        → All
            (λ (a : AlternativeRoute). All (IsOf P) a.edges)
            (map (alternative_of env s is_rev) cs)
    alternatives-IsOf is_rev [] all = tt
    alternatives-IsOf is_rev (c ∷ cs) (h, all) =
        (with_geometry-IsOf P s is_rev c.route.edges h, alternatives-IsOf is_rev cs all)

    -- The plan along segments of such edges is one over such edges.
    plan_along-Over :
        (gs : List Segment) (plan : RoutePlan)
        → All (Names P) gs
        → All (Names P) (execute_ksp env.pg p.sorted.admissible p.origin.1 p.destination.1 3 s)
        → plan_along env req s p gs ≡ ok plan
        → Over plan
    plan_along-Over [] plan along others h = rw (← ok-injective {E = RoutingError} h) no_route-Over
    plan_along-Over (g ∷ gs) plan along others h =
        let ksp = execute_ksp env.pg p.sorted.admissible p.origin.1 p.destination.1 3 s in
        let (primary, e₁, h₁) = >>=-eq-ok (run p.raw_edges 0 0 (pos 0) (pos 0) (g ∷ gs)) _ h in
        let (cs, e₂, h₂) = >>=-eq-ok (candidates p.raw_edges (g ∷ gs) 1 (group_all [] ksp)) _ h₁ in
        let (own, totals) = run-IsOf P p.raw_edges 0 0 (pos 0) (pos 0) (g ∷ gs) primary along e₁ in
        let is_rev = edge_rev (turns (g ∷ gs)) (all_turns cs) in
        rw (← ok-injective {E = RoutingError} h₂) (record {
          outcome = inl (
            refl,
            refl,
            last_totals-with_geometry s is_rev (pos 0, pos 0) primary.edges ∙ totals,
          );
          primary = with_geometry-IsOf P s is_rev primary.edges own;
          alternatives = alternatives-IsOf is_rev cs (
              candidates-IsOf P p.raw_edges (g ∷ gs) 1 (group_all [] ksp) cs
                (group_all-AllGroups P ksp [] tt others) e₂);
        })

    search-Over :
        (es : List AdmissibleEdge) (plan : RoutePlan)
        → All (Names P) (execute_dijkstra env.pg es p.origin.1 p.destination.1 s)
        → All (Names P) (execute_ksp env.pg p.sorted.admissible p.origin.1 p.destination.1 3 s)
        → search_route env req s p es ≡ ok plan
        → Over plan
    search-Over [] plan along others h = rw (← ok-injective {E = RoutingError} h) no_route-Over
    search-Over (e ∷ es) plan along others h =
        plan_along-Over (execute_dijkstra env.pg (e ∷ es) p.origin.1 p.destination.1 s) plan along
          others h

-- What is prepared is the active version and its sorted edges.
prepared :
    (env : RoutingSurroundings) (req : RouteRequest) (s : RoutingStore) (p : Prepared)
    → prepare env req s ≡ ok p
    → (get_active_network_version s ≡ ok p.version)
      × (sort_edges env.times req.vehicle (get_edge_constraints_and_metadata p.version.id s)
          ≡ ok p.sorted)
unfolding prepare
prepared env req s p h =
    let (o, e₁, h₁) = >>=-eq-ok (resolve_node env req.origin_node_id req.origin_coords s) _ h in
    let (d, e₂, h₂) =
      >>=-eq-ok (resolve_node env req.destination_node_id req.destination_coords s) _ h₁ in
    let (version, e₃, h₃) = >>=-eq-ok (get_active_network_version s) _ h₂ in
    let (sorted, e₄, h₄) =
      >>=-eq-ok (sort_edges env.times req.vehicle (get_edge_constraints_and_metadata version.id s))
        _ h₃ in
    rw (← ok-injective {E = RoutingError} h₄) (e₃, e₄)

-- What pins a plan to the status of the network that it saw.
abbrev pub IsPinned : RoutePlan → VersionRow → Type 0
IsPinned plan v =
    (plan.network_version_id ≡ v.id)
    × (plan.status_version ≡ v.status_version)
    × (plan.expires_at ≡ plan.evaluated_at + hours 1)

plan_along-IsPinned :
    (env : RoutingSurroundings) (req : RouteRequest) (s : RoutingStore) (p : Prepared)
    (gs : List Segment) (plan : RoutePlan)
    → plan_along env req s p gs ≡ ok plan
    → IsPinned plan p.version
plan_along-IsPinned env req s p [] plan h =
    rw (← ok-injective {E = RoutingError} h) (refl, refl, refl)
plan_along-IsPinned env req s p (g ∷ gs) plan h =
    let (primary, e₁, h₁) = >>=-eq-ok (run p.raw_edges 0 0 (pos 0) (pos 0) (g ∷ gs)) _ h in
    let (cs, e₂, h₂) =
      >>=-eq-ok
        (candidates p.raw_edges (g ∷ gs) 1
          (group_all [] (execute_ksp env.pg p.sorted.admissible p.origin.1 p.destination.1 3 s)))
        _ h₁ in
    rw (← ok-injective {E = RoutingError} h₂) (refl, refl, refl)

search-IsPinned :
    (env : RoutingSurroundings) (req : RouteRequest) (s : RoutingStore) (p : Prepared)
    (es : List AdmissibleEdge) (plan : RoutePlan)
    → search_route env req s p es ≡ ok plan
    → IsPinned plan p.version
search-IsPinned env req s p [] plan h = rw (← ok-injective {E = RoutingError} h) (refl, refl, refl)
search-IsPinned env req s p (e ∷ es) plan h = plan_along-IsPinned env req s p _ plan h

-- The steps of an evaluation that returns.
evaluate-steps :
    (env : RoutingSurroundings) (req : RouteRequest) (s s' : RoutingStore) (plan : RoutePlan)
    → evaluate_route env req s ≡ ok (plan, s')
    → (p : Prepared) × (prepare env req s ≡ ok p)
      × (search_route env req s p p.sorted.admissible ≡ ok plan)
      × (s' ≡ save_route_plan plan s)
unfolding evaluate_route
evaluate-steps env req s s' plan h =
    let (p, ready, h₁) = >>=-eq-ok (prepare env req s) _ h in
    let (found, searched, h₂) = >>=-eq-ok (search_route env req s p p.sorted.admissible) _ h₁ in
    let (_, h₃) =
      raise_if-ok (search_failed env s p p.sorted.admissible) transaction_aborted
        (ok (found, save_route_plan found s)) h₂ in
    let pair = ok-injective {E = RoutingError} h₃ in
    let is : found ≡ plan = ap (λ x. x.0) pair in
    (p, ready, rw is at searched, sym (ap (λ x. x.1) pair) ∙ ap (λ x. save_route_plan x s) is)

-- The plan of an evaluation is stored, and pinned to the active version.
pub evaluate-IsPinned :
    (env : RoutingSurroundings) (req : RouteRequest) (s s' : RoutingStore) (plan : RoutePlan)
    → evaluate_route env req s ≡ ok (plan, s')
    → (version : VersionRow) × (get_active_network_version s ≡ ok version)
      × IsPinned plan version
      × (s' ≡ save_route_plan plan s)
evaluate-IsPinned env req s s' plan h =
    let (p, ready, searched, stored) = evaluate-steps env req s s' plan h in
    let (active, sorted) = prepared env req s p ready in
    (p.version, active, search-IsPinned env req s p p.sorted.admissible plan searched, stored)

-- When pgRouting answers with edges of the query and no index stands for two stored edges, an
-- evaluation that returns stores its plan, which names the active network version and its status and
-- lasts an hour. Each edge of the route and of the alternatives is an edge of that version that has no
-- reason against it: it is not closed, has no caution when the cargo is critical, no bridge on it has
-- a known limit that the vehicle exceeds (a limit that is not recorded passes), and where there is a
-- night curfew, the departure plus the edge's own seconds is not in it. The totals are those of the
-- last edge, or else there is no route and a human reviews the plan.
pub evaluate-Over :
    (env : RoutingSurroundings) (req : RouteRequest) (s s' : RoutingStore) (plan : RoutePlan)
    → UsesGiven env.pg
    → SoleIndexes s
    → evaluate_route env req s ≡ ok (plan, s')
    → (version : VersionRow) × (get_active_network_version s ≡ ok version)
      × IsPinned plan version
      × (s' ≡ save_route_plan plan s)
      × Over (MayUse env.times req.vehicle s version.id) plan
evaluate-Over env req s s' plan given sole h =
    let (p, ready, searched, stored) = evaluate-steps env req s s' plan h in
    let (active, sorted) = prepared env req s p ready in
    let (along, others) =
      execute-Names env.times req.vehicle s p.version.id env.pg p.sorted p.origin.1 p.destination.1
        given sole sorted in
    (
      p.version,
      active,
      search-IsPinned env req s p p.sorted.admissible plan searched,
      stored,
      search-Over _ env req s p p.sorted.admissible plan along others searched,
    )
