-- ===== src/Routing/Decision/Evaluated.antt =====
-- A decision on a plan that was just evaluated.
use smart_logistics_accessib.Base.{
  ◌≡◌, refl, none, ◌+◌, ◌≤◌, ◌==◌, ==_iff, arith, hours, find, find-append_new, [], ok,
}
use smart_logistics_accessib.Routing.Entities.{RoutePlan, DispatchDecision}
use smart_logistics_accessib.Routing.Store.{RoutingStore, VersionRow, get_active_network_version}
use smart_logistics_accessib.Routing.Plans.{save_route_plan, stored_line}
use smart_logistics_accessib.Routing.Evaluation.{RouteRequest, RoutingSurroundings, evaluate_route}
use smart_logistics_accessib.Routing.Evaluation.Admitted.{IsPinned, evaluate-IsPinned}
use smart_logistics_accessib.Routing.Decision.{
  DecisionRequest, DecisionSurroundings, record_dispatch_decision,
}
use smart_logistics_accessib.Routing.Decision.Fresh.{Fresh, fresh_returns}

save-Fresh :
    (env : DecisionSurroundings) (req : DecisionRequest) (s : RoutingStore) (plan : RoutePlan)
    (version : VersionRow)
    → get_active_network_version s ≡ ok version
    → IsPinned plan version
    → find (λ (p : RoutePlan). p.id == plan.id) s.route_plans ≡ none
    → req.route_plan_id ≡ plan.id
    → env.now ≤ plan.evaluated_at + hours 1
    → Fresh env req (save_route_plan plan s)
unfolding save_route_plan get_active_network_version
save-Fresh env req s plan version active pinned new names in_time = record {
  plan = record plan {
    primary_geometry = stored_line plan.primary_geometry;
    edges = [];
    alternatives = [];
  };
  live = version;
  stored = rw names (
      find-append_new (λ (p : RoutePlan). p.id == plan.id) s.route_plans _ new
        ((==_iff plan.id plan.id).1 refl));
  unexpired = rw pinned.2 in_time;
  active = active;
  current = omega (arith, pinned.1);
}

-- A decision on a plan that was evaluated at most an hour ago returns while the status of the network
-- stays, whatever the decision and whether the plan has a route or not.
pub evaluated_decides :
    (env : RoutingSurroundings) (req : RouteRequest) (s s' : RoutingStore) (plan : RoutePlan)
    (denv : DecisionSurroundings) (dreq : DecisionRequest)
    → evaluate_route env req s ≡ ok (plan, s')
    → find (λ (p : RoutePlan). p.id == plan.id) s.route_plans ≡ none
    → dreq.route_plan_id ≡ plan.id
    → denv.now ≤ plan.evaluated_at + hours 1
    → (x : DispatchDecision × RoutingStore) × (record_dispatch_decision denv dreq s' ≡ ok x)
evaluated_decides env req s s' plan denv dreq evaluated new names in_time =
    let (version, active, pinned, stored) = evaluate-IsPinned env req s s' plan evaluated in
    rw stored (
      fresh_returns denv dreq (save_route_plan plan s)
        (save-Fresh denv dreq s plan version active pinned new names in_time))
