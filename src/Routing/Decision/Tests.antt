-- ===== src/Routing/Decision/Tests.antt =====
-- Instances for the decision on a plan.
use smart_logistics_accessib.Base.{◌≡◌, refl, ok, hours, arith, ◌≤◌, ◌+◌, true}
use smart_logistics_accessib.Routing.Entities.{DispatchDecision, accepted}
use smart_logistics_accessib.Routing.Store.{
  RoutingStore, VersionRow, get_active_network_version, save_dispatch_decision,
}
use smart_logistics_accessib.Routing.Plans.{get_route_plan_by_id, save_route_plan}
use smart_logistics_accessib.Routing.Decision.{
  DecisionRequest, DecisionSurroundings, decision_of, record_dispatch_decision,
}
use smart_logistics_accessib.Routing.Decision.Fresh.{Taken, decision-Taken}
use smart_logistics_accessib.Routing.Decision.Evaluated.{evaluated_decides}
use smart_logistics_accessib.Routing.Samples.{net, request, surroundings, plan, evaluated}

abbrev acceptance : DecisionRequest
acceptance = record {
  trip_id = 90;
  route_plan_id = 300;
  actor_id = 7;
  action = accepted;
  reason = "clear";
  selected_alternative_rank = 0;
}

abbrev at_the_desk : DecisionSurroundings
at_the_desk = record { decision_id = 400; now = hours 3; created_at = hours 3 }

abbrev live : VersionRow
live = record { id = 1; code = "ne-1"; status_version = 5; is_active = true; built_at = 0 }

abbrev decision : DispatchDecision
decision = decision_of at_the_desk acceptance live

decided :
    record_dispatch_decision at_the_desk acceptance (save_route_plan plan net)
    ≡ ok (decision, save_dispatch_decision decision (save_route_plan plan net))
unfolding record_dispatch_decision get_active_network_version get_route_plan_by_id save_route_plan
decided = refl

decision-Taken_example :
    Taken at_the_desk acceptance
      (save_route_plan plan net)
      decision
      (save_dispatch_decision decision (save_route_plan plan net))
decision-Taken_example =
    decision-Taken at_the_desk acceptance (save_route_plan plan net) decision
      (save_dispatch_decision decision (save_route_plan plan net)) decided

in_time : at_the_desk.now ≤ plan.evaluated_at + hours 1
in_time = omega arith

evaluated_decides_example :
    (x : DispatchDecision × RoutingStore) × (record_dispatch_decision at_the_desk acceptance
        (save_route_plan plan net)
      ≡ ok x)
evaluated_decides_example =
    evaluated_decides surroundings request net (save_route_plan plan net) plan at_the_desk
      acceptance evaluated refl refl in_time
