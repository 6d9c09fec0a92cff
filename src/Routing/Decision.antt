-- ===== src/Routing/Decision.antt =====
-- backend/app/modules/routing/application/record_dispatch_decision.py. A fresh identifier, the clock
-- and the default of `created_at` are arguments.
pub mod Fresh
pub mod Evaluated
mod Tests
use smart_logistics_accessib.Base.{
  String, Option, none, some, Uuid, DateTime, ℕ, ltb, Result, ok, err, ◌>>=◌, ◌>>◌, raise_if,
}
use smart_logistics_accessib.Routing.Entities.{RoutePlan, DispatchDecision, DispatchAction}
use smart_logistics_accessib.Routing.Constraints.{
  RoutingError, plan_not_found, plan_expired, network_status_changed,
}
use smart_logistics_accessib.Routing.Store.{
  RoutingStore, VersionRow, get_active_network_version, save_dispatch_decision,
}
use smart_logistics_accessib.Routing.Plans.{get_route_plan_by_id}

-- the arguments of RecordDispatchDecisionUseCase.execute
pub record DecisionRequest : Type 0 where
  pub trip_id : Uuid
  pub route_plan_id : Uuid
  pub actor_id : Uuid
  pub action : DispatchAction
  pub reason : String
  pub selected_alternative_rank : ℕ

pub record DecisionSurroundings : Type 0 where
  pub decision_id : Uuid
  pub now : DateTime
  pub created_at : DateTime

abbrev pub known_plan : Option RoutePlan → Result RoutingError RoutePlan
known_plan none = err plan_not_found
known_plan (some p) = ok p

abbrev pub decision_of : DecisionSurroundings → DecisionRequest → VersionRow → DispatchDecision
decision_of env req live = record {
  id = env.decision_id;
  trip_id = req.trip_id;
  route_plan_id = req.route_plan_id;
  actor_id = req.actor_id;
  action = req.action;
  selected_alternative_rank = req.selected_alternative_rank;
  reason = req.reason;
  status_version_at_decision = live.status_version;
  decided_at = env.now;
  created_at = env.created_at;
}

unfoldable pub record_dispatch_decision :
    DecisionSurroundings
    → DecisionRequest
    → RoutingStore
    → Result RoutingError (DispatchDecision × RoutingStore)
record_dispatch_decision env req s = do
  plan ← known_plan (get_route_plan_by_id req.route_plan_id s)
  raise_if (ltb plan.expires_at env.now) plan_expired
  live ← get_active_network_version s
  raise_if (ltb plan.status_version live.status_version) network_status_changed
  ok (decision_of env req live, save_dispatch_decision (decision_of env req live) s)
