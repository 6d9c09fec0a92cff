-- ===== src/Routing/Evaluation/Tests.antt =====
-- An instance for the evaluation of a route.
use smart_logistics_accessib.Base.{◌≡◌, ok}
use smart_logistics_accessib.Routing.Store.{VersionRow, get_active_network_version}
use smart_logistics_accessib.Routing.Plans.{save_route_plan}
use smart_logistics_accessib.Routing.Evaluation.Joined.{MayUse}
use smart_logistics_accessib.Routing.Evaluation.Admitted.{IsPinned, Over, evaluate-Over}
use smart_logistics_accessib.Routing.Samples.{
  net, lorry, request, surroundings, first_edge-UsesGiven, net-SoleIndexes, plan, evaluated,
}

evaluate-Over_example :
    (version : VersionRow) × (get_active_network_version net ≡ ok version)
    × IsPinned plan version
    × (save_route_plan plan net ≡ save_route_plan plan net)
    × Over (MayUse surroundings.times lorry net version.id) plan
evaluate-Over_example =
    evaluate-Over surroundings request net (save_route_plan plan net) plan first_edge-UsesGiven
      net-SoleIndexes evaluated
