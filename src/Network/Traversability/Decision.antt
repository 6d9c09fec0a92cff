-- ===== src/Network/Traversability/Decision.antt =====
-- `evaluate_traversability` decides `Passable`.
use smart_logistics_accessib.Base.{
  float, ◌≡◌, false, ◌&&◌, not, Option, none, List, DateTime, select,
}
use smart_logistics_accessib.Network.Entities.{
  RoadEdge, EdgeRestriction, VehicleProfile, TraversabilityResult,
}
use smart_logistics_accessib.Network.Traversability.{
  is_active, has_weight_limit, check_all, time_or,
}
use smart_logistics_accessib.Network.Traversability.Passable.{Passable}

abbrev pub IsRefusal : TraversabilityResult → Type 0
IsRefusal x = (x.can_traverse ≡ false) × (x.delay_penalty_seconds ≡ float 0)

-- A status that lets the vehicle on leaves the decision to the bridge and to the restrictions.
module _ (v : VehicleProfile) (edge : RoadEdge) (now : DateTime)
    (active : List EdgeRestriction) where
  abbrev Clears : Type 0
  Clears =
      (edge.is_bridge && v.is_heavy_vehicle && not (has_weight_limit active) ≡ false)
      × (check_all v now active ≡ none)

module _ (clock : DateTime) (v : VehicleProfile) (edge : RoadEdge) (at : Option DateTime) where
  abbrev ClearsAt : List EdgeRestriction → Type 0
  ClearsAt rs = Clears v edge (time_or at clock) (select (is_active (time_or at clock)) rs)
