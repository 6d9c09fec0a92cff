-- ===== src/Logistics/Rules/Tests.antt =====
-- Runs of the logistics module's rules.
use smart_logistics_accessib.Base.{◌≡◌, ◌↔◌, true, In}
use smart_logistics_accessib.Logistics.Enums.{diverted, completed}
use smart_logistics_accessib.Logistics.Rules.{validate_trip_state_transition}
use smart_logistics_accessib.Logistics.Rules.Laws.{Life, comes_from, reaches, trip-Life}

trip-Life_example :
    ((validate_trip_state_transition diverted completed ≡ true)
      ↔ In diverted (comes_from completed))
    × (Life diverted completed ↔ (reaches diverted completed ≡ true))
trip-Life_example = trip-Life diverted completed
