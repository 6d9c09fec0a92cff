-- ===== src/Logistics/Dispatch/Tests.antt =====
-- Runs of the dispatch and of the status update.
use smart_logistics_accessib.Base.{
  ◌≡◌, refl, some, quarter, ◌≤◌, arith, ok, In, here, there, hours, count_if, ◌≢◌, sym, ◌∙◌,
}
use smart_logistics_accessib.Logistics.Enums.{TripStatus, diverted, planned}
use smart_logistics_accessib.Logistics.Entities.{Trip}
use smart_logistics_accessib.Logistics.Rules.{validate_trip_state_transition}
use smart_logistics_accessib.Logistics.Store.{
  LogisticsStore, get_vehicle_by_id, get_driver_by_id, get_commitment_by_id, get_trip_by_id,
  is_vehicle_dispatched, is_driver_dispatched, save_trip, update_trip_status, occupies_vehicle,
}
use smart_logistics_accessib.Logistics.Dispatch.{
  add_cargo, gather, build_trip, dispatch_trip, update_trip_status_use_case,
}
use smart_logistics_accessib.Logistics.Dispatch.Checked.{Cleared, dispatch_sound}
use smart_logistics_accessib.Logistics.Dispatch.Exclusive.{
  Exclusive, dispatch-Exclusive, update-Exclusive,
}
use smart_logistics_accessib.Logistics.Dispatch.Diverted.{diverted_shares_vehicle}
use smart_logistics_accessib.Logistics.Samples.{fleet, on_the_road, order, depot, trip_of}

dispatched :
    dispatch_trip depot order fleet
    ≡ ok (build_trip depot order, save_trip (build_trip depot order) fleet)
unfolding dispatch_trip get_vehicle_by_id get_driver_by_id get_commitment_by_id
    is_vehicle_dispatched is_driver_dispatched gather add_cargo quarter
dispatched = refl

dispatch_sound_example :
    Cleared depot order fleet
    × (build_trip depot order ≡ build_trip depot order)
    × (save_trip (build_trip depot order) fleet ≡ save_trip (build_trip depot order) fleet)
dispatch_sound_example = dispatch_sound depot order fleet _ _ dispatched

fleet-Exclusive : Exclusive fleet
fleet-Exclusive = record { vehicles = λ v. ground arith; drivers = λ d. ground arith }

dispatch-Exclusive_example : Exclusive (save_trip (build_trip depot order) fleet)
dispatch-Exclusive_example = dispatch-Exclusive depot order fleet _ _ fleet-Exclusive dispatched

road-Exclusive : Exclusive on_the_road
road-Exclusive = record { vehicles = λ v. ground arith; drivers = λ d. ground arith }

one_trip : (t u : Trip) → In t on_the_road.trips → In u on_the_road.trips → t.id ≡ u.id → t ≡ u
one_trip t u (here e) (here d) h = e ∙ sym d
one_trip t u (here e) (there m) h = elim m [ ]
one_trip t u (there m) n h = elim m [ ]

steady_91 :
    (t : Trip) → In t on_the_road.trips → t.id ≡ 91 → (t.status ≢ planned) × (t.status ≢ diverted)
steady_91 t (here e) h = rw e ((λ q. cc), (λ q. cc))
steady_91 t (there m) h = elim m [ ]

abbrev held : LogisticsStore
held = update_trip_status 91 diverted (hours 14) on_the_road

diverts : update_trip_status_use_case (hours 14) 91 diverted on_the_road ≡ ok held
unfolding update_trip_status_use_case get_trip_by_id validate_trip_state_transition
diverts = refl

update-Exclusive_example : Exclusive held
update-Exclusive_example =
    update-Exclusive (hours 14) 91 diverted on_the_road held road-Exclusive one_trip steady_91
      diverts

found_90 : get_trip_by_id 90 fleet ≡ some (trip_of 90 diverted)
unfolding get_trip_by_id
found_90 = refl

diverted_shares_vehicle_example :
    (s'' : LogisticsStore) × (update_trip_status_use_case
        (hours 15)
        90
        TripStatus.in_transit
        (save_trip (build_trip depot order) fleet)
      ≡ ok s'')
    × (2 ≤ count_if (occupies_vehicle 1) s''.trips)
diverted_shares_vehicle_example =
    diverted_shares_vehicle depot order fleet _ (trip_of 90 diverted) _ (hours 15) found_90 refl
      refl dispatched
