-- ===== src/Logistics/Store.antt =====
-- backend/app/modules/logistics/infrastructure/repository.py: the tables and the queries on them.
-- A trip's row holds its stops and the commitments that its link rows name.
use smart_logistics_accessib.Base.{
  Bool, true, false, ◌&&◌, Option, List, [], ◌∷◌, ◌++◌, Uuid, DateTime, ◌==◌, ltb, find,
  update_where, count_if, elem,
}
use smart_logistics_accessib.Logistics.Enums.{
  TripStatus, DeliveryStatus, held_for_inspection, aborted,
}
use smart_logistics_accessib.Logistics.Entities.{Vehicle, Driver, DeliveryCommitment, Trip}

pub record LogisticsStore : Type 0 where
  pub vehicles : List Vehicle
  pub drivers : List Driver
  pub commitments : List DeliveryCommitment
  pub trips : List Trip

unfoldable pub get_vehicle_by_id : Uuid → LogisticsStore → Option Vehicle
get_vehicle_by_id id s = find (λ v. v.id == id) s.vehicles

unfoldable pub get_driver_by_id : Uuid → LogisticsStore → Option Driver
get_driver_by_id id s = find (λ d. d.id == id) s.drivers

unfoldable pub get_commitment_by_id : Uuid → LogisticsStore → Option DeliveryCommitment
get_commitment_by_id id s = find (λ c. c.id == id) s.commitments

unfoldable pub get_trip_by_id : Uuid → LogisticsStore → Option Trip
get_trip_by_id id s = find (λ t. t.id == id) s.trips

-- `status in ("DISPATCHED", "IN_TRANSIT", "HELD_FOR_INSPECTION")`
abbrev pub is_active_status : TripStatus → Bool
is_active_status TripStatus.dispatched = true
is_active_status TripStatus.in_transit = true
is_active_status held_for_inspection = true
is_active_status _ = false

abbrev pub occupies_vehicle : Uuid → Trip → Bool
occupies_vehicle vehicle_id t = t.vehicle_id == vehicle_id && is_active_status t.status

abbrev pub occupies_driver : Uuid → Trip → Bool
occupies_driver driver_id t = t.driver_id == driver_id && is_active_status t.status

unfoldable pub is_vehicle_dispatched : Uuid → LogisticsStore → Bool
is_vehicle_dispatched vehicle_id s = ltb 0 (count_if (occupies_vehicle vehicle_id) s.trips)

unfoldable pub is_driver_dispatched : Uuid → LogisticsStore → Bool
is_driver_dispatched driver_id s = ltb 0 (count_if (occupies_driver driver_id) s.trips)

abbrev pub with_delivery_status : DeliveryStatus → DeliveryCommitment → DeliveryCommitment
with_delivery_status status c = record c { status = status }

-- one update for each identifier of the list
abbrev pub mark_dispatched : List Uuid → List DeliveryCommitment → List DeliveryCommitment
mark_dispatched [] cs = cs
mark_dispatched (id ∷ ids) cs =
    mark_dispatched ids
      (update_where (λ c. c.id == id) (with_delivery_status DeliveryStatus.dispatched) cs)

unfoldable pub save_trip : Trip → LogisticsStore → LogisticsStore
save_trip t s = record s {
  commitments = mark_dispatched t.commitment_ids s.commitments;
  trips = s.trips ++ t ∷ [];
}

-- the statuses that give the commitments back
abbrev pub releases : TripStatus → Bool
releases TripStatus.cancelled = true
releases aborted = true
releases _ = false

abbrev pub release : Bool → List Uuid → List DeliveryCommitment → List DeliveryCommitment
release false ids cs = cs
release true ids cs =
    update_where (λ c. elem c.id ids) (with_delivery_status DeliveryStatus.pending) cs

-- the commitments that a trip's link rows name
abbrev pub linked : Option Trip → List Uuid
linked Option.none = []
linked (Option.some t) = t.commitment_ids

unfoldable pub update_trip_status : Uuid → TripStatus → DateTime → LogisticsStore → LogisticsStore
unfolding get_trip_by_id
update_trip_status id status now s = record s {
  commitments = release (releases status) (linked (get_trip_by_id id s)) s.commitments;
  trips =
      update_where (λ t. t.id == id) (λ t. record t { status = status; updated_at = now }) s.trips;
}
