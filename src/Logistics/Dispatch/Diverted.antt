-- ===== src/Logistics/Dispatch/Diverted.antt =====
-- A diverted trip is not counted as active, and may go back to transit.
use smart_logistics_accessib.Base.{
  ◌≡◌, refl, Bool, true, false, some, List, [], ◌∷◌, ◌++◌, Uuid, DateTime, ℕ, ◌+◌, ◌≤◌, arith, ◌==◌,
  ==_iff, if◌then◌else◌, ok, In, here, there, count_if, update_where, find-In, find-append_old,
  In-append_left,
}
use smart_logistics_accessib.Logistics.Enums.{TripStatus, diverted}
use smart_logistics_accessib.Logistics.Entities.{Trip}
use smart_logistics_accessib.Logistics.Rules.{validate_trip_state_transition}
use smart_logistics_accessib.Logistics.Store.{
  LogisticsStore, get_trip_by_id, occupies_vehicle, save_trip, update_trip_status,
}
use smart_logistics_accessib.Logistics.Dispatch.{
  DispatchRequest, Surroundings, build_trip, dispatch_trip, update_trip_status_use_case,
}
use smart_logistics_accessib.Logistics.Dispatch.Checked.{dispatch_sound}
use smart_logistics_accessib.Logistics.Dispatch.Exclusive.{count_if-append, test_if, with_status}

-- Updates that keep the rows that count.
row_kept :
    (b new old : Bool) (m n : ℕ)
    → (old ≡ true → new ≡ true)
    → m ≤ n
    → (if old then 1 else 0) + m ≤ (if (if b then new else old) then 1 else 0) + n
row_kept b true old m n h le = ground arith
row_kept b false true m n h le = cc (h refl)
row_kept b false false m n h le = ground arith

module _ (p q : Trip → Bool) (f : Trip → Trip)
    (keeps : (u : Trip) → p u ≡ true → p (f u) ≡ true) where
  count_if-kept : (ts : List Trip) → count_if p ts ≤ count_if p (update_where q f ts)
  count_if-kept [] = omega arith
  count_if-kept (t ∷ ts) =
      rw (test_if p (q t) t (f t)) (row_kept (q t) _ _ _ _ (keeps t) (count_if-kept ts))

  count_if-raised :
      (ts : List Trip) (t : Trip)
      → In t ts
      → q t ≡ true
      → p t ≡ false
      → p (f t) ≡ true
      → count_if p ts + 1 ≤ count_if p (update_where q f ts)
  count_if-raised [] t m a b c = elim m [ ]
  count_if-raised (u ∷ ts) t (here e) a b c =
      let le = count_if-kept ts in rw (← e, a, b, c) (omega (arith, le))
  count_if-raised (u ∷ ts) t (there m) a b c =
      let le = count_if-raised ts t m a b c in
      rw (test_if p (q u) u (f u)) (omega (arith, row_kept (q u) (p (f u)) (p u) _ _ (keeps u) le))

resumed_counts :
    (v : Uuid) (now : DateTime) (u : Trip)
    → occupies_vehicle v u ≡ true
    → occupies_vehicle v (with_status TripStatus.in_transit now u) ≡ true
resumed_counts v now u h = ground arith

two : (m n k : ℕ) → m ≡ n + 1 → m + 1 ≤ k → 2 ≤ k
two m n k e le = omega (arith, e, le)

-- A diverted trip does not keep its vehicle from a dispatch: when the dispatch returns, the diverted
-- trip may be put back in transit, and then at least two active trips have the vehicle.
pub diverted_shares_vehicle :
    (env : Surroundings) (req : DispatchRequest) (s s' : LogisticsStore) (t u : Trip)
    (now : DateTime)
    → get_trip_by_id t.id s ≡ some t
    → t.status ≡ diverted
    → t.vehicle_id ≡ req.vehicle_id
    → dispatch_trip env req s ≡ ok (u, s')
    → (s'' : LogisticsStore) × (update_trip_status_use_case now t.id TripStatus.in_transit s'
        ≡ ok s'')
      × (2 ≤ count_if (occupies_vehicle req.vehicle_id) s''.trips)
unfolding update_trip_status_use_case update_trip_status save_trip build_trip get_trip_by_id
    validate_trip_state_transition
diverted_shares_vehicle env req s s' t u now found d same h =
    let (c, et, es) = dispatch_sound env req s u s' h in
    let old = find-append_old (λ x. x.id == t.id) s.trips (u ∷ []) t found in
    let m = In-append_left t s.trips (u ∷ []) (find-In _ s.trips t found) in
    let more =
      count_if-raised (occupies_vehicle req.vehicle_id) (λ x. x.id == t.id)
        (with_status TripStatus.in_transit now) (λ x k. resumed_counts req.vehicle_id now x k)
        (s.trips ++ u ∷ []) t m ((==_iff t.id t.id).1 refl) (rw d (ground arith))
        (rw same (ground arith)) in
    let here_too : occupies_vehicle req.vehicle_id u ≡ true = rw et (ground arith) in
    let counted = count_if-append (occupies_vehicle req.vehicle_id) s.trips u in
    let counted' = rw here_too at counted in rw (es, old, d) (_, refl, two _ _ _ counted' more)
