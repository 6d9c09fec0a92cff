-- ===== src/Logistics/Dispatch/Exclusive.antt =====
-- A vehicle and a driver on at most one active trip.
use smart_logistics_accessib.Base.{
  ◌≡◌, refl, Bool, true, false, ◌&&◌, not, List, [], ◌∷◌, ◌++◌, Uuid, DateTime, ℕ, ◌+◌, ◌≤◌, arith,
  ◌==◌, ==_iff, ltb, if◌then◌else◌, inl, inr, Bool-cases, ok, >>=-eq-ok, raise_if-ok, ok-injective,
  In, here, there, count_if, update_where, ◌≢◌, sym, ◌∙◌, find-In, find-holds, Option, none, some,
}
use smart_logistics_accessib.Logistics.Enums.{
  TripStatus, planned, diverted, held_for_inspection, completed, aborted,
}
use smart_logistics_accessib.Logistics.Entities.{Trip}
use smart_logistics_accessib.Logistics.Rules.{validate_trip_state_transition}
use smart_logistics_accessib.Logistics.Store.{
  LogisticsStore, get_trip_by_id, is_active_status, occupies_vehicle, occupies_driver,
  is_vehicle_dispatched, is_driver_dispatched, save_trip, update_trip_status,
}
use smart_logistics_accessib.Logistics.Dispatch.{
  DispatchRequest, Surroundings, build_trip, dispatch_trip, known_trip, update_trip_status_use_case,
  invalid_transition,
}
use smart_logistics_accessib.Logistics.Dispatch.Checked.{dispatch_sound}

pub record Exclusive (s : LogisticsStore) : Type 0 where
  pub vehicles : (v : Uuid) → count_if (occupies_vehicle v) s.trips ≤ 1
  pub drivers : (d : Uuid) → count_if (occupies_driver d) s.trips ≤ 1

pub count_if-append :
    {A : Type 0} (p : A → Bool) (xs : List A) (x : A)
    → count_if p (xs ++ x ∷ []) ≡ count_if p xs + (if p x then 1 else 0)
count_if-append p [] x = omega arith
count_if-append p (y ∷ ys) x = omega (arith, count_if-append p ys x)

-- One more trip for the key that was free.
one_more :
    (p : Trip → Bool) (ts : List Trip) (t : Trip)
    → count_if p ts ≤ 1
    → (p t ≡ true → count_if p ts ≡ 0)
    → count_if p (ts ++ t ∷ []) ≤ 1
one_more p ts t few free = elim (Bool-cases (p t)) [
  | inl hit ↦ rw (count_if-append p ts t, hit, free hit) (omega arith)
  | inr miss ↦ rw (count_if-append p ts t, miss) (omega (arith, few))
]

none_counted : (n : ℕ) → ltb 0 n ≡ false → n ≡ 0
none_counted n h = ground arith

same_key : (a b : ℕ) (c : Bool) → (a == b && c) ≡ true → a ≡ b
same_key a b c h = ground arith

-- After a dispatch that returns, still no vehicle and no driver is on two active trips.
pub dispatch-Exclusive :
    (env : Surroundings) (req : DispatchRequest) (s : LogisticsStore) (t : Trip)
    (s' : LogisticsStore)
    → Exclusive s
    → dispatch_trip env req s ≡ ok (t, s')
    → Exclusive s'
unfolding is_vehicle_dispatched is_driver_dispatched save_trip build_trip
dispatch-Exclusive env req s t s' x h =
    let (c, et, es) = dispatch_sound env req s t s' h in
    rw (es, et)
      (record {
        vehicles = λ v.
            one_more (occupies_vehicle v) s.trips _ (x.vehicles v)
              (λ e. rw (← same_key req.vehicle_id v _ e) (none_counted _ c.vehicle_free));
        drivers = λ d.
            one_more (occupies_driver d) s.trips _ (x.drivers d)
              (λ e. rw (← same_key req.driver_id d _ e) (none_counted _ c.driver_free));
      })

abbrev pub with_status : TripStatus → DateTime → Trip → Trip
with_status status now t = record t { status = status; updated_at = now }

pub test_if :
    (p : Trip → Bool) (b : Bool) (t u : Trip) → p (if b then u else t) ≡ (if b then p u else p t)
test_if p true t u = refl
test_if p false t u = refl

row_bound :
    (b new old : Bool) (m n : ℕ)
    → (b ≡ true → new ≡ true → old ≡ true)
    → m ≤ n
    → (if (if b then new else old) then 1 else 0) + m ≤ (if old then 1 else 0) + n
row_bound b new true m n h le = ground arith
row_bound true true false m n h le = cc (h refl refl)
row_bound true false false m n h le = omega (arith, le)
row_bound false new false m n h le = omega (arith, le)

-- An update that makes no row count that did not.
count_if-update_where :
    (p q : Trip → Bool) (f : Trip → Trip) (ts : List Trip)
    → ((t : Trip) → In t ts → q t ≡ true → p (f t) ≡ true → p t ≡ true)
    → count_if p (update_where q f ts) ≤ count_if p ts
count_if-update_where p q f [] h = omega arith
count_if-update_where p q f (t ∷ ts) h = rw (test_if p (q t) t (f t)) (
    row_bound (q t) _ _ _ _ (h t (here refl))
      (count_if-update_where p q f ts (λ u m. h u (there m))))

-- A row stays in use, with the same keys, when it was active.
still_vehicle :
    (v : Uuid) (status : TripStatus) (now : DateTime) (t : Trip)
    → is_active_status t.status ≡ true
    → occupies_vehicle v (with_status status now t) ≡ true
    → occupies_vehicle v t ≡ true
still_vehicle v status now t a h = rw a (ground (arith, h))

still_driver :
    (d : Uuid) (status : TripStatus) (now : DateTime) (t : Trip)
    → is_active_status t.status ≡ true
    → occupies_driver d (with_status status now t) ≡ true
    → occupies_driver d t ≡ true
still_driver d status now t a h = rw a (ground (arith, h))

-- A trip that may change at all, and is neither planned nor diverted, is active.
may_change :
    (a b : TripStatus)
    → (a ≢ planned) × (a ≢ diverted)
    → validate_trip_state_transition a b ≡ true
    → is_active_status a ≡ true
unfolding validate_trip_state_transition
may_change planned b (p, d) h = elim (p refl) [ ]
may_change diverted b (p, d) h = elim (d refl) [ ]
may_change TripStatus.dispatched b (p, d) h = refl
may_change TripStatus.in_transit b (p, d) h = refl
may_change held_for_inspection b (p, d) h = refl
may_change completed b (p, d) h = cc
may_change TripStatus.cancelled b (p, d) h = cc
may_change aborted b (p, d) h = cc

-- A change of the status of a trip that is neither planned nor diverted, whatever it is changed to,
-- keeps every vehicle and every driver on at most one active trip, when the identifiers of trips are
-- unique: a finished trip does not become active again.
pub update-Exclusive :
    (now : DateTime) (id : Uuid) (target : TripStatus) (s s' : LogisticsStore)
    → Exclusive s
    → ((t u : Trip) → In t s.trips → In u s.trips → t.id ≡ u.id → t ≡ u)
    → ((t : Trip) → In t s.trips → t.id ≡ id → (t.status ≢ planned) × (t.status ≢ diverted))
    → update_trip_status_use_case now id target s ≡ ok s'
    → Exclusive s'
unfolding update_trip_status_use_case update_trip_status get_trip_by_id
update-Exclusive now id target s s' x sole steady h =
    let (t, known, h1) = >>=-eq-ok (known_trip (get_trip_by_id id s)) _ h in
    let (refused, h2) =
      raise_if-ok (not (validate_trip_state_transition t.status target)) invalid_transition _ h1 in
    let found = trip_known _ t known in
    let row = find-In (λ u. u.id == id) s.trips t found in
    let named = (==_iff t.id id).0 (find-holds (λ u. u.id == id) s.trips t found) in
    let active : (u : Trip) → In u s.trips → u.id ≡ id → is_active_status u.status ≡ true = λ u m e.
      let same : t ≡ u = sole t u row m (named ∙ sym e) in
      rw same at (may_change t.status target (steady t row named) (holds _ refused)) in
    rw (← ok-injective h2) (record {
      vehicles = λ v.
          bounded (occupies_vehicle v) (λ u a e. still_vehicle v target now u a e) active
            (x.vehicles v);
      drivers = λ d.
          bounded (occupies_driver d) (λ u a e. still_driver d target now u a e) active
            (x.drivers d);
    })
  where
    trip_known : (o : Option Trip) (t : Trip) → known_trip o ≡ ok t → o ≡ some t
    trip_known none t e = cc
    trip_known (some u) t e = cc

    holds : (b : Bool) → not b ≡ false → b ≡ true
    holds b e = ground arith

    bounded :
        (p : Trip → Bool)
        → ((t : Trip)
            → is_active_status t.status ≡ true
            → p (with_status target now t) ≡ true
            → p t ≡ true)
        → ((t : Trip) → In t s.trips → t.id ≡ id → is_active_status t.status ≡ true)
        → count_if p s.trips ≤ 1
        → count_if p (update_where (λ t. t.id == id) (with_status target now) s.trips) ≤ 1
    bounded p still active le = omega (
      arith,
      le,
      count_if-update_where p (λ t. t.id == id) (with_status target now) s.trips
          (λ u m a. still u (active u m ((==_iff u.id id).0 a))),
    )
