-- ===== src/Logistics/Rules/Laws.antt =====
-- The windows of a deadline's state, the life of a trip, and what a masked number shows.
use smart_logistics_accessib.Base.{
  ◌≡◌, ◌≢◌, ◌↔◌, refl, ap, sym, ◌∙◌, Bool, true, false, ◌&&◌, ◌||◌, not, any, any_iff, In, get_or,
  ◌==◌, ==_iff, ℕ, zero, suc, ◌+◌, ◌-◌, ◌≤◌, ◌<◌, arith, DateTime, List, [], ◌∷◌, ◌++◌, seconds,
  since, length, length-append, select, take, leb, leb_ℤ, pos, if◌then◌else◌,
}
use smart_logistics_accessib.Logistics.Enums.{
  TripStatus, DeliveryStatus, SlaStatus, planned, held_for_inspection, diverted, completed, aborted,
  delivered, on_time, at_risk, breached,
}
use smart_logistics_accessib.Logistics.Rules.{
  validate_trip_state_transition, sla_by_time, calculate_sla_status, stars, show_prefix, mask_phone,
}

undelivered :
    (r : DateTime) (d : DeliveryStatus) (now : DateTime)
    → d ≢ delivered
    → calculate_sla_status r d now ≡ sla_by_time r now
unfolding calculate_sla_status
undelivered r delivered now h = elim (h refl) [ ]
undelivered r DeliveryStatus.pending now h = refl
undelivered r DeliveryStatus.dispatched now h = refl
undelivered r DeliveryStatus.in_transit now h = refl
undelivered r DeliveryStatus.partially_delivered now h = refl
undelivered r DeliveryStatus.failed now h = refl
undelivered r DeliveryStatus.cancelled now h = refl

leb-since : (a b c : ℕ) → leb_ℤ (since a b) (pos c) ≡ leb a (b + c)
leb-since a b c = ground arith

abbrev by_tests : Bool → Bool → SlaStatus
by_tests a b = if a then breached else if b then at_risk else on_time

add_zero : (n : ℕ) → n + 0 ≡ n
add_zero n = omega arith

by_time : (r now : DateTime) → sla_by_time r now ≡ by_tests (leb r now) (leb r (now + seconds 7200))
unfolding sla_by_time
by_time r now = rw (leb-since r now 0, add_zero now, leb-since r now (seconds 7200)) refl

-- The deadline's state of goods that are not delivered: breached from the deadline on, at risk in
-- the 7200 seconds before it, on time earlier.
pub sla_windows :
    (required_before : DateTime) (d : DeliveryStatus) (now : DateTime)
    → d ≢ delivered
    → ((calculate_sla_status required_before d now ≡ breached) ↔ (required_before ≤ now))
      × ((calculate_sla_status required_before d now ≡ at_risk)
          ↔ ((now < required_before) × (required_before ≤ now + seconds 7200)))
      × ((calculate_sla_status required_before d now ≡ on_time)
          ↔ (now + seconds 7200 < required_before))
sla_windows r d now h =
    let e : calculate_sla_status r d now ≡ by_tests (leb r now) (leb r (now + seconds 7200)) =
      undelivered r d now h ∙ by_time r now in
    rw e (
      ((λ x. ground arith), (λ x. ground arith)),
      ((λ x. ground arith), (λ x. ground arith)),
      ((λ x. ground arith), (λ x. ground arith)),
    )

-- The statuses that a trip may take on, one change after another.
pub data Life (from : TripStatus) : TripStatus → Type 0 where
  starts : Life from from
  moves : {a b : TripStatus} → Life from a → validate_trip_state_transition a b ≡ true → Life from b

number : TripStatus → ℕ
number planned = 0
number TripStatus.dispatched = 1
number TripStatus.in_transit = 2
number held_for_inspection = 3
number diverted = 4
number completed = 5
number TripStatus.cancelled = 6
number aborted = 7

numbered : ℕ → TripStatus
numbered n =
    get_or
      (planned ∷ TripStatus.dispatched ∷ TripStatus.in_transit ∷ held_for_inspection ∷ diverted
        ∷ completed ∷ TripStatus.cancelled ∷ aborted ∷ [])
      n aborted

same : TripStatus → TripStatus → Bool
unfolding number
same a b = number a == number b

-- From which statuses a trip comes to a status in one change.
abbrev pub comes_from : TripStatus → List TripStatus
comes_from planned = []
comes_from TripStatus.dispatched = planned ∷ []
comes_from TripStatus.in_transit = TripStatus.dispatched ∷ held_for_inspection ∷ diverted ∷ []
comes_from held_for_inspection = TripStatus.in_transit ∷ []
comes_from diverted = TripStatus.dispatched ∷ TripStatus.in_transit ∷ held_for_inspection ∷ []
comes_from completed = TripStatus.in_transit ∷ diverted ∷ []
comes_from TripStatus.cancelled = planned ∷ TripStatus.dispatched ∷ []
comes_from aborted =
    TripStatus.dispatched ∷ TripStatus.in_transit ∷ held_for_inspection ∷ diverted ∷ []

-- The statuses of a trip on the road.
abbrev pub is_on_road : TripStatus → Bool
is_on_road TripStatus.in_transit = true
is_on_road held_for_inspection = true
is_on_road diverted = true
is_on_road _ = false

-- Where a trip can come to from a status: a planned one anywhere, a dispatched one anywhere but
-- back to planned, one on the road to any status of the road and to completed and aborted.
abbrev pub reaches : TripStatus → TripStatus → Bool
reaches planned b = true
reaches TripStatus.dispatched planned = false
reaches TripStatus.dispatched b = true
reaches completed completed = true
reaches TripStatus.cancelled TripStatus.cancelled = true
reaches aborted aborted = true
reaches a completed = is_on_road a
reaches a aborted = is_on_road a
reaches a b = is_on_road a && is_on_road b

every : (TripStatus → Bool) → Bool
every p =
    p planned
    && (p TripStatus.dispatched
        && (p TripStatus.in_transit
            && (p held_for_inspection
                && (p diverted && (p completed && (p TripStatus.cancelled && p aborted))))))

every-holds : (p : TripStatus → Bool) → every p ≡ true → (a : TripStatus) → p a ≡ true
unfolding every
every-holds p h planned = ground (arith, h)
every-holds p h TripStatus.dispatched = ground (arith, h)
every-holds p h TripStatus.in_transit = ground (arith, h)
every-holds p h held_for_inspection = ground (arith, h)
every-holds p h diverted = ground (arith, h)
every-holds p h completed = ground (arith, h)
every-holds p h TripStatus.cancelled = ground (arith, h)
every-holds p h aborted = ground (arith, h)

every_two :
    (p : TripStatus → TripStatus → Bool)
    → every (λ a. every (p a)) ≡ true
    → (a b : TripStatus) → p a b ≡ true
every_two p h a b = every-holds (p a) (every-holds (λ a. every (p a)) h a) b

numbered-number : (a : TripStatus) → numbered (number a) ≡ a
unfolding numbered number
numbered-number planned = refl
numbered-number TripStatus.dispatched = refl
numbered-number TripStatus.in_transit = refl
numbered-number held_for_inspection = refl
numbered-number diverted = refl
numbered-number completed = refl
numbered-number TripStatus.cancelled = refl
numbered-number aborted = refl

same-eq : (a b : TripStatus) → same a b ≡ true → a ≡ b
unfolding same
same-eq a b h =
    sym (numbered-number a) ∙ ap numbered ((==_iff (number a) (number b)).0 h) ∙ numbered-number b

same_refl : (a : TripStatus) → same a a ≡ true
unfolding same
same_refl a = (==_iff (number a) (number a)).1 refl

any-In : (a : TripStatus) (xs : List TripStatus) → any (same a) xs ≡ true → In a xs
any-In a xs h = let (x, m, q) = (any_iff (same a) xs).0 h in rw (same-eq a x q) m

In-any : (a : TripStatus) (xs : List TripStatus) → In a xs → any (same a) xs ≡ true
In-any a xs m = (any_iff (same a) xs).1 (a, m, same_refl a)

implies : Bool → Bool → Bool
implies p q = not p || q

implies-holds : (p q : Bool) → implies p q ≡ true → p ≡ true → q ≡ true
unfolding implies
implies-holds p q h k = ground (arith, h, k)

step-from :
    (a b : TripStatus)
    → validate_trip_state_transition a b ≡ true
    → any (same a) (comes_from b) ≡ true
unfolding implies every same number validate_trip_state_transition
step-from a b = implies-holds _ _ (
    every_two (λ a b. implies (validate_trip_state_transition a b) (any (same a) (comes_from b)))
      refl a b)

from-step :
    (a b : TripStatus)
    → any (same a) (comes_from b) ≡ true
    → validate_trip_state_transition a b ≡ true
unfolding implies every same number validate_trip_state_transition
from-step a b = implies-holds _ _ (
    every_two (λ a b. implies (any (same a) (comes_from b)) (validate_trip_state_transition a b))
      refl a b)

reaches-step :
    (a b c : TripStatus)
    → reaches a b ≡ true
    → validate_trip_state_transition b c ≡ true
    → reaches a c ≡ true
unfolding implies every validate_trip_state_transition
reaches-step a b c h k =
    let table =
      every_two
        (λ a b.
          every (λ c.
            implies (reaches a b) (implies (validate_trip_state_transition b c) (reaches a c))))
        refl a b in
    implies-holds _ _
      (implies-holds _ _
        (every-holds
          (λ c. implies (reaches a b) (implies (validate_trip_state_transition b c) (reaches a c)))
          table c)
        h)
      k

reaches_refl : (a : TripStatus) → reaches a a ≡ true
unfolding every
reaches_refl = every-holds (λ a. reaches a a) refl

-- The statuses between, on a way from one status to another.
abbrev way : TripStatus → TripStatus → List TripStatus
way planned TripStatus.in_transit = TripStatus.dispatched ∷ TripStatus.in_transit ∷ []
way planned held_for_inspection =
    TripStatus.dispatched ∷ TripStatus.in_transit ∷ held_for_inspection ∷ []
way planned diverted = TripStatus.dispatched ∷ diverted ∷ []
way planned completed = TripStatus.dispatched ∷ TripStatus.in_transit ∷ completed ∷ []
way planned aborted = TripStatus.dispatched ∷ aborted ∷ []
way TripStatus.dispatched held_for_inspection = TripStatus.in_transit ∷ held_for_inspection ∷ []
way TripStatus.dispatched completed = TripStatus.in_transit ∷ completed ∷ []
way held_for_inspection completed = TripStatus.in_transit ∷ completed ∷ []
way diverted held_for_inspection = TripStatus.in_transit ∷ held_for_inspection ∷ []
way a b = if same a b then [] else b ∷ []

walks : TripStatus → List TripStatus → TripStatus → Bool
walks a [] b = same a b
walks a (m ∷ ms) b = validate_trip_state_transition a m && walks m ms b

walk-Life :
    (from a : TripStatus) (ms : List TripStatus) (b : TripStatus)
    → Life from a
    → walks a ms b ≡ true
    → Life from b
unfolding walks
walk-Life from a [] b l h = rw (← same-eq a b h) l
walk-Life from a (m ∷ ms) b l h =
    walk-Life from m ms b (moves l (ground (arith, h))) (ground (arith, h))

reaches-Life : (a b : TripStatus) → reaches a b ≡ true → Life a b
unfolding every implies walks same number validate_trip_state_transition
reaches-Life a b h =
    walk-Life a a (way a b) b starts (
      implies-holds _ _ (every_two (λ a b. implies (reaches a b) (walks a (way a b) b)) refl a b) h)

Life-reaches : (a b : TripStatus) → Life a b → reaches a b ≡ true
Life-reaches a _ starts = reaches_refl a
Life-reaches a b (moves {a = m} l h) = reaches-step a m b (Life-reaches a m l) h

-- The changes of a trip's status are those of the list of the statuses that a status comes from, and
-- no other. One after another they lead from a planned trip to every status, from a dispatched one
-- to every status but planned, from one that is in transit, held or diverted to these three, to
-- completed and to aborted, and from a completed, cancelled or aborted one nowhere else.
pub trip-Life :
    (a b : TripStatus)
    → ((validate_trip_state_transition a b ≡ true) ↔ In a (comes_from b))
      × (Life a b ↔ (reaches a b ≡ true))
trip-Life a b = (
  (
    (λ h. any-In a (comes_from b) (step-from a b h)),
    (λ m. from-step a b (In-any a (comes_from b) m)),
  ),
  (Life-reaches a b, reaches-Life a b),
)

-- The first part of a list that is longer by the second.
take-append : {A : Type 0} (n : ℕ) (xs ys : List A) → length xs ≡ n → take n (xs ++ ys) ≡ xs
take-append n [] ys e = rw (← e) refl
take-append zero (x ∷ xs) ys e = let no : ⊥ = omega (arith, e) in elim no [ ]
take-append (suc n) (x ∷ xs) ys e = ap (λ zs. x ∷ zs) (take-append n xs ys (omega (arith, e)))

ten_of : (n : ℕ) → leb 10 (n + 5) ≡ leb 5 n
ten_of n = ground arith

back : (n : ℕ) → n + 5 - 5 ≡ n
back n = omega arith

mask_phone-digits :
    (is_digit : ℕ → Bool) (phone first last : List ℕ)
    → select is_digit phone ≡ first ++ last
    → length last ≡ 5
    → mask_phone is_digit phone ≡ (if leb 5 (length first) then show_prefix first else stars)
unfolding mask_phone
mask_phone-digits is_digit phone first last e five =
    rw
      (
        e,
        length-append first last,
        five,
        ten_of (length first),
        back (length first),
        take-append (length first) first last refl,
      )
      refl

-- What a masked telephone number shows does not depend on the last five digits: two numbers whose
-- digits agree before the last five are masked alike.
pub mask_phone-hides_five :
    (is_digit : ℕ → Bool) (phone phone' first last last' : List ℕ)
    → select is_digit phone ≡ first ++ last
    → select is_digit phone' ≡ first ++ last'
    → length last ≡ 5
    → length last' ≡ 5
    → mask_phone is_digit phone ≡ mask_phone is_digit phone'
mask_phone-hides_five is_digit p p' first last last' e e' five five' =
    mask_phone-digits is_digit p first last e five
    ∙ sym (mask_phone-digits is_digit p' first last' e' five')
