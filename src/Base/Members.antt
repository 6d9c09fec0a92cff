-- ===== src/Base/Members.antt =====
-- The Boolean tests on lists decide membership and existence.
use Prim.Native.Nat.{ℕ}
use mathlib.Core.Path.{◌≡◌, refl}
use mathlib.Core.Bool.{Bool, true}
use mathlib.Core.List.{List, [], ◌∷◌, ◌++◌}
use mathlib.Core.Logic.{◌↔◌, ◌⊎◌, inl, inr}
use native.Mathlib.Omega.{arith}
use smart_logistics_accessib.Base.Tests.{◌==◌, ==_iff, Bool-cases}
use smart_logistics_accessib.Base.Lists.{any, elem, All, In, here, there, select}

module _ {ℓ} {A : Type ℓ} where
  -- An element where a test holds.
  abbrev pub Some : (A → Bool) → List A → Type ℓ
  Some p xs = (x : A) × In x xs × (p x ≡ true)

  any-Some : (p : A → Bool) (xs : List A) → any p xs ≡ true → Some p xs
  any-Some p [] h = cc
  any-Some p (x ∷ xs) h = elim (Bool-cases (p x)) [
    | inl hit ↦ (x, here refl, hit)
    | inr miss ↦ let (y, m, e) = any-Some p xs (rw miss at h) in (y, there m, e)
  ]

  Some-any : (p : A → Bool) (xs : List A) (x : A) → In x xs → p x ≡ true → any p xs ≡ true
  Some-any p [] x m h = elim m [ ]
  Some-any p (y ∷ ys) x (here e) h = rw (← e, h)
  Some-any p (y ∷ ys) x (there m) h = ground (arith, Some-any p ys x m h)

  pub any_iff : (p : A → Bool) (xs : List A) → (any p xs ≡ true) ↔ Some p xs
  any_iff p xs = (any-Some p xs, (λ s. Some-any p xs s.0 s.1 s.2))

  pub In-append : (x : A) (xs ys : List A) → In x (xs ++ ys) → In x xs ⊎ In x ys
  In-append x [] ys m = inr m
  In-append x (z ∷ xs) ys (here e) = inl (here e)
  In-append x (z ∷ xs) ys (there m) = elim (In-append x xs ys m) [
    | inl l ↦ inl (there l)
    | inr r ↦ inr r
  ]

  pub In-append_left : (x : A) (xs ys : List A) → In x xs → In x (xs ++ ys)
  In-append_left x [] ys m = elim m [ ]
  In-append_left x (z ∷ xs) ys (here e) = here e
  In-append_left x (z ∷ xs) ys (there m) = there (In-append_left x xs ys m)

  pub In-append_right : (x : A) (xs ys : List A) → In x ys → In x (xs ++ ys)
  In-append_right x [] ys m = m
  In-append_right x (z ∷ xs) ys m = there (In-append_right x xs ys m)

  In-select_head :
      (p : A → Bool) (y : A) (ys : List A) (x : A)
      → (In x (select p ys) → In x ys × (p x ≡ true))
      → p y ≡ true
      → In x (y ∷ select p ys)
      → In x (y ∷ ys) × (p x ≡ true)
  In-select_head p y ys x rest hit (here e) = (here e, rw e hit)
  In-select_head p y ys x rest hit (there k) = let (n, e) = rest k in (there n, e)

  pub In-select : (p : A → Bool) (xs : List A) (x : A) → In x (select p xs) → In x xs × (p x ≡ true)
  In-select p [] x m = elim m [ ]
  In-select p (y ∷ ys) x m = elim (Bool-cases (p y)) [
    | inl hit ↦ In-select_head p y ys x (In-select p ys x) hit (rw hit at m)
    | inr miss ↦ let (n, e) = In-select p ys x (rw miss at m) in (there n, e)
  ]

  pub select-In : (p : A → Bool) (xs : List A) (x : A) → In x xs → p x ≡ true → In x (select p xs)
  select-In p [] x m h = elim m [ ]
  select-In p (y ∷ ys) x (here e) h = rw (← e, h) (here refl)
  select-In p (y ∷ ys) x (there m) h = elim (Bool-cases (p y)) [
    | inl hit ↦ rw hit (there (select-In p ys x m h))
    | inr miss ↦ rw miss (select-In p ys x m h)
  ]

pub elem_iff : (n : ℕ) (ms : List ℕ) → (elem n ms ≡ true) ↔ In n ms
elem_iff n ms = (to ms, from ms)
  where
    to : (ms : List ℕ) → elem n ms ≡ true → In n ms
    to [] h = cc
    to (m ∷ ms) h = elim (Bool-cases (n == m)) [
      | inl hit ↦ here ((==_iff n m).0 hit)
      | inr miss ↦ there (to ms (rw miss at h))
    ]

    from : (ms : List ℕ) → In n ms → elem n ms ≡ true
    from [] m = elim m [ ]
    from (m ∷ ms) (here e) = ground arith
    from (m ∷ ms) (there k) = ground (arith, from ms k)

-- A predicate of all elements.
module _ {ℓ κ} {A : Type ℓ} (P : A → Type κ) where
  pub All-append : (xs ys : List A) → All P xs → All P ys → All P (xs ++ ys)
  All-append [] ys a b = b
  All-append (x ∷ xs) ys (h, a) b = (h, All-append xs ys a b)

  pub All-In : (xs : List A) → ((x : A) → In x xs → P x) → All P xs
  All-In [] h = tt
  All-In (x ∷ xs) h = (h x (here refl), All-In xs (λ y m. h y (there m)))

  pub In-All : (xs : List A) → All P xs → (x : A) → In x xs → P x
  In-All [] a x m = elim m [ ]
  In-All (y ∷ ys) (h, a) x (here e) = rw e h
  In-All (y ∷ ys) (h, a) x (there m) = In-All ys a x m
