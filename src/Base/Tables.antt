-- ===== src/Base/Tables.antt =====
-- A database table is the list of its rows. These are the queries and updates that the
-- repositories make of them.
use mathlib.Core.Path.{◌≡◌, refl, ap}
use mathlib.Core.Bool.{Bool, true, false}
use mathlib.Core.Option.{Option, none, some}
use mathlib.Core.List.{List, [], ◌∷◌, ◌++◌}
use mathlib.Core.Logic.{inl, inr}
use native.Mathlib.Omega.{arith}
use smart_logistics_accessib.Base.Tests.{if◌then◌else◌, Bool-cases}
use smart_logistics_accessib.Base.Lists.{In, here, there, select}

module _ {ℓ} {A : Type ℓ} where
  -- `select(M).where(p)`, with `scalar_one_or_none` on a column that is unique
  abbrev pub find : (A → Bool) → List A → Option A
  find p [] = none
  find p (x ∷ xs) = if p x then some x else find p xs

  -- `update(M).where(p).values(f)`
  abbrev pub update_where : (A → Bool) → (A → A) → List A → List A
  update_where p f [] = []
  update_where p f (x ∷ xs) = (if p x then f x else x) ∷ update_where p f xs

  if_keeps :
      (p : A → Bool) (f : A → A)
      → ((x : A) → p (f x) ≡ p x)
      → (b : Bool) (y : A) → p (if b then f y else y) ≡ p y
  if_keeps p f keeps true y = keeps y
  if_keeps p f keeps false y = refl

  abbrev pub map_some : (A → Bool) → (A → A) → Option A → Option A
  map_some q f none = none
  map_some q f (some x) = some (if q x then f x else x)

  pub find-In : (p : A → Bool) (xs : List A) (x : A) → find p xs ≡ some x → In x xs
  find-In p [] x h = cc
  find-In p (y ∷ xs) x h = elim (Bool-cases (p y)) [
    | inl hit ↦ here (ground (arith, hit))
    | inr miss ↦ there (find-In p xs x (rw miss at h))
  ]

  pub find-holds : (p : A → Bool) (xs : List A) (x : A) → find p xs ≡ some x → p x ≡ true
  find-holds p [] x h = cc
  find-holds p (y ∷ xs) x h = elim (Bool-cases (p y)) [
    | inl hit ↦ ground (arith, hit)
    | inr miss ↦ find-holds p xs x (rw miss at h)
  ]

  -- An update of some rows, by another test, that leaves the search's test alone: the same row is
  -- found, changed if the update is about it.
  pub find-update_where :
      (p q : A → Bool) (f : A → A)
      → ((x : A) → p (f x) ≡ p x)
      → (xs : List A) (x : A) → find p xs ≡ some x
      → find p (update_where q f xs) ≡ some (if q x then f x else x)
  find-update_where p q f keeps [] x h = cc
  find-update_where p q f keeps (y ∷ xs) x h = elim (Bool-cases (p y)) [
    | inl hit ↦
        let e : some y ≡ some x = rw hit at h in
        rw (if_keeps p f keeps (q y) y, hit) (ap (λ (o : Option A). map_some q f o) e)
    | inr miss ↦
        rw (if_keeps p f keeps (q y) y, miss) (find-update_where p q f keeps xs x (rw miss at h))
  ]

  -- The same without a row that is known.
  pub find-update_where_either :
      (p q : A → Bool) (f : A → A)
      → ((x : A) → p (f x) ≡ p x)
      → (xs : List A) → find p (update_where q f xs) ≡ map_some q f (find p xs)
  find-update_where_either p q f keeps [] = refl
  find-update_where_either p q f keeps (y ∷ xs) = elim (Bool-cases (p y)) [
    | inl hit ↦ rw (if_keeps p f keeps (q y) y, hit) refl
    | inr miss ↦ rw (if_keeps p f keeps (q y) y, miss) (find-update_where_either p q f keeps xs)
  ]

  -- A row that still meets the test of an update has been changed by it.
  pub In-update_where :
      (p : A → Bool) (f : A → A) (xs : List A) (x : A)
      → In x (update_where p f xs)
      → p x ≡ true
      → (y : A) × (x ≡ f y)
  In-update_where p f [] x m h = elim m [ ]
  In-update_where p f (y ∷ xs) x (here e) h = elim (Bool-cases (p y)) [
    | inl hit ↦ (y, rw hit at e)
    | inr miss ↦ let e' : x ≡ y = rw miss at e in cc
  ]
  In-update_where p f (y ∷ xs) x (there m) h = In-update_where p f xs x m h

  -- What a deletion took away is not found.
  pub find-select-none :
      (p q : A → Bool)
      → ((x : A) → q x ≡ true → p x ≡ false)
      → (xs : List A) → find p (select q xs) ≡ none
  find-select-none p q apart [] = refl
  find-select-none p q apart (x ∷ xs) = elim (Bool-cases (q x)) [
    | inl kept ↦ rw kept (rw (apart x kept) (find-select-none p q apart xs))
    | inr gone ↦ rw gone (find-select-none p q apart xs)
  ]

  -- A new row is found where no older one was.
  pub find-append_new :
      (p : A → Bool) (xs : List A) (x : A)
      → find p xs ≡ none
      → p x ≡ true
      → find p (xs ++ x ∷ []) ≡ some x
  find-append_new p [] x h e = rw e
  find-append_new p (y ∷ xs) x h e = elim (Bool-cases (p y)) [
    | inl hit ↦ cc (rw hit at h)
    | inr miss ↦ rw miss (find-append_new p xs x (rw miss at h) e)
  ]

  -- An older row is still found after an insertion.
  pub find-append_old :
      (p : A → Bool) (xs ys : List A) (x : A) → find p xs ≡ some x → find p (xs ++ ys) ≡ some x
  find-append_old p [] ys x h = cc
  find-append_old p (y ∷ xs) ys x h = elim (Bool-cases (p y)) [
    | inl hit ↦ rw hit (rw hit at h)
    | inr miss ↦ rw miss (find-append_old p xs ys x (rw miss at h))
  ]
