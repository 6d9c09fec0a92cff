-- ===== src/Base/Results.antt =====
-- A call that may raise: `err` carries the exception.
use mathlib.Core.Path.{◌≡◌, refl}
use mathlib.Core.Bool.{Bool, true, false}
use smart_logistics_accessib.Base.Tests.{if◌then◌else◌}

pub data Result {ℓ κ} (E : Type ℓ) (A : Type κ) : Type (ℓ ⊔ κ) where
  err : E → Result E A
  ok : A → Result E A

module _ {ℓ κ μ} {E : Type ℓ} {A : Type κ} {B : Type μ} where
  infixl 5 ◌>>=◌
  abbrev pub ◌>>=◌ : Result E A → (A → Result E B) → Result E B
  err raised >>= next = err raised
  ok value >>= next = next value

  -- Both steps of a chain that returns have returned.
  pub >>=-eq-ok :
      (first : Result E A) (next : A → Result E B) {answer : B}
      → (first >>= next) ≡ ok answer
      → (value : A) × (first ≡ ok value) × (next value ≡ ok answer)
  >>=-eq-ok (err raised) next e = cc
  >>=-eq-ok (ok value) next e = (value, refl, e)

-- A step that is run for what it checks.
module _ {ℓ κ} {E : Type ℓ} {B : Type κ} where
  infixl 5 ◌>>◌
  abbrev pub ◌>>◌ : Result E (Unit {0}) → Result E B → Result E B
  check >> rest = check >>= λ _. rest

-- `if bad: raise e`
abbrev pub raise_if {ℓ} : {E : Type ℓ} → Bool → E → Result E (Unit {0})
raise_if true e = err e
raise_if false e = ok tt

-- A guarded step that returned: its guard held and the step returned. The state of a failure stays.
module _ {ℓ κ μ} {E : Type ℓ} {A : Type κ} {S : Type μ} where
  pub guard-ok :
      (b : Bool) (m n : Result E A × S) {a : A} {e : E}
      → n.0 ≡ err e
      → (if b then m else n).0 ≡ ok a
      → (b ≡ true) × (m.0 ≡ ok a)
  guard-ok true m n f h = (refl, h)
  guard-ok false m n f h = cc

  pub refuse-ok :
      (b : Bool) (m n : Result E A × S) {a : A} {e : E}
      → m.0 ≡ err e
      → (if b then m else n).0 ≡ ok a
      → (b ≡ false) × (n.0 ≡ ok a)
  refuse-ok false m n f h = (refl, h)
  refuse-ok true m n f h = cc

-- A raise that did not happen.
pub raise_if-ok {ℓ κ} :
    {E : Type ℓ} {A : Type κ} (b : Bool) (e : E) (k : Result E A) {a : A}
    → (raise_if b e >> k) ≡ ok a
    → (b ≡ false) × (k ≡ ok a)
raise_if-ok true e k h = cc
raise_if-ok false e k h = (refl, h)

pub ok-injective {ℓ κ} :
    {E : Type ℓ} {A : Type κ} {a b : A} → ◌≡◌ {A = Result E A} (ok a) (ok b) → a ≡ b
ok-injective e = cc
