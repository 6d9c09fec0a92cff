-- ===== src/Base/Floats.antt =====
-- Python's floats, as far as the program compares them. A finite double is a whole multiple of
-- 2 ^ -1074, and `finite z` is the one of value z * 2 ^ -1074, so that comparison is exact.
-- Rounding arithmetic on floats is not modelled: where the program adds them, the addition is a
-- parameter.
use Prim.Native.Nat.{ℕ, ◌+◌, ◌*◌, ◌/◌, ◌^◌}
use mathlib.Core.Bool.{Bool, true, false}
use mathlib.Core.Option.{Option, none, some}
use smart_logistics_accessib.Base.Int.{ℤ, pos, negsuc, neg, ltb_ℤ, leb_ℤ}

pub data Float : Type 0 where
  nan pos_inf neg_inf : Float
  finite : ℤ → Float

-- 0.25 in units of 2 ^ -1074
unfoldable pub quarter : ℕ
quarter = 2 ^ 1072

-- k / 4
abbrev pub quarters : ℕ → Float
quarters k = finite (pos (k * quarter))

abbrev pub float : ℕ → Float
float n = quarters (4 * n)

-- n * 2 ^ -52, as a double between 1 and 2 is
unfoldable pub mantissa : ℕ → Float
mantissa n = finite (pos (n * 2 ^ 1022))

-- - n
abbrev pub minus : ℕ → Float
minus n = finite (neg (4 * n * quarter))

-- `x < y`; a comparison with NaN is false
abbrev pub lt_float : Float → Float → Bool
lt_float nan y = false
lt_float pos_inf y = false
lt_float neg_inf nan = false
lt_float neg_inf neg_inf = false
lt_float neg_inf _ = true
lt_float (finite a) nan = false
lt_float (finite a) pos_inf = true
lt_float (finite a) neg_inf = false
lt_float (finite a) (finite b) = ltb_ℤ a b

-- `x <= y`
abbrev pub le_float : Float → Float → Bool
le_float nan y = false
le_float pos_inf pos_inf = true
le_float pos_inf _ = false
le_float neg_inf nan = false
le_float neg_inf _ = true
le_float (finite a) nan = false
le_float (finite a) pos_inf = true
le_float (finite a) neg_inf = false
le_float (finite a) (finite b) = leb_ℤ a b

abbrev pub is_nan : Float → Bool
is_nan nan = true
is_nan _ = false

abbrev pub is_inf : Float → Bool
is_inf pos_inf = true
is_inf neg_inf = true
is_inf _ = false

-- `int(x)`: towards zero; NaN and the infinities raise
unfoldable pub int_of : Float → Option ℤ
unfolding quarter
int_of (finite (pos n)) = some (pos (n / (4 * quarter)))
int_of (finite (negsuc n)) = some (neg ((n + 1) / (4 * quarter)))
int_of _ = none
