-- ===== src/Base/Values.antt =====
-- Identifiers, instants and documents, as the modules share them.
-- A UUID is compared and copied, never computed with: it is its 128-bit number.
-- A datetime is its number of microseconds since the first instant that Python's type holds.
-- The datetimes that one call compares are taken at one UTC offset.
use Prim.Native.Nat.{ℕ, ◌*◌, ◌/◌, ◌%◌}
use Prim.Native.String.{String}
use smart_logistics_accessib.Base.Int.{ℤ, sub_ℕ}

abbrev pub Uuid : Type 0
Uuid = ℕ

abbrev pub DateTime : Type 0
DateTime = ℕ

-- A JSON document that the code stores and hands on, and does not look into.
abbrev pub Document : Type 0
Document = String

abbrev pub seconds : ℕ → ℕ
seconds n = n * 1000000

abbrev pub minutes : ℕ → ℕ
minutes n = n * 60000000

abbrev pub hours : ℕ → ℕ
hours n = n * 3600000000

-- `a - b`, in microseconds
abbrev pub since : DateTime → DateTime → ℤ
since a b = sub_ℕ a b

-- `a.hour`
abbrev pub hour_of : DateTime → ℕ
hour_of t = t / 3600000000 % 24
