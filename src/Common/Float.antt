-- ===== src/Common/Float.antt =====
-- The values of Python's `float`, as far as the code compares them: numbers of thousandths, the
-- infinities, and nan, with which each comparison is false.
use agentserve.Common.Int.{ℤ, pos, ltb_ℤ}
use mathlib.Core.Bool.{Bool, true, false, not, ◌&&◌}
use Prim.Native.Nat.{ℕ}

pub data Float : Type 0 where
  finite : ℤ → Float
  infinity minus_infinity nan : Float

-- `a <= b`
abbrev pub leb_float : Float → Float → Bool
leb_float (finite a) (finite b) = not (ltb_ℤ b a)
leb_float (finite a) infinity = true
leb_float (finite a) minus_infinity = false
leb_float (finite a) nan = false
leb_float infinity (finite b) = false
leb_float infinity infinity = true
leb_float infinity minus_infinity = false
leb_float infinity nan = false
leb_float minus_infinity (finite b) = true
leb_float minus_infinity infinity = true
leb_float minus_infinity minus_infinity = true
leb_float minus_infinity nan = false
leb_float nan b = false

-- `a < b`
abbrev pub ltb_float : Float → Float → Bool
ltb_float a b = leb_float a b && not (leb_float b a)

abbrev pub thousandths : ℕ → Float
thousandths n = finite (pos n)
