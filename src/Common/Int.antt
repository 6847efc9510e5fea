-- ===== src/Common/Int.antt =====
-- Signed integers over the native numbers, as far as the code compares them.
use agentserve.Common.Tests.{leb, ltb, if◌then◌else◌}
use mathlib.Core.Bool.{Bool, true, false}
use Prim.Native.Nat.{ℕ, ◌-◌}

-- `negsuc n` is -(n + 1).
pub data ℤ : Type 0 where
  pos : ℕ → ℤ
  negsuc : ℕ → ℤ

-- `a < b`
abbrev pub ltb_ℤ : ℤ → ℤ → Bool
ltb_ℤ (pos a) (pos b) = ltb a b
ltb_ℤ (pos a) (negsuc b) = false
ltb_ℤ (negsuc a) (pos b) = true
ltb_ℤ (negsuc a) (negsuc b) = ltb b a

-- `a - b` of two numbers
abbrev pub sub_ℕ : ℕ → ℕ → ℤ
sub_ℕ a b = if leb b a then pos (a - b) else negsuc (b - a - 1)
