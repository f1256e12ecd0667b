-- ===== src/Prelude/Int.antt =====
-- Go's `int` (64 bits): an integer with the wrap-around of `++` written out.
use Prim.Native.Nat.{ℕ, zero, suc, ◌+◌, ◌≤◌, ◌<◌}
use mathlib.Core.Path.{◌≡◌}
use mathlib.Core.Bool.{Bool, true, false}
use native.Mathlib.Omega.{arith}
use golang_assignment.Prelude.Tests.{ltb, nat_eq, if◌then◌else◌}

-- `negsuc n` is -(n + 1).
pub data ℤ : Type 0 where
  pos : ℕ → ℤ
  negsuc : ℕ → ℤ

abbrev pub pos_part : ℤ → ℕ
pos_part (pos n) = n
pos_part (negsuc n) = 0

abbrev pub neg_part : ℤ → ℕ
neg_part (pos n) = 0
neg_part (negsuc n) = suc n

infix 50 ◌≤ℤ◌ ◌<ℤ◌
abbrev pub ◌≤ℤ◌ : ℤ → ℤ → Type 0
a ≤ℤ b = pos_part a + neg_part b ≤ pos_part b + neg_part a

abbrev pub ◌<ℤ◌ : ℤ → ℤ → Type 0
a <ℤ b = pos_part a + neg_part b < pos_part b + neg_part a

abbrev pub ltb_ℤ : ℤ → ℤ → Bool
ltb_ℤ a b = ltb (pos_part a + neg_part b) (pos_part b + neg_part a)

abbrev pub is_zero : ℤ → Bool
is_zero (pos n) = nat_eq n 0
is_zero (negsuc n) = false

abbrev pub is_negative : ℤ → Bool
is_negative (pos n) = false
is_negative (negsuc n) = true

abbrev pub is_positive : ℤ → Bool
is_positive (pos zero) = false
is_positive (pos (suc n)) = true
is_positive (negsuc n) = false

-- math.MaxInt64
abbrev pub max_int : ℕ
max_int = 9223372036854775807

-- `x++`: one more than the greatest value is the least
unfoldable pub incr : ℤ → ℤ
incr (pos n) = if ltb n max_int then pos (n + 1) else negsuc max_int
incr (negsuc zero) = pos 0
incr (negsuc (suc n)) = negsuc n

-- Below the greatest value `++` adds one.
pub pos_part-incr :
    (a : ℤ)
    → pos_part a < max_int
    → pos_part (incr a) + neg_part a ≡ pos_part a + neg_part (incr a) + 1
unfolding incr
pos_part-incr (pos n) h = ground arith
pos_part-incr (negsuc zero) h = omega arith
pos_part-incr (negsuc (suc n)) h = omega arith
