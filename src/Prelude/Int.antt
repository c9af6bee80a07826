-- ===== src/Prelude/Int.antt =====
-- Signed integers, for fields that Go keeps in an `int` or an `int64` and that may be negative.
use Prim.Native.Nat.{ℕ, suc, ◌-◌}
use mathlib.Core.Bool.{Bool, true, false}
use blueship.Prelude.Tests.{leb, ltb, if◌then◌else◌}

-- `negsuc n` is -(n + 1).
pub data ℤ : Type 0 where
  pos : ℕ → ℤ
  negsuc : ℕ → ℤ

-- `x < n` and `n < x` for a natural bound
abbrev pub lt_nat : ℤ → ℕ → Bool
lt_nat (pos x) n = ltb x n
lt_nat (negsuc x) n = true

abbrev pub nat_lt : ℕ → ℤ → Bool
nat_lt n (pos x) = ltb n x
nat_lt n (negsuc x) = false

-- a - b, as an integer.
abbrev pub sub_ℕ : ℕ → ℕ → ℤ
sub_ℕ a b = if leb b a then pos (a - b) else negsuc (b - suc a)
