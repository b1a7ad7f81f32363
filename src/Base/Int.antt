-- ===== src/Base/Int.antt =====
-- Go's `int` where it may fall below zero.
use Prim.Native.Nat.{ℕ, zero, suc, ◌+◌, ◌-◌}
use mathlib.Core.Bool.{Bool, false}
use dreddit.Base.Tests.{leb, if◌then◌else◌}

-- `negsuc n` is -(n + 1).
pub data ℤ : Type 0 where
  pos : ℕ → ℤ
  negsuc : ℕ → ℤ

-- `z - n`
abbrev pub sub_ℕ : ℤ → ℕ → ℤ
sub_ℕ (pos m) n = if leb n m then pos (m - n) else negsuc (n - m - 1)
sub_ℕ (negsuc m) n = negsuc (m + n)

-- `z + 1`
abbrev pub increment : ℤ → ℤ
increment (pos m) = pos (m + 1)
increment (negsuc zero) = pos 0
increment (negsuc (suc m)) = negsuc m

-- `z >= n`, for an `n` that is not negative
abbrev pub at_least : ℤ → ℕ → Bool
at_least (pos m) n = leb n m
at_least (negsuc m) n = false
