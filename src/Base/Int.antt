-- ===== src/Base/Int.antt =====
-- Go's 64-bit signed integers, as integers with their wrap-around written out.
use Prim.Native.Nat.{ℕ, zero, suc, ◌+◌}
use mathlib.Core.Bool.{Bool, true, false}
use native.Mathlib.Decide.{ℕ_discrete}
use baobab_iam.Base.Tests.{◌==◌, if◌then◌else◌}

-- `negsuc n` is -(n + 1).
pub data ℤ : Type 0 where
  pos : ℕ → ℤ
  negsuc : ℕ → ℤ

unfoldable pub ℤ-discrete : Discrete ℤ
unfolding ℕ_discrete
ℤ-discrete = hlevel ℕ_discrete

abbrev pub is_negative : ℤ → Bool
is_negative (pos n) = false
is_negative (negsuc n) = true

abbrev pub max_int64 : ℕ
max_int64 = 9223372036854775807

-- `x++` on an `int64`: the successor of the greatest value is the least.
unfoldable pub next_int64 : ℤ → ℤ
next_int64 (pos n) = if n == max_int64 then negsuc max_int64 else pos (n + 1)
next_int64 (negsuc zero) = pos 0
next_int64 (negsuc (suc n)) = negsuc n
