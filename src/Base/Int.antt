-- ===== src/Base/Int.antt =====
-- Signed integers, as far as the program compares them.
use Prim.Native.Nat.{ℕ}
use native.Mathlib.Decide.{ℕ_discrete}
use rsmsg.Base.Equality.{Eq, ltb, if◌then◌else◌}

-- `negsuc n` is -(n + 1).
pub data ℤ : Type 0 where
  pos : ℕ → ℤ
  negsuc : ℕ → ℤ

-- `n.clamp(lo, hi)` for bounds that are not negative, as the number that it is.
unfoldable pub clamp : ℕ → ℕ → ℤ → ℕ
clamp lo hi (pos n) = if ltb n lo then lo else if ltb hi n then hi else n
clamp lo hi (negsuc n) = lo

int_discrete : Discrete ℤ
int_discrete = hlevel ℕ_discrete

instance unfoldable pub int_eq : Eq ℤ
unfolding int_discrete
int_eq = record { dec = int_discrete }
