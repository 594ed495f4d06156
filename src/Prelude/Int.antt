-- ===== src/Prelude/Int.antt =====
-- Python's integers where a value may be negative; `negsuc n` is -(n + 1).
use Prim.Native.Nat.{ℕ, ◌≤◌, max, min}
use mathlib.Core.Bool.{Bool, false}
use native.Mathlib.Omega.{arith}
use stepstitch.Prelude.Tests.{◌==◌}

pub data ℤ : Type 0 where
  pos : ℕ → ℤ
  negsuc : ℕ → ℤ

abbrev pub is_zero : ℤ → Bool
is_zero (pos n) = n == 0
is_zero (negsuc n) = false

-- `max(lo, min(z, hi))` for bounds that are not negative.
abbrev pub clamp : ℕ → ℕ → ℤ → ℕ
clamp lo hi (pos n) = max lo (min n hi)
clamp lo hi (negsuc n) = lo

pub clamp-le : (lo hi : ℕ) (z : ℤ) → lo ≤ hi → clamp lo hi z ≤ hi
clamp-le lo hi (pos n) h = omega arith
clamp-le lo hi (negsuc n) h = h
