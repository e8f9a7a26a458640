-- ===== src/Base/Masks.antt =====
-- The digits of a mask.
use Prim.Native.Nat.{ℕ, ◌%◌, min}
use mathlib.Core.Path.{◌≡◌}
use native.Mathlib.Omega.{arith}

pub min_zero : (n : ℕ) → min 0 n ≡ 0
min_zero n = omega arith

pub min_one : (n : ℕ) → min 1 (n % 2) ≡ n % 2
min_one n = omega arith
