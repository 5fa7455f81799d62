-- ===== src/Base/Division.antt =====
-- Division of native numbers, and products in inequalities.
use Prim.Native.Nat.{ℕ, ◌+◌, ◌*◌, ◌/◌, ◌%◌, ◌≤◌, ◌<◌}
use mathlib.Core.Path.{◌≡◌, sym}
use native.Mathlib.Nat.{div-add-mod', mod-lt}
use native.Mathlib.Omega.{arith}

pub div_parts : (a b : ℕ) → 0 < b → (a ≡ a / b * b + a % b) × (a % b < b)
div_parts a b h = (sym (div-add-mod' a b), mod-lt a h)

pub mul_mono : (m q p : ℕ) → m ≤ q → m * p ≤ q * p
mul_mono m q p h = grind arith

pub add_one_mul : (q p : ℕ) → (q + 1) * p ≡ q * p + p
add_one_mul q p = omega arith
