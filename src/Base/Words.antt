-- ===== src/Base/Words.antt =====
-- `u32` and `u64` arithmetic as the Rust code writes it: saturating where it says so, wrapping
-- (the release build) where it uses the plain operators.
use Prim.Native.Nat.{ℕ, ◌+◌, ◌*◌, ◌%◌, min}

abbrev pub u32_max : ℕ
u32_max = 4294967295

abbrev pub u64_max : ℕ
u64_max = 18446744073709551615

-- `u32::saturating_add`, `saturating_mul` and `saturating_pow`; `saturating_sub` is `-` on ℕ.
abbrev pub sat_add : ℕ → ℕ → ℕ
sat_add a b = min (a + b) u32_max

abbrev pub sat_mul : ℕ → ℕ → ℕ
sat_mul a b = min (a * b) u32_max

abbrev pub sat_add64 : ℕ → ℕ → ℕ
sat_add64 a b = min (a + b) u64_max

-- Plain `+ 1` on a `u32` that has wrapped.
abbrev pub wrap32 : ℕ → ℕ
wrap32 n = n % 4294967296
