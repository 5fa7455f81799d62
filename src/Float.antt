-- ===== src/Float.antt =====
-- The `f64` operations that the crate uses, as an interface: the engine and the controller are
-- generic in it, and each theorem names the laws of IEEE arithmetic that it relies on.
use io_thread_controller.Base.{ℕ, ◌+◌, ◌-◌, ◌*◌, ◌/◌, ◌%◌, min, Bool, true, ltb, leb, if◌then◌else◌}
use io_thread_controller.Base.Words.{u32_max, u64_max}

pub record Float (F : Type 0) : Type 0 where
  -- `f64::from(u32)` and `n as f64`
  pub of_nat : ℕ → F
  -- `x as u32` and `x as u64`, which truncate and saturate
  pub as_u32 : F → ℕ
  pub as_u64 : F → ℕ
  pub add : F → F → F
  pub sub : F → F → F
  pub mul : F → F → F
  pub div : F → F → F
  pub floor : F → F
  pub ceil : F → F
  pub round : F → F
  pub lt : F → F → Bool
  pub le : F → F → Bool
  pub is_finite : F → Bool

module _ {F : Type 0} (fl : Float F) where
  abbrev pub zero_f : F
  zero_f = fl.of_nat 0

  abbrev pub one_f : F
  one_f = fl.of_nat 1

  -- `f64::clamp`: a NaN is returned as it is.
  abbrev pub clamp : F → F → F → F
  clamp x lo hi = if fl.lt x lo then lo else if fl.lt hi x then hi else x

  -- `Duration::as_secs_f64`, of a duration in nanoseconds.
  abbrev pub as_secs : ℕ → F
  as_secs nanos =
      fl.add (fl.of_nat (nanos / 1000000000))
        (fl.div (fl.of_nat (nanos % 1000000000)) (fl.of_nat 1000000000))

-- Nonnegative numbers in millionths: the values that the tests and witnesses compute with.
abbrev pub Micro : Type 0
Micro = ℕ

abbrev micro_div : ℕ → ℕ → ℕ
micro_div a b = a * 1000000 / b

abbrev pub micro_float : Float Micro
micro_float = record {
  of_nat = λ n. n * 1000000;
  as_u32 = λ x. min (x / 1000000) u32_max;
  as_u64 = λ x. min (x / 1000000) u64_max;
  add = λ a b. a + b;
  sub = λ a b. a - b;
  mul = λ a b. a * b / 1000000;
  div = micro_div;
  floor = λ x. x / 1000000 * 1000000;
  ceil = λ x. (x + 999999) / 1000000 * 1000000;
  round = λ x. (x + 500000) / 1000000 * 1000000;
  lt = ltb;
  le = leb;
  is_finite = λ x. true;
}
