-- ===== src/Qemu/Cpu.antt =====
-- src/backends/qemu/helpers.rs: `CpuSample`, the CPU time of the IOThreads at one instant.
use io_thread_controller.Base.{
  ℕ, ◌+◌, ◌-◌, Option, none, some, List, [], ◌∷◌, ltb, ◌==◌, if◌then◌else◌,
}
use io_thread_controller.Float.{Float, zero_f, one_f, clamp, as_secs}
use io_thread_controller.Qemu.{ℤ, same_int}
use io_thread_controller.Rolling.{checked_sub}

-- The jiffies by task ID, in the map's iteration order, and the time in nanoseconds.
pub record CpuSample : Type 0 where
  pub jiffies : List (ℤ × ℕ)
  pub wall : ℕ

-- `jiffies.get(&tid)`.
unfoldable pub jiffies_of : ℤ → List (ℤ × ℕ) → Option ℕ
jiffies_of tid [] = none
jiffies_of tid ((t, jiffies) ∷ rest) = if same_int t tid then some jiffies else jiffies_of tid rest

module _ {F : Type 0} (fl : Float F) where
  -- `((delta / hz) / elapsed).clamp(0.0, 1.0)`.
  unfoldable pub fraction : (hz elapsed : F) → ℕ → F
  fraction hz elapsed delta =
      clamp fl (fl.div (fl.div (fl.of_nat delta) hz) elapsed) (zero_f fl) (one_f fl)

  -- The body of the loop: the total and the number of tasks counted.
  unfoldable pub count_task : (hz elapsed : F) → List (ℤ × ℕ) → ℤ × ℕ → F × ℕ → F × ℕ
  count_task hz elapsed before (tid, after) (total, counted) = elim (jiffies_of tid before) [
    | none ↦ (total, counted)
    | some earlier ↦
        if ltb after earlier
        then (total, counted)
        else (fl.add total (fraction hz elapsed (after - earlier)), counted + 1)
  ]

  unfoldable pub count_tasks : (hz elapsed : F) → List (ℤ × ℕ) → List (ℤ × ℕ) → F × ℕ → F × ℕ
  count_tasks hz elapsed before [] sum = sum
  count_tasks hz elapsed before (task ∷ tasks) sum =
      count_tasks hz elapsed before tasks (count_task hz elapsed before task sum)

  unfoldable pub mean_of : F × ℕ → F
  mean_of (total, counted) = if counted == 0 then zero_f fl else fl.div total (fl.of_nat counted)

  -- After the elapsed time is known to be positive; `hz` is `clock_ticks_per_second`.
  unfoldable pub diff_over : ℕ → CpuSample → CpuSample → ℕ → F
  diff_over ticks prev cur nanos =
      let elapsed = as_secs fl nanos in
      if fl.le elapsed (zero_f fl)
      then zero_f fl
      else mean_of (count_tasks (fl.of_nat ticks) elapsed prev.jiffies cur.jiffies (zero_f fl, 0))

  unfoldable pub diff_jiffies_sample : ℕ → CpuSample → CpuSample → F
  diff_jiffies_sample ticks prev cur = elim (checked_sub cur.wall prev.wall) [
    | none ↦ zero_f fl
    | some nanos ↦ diff_over ticks prev cur nanos
  ]
