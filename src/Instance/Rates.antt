-- ===== src/Instance/Rates.antt =====
-- src/instance.rs: `update_perf_rates`, the rates per second between two snapshots.
mod Examples
use io_thread_controller.Base.{
  ℕ, suc, ◌+◌, ◌-◌, ◌*◌, ◌/◌, ◌%◌, ◌≤◌, ◌<◌, ◌≡◌, refl, Option, none, some, ltb, leb, if◌then◌else◌,
  arith,
}
use io_thread_controller.Base.Division.{div_parts, mul_mono, add_one_mul}
use io_thread_controller.Base.Words.{u64_max}
use io_thread_controller.Rolling.{checked_sub}
use io_thread_controller.Instance.{InstancePerfSample, InstanceStatus}

-- The five counters that the function reads, 0 where the backend gave none.
pub record Counters : Type 0 where
  pub read_io : ℕ
  pub write_io : ℕ
  pub other_io : ℕ
  pub read_bytes : ℕ
  pub write_bytes : ℕ

unfoldable pub counters : Option InstancePerfSample → Counters
counters none = record { read_io = 0; write_io = 0; other_io = 0; read_bytes = 0; write_bytes = 0 }
counters (some p) = record {
  read_io = p.read_io_count;
  write_io = p.write_io_count;
  other_io = p.other_io_count;
  read_bytes = p.read_bytes_total;
  write_bytes = p.write_bytes_total;
}

-- The closure `rate`: the u128 product of a u64 and 10^9 does not saturate, and `as u64` wraps.
unfoldable pub rate : ℕ → ℕ → ℕ → ℕ
rate elapsed_ns current previous =
    (current - previous) * 1000000000 / elapsed_ns % 18446744073709551616

unfoldable pub elapsed_since : ℕ → ℕ → ℕ
elapsed_since now previous = elim (checked_sub now previous) [ none ↦ 0 | some elapsed ↦ elapsed ]

-- The five rates, once the time has advanced.
unfoldable pub set_rates : {F : Type 0} → InstanceStatus F → Counters → ℕ → InstanceStatus F
set_rates s k elapsed_ns = record s {
  read_iops = rate elapsed_ns k.read_io s.previous_read_io_count;
  write_iops = rate elapsed_ns k.write_io s.previous_write_io_count;
  other_iops = rate elapsed_ns k.other_io s.previous_other_io_count;
  read_bytes_per_second = rate elapsed_ns k.read_bytes s.previous_read_bytes_total;
  write_bytes_per_second = rate elapsed_ns k.write_bytes s.previous_write_bytes_total;
}

unfoldable pub set_baselines : {F : Type 0} → Counters → ℕ → InstanceStatus F → InstanceStatus F
set_baselines k now s = record s {
  previous_perf_time = some now;
  previous_read_io_count = k.read_io;
  previous_write_io_count = k.write_io;
  previous_other_io_count = k.other_io;
  previous_read_bytes_total = k.read_bytes;
  previous_write_bytes_total = k.write_bytes;
}

-- The rates of the status, by the time of the preceding snapshot.
unfoldable pub rate_since :
    {F : Type 0} → Option ℕ → Counters → ℕ → InstanceStatus F → InstanceStatus F
rate_since none k now s = s
rate_since (some previous) k now s =
    let elapsed_ns = elapsed_since now previous in
    if ltb 0 elapsed_ns then set_rates s k elapsed_ns else s

unfoldable pub update_perf_rates :
    {F : Type 0} → InstanceStatus F → Option InstancePerfSample → ℕ → InstanceStatus F
update_perf_rates s perf now =
    let k = counters perf in set_baselines k now (rate_since s.previous_perf_time k now s)

-- `r` is the whole part of what `delta` makes per second over `elapsed` nanoseconds.
unfoldable pub IsRate : ℕ → ℕ → ℕ → Type 0
IsRate elapsed delta r =
    (r * elapsed ≤ delta * 1000000000) × (delta * 1000000000 < (r + 1) * elapsed)

-- Over a second or more, the quotient is not above the delta, so it fits a u64.
quotient_fits : (e d : ℕ) → 1000000000 ≤ e → d ≤ u64_max → d * 1000000000 / e < 18446744073709551616
quotient_fits e d long small = ground (
  arith,
  div_parts (d * 1000000000) e (omega arith),
  mul_mono 18446744073709551616 (d * 1000000000 / e) e,
)

quotient-IsRate : (e d : ℕ) → 0 < e → IsRate e d (d * 1000000000 / e)
unfolding IsRate
quotient-IsRate e d positive =
    let parts = div_parts (d * 1000000000) e positive in
    (ground (arith, parts), ground (arith, parts, add_one_mul (d * 1000000000 / e) e))

wrapped_small : (q : ℕ) → q < 18446744073709551616 → q % 18446744073709551616 ≡ q
wrapped_small q small = omega arith

rate-IsRate :
    (e current previous : ℕ)
    → 1000000000 ≤ e
    → current ≤ u64_max
    → IsRate e (current - previous) (rate e current previous)
unfolding rate
rate-IsRate e current previous long small =
    rw (wrapped_small _ (quotient_fits e (current - previous) long (omega arith)))
      (quotient-IsRate e (current - previous) (omega arith))

-- Counters that fit a u64.
unfoldable pub IsU64 : Counters → Type 0
IsU64 k =
    (k.read_io ≤ u64_max)
    × (k.write_io ≤ u64_max)
    × (k.other_io ≤ u64_max)
    × (k.read_bytes ≤ u64_max)
    × (k.write_bytes ≤ u64_max)

rated :
    {F : Type 0} (s : InstanceStatus F) (k : Counters) (previous now : ℕ)
    → s.previous_perf_time ≡ some previous
    → previous + 1000000000 ≤ now
    → rate_since s.previous_perf_time k now s ≡ set_rates s k (now - previous)
unfolding rate_since elapsed_since
rated s k previous now since later = ground (arith, since)

-- When a snapshot comes a second or more after the preceding one, each of the five rates is the whole
-- part of what its counter has grown by per second (0 if it went back), and the time and all five
-- counters become the base of the next rates; for counters that fit a u64.
pub update_perf_rates-IsRate :
    {F : Type 0} (s : InstanceStatus F) (perf : Option InstancePerfSample) (previous now : ℕ)
    → s.previous_perf_time ≡ some previous
    → previous + 1000000000 ≤ now
    → IsU64 (counters perf)
    → let k = counters perf in
      let s' = update_perf_rates s perf now in
      IsRate (now - previous) (k.read_io - s.previous_read_io_count) s'.read_iops
      × IsRate (now - previous) (k.write_io - s.previous_write_io_count) s'.write_iops
      × IsRate (now - previous) (k.other_io - s.previous_other_io_count) s'.other_iops
      × IsRate
          (now - previous)
          (k.read_bytes - s.previous_read_bytes_total)
          s'.read_bytes_per_second
      × IsRate
          (now - previous)
          (k.write_bytes - s.previous_write_bytes_total)
          s'.write_bytes_per_second
      × (s'.previous_perf_time ≡ some now)
      × (s'.previous_read_io_count ≡ k.read_io)
      × (s'.previous_write_io_count ≡ k.write_io)
      × (s'.previous_other_io_count ≡ k.other_io)
      × (s'.previous_read_bytes_total ≡ k.read_bytes)
      × (s'.previous_write_bytes_total ≡ k.write_bytes)
unfolding update_perf_rates set_baselines set_rates IsU64
update_perf_rates-IsRate s perf previous now since later (ri, wi, oi, rb, wb) =
    rw (rated s (counters perf) previous now since later) (
      rate-IsRate _ _ s.previous_read_io_count (omega arith) ri,
      rate-IsRate _ _ s.previous_write_io_count (omega arith) wi,
      rate-IsRate _ _ s.previous_other_io_count (omega arith) oi,
      rate-IsRate _ _ s.previous_read_bytes_total (omega arith) rb,
      rate-IsRate _ _ s.previous_write_bytes_total (omega arith) wb,
      refl,
      refl,
      refl,
      refl,
      refl,
      refl,
    )
