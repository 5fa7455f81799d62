-- ===== src/Instance/Rates/Examples.antt =====
-- Snapshots of one VM, ten seconds apart.
use io_thread_controller.Base.{ℕ, ◌-◌, ◌*◌, ◌≡◌, refl, Option, none, some, arith}
use io_thread_controller.Float.{Micro, micro_float}
use io_thread_controller.Instance.{InstancePerfSample, InstanceStatus, new_status}
use io_thread_controller.Instance.Rates.{
  counters, rate, elapsed_since, set_rates, set_baselines, rate_since, update_perf_rates, IsRate,
  IsU64, update_perf_rates-IsRate,
}

abbrev second : ℕ
second = 1000000000

abbrev sample : ℕ → Option InstancePerfSample
sample reads = some (record {
  read_io_count = reads;
  write_io_count = 50;
  other_io_count = 0;
  read_bytes_total = 4096 * reads;
  write_bytes_total = 204800;
  read_seq_ops = 0;
  read_rand_ops = 0;
  write_seq_ops = 0;
  write_rand_ops = 0;
  small_ops = 0;
  large_ops = 0;
  read_latency_us = none;
  write_latency_us = none;
  per_vq_depth = none;
})

-- After a first snapshot with a million reads.
abbrev first : InstanceStatus Micro
first = record (new_status micro_float) {
  previous_perf_time = some (10 * second);
  previous_read_io_count = 1000000;
  previous_write_io_count = 50;
  previous_read_bytes_total = 4096000000;
  previous_write_bytes_total = 204800;
}

sample-IsU64 : IsU64 (counters (sample 1000100))
unfolding IsU64 counters
sample-IsU64 = (omega arith, omega arith, omega arith, omega arith, omega arith)

update_perf_rates-IsRate_example :
    let k = counters (sample 1000100) in
    let s = update_perf_rates first (sample 1000100) (20 * second) in
    IsRate (20 * second - 10 * second) (k.read_io - 1000000) s.read_iops
    × IsRate (20 * second - 10 * second) (k.write_io - 50) s.write_iops
    × IsRate (20 * second - 10 * second) (k.other_io - 0) s.other_iops
    × IsRate (20 * second - 10 * second) (k.read_bytes - 4096000000) s.read_bytes_per_second
    × IsRate (20 * second - 10 * second) (k.write_bytes - 204800) s.write_bytes_per_second
    × (s.previous_perf_time ≡ some (20 * second))
    × (s.previous_read_io_count ≡ k.read_io)
    × (s.previous_write_io_count ≡ k.write_io)
    × (s.previous_other_io_count ≡ k.other_io)
    × (s.previous_read_bytes_total ≡ k.read_bytes)
    × (s.previous_write_bytes_total ≡ k.write_bytes)
update_perf_rates-IsRate_example =
    update_perf_rates-IsRate first (sample 1000100) (10 * second) (20 * second) refl (omega arith)
      sample-IsU64

-- A hundred reads in ten seconds.
steady_rate : (update_perf_rates first (sample 1000100) (20 * second)).read_iops ≡ 10
unfolding update_perf_rates set_baselines rate_since elapsed_since set_rates rate counters
steady_rate = refl

-- The same reads with a snapshot in between that has no counters: all reads so far count as new.
rate_after_gap :
    (update_perf_rates
      (update_perf_rates first none (20 * second))
      (sample 1000100)
      (30 * second)).read_iops
    ≡ 100010
unfolding update_perf_rates set_baselines rate_since elapsed_since set_rates rate counters
rate_after_gap = refl
