-- ===== src/Controller/HostCpu.antt =====
-- src/controller.rs: `read_host_cpu_sample`, over the totals of /proc/stat, and `host_cpu_utilisation`.
use io_thread_controller.Base.{ℕ, ◌-◌, Option, none, some, ◌==◌, if◌then◌else◌}
use io_thread_controller.Base.Words.{sat_add64}
use io_thread_controller.Float.{Float, zero_f, one_f, clamp}
use io_thread_controller.Controller.{HostCpuSample}

-- `procfs::CpuTime`; the later kernels' counters may be missing.
pub record CpuTime : Type 0 where
  pub user : ℕ
  pub nice : ℕ
  pub system : ℕ
  pub idle : ℕ
  pub iowait : Option ℕ
  pub irq : Option ℕ
  pub softirq : Option ℕ
  pub steal : Option ℕ
  pub guest : Option ℕ
  pub guest_nice : Option ℕ

-- `unwrap_or(0)`.
unfoldable pub or_zero : Option ℕ → ℕ
or_zero none = 0
or_zero (some n) = n

unfoldable pub total_ticks_of : CpuTime → ℕ
total_ticks_of t =
    let upto_idle = sat_add64 (sat_add64 (sat_add64 t.user t.nice) t.system) t.idle in
    let upto_softirq =
      sat_add64 (sat_add64 (sat_add64 upto_idle (or_zero t.iowait)) (or_zero t.irq))
        (or_zero t.softirq) in
    sat_add64 (sat_add64 (sat_add64 upto_softirq (or_zero t.steal)) (or_zero t.guest))
      (or_zero t.guest_nice)

unfoldable pub read_host_cpu_sample : CpuTime → HostCpuSample
read_host_cpu_sample t = record {
  busy_ticks = total_ticks_of t - sat_add64 t.idle (or_zero t.iowait);
  total_ticks = total_ticks_of t;
}

-- `delta_total == 0.0` for a converted u64.
unfoldable pub host_cpu_utilisation : {F : Type 0} → Float F → HostCpuSample → HostCpuSample → F
host_cpu_utilisation fl previous current =
    let delta_busy = current.busy_ticks - previous.busy_ticks in
    let delta_total = current.total_ticks - previous.total_ticks in
    if delta_total == 0
    then zero_f fl
    else clamp fl (fl.div (fl.of_nat delta_busy) (fl.of_nat delta_total)) (zero_f fl) (one_f fl)
