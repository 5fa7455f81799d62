-- ===== src/Controller/Snapshot.antt =====
-- src/controller.rs: what `GetSnapshot` and `GetStats` tell of the fleet, before it is JSON. The `median`
-- of the crate `statistical` and the process of a VM are arguments.
use io_thread_controller.Base.{
  ℕ, ◌*◌, ◌/◌, ◌%◌, Bool, Option, none, some, List, [], ◌∷◌, map, String, length, is_some,
  if◌then◌else◌,
}
use io_thread_controller.Base.Words.{sat_add64, wrap32}
use io_thread_controller.Float.{Float, zero_f}
use io_thread_controller.Instance.{InstanceStatus, SnapshotLatency}
use io_thread_controller.Instance.Tasks.{sum_from}
use io_thread_controller.Controller.{Controller}

pub record CpuStats : Type 0 where
  pub avg_pct : ℕ
  pub median_pct : ℕ
  pub total_pct : ℕ

-- The four values of `summarize_vq_depths`.
pub record DepthSummary : Type 0 where
  pub num_queues : Option ℕ
  pub qd_total : Option ℕ
  pub qd_avg_x100 : Option ℕ
  pub qd_median : Option ℕ

pub record SnapshotVm (F : Type 0) : Type 0 where
  pub id : String
  pub vcpu_count : ℕ
  pub pid : ℕ
  pub thread_count : ℕ
  pub alive : Bool
  pub perf_available : Bool
  pub per_thread_util : F
  pub manual_scaling_sticky : Bool
  pub read_iops : ℕ
  pub write_iops : ℕ
  pub other_iops : ℕ
  pub read_bw_bps : ℕ
  pub write_bw_bps : ℕ
  pub read_latency_us : Option SnapshotLatency
  pub write_latency_us : Option SnapshotLatency
  pub depths : DepthSummary
  pub per_vq_depth : Option (List ℕ)
  pub cpu_pct_avg : Option ℕ
  pub cpu_pct_median : Option ℕ
  pub cpu_pct_total : Option ℕ

-- An object of the list `vms` of `GetStats`.
pub record StatsVm (F : Type 0) : Type 0 where
  pub vm : String
  pub thread_count : ℕ
  pub manual_scaling_sticky : Bool
  pub scaling_allowed : Bool
  pub vcpu_count : ℕ
  pub per_thread_util : F
  pub read_io_count : ℕ
  pub write_io_count : ℕ
  pub other_io_count : ℕ

-- `fold(0, u64::saturating_add)`.
unfoldable pub total_depth : ℕ → List ℕ → ℕ
total_depth total [] = total
total_depth total (depth ∷ depths) = total_depth (sat_add64 total depth) depths

module _ {F : Type 0} (fl : Float F) (median : List F → F) where
  -- `(x * 100.0).round() as u64`.
  unfoldable pub percent : F → ℕ
  percent x = fl.as_u64 (fl.round (fl.mul x (fl.of_nat 100)))

  -- With samples of the workers.
  unfoldable pub worker_stats : List F → CpuStats
  worker_stats util =
      let total = sum_from fl (zero_f fl) util in
      record {
        avg_pct = percent (fl.div total (fl.of_nat (length util)));
        median_pct = percent (median util);
        total_pct = percent total;
      }

  unfoldable pub compute_cpu_stats : InstanceStatus F → CpuStats
  compute_cpu_stats s = elim s.per_worker_util [
    | first ∷ rest ↦ worker_stats (first ∷ rest)
    | [] ↦ record {
      avg_pct = percent s.per_thread_util;
      median_pct = percent s.per_thread_util;
      total_pct = percent (fl.mul s.per_thread_util (fl.of_nat s.thread_count));
    }
  ]

  -- The average is of u128 numbers, and `as u64` wraps.
  unfoldable pub summarize_vq_depths : Option (List ℕ) → DepthSummary
  summarize_vq_depths none = record {
    num_queues = none;
    qd_total = none;
    qd_avg_x100 = none;
    qd_median = none;
  }
  summarize_vq_depths (some []) = record {
    num_queues = none;
    qd_total = none;
    qd_avg_x100 = none;
    qd_median = none;
  }
  summarize_vq_depths (some (depth ∷ depths)) =
      let all = depth ∷ depths in
      let total = total_depth 0 all in
      record {
        num_queues = some (wrap32 (length all));
        qd_total = some total;
        qd_avg_x100 = some (total * 100 / length all % 18446744073709551616);
        qd_median = some (fl.as_u64 (fl.floor (median (map fl.of_nat all))));
      }

  -- The body of the loop of `handle_get_snapshot`.
  unfoldable pub snapshot_vm : (pid_of : String → ℕ) → String × InstanceStatus F → SnapshotVm F
  snapshot_vm pid_of (id, s) =
      let cpu_stats = compute_cpu_stats s in
      record {
        id = id;
        vcpu_count = s.vcpu_count;
        pid = pid_of id;
        thread_count = s.thread_count;
        alive = s.alive;
        perf_available = is_some s.perf;
        per_thread_util = if fl.is_finite s.per_thread_util then s.per_thread_util else zero_f fl;
        manual_scaling_sticky = s.manual_scaling_sticky;
        read_iops = s.read_iops;
        write_iops = s.write_iops;
        other_iops = s.other_iops;
        read_bw_bps = s.read_bytes_per_second;
        write_bw_bps = s.write_bytes_per_second;
        read_latency_us = s.read_latency_us;
        write_latency_us = s.write_latency_us;
        depths = summarize_vq_depths s.per_vq_depth;
        per_vq_depth = s.per_vq_depth;
        cpu_pct_avg = some cpu_stats.avg_pct;
        cpu_pct_median = some cpu_stats.median_pct;
        cpu_pct_total = some cpu_stats.total_pct;
      }

  unfoldable pub handle_get_snapshot :
      {E : Type 0} → (pid_of : String → ℕ) → Controller F E → List (SnapshotVm F)
  handle_get_snapshot pid_of c = map (snapshot_vm pid_of) c.instances

-- The body of the loop of `GetStats`: the counters are 0 without performance data, and
-- `scaling_allowed` is the field.
unfoldable pub stats_vm : {F : Type 0} → String × InstanceStatus F → StatsVm F
stats_vm (id, s) = record {
  vm = id;
  thread_count = s.thread_count;
  manual_scaling_sticky = s.manual_scaling_sticky;
  scaling_allowed = s.scaling_allowed;
  vcpu_count = s.vcpu_count;
  per_thread_util = s.per_thread_util;
  read_io_count = elim s.perf [ none ↦ 0 | some perf ↦ perf.read_io_count ];
  write_io_count = elim s.perf [ none ↦ 0 | some perf ↦ perf.write_io_count ];
  other_io_count = elim s.perf [ none ↦ 0 | some perf ↦ perf.other_io_count ];
}

-- The tick and the VMs.
unfoldable pub handle_get_stats : {F E : Type 0} → Controller F E → ℕ × List (StatsVm F)
handle_get_stats c = (c.tick_index, map stats_vm c.instances)
