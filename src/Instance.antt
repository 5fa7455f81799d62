-- ===== src/Instance.antt =====
-- src/instance.rs: one VM, its status, and the samples taken from its backend. The client of a VM and
-- the clock are a `World`, whose state every call passes on. Errors of a client are their text.
pub mod Rates
pub mod Tasks
pub mod Refresh
use io_thread_controller.Base.{ℕ, Bool, true, false, Option, none, some, List, [], String}
use io_thread_controller.Base.Words.{sat_add64}
use io_thread_controller.Float.{Float, zero_f}
use io_thread_controller.Rolling.{RollingMetrics}
use io_thread_controller.Rolling

pub record SnapshotLatency : Type 0 where
  pub p50 : ℕ
  pub p95 : ℕ
  pub p99 : ℕ
  pub avg : ℕ

pub record InstancePerfSample : Type 0 where
  pub read_io_count : ℕ
  pub write_io_count : ℕ
  pub other_io_count : ℕ
  pub read_bytes_total : ℕ
  pub write_bytes_total : ℕ
  pub read_seq_ops : ℕ
  pub read_rand_ops : ℕ
  pub write_seq_ops : ℕ
  pub write_rand_ops : ℕ
  pub small_ops : ℕ
  pub large_ops : ℕ
  pub read_latency_us : Option SnapshotLatency
  pub write_latency_us : Option SnapshotLatency
  pub per_vq_depth : Option (List ℕ)

unfoldable pub total_io_count : InstancePerfSample → ℕ
total_io_count p = sat_add64 (sat_add64 p.read_io_count p.write_io_count) p.other_io_count

pub record TaskCpuSample : Type 0 where
  pub tid : ℕ
  pub name : String
  pub cpu_ticks : ℕ

pub record CpuSample : Type 0 where
  pub cpu_ticks : ℕ
  pub sampled_at : ℕ
  pub thread_count : ℕ
  pub per_worker : List TaskCpuSample

pub record CgroupSample (F : Type 0) : Type 0 where
  pub quota_cores : F
  pub nr_throttled : ℕ
  pub throttled_usec : ℕ

pub record InstanceStatus (F : Type 0) : Type 0 where
  pub thread_count : ℕ
  pub vcpu_count : ℕ
  pub alive : Bool
  pub scaling_allowed : Bool
  pub ownership_classification : Option Bool
  pub cooldown_until : Option ℕ
  pub manual_scaling_sticky : Bool
  pub perf : Option InstancePerfSample
  pub per_thread_util : F
  pub last_cpu_sample : Option CpuSample
  pub per_worker_util : List F
  pub last_worker_names : Option (List String)
  pub cgroup : Option (CgroupSample F)
  pub throttled_usec_delta : ℕ
  pub rolling : RollingMetrics
  pub previous_perf_time : Option ℕ
  pub previous_read_io_count : ℕ
  pub previous_write_io_count : ℕ
  pub previous_other_io_count : ℕ
  pub previous_read_bytes_total : ℕ
  pub previous_write_bytes_total : ℕ
  pub read_iops : ℕ
  pub write_iops : ℕ
  pub other_iops : ℕ
  pub read_latency_us : Option SnapshotLatency
  pub write_latency_us : Option SnapshotLatency
  pub per_vq_depth : Option (List ℕ)
  pub read_bytes_per_second : ℕ
  pub write_bytes_per_second : ℕ

-- `InstanceStatus::scaling_allowed`, the method; the field of that name is another thing.
unfoldable pub is_scaling_allowed : {F : Type 0} → InstanceStatus F → Bool
is_scaling_allowed s = elim s.ownership_classification [ none ↦ false | some managed ↦ managed ]

-- The `match &status.perf` of the controller and of the engine.
unfoldable pub io_count : {F : Type 0} → InstanceStatus F → ℕ
io_count s = elim s.perf [ none ↦ 0 | some perf ↦ total_io_count perf ]

-- The status of `Instance::new`.
abbrev pub new_status : {F : Type 0} → Float F → InstanceStatus F
new_status fl = record {
  thread_count = 0;
  vcpu_count = 0;
  alive = false;
  scaling_allowed = true;
  ownership_classification = none;
  cooldown_until = none;
  manual_scaling_sticky = false;
  perf = none;
  per_thread_util = zero_f fl;
  last_cpu_sample = none;
  per_worker_util = [];
  last_worker_names = none;
  cgroup = none;
  throttled_usec_delta = 0;
  rolling = Rolling.new;
  previous_perf_time = none;
  previous_read_io_count = 0;
  previous_write_io_count = 0;
  previous_other_io_count = 0;
  previous_read_bytes_total = 0;
  previous_write_bytes_total = 0;
  read_iops = 0;
  write_iops = 0;
  other_iops = 0;
  read_latency_us = none;
  write_latency_us = none;
  per_vq_depth = none;
  read_bytes_per_second = 0;
  write_bytes_per_second = 0;
}

-- The calls of a client (`InstanceClient`), by the VM that it serves, and `Instant::now`. A tracked VM
-- has one client; `close_duplicate` closes that of a VM discovered again.
pub record World (W : Type 0) : Type 0 where
  -- the error, if any
  pub set_thread_count : String → ℕ → W → Option String × W
  pub close : String → W → W
  pub close_duplicate : String → W → W
  pub now : W → ℕ × W
