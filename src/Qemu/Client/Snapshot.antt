-- ===== src/Qemu/Client/Snapshot.antt =====
-- src/backends/qemu/client.rs: `get_thread_pool_snapshot`, and `CpuSample::new` of helpers.rs. What procfs
-- answers is a `Procfs`.
use io_thread_controller.Base.{
  ℕ, ◌+◌, ◌%◌, max, Bool, not, true, false, ◌&&◌, Option, none, some, String, List, [], ◌∷◌, length,
  ltb, if◌then◌else◌,
}
use Prim.Native.String.{◌++◌}
use io_thread_controller.Base.Words.{wrap32}
use io_thread_controller.Base.Table.{same_id}
use io_thread_controller.Base.Text.{is_empty}
use io_thread_controller.Float.{Float}
use io_thread_controller.Instance.{InstancePerfSample}
use io_thread_controller.Instance.Refresh.{ThreadPoolSnapshot}
use io_thread_controller.Qemu.{
  ℤ, pos, negsuc, same_int, QemuError, qmp_error, BackendClientError, invalid_state, procfs,
  client_error, Result, ok, err,
}
use io_thread_controller.Qemu.Names.{decimal}
use io_thread_controller.Qemu.Cpu.{CpuSample, diff_jiffies_sample}
use io_thread_controller.Qemu.Topology.{QemuTopology, Metrics, parse_topology}
use io_thread_controller.Qemu.Transport.{Monitor, query_prometheus_metrics}
use io_thread_controller.Qemu.Transport.Blockstats.{query_blockstats}
use io_thread_controller.Qemu.Client.{Session, pool_size, set_guest}

pub data ClientResult (A : Type 0) : Type 0 where
  done : A → ClientResult A
  failed : BackendClientError → ClientResult A

-- An answer of procfs, or the text of its error.
pub data ProcAnswer (A : Type 0) : Type 0 where
  answered : A → ProcAnswer A
  proc_error : String → ProcAnswer A

-- `Process::new`, `status().tgid`, the `utime` and `stime` of a task of a process, and the clock.
pub record Procfs (Q : Type 0) : Type 0 where
  pub process : ℤ → Q → ProcAnswer (Unit {0}) × Q
  pub tgid : ℤ → Q → ProcAnswer ℤ × Q
  pub task_times : (pid tid : ℤ) → Q → ProcAnswer (ℕ × ℕ) × Q
  pub now : Q → ℕ × Q

-- `HashMap<i32, u64>::insert`.
unfoldable pub insert_jiffies : ℤ → ℕ → List (ℤ × ℕ) → List (ℤ × ℕ)
insert_jiffies tid jiffies [] = (tid, jiffies) ∷ []
insert_jiffies tid jiffies ((t, j) ∷ rest) =
    let later = insert_jiffies tid jiffies rest in
    if same_int t tid then (tid, jiffies) ∷ rest else (t, j) ∷ later

-- `utime + stime` of a release build.
abbrev pub task_jiffies : ℕ × ℕ → ℕ
task_jiffies (utime, stime) = (utime + stime) % 18446744073709551616

module _ {Q : Type 0} (proc : Procfs Q) where
  -- The loop over the tasks; an error ends it.
  unfoldable pub sample_tids :
      ℤ → List (String × ℤ) → List (ℤ × ℕ) → Q → ClientResult (List (ℤ × ℕ)) × Q
  sample_tids pid [] jiffies q = (done jiffies, q)
  sample_tids pid ((id, tid) ∷ rest) jiffies q =
      let (answer, q') = proc.task_times pid tid q in
      elim answer [
        | proc_error text ↦ (failed (procfs text), q')
        | answered times ↦ sample_tids pid rest (insert_jiffies tid (task_jiffies times) jiffies) q'
      ]

  -- The sample at a time.
  unfoldable pub sampled_at : ℕ → ClientResult (List (ℤ × ℕ)) × Q → ClientResult CpuSample × Q
  sampled_at wall (failed e, q) = (failed e, q)
  sampled_at wall (done jiffies, q) = (done (record { jiffies = jiffies; wall = wall }), q)

  unfoldable pub sample_process :
      ℤ → List (String × ℤ) → ℕ → ProcAnswer (Unit {0}) × Q → ClientResult CpuSample × Q
  sample_process pid tids wall (proc_error text, q) = (failed (procfs text), q)
  sample_process pid tids wall (answered _, q) = sampled_at wall (sample_tids pid tids [] q)

  -- `CpuSample::new`: the time is read first.
  unfoldable pub new_cpu_sample : ℤ → List (String × ℤ) → Q → ClientResult CpuSample × Q
  new_cpu_sample pid tids q =
      let (wall, q') = proc.now q in sample_process pid tids wall (proc.process pid q')

-- An `i32` in a message.
unfoldable pub print_int : ℤ → String
print_int (pos n) = decimal n
print_int (negsuc n) = "-" ++ decimal (n + 1)

unfoldable pub is_positive : ℤ → Bool
is_positive (pos n) = ltb 0 n
is_positive (negsuc n) = false

-- `values().next().copied().unwrap_or(0)`.
unfoldable pub first_tid : List (String × ℤ) → ℤ
first_tid [] = pos 0
first_tid ((id, tid) ∷ rest) = tid

-- The guard of `CommandNotFound` on the query of the metrics.
unfoldable pub is_unsupported : QemuError → Bool
is_unsupported (qmp_error cmd class desc) =
    same_id cmd "x-query-prometheus-metrics" && same_id class "CommandNotFound"
is_unsupported _ = false

-- A query of the block statistics that fails gives no counters.
unfoldable pub best_effort : Result (Option InstancePerfSample) → Option InstancePerfSample
best_effort (ok perf) = perf
best_effort (err e) = none

-- The depths ride on the counters.
unfoldable pub with_depths : List ℕ → Option InstancePerfSample → Option InstancePerfSample
with_depths depths none = none
with_depths [] (some perf) = some perf
with_depths (depth ∷ depths) (some perf) =
    some (record perf { per_vq_depth = some (depth ∷ depths) })

module _ {F Q : Type 0} (fl : Float F) (metrics : Metrics F) (clock_ticks : ℕ) (monitor : Monitor Q)
    (proc : Procfs Q) (vcpu_count : ℕ) where
  unfoldable pub snapshot_from_cached_topology :
      Session Q → ClientResult (ThreadPoolSnapshot F) × Session Q
  snapshot_from_cached_topology s =
      let (answer, q) = query_blockstats monitor s.guest in
      (
        done (record {
          thread_count = max (pool_size s) 1;
          vcpu_count = vcpu_count;
          perf = best_effort answer;
          per_thread_util = none;
        }),
        set_guest q s,
      )

  -- The delta to the preceding sample, none at the first.
  unfoldable pub util_since : Option CpuSample → CpuSample → Option F
  util_since none sample = none
  util_since (some previous) sample = some (diff_jiffies_sample fl clock_ticks previous sample)

  -- The topology and the sample are stored, and the counters queried.
  unfoldable pub store_topology :
      QemuTopology → ℤ → CpuSample → Session Q → ClientResult (ThreadPoolSnapshot F) × Session Q
  store_topology topo pid sample s =
      let inner = record s.inner {
        pid = pid;
        iothreads = topo.iothreads;
        iothread_tids = topo.iothread_tids;
        device_path = topo.device_path;
        vq_count = topo.vq_count;
        last_sample = some sample;
      } in
      let (answer, q) = query_blockstats monitor s.guest in
      (
        done (record {
          thread_count = wrap32 (length topo.iothreads);
          vcpu_count = vcpu_count;
          perf = with_depths topo.vq_inflight (best_effort answer);
          per_thread_util = util_since s.inner.last_sample sample;
        }),
        record s { inner = inner; guest = q },
      )

  unfoldable pub use_sample :
      QemuTopology
      → ℤ
      → Session Q
      → ClientResult CpuSample × Q
      → ClientResult (ThreadPoolSnapshot F) × Session Q
  use_sample topo pid s (failed e, q) = (failed e, set_guest q s)
  use_sample topo pid s (done sample, q) = elim sample.jiffies [
    | [] ↦ (failed (invalid_state "qemu per-thread sample empty"), set_guest q s)
    | task ∷ tasks ↦ store_topology topo pid sample (set_guest q s)
  ]

  unfoldable pub use_tgid :
      QemuTopology → Session Q → ProcAnswer ℤ × Q → ClientResult (ThreadPoolSnapshot F) × Session Q
  use_tgid topo s (proc_error text, q) =
      (failed (invalid_state ("pid resolution: " ++ text)), set_guest q s)
  use_tgid topo s (answered pid, q) =
      if is_positive pid
      then use_sample topo pid s (new_cpu_sample proc pid topo.iothread_tids q)
      else (
        failed (
            invalid_state (
              "invalid pid "
              ++ (print_int pid ++ (" from tid " ++ print_int (first_tid topo.iothread_tids))))),
        set_guest q s,
      )

  unfoldable pub use_process :
      QemuTopology
      → Session Q
      → ProcAnswer (Unit {0}) × Q
      → ClientResult (ThreadPoolSnapshot F) × Session Q
  use_process topo s (proc_error text, q) = (failed (procfs text), set_guest q s)
  use_process topo s (answered _, q) = use_tgid topo s (proc.tgid (first_tid topo.iothread_tids) q)

  -- The guards on the topology.
  unfoldable pub use_topology :
      QemuTopology → Session Q → ClientResult (ThreadPoolSnapshot F) × Session Q
  use_topology topo s =
      if ltb 0 (length topo.iothreads) && not (is_empty topo.device_path)
      then (if same_int (first_tid topo.iothread_tids) (pos 0)
          then (failed (invalid_state "qemu topology reported no iothread TIDs"), s)
          else use_process topo s (proc.process (first_tid topo.iothread_tids) s.guest))
      else (
        failed (
            invalid_state (
              "qemu topology incomplete: iothreads="
              ++ (decimal (length topo.iothreads) ++ (" device=" ++ topo.device_path)))),
        s,
      )

  -- The answer to the query of the metrics.
  unfoldable pub use_metrics :
      Session Q → Result String × Q → ClientResult (ThreadPoolSnapshot F) × Session Q
  use_metrics s (ok body, q) = use_topology (parse_topology fl metrics body) (set_guest q s)
  use_metrics s (err e, q) =
      if is_unsupported e
      then snapshot_from_cached_topology
          (record s { inner = record s.inner { warned_unsupported_metrics = true }; guest = q })
      else (failed (client_error e), set_guest q s)

  unfoldable pub get_thread_pool_snapshot :
      Session Q → ClientResult (ThreadPoolSnapshot F) × Session Q
  get_thread_pool_snapshot s = use_metrics s (query_prometheus_metrics monitor s.guest)
