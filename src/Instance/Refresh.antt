-- ===== src/Instance/Refresh.antt =====
-- src/instance.rs: `refresh_state` and `apply_thread_pool_snapshot`.
pub mod Policy
use io_thread_controller.Base.{
  ℕ, ◌+◌, ◌-◌, ◌*◌, Bool, true, false, ◌||◌, Option, none, some, List, [], ◌∷◌, String, ltb,
  if◌then◌else◌, is_some, not,
}
use io_thread_controller.Float.{Float, zero_f, one_f, clamp, as_secs}
use io_thread_controller.Rolling.{checked_sub, push_from_procfs_delta, push_from_backend_util}
use io_thread_controller.Instance.{
  InstancePerfSample, InstanceStatus, CpuSample, CgroupSample, total_io_count,
}
use io_thread_controller.Instance.Rates.{update_perf_rates}
use io_thread_controller.Instance.Tasks.{
  ThreadNameFilter, TaskStat, add_entries, finish_sample, compute_per_worker_util,
  update_worker_utilisation,
}

pub record ThreadPoolSnapshot (F : Type 0) : Type 0 where
  pub thread_count : ℕ
  pub vcpu_count : ℕ
  pub perf : Option InstancePerfSample
  pub per_thread_util : Option F

-- What a refresh reads of the outside, by the VM: the snapshot of its client, none on an error; the
-- tasks of its process, none if they cannot be listed; its cgroup, none on an error; and the client's
-- judgement of a first pool.
pub record Probe (F W : Type 0) : Type 0 where
  pub get_thread_pool_snapshot : String → W → Option (ThreadPoolSnapshot F) × W
  pub tasks : String → W → Option (List (Option TaskStat)) × W
  pub read_cgroup_sample : String → W → Option (CgroupSample F) × W
  pub initial_pool_is_managed : String → ℕ → ℕ → Bool
  pub thread_name_filter : String → ThreadNameFilter
  pub close : String → W → W
  pub now : W → ℕ × W

module _ {F W : Type 0} (fl : Float F) (ticks : F) (probe : Probe F W) where
  -- `read_cpu_sample`, after the listing.
  unfoldable pub sample_tasks : String → Option (List (Option TaskStat)) × W → Option CpuSample × W
  sample_tasks id (none, w) = (none, w)
  sample_tasks id (some entries, w) =
      let totals =
        add_entries (probe.thread_name_filter id)
          (record { cpu_ticks = 0; thread_count = 0; per_worker = [] }) entries in
      let (at, w') = probe.now w in (finish_sample totals at, w')

  unfoldable pub read_cpu_sample : String → W → Option CpuSample × W
  read_cpu_sample id w = sample_tasks id (probe.tasks id w)

  -- The sample is taken only if the backend gives no utilisation.
  unfoldable pub sample_cpu : String → ThreadPoolSnapshot F → W → Option CpuSample × W
  sample_cpu id snapshot w =
      if is_some snapshot.per_thread_util then (none, w) else read_cpu_sample id w

  unfoldable pub sample_cgroup :
      String → Bool → Option (CgroupSample F) → W → Option (CgroupSample F) × W
  sample_cgroup id refresh_cgroup previous w =
      if refresh_cgroup || not (is_some previous)
      then probe.read_cgroup_sample id w
      else (previous, w)

  unfoldable pub classify : String → ThreadPoolSnapshot F → InstanceStatus F → InstanceStatus F
  classify id snapshot s = record s {
    ownership_classification = elim s.ownership_classification [
      | none ↦ some (probe.initial_pool_is_managed id snapshot.thread_count snapshot.vcpu_count)
      | some managed ↦ some managed
    ];
  }

  -- The fields that the snapshot replaces.
  unfoldable pub copy_snapshot : ThreadPoolSnapshot F → InstanceStatus F → InstanceStatus F
  copy_snapshot snapshot s = record s {
    thread_count = snapshot.thread_count;
    vcpu_count = snapshot.vcpu_count;
    perf = snapshot.perf;
    read_latency_us = elim snapshot.perf [ none ↦ none | some perf ↦ perf.read_latency_us ];
    write_latency_us = elim snapshot.perf [ none ↦ none | some perf ↦ perf.write_latency_us ];
    per_vq_depth = elim snapshot.perf [ none ↦ none | some perf ↦ perf.per_vq_depth ];
    alive = true;
  }

  -- `wall_ticks`, where it is positive.
  unfoldable pub wall_ticks : CpuSample → CpuSample → Option F
  wall_ticks previous current = elim (checked_sub current.sampled_at previous.sampled_at) [
    | none ↦ none
    | some elapsed ↦
        let passed = fl.mul (as_secs fl elapsed) ticks in
        if fl.lt (zero_f fl) passed then some passed else none
  ]

  unfoldable pub update_from_tasks :
      Option CpuSample → Option CpuSample → InstanceStatus F → InstanceStatus F
  update_from_tasks none current s = s
  update_from_tasks (some previous) none s = s
  update_from_tasks (some previous) (some current) s = elim (wall_ticks previous current) [
    | none ↦ s
    | some passed ↦
        update_worker_utilisation fl s
          (compute_per_worker_util fl passed previous.per_worker current.per_worker)
  ]

  -- The utilisation: the backend's, or that of the tasks.
  unfoldable pub update_utilisation :
      Option F → Option CpuSample → InstanceStatus F → InstanceStatus F
  update_utilisation (some util) cpu s = record s {
    per_worker_util = [];
    last_worker_names = none;
    per_thread_util = util;
  }
  update_utilisation none cpu s = update_from_tasks s.last_cpu_sample cpu s

  -- The rolling history, by the same choice.
  unfoldable pub push_rolling :
      Option F → Option CpuSample → ℕ → ℕ → ℕ → InstanceStatus F → InstanceStatus F
  push_rolling (some util) cpu now io threads s = record s {
    rolling = push_from_backend_util fl s.rolling now io util threads;
  }
  push_rolling none (some current) now io threads s = record s {
    rolling = push_from_procfs_delta fl ticks s.rolling now io current.cpu_ticks;
  }
  push_rolling none none now io threads s = s

  -- `Some(previous), Some(current)` of the throttle counters.
  unfoldable pub throttled_since : Option (CgroupSample F) → Option (CgroupSample F) → ℕ
  throttled_since (some previous) (some current) = current.throttled_usec - previous.throttled_usec
  throttled_since none current = 0
  throttled_since (some previous) none = 0

  unfoldable pub keep_samples :
      Option F → Option CpuSample → Option (CgroupSample F) → InstanceStatus F → InstanceStatus F
  keep_samples util cpu cgroup s = record s {
    last_cpu_sample = if is_some util then none else cpu;
    throttled_usec_delta = throttled_since s.cgroup cgroup;
    cgroup = cgroup;
  }

  -- `util.clamp(0.0, 1.0)` of the backend's utilisation, where there is one.
  unfoldable pub backend_util : ThreadPoolSnapshot F → Option F
  backend_util snapshot = elim snapshot.per_thread_util [
    | none ↦ none
    | some util ↦ some (clamp fl util (zero_f fl) (one_f fl))
  ]

  -- `io_ops_total`.
  unfoldable pub snapshot_io_count : ThreadPoolSnapshot F → ℕ
  snapshot_io_count snapshot = elim snapshot.perf [ none ↦ 0 | some perf ↦ total_io_count perf ]

  -- The status after the samples are taken.
  unfoldable pub store_snapshot :
      String
      → ThreadPoolSnapshot F
      → Option CpuSample
      → Option (CgroupSample F)
      → ℕ
      → InstanceStatus F
      → InstanceStatus F
  store_snapshot id snapshot cpu cgroup now s =
      let rated = update_perf_rates (classify id snapshot s) snapshot.perf now in
      let util = backend_util snapshot in
      let used = update_utilisation util cpu (copy_snapshot snapshot rated) in
      keep_samples util cpu cgroup
        (push_rolling util cpu now (snapshot_io_count snapshot) snapshot.thread_count used)

  unfoldable pub apply_thread_pool_snapshot :
      String → ThreadPoolSnapshot F → Bool → InstanceStatus F → W → InstanceStatus F × W
  apply_thread_pool_snapshot id snapshot refresh_cgroup s w =
      let (cpu, w1) = sample_cpu id snapshot w in
      let (cgroup, w2) = sample_cgroup id refresh_cgroup s.cgroup w1 in
      let (now, w3) = probe.now w2 in (store_snapshot id snapshot cpu cgroup now s, w3)

  -- Whether the refresh succeeded. A failure marks the VM dead and closes its client.
  unfoldable pub refresh_answer :
      String
      → Bool
      → InstanceStatus F
      → Option (ThreadPoolSnapshot F) × W
      → Bool × InstanceStatus F × W
  refresh_answer id refresh_cgroup s (none, w) =
      (false, record s { alive = false }, probe.close id w)
  refresh_answer id refresh_cgroup s (some snapshot, w) =
      let (s', w') = apply_thread_pool_snapshot id snapshot refresh_cgroup s w in (true, s', w')

  unfoldable pub refresh_state : String → Bool → InstanceStatus F → W → Bool × InstanceStatus F × W
  refresh_state id refresh_cgroup s w =
      refresh_answer id refresh_cgroup s (probe.get_thread_pool_snapshot id w)
