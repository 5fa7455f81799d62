-- ===== src/Controller/Tick.antt =====
-- src/controller.rs: `tick`, the composition of refresh, persistence, evaluation and actuation.
pub mod Soundness
use io_thread_controller.Base.{
  ℕ, ◌+◌, ◌%◌, Bool, true, false, Option, none, some, List, [], ◌∷◌, String, if◌then◌else◌,
}
use io_thread_controller.Base.Table.{remove}
use io_thread_controller.Float.{Float}
use io_thread_controller.Engines.{EngineTickContext}
use io_thread_controller.State.{Codec, Disk, VmStateStore}
use io_thread_controller.Instance.{InstanceStatus, World}
use io_thread_controller.Instance.Refresh.{Probe, refresh_state}
use io_thread_controller.Fleet.{ScalingEngine}
use io_thread_controller.Controller.{Controller}
use io_thread_controller.Controller.HostCpu.{CpuTime, read_host_cpu_sample, host_cpu_utilisation}
use io_thread_controller.Controller.Plan.{act_on}
use io_thread_controller.Controller.Registry.{RegistryError, persist_new_classifications}

-- What the controller is given: the engine, the clients, what a refresh reads, the totals of
-- /proc/stat (none if they cannot be read), the disk and its codec, the kernel's tick rate, and what the
-- requests need: a median, the process of a VM, and serde's error for a text that is no mapping.
pub record Environment (F E W D : Type 0) : Type 0 where
  pub fl : Float F
  pub ticks : F
  pub eng : ScalingEngine F E
  pub world : World W
  pub probe : Probe F W
  pub host_cpu : W → Option CpuTime × W
  pub fs : Disk D
  pub json : Codec
  pub store : VmStateStore
  pub median : List F → F
  pub pid_of : String → ℕ
  pub decode_mapping : String → Option String

module _ {F E W D : Type 0} (env : Environment F E W D) where
  unfoldable pub sample_host : Controller F E → Option CpuTime → Controller F E
  sample_host c none = c
  sample_host c (some time) =
      let current = read_host_cpu_sample time in
      let util : F = elim c.last_host_cpu [
        | none ↦ c.host_cpu_util
        | some previous ↦ host_cpu_utilisation env.fl previous current
      ] in
      record c { host_cpu_util = util; last_host_cpu = some current }

  -- The refreshes of `join_all`, made in order, with the VMs that failed.
  unfoldable pub refresh_all :
      Bool
      → List (String × InstanceStatus F)
      → W
      → List (String × InstanceStatus F) × List String × W
  refresh_all refresh_cgroup [] w = ([], [], w)
  refresh_all refresh_cgroup (vm ∷ rest) w =
      let (refreshed, status, w') =
        refresh_state env.fl env.ticks env.probe vm.0 refresh_cgroup vm.1 w in
      let (fleet, failed, w'') = refresh_all refresh_cgroup rest w' in
      ((vm.0, status) ∷ fleet, if refreshed then failed else vm.0 ∷ failed, w'')

  -- The loop over the failed VMs.
  unfoldable pub drop_failed : List String → Controller F E → Controller F E
  drop_failed [] c = c
  drop_failed (id ∷ rest) c = drop_failed rest (record c {
    instances = remove id c.instances;
    engine = env.eng.on_instance_removed c.engine id;
  })

  unfoldable pub tick_context : Controller F E → ℕ → EngineTickContext F
  tick_context c now = record {
    now = now;
    min_thread_count = c.cfg.min_thread_count;
    max_thread_count = c.cfg.max_thread_count;
    host_cpu_util = c.host_cpu_util;
    tick_index = c.tick_index;
  }

  -- From the evaluation on.
  unfoldable pub evaluate_and_act : Controller F E → EngineTickContext F → W → Controller F E × W
  evaluate_and_act c context w =
      let (decisions, engine) = env.eng.evaluate_fleet c.engine c.instances context in
      let (adjusted, c', w') =
        act_on env.fl env.eng env.world (record c { engine = engine }) decisions w in
      (c', w')

  -- The `?` after the persistence.
  unfoldable pub after_persist :
      EngineTickContext F
      → W
      → Option RegistryError × Controller F E × D
      → Option RegistryError × Controller F E × D × W
  after_persist context w (some e, c, d) = (some e, c, d, w)
  after_persist context w (none, c, d) =
      let (c', w') = evaluate_and_act c context w in (none, c', d, w')

  -- From the refresh on.
  unfoldable pub refresh_and_act :
      Controller F E → EngineTickContext F → D → W → Option RegistryError × Controller F E × D × W
  refresh_and_act c context d w =
      let (fleet, failed, w') = refresh_all c.cfg.refresh_cgroup_on_each_read c.instances w in
      let c' = drop_failed failed (record c { instances = fleet }) in
      after_persist context w'
        (persist_new_classifications env.fs env.json env.store c' c'.instances d)

  -- The error, if any, and the state after it.
  unfoldable pub tick : Controller F E → D → W → Option RegistryError × Controller F E × D × W
  tick c d w =
      let (time, w1) = env.host_cpu w in
      let c' =
        sample_host (record c { tick_index = (c.tick_index + 1) % 18446744073709551616 }) time in
      let (now, w2) = env.world.now w1 in refresh_and_act c' (tick_context c' now) d w2
