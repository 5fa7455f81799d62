-- ===== src/Controller.antt =====
-- src/controller.rs: the controller's state and its operations. `Actuation` applies one decision, `Plan`
-- turns a tick's decisions into work, `Manual` serves a manual request, `Inventory` follows discovery,
-- and `Registry` persists classifications. Log lines and status lines are left out.
pub mod Actuation
pub mod Plan
pub mod Manual
pub mod Inventory
pub mod Registry
pub mod HostCpu
pub mod Snapshot
pub mod Requests
pub mod Tick
pub mod Sound
pub mod Examples
use io_thread_controller.Base.{ℕ, Option, List, String}
use io_thread_controller.Config.{Config}
use io_thread_controller.Instance.{InstanceStatus}
use io_thread_controller.State.{VmOwnership}

pub record HostCpuSample : Type 0 where
  pub busy_ticks : ℕ
  pub total_ticks : ℕ

-- The store's path is in `cfg`; the pressure samples, which no engine reads, are left out.
pub record Controller (F E : Type 0) : Type 0 where
  pub cfg : Config F
  pub engine : E
  pub vm_ownership : VmOwnership
  pub instances : List (String × InstanceStatus F)
  pub tick_index : ℕ
  pub last_host_cpu : Option HostCpuSample
  pub host_cpu_util : F
