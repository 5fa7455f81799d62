-- ===== src/Controller/Manual.antt =====
-- src/controller.rs: `handle_set_thread_count`, the manual request for one VM.
pub mod Override
pub mod All
use io_thread_controller.Base.{ℕ, Bool, Option, none, some, String, ltb, ◌==◌, if◌then◌else◌}
use io_thread_controller.Base.Table.{lookup, insert}
use io_thread_controller.Instance.{InstanceStatus, World}
use io_thread_controller.Controller.{Controller}

-- The errors, by what they are about.
pub data ManualError : Type 0 where
  unknown_vm zero_threads : ManualError
  -- the request and the guest's vCPUs
  above_vcpu_count : ℕ → ℕ → ManualError
  backend_client : String → ManualError

module _ {F E W : Type 0} (world : World W) where
  -- The backend's answer, after `?`.
  unfoldable pub set_answer :
      Controller F E
      → String
      → InstanceStatus F
      → ℕ
      → Bool
      → Option String × W
      → Option ManualError × Controller F E × W
  set_answer c vm status threads sticky (some error, w) = (some (backend_client error), c, w)
  set_answer c vm status threads sticky (none, w) =
      let status' = record status { thread_count = threads; manual_scaling_sticky = sticky } in
      (none, record c { instances = insert vm status' c.instances }, w)

  unfoldable pub handle_set_thread_count :
      Controller F E → String → ℕ → Bool → W → Option ManualError × Controller F E × W
  handle_set_thread_count c vm threads sticky w = elim (lookup vm c.instances) [
    | none ↦ (some unknown_vm, c, w)
    | some status ↦
        if threads == 0
        then (some zero_threads, c, w)
        else if ltb status.vcpu_count threads
        then (some (above_vcpu_count threads status.vcpu_count), c, w)
        else set_answer c vm status threads sticky (world.set_thread_count vm threads w)
  ]
