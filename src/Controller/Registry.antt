-- ===== src/Controller/Registry.antt =====
-- src/controller.rs: `persist_new_classifications`, which records the classifications that first
-- snapshots have made.
pub mod Durable
pub mod Agreement
mod Examples
use io_thread_controller.Base.{Bool, true, false, none, some, Option, List, [], ◌∷◌, String}
use io_thread_controller.State.{
  StateError, Result, ok, err, VmOwnership, classification, record_vm, Codec, Disk, VmStateStore,
  save,
}
use io_thread_controller.Instance.{InstanceStatus}
use io_thread_controller.Controller.{Controller}

pub data RegistryError : Type 0 where
  -- "VM {id} ownership changed after classification"
  ownership_changed : String → RegistryError
  state : StateError → RegistryError

-- Whether the registry has changed so far, or the error that ends the loop.
pub data Progress : Type 0 where
  going : Bool → Progress
  stopped : RegistryError → Progress

-- The `?` on `record`.
unfoldable pub after_record : VmOwnership → Result VmOwnership → VmOwnership × Progress
after_record own (ok own') = (own', going true)
after_record own (err e) = (own, stopped (state e))

-- The persisted classification against that of the status.
unfoldable pub agree : Bool → String → Bool → Bool → Progress
agree changed id true true = going changed
agree changed id false false = going changed
agree changed id true false = stopped (ownership_changed id)
agree changed id false true = stopped (ownership_changed id)

-- The `match` on what the registry has for a VM with a classification.
unfoldable pub persist_found :
    VmOwnership → Bool → String → Bool → Option Bool → VmOwnership × Progress
persist_found own changed id managed none = after_record own (record_vm own id managed)
persist_found own changed id managed (some persisted) = (own, agree changed id persisted managed)

-- The body of the loop.
unfoldable pub persist_one : VmOwnership → Bool → String → Option Bool → VmOwnership × Progress
persist_one own changed id none = (own, going changed)
persist_one own changed id (some managed) =
    persist_found own changed id managed (classification own id)

unfoldable pub persist_all :
    {F : Type 0} → VmOwnership → Bool → List (String × InstanceStatus F) → VmOwnership × Progress
persist_all own changed [] = (own, going changed)
persist_all own changed (vm ∷ rest) =
    let (own', progress) = persist_one own changed vm.0 vm.1.ownership_classification in
    elim progress [
      | stopped e ↦ (own', stopped e)
      | going changed' ↦ persist_all own' changed' rest
    ]

module _ {D : Type 0} (fs : Disk D) (json : Codec) (store : VmStateStore) where
  -- The `?` on `save`.
  unfoldable pub saved : Result (Unit {0}) × D → Option RegistryError × D
  saved (ok _, d) = (none, d)
  saved (err e, d) = (some (state e), d)

  -- After the loop: the registry is written if it has changed.
  unfoldable pub finish_persist : VmOwnership → Progress → D → Option RegistryError × D
  finish_persist own (stopped e) d = (some e, d)
  finish_persist own (going false) d = (none, d)
  finish_persist own (going true) d = saved (save fs json store own d)

  -- The error, if any, the controller and the disk.
  unfoldable pub persist_new_classifications :
      {F E : Type 0}
      → Controller F E
      → List (String × InstanceStatus F)
      → D
      → Option RegistryError × Controller F E × D
  persist_new_classifications c fleet d =
      let (own, progress) = persist_all c.vm_ownership false fleet in
      let (error, d') = finish_persist own progress d in
      (error, record c { vm_ownership = own }, d')
