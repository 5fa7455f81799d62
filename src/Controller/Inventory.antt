-- ===== src/Controller/Inventory.antt =====
-- src/controller.rs: `sync_instances`, which makes the inventory the complete list of VMs discovered.
pub mod Tracked
use io_thread_controller.Base.{
  ℕ, ◌+◌, not, none, some, List, [], ◌∷◌, String, length, keep, is_some, if◌then◌else◌,
}
use io_thread_controller.Base.Table.{lookup, insert, remove, keys, contains_id}
use io_thread_controller.Instance.{InstanceStatus, World}
use io_thread_controller.State.{classification}
use io_thread_controller.Fleet.{ScalingEngine}
use io_thread_controller.Controller.{Controller}

module _ {F E W : Type 0} (eng : ScalingEngine F E) (world : World W) where
  abbrev pub classified : Controller F E → String → InstanceStatus F → InstanceStatus F
  classified c id status = record status {
    ownership_classification = classification c.vm_ownership id;
  }

  -- The body of the first loop, with the count of the VMs added.
  unfoldable pub add_one :
      String × InstanceStatus F → ℕ × Controller F E × W → ℕ × Controller F E × W
  add_one (id, status) (added, c, w) =
      if is_some (lookup id c.instances) then (added, c, world.close_duplicate id w) else (
        added + 1,
        record c {
          instances = insert id (classified c id status) c.instances;
          engine = eng.on_instance_added c.engine id;
        },
        w,
      )

  unfoldable pub add_all :
      List (String × InstanceStatus F) → ℕ × Controller F E × W → ℕ × Controller F E × W
  add_all [] state = state
  add_all (vm ∷ rest) state = add_all rest (add_one vm state)

  -- The body of the second loop.
  unfoldable pub remove_one : String → Controller F E × W → Controller F E × W
  remove_one id (c, w) = elim (lookup id c.instances) [
    | none ↦ (c, w)
    | some status ↦ (
      record c { instances = remove id c.instances; engine = eng.on_instance_removed c.engine id },
      world.close id w,
    )
  ]

  unfoldable pub remove_all : List String → Controller F E × W → Controller F E × W
  remove_all [] state = state
  remove_all (id ∷ rest) state = remove_all rest (remove_one id state)

  -- The numbers of VMs added and removed, and the state after.
  unfoldable pub sync_instances :
      Controller F E → List (String × InstanceStatus F) → W → ℕ × ℕ × Controller F E × W
  sync_instances c discovered w =
      let seen = keys discovered in
      let (added, c', w') = add_all discovered (0, c, w) in
      let stale = keep (λ id. not (contains_id id seen)) (keys c'.instances) in
      let (c'', w'') = remove_all stale (c', w') in (added, length stale, c'', w'')
