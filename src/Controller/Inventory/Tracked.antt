-- ===== src/Controller/Inventory/Tracked.antt =====
-- src/controller.rs: what `sync_instances` leaves tracked.
use io_thread_controller.Base.{
  ℕ, Bool, not, ◌&&◌, ◌≡◌, refl, ◌∙◌, ap, Option, none, some, List, [], ◌∷◌, String, arith, keep,
  is_some, if◌then◌else◌,
}
use io_thread_controller.Base.Table.{
  lookup, keys, contains_id, same_id, same_id_iff, lookup-insert, lookup-remove,
}
use io_thread_controller.Instance.{InstanceStatus, World}
use io_thread_controller.State.{VmOwnership, classification}
use io_thread_controller.Fleet.{ScalingEngine}
use io_thread_controller.Controller.{Controller}
use io_thread_controller.Controller.Inventory.{
  classified, add_one, add_all, remove_one, remove_all, sync_instances,
}

-- The keys of a map are those with a value.
contains_id-keys {ℓ} :
    {V : Type ℓ} (j : String) (table : List (String × V))
    → contains_id j (keys table) ≡ is_some (lookup j table)
unfolding contains_id lookup
contains_id-keys j [] = refl
contains_id-keys j (e ∷ rest) = ground (arith, contains_id-keys j rest)

contains_id-keep :
    (p : String → Bool) (j : String) (ids : List String)
    → contains_id j (keep p ids) ≡ (p j && contains_id j ids)
unfolding contains_id
contains_id-keep p j [] = ground arith
contains_id-keep p j (k ∷ rest) = ground (arith, contains_id-keep p j rest, same_id_iff k j)

-- A VM tracked before keeps its status; a new one starts with its persisted classification.
merged :
    {F : Type 0}
    → VmOwnership
    → String
    → Option (InstanceStatus F)
    → Option (InstanceStatus F)
    → Option (InstanceStatus F)
merged own id (some tracked) fresh = some tracked
merged own id none none = none
merged own id none (some fresh) =
    some (record fresh { ownership_classification = classification own id })

module _ {F E W : Type 0} (eng : ScalingEngine F E) (world : World W) where
  lookup-remove_one :
      (j id : String) (c : Controller F E) (w : W)
      → lookup j (remove_one eng world id (c, w)).0.instances
        ≡ (if same_id id j then none else lookup j c.instances)
  unfolding remove_one
  lookup-remove_one j id c w = ground (arith, lookup-remove id j c.instances, same_id_iff id j)

  lookup-remove_all :
      (j : String) (ids : List String) (c : Controller F E) (w : W)
      → lookup j (remove_all eng world ids (c, w)).0.instances
        ≡ (if contains_id j ids then none else lookup j c.instances)
  unfolding remove_all contains_id
  lookup-remove_all j [] c w = refl
  lookup-remove_all j (id ∷ rest) c w =
      let next = remove_one eng world id (c, w) in
      ground (arith, lookup-remove_all j rest next.0 next.1, lookup-remove_one j id c w)

  lookup-add_one :
      (j : String) (vm : String × InstanceStatus F) (n : ℕ) (c : Controller F E) (w : W)
      → lookup j (add_one eng world vm (n, c, w)).1.instances ≡ (
          if same_id vm.0 j
          then merged c.vm_ownership j (lookup j c.instances) (some vm.1)
          else lookup j c.instances)
  unfolding add_one merged
  lookup-add_one j (id, status) n c w =
      ground
        (arith, lookup-insert id j (classified eng world c id status) c.instances, same_id_iff id j)

  add_one-vm_ownership :
      (vm : String × InstanceStatus F) (n : ℕ) (c : Controller F E) (w : W)
      → (add_one eng world vm (n, c, w)).1.vm_ownership ≡ c.vm_ownership
  unfolding add_one
  add_one-vm_ownership (id, status) n c w = ground arith

  -- One more VM discovered, then the rest.
  merged-cons :
      (own : VmOwnership) (j : String) (vm : String × InstanceStatus F)
      (rest : List (String × InstanceStatus F)) (tracked : Option (InstanceStatus F))
      → merged own j
          (if same_id vm.0 j then merged own j tracked (some vm.1) else tracked)
          (lookup j rest)
        ≡ merged own j tracked (lookup j (vm ∷ rest))
  unfolding merged lookup
  merged-cons own j vm rest none = ground arith
  merged-cons own j vm rest (some s) = ground arith

  lookup-add_all :
      (j : String) (vms : List (String × InstanceStatus F)) (n : ℕ) (c : Controller F E) (w : W)
      → lookup j (add_all eng world vms (n, c, w)).1.instances
        ≡ merged c.vm_ownership j (lookup j c.instances) (lookup j vms)
  unfolding add_all merged lookup
  lookup-add_all j [] n c w = ground arith
  lookup-add_all j (vm ∷ rest) n c w =
      let next = add_one eng world vm (n, c, w) in
      lookup-add_all j rest next.0 next.1 next.2
      ∙ ap (λ own. merged own j (lookup j next.1.instances) (lookup j rest))
          (add_one-vm_ownership vm n c w)
      ∙ ap (λ tracked. merged c.vm_ownership j tracked (lookup j rest)) (lookup-add_one j vm n c w)
      ∙ merged-cons c.vm_ownership j vm rest (lookup j c.instances)

  -- After a synchronisation exactly the discovered VMs are tracked: one that was tracked before keeps
  -- its whole status, and a new one has the status that discovery made, with its persisted
  -- classification.
  pub lookup-sync_instances :
      (c : Controller F E) (discovered : List (String × InstanceStatus F)) (w : W) (j : String)
      → let (added, removed, c', w') = sync_instances eng world c discovered w in
        lookup j c'.instances ≡ (elim (lookup j discovered) [
          | none ↦ none
          | some fresh ↦ elim (lookup j c.instances) [
            | some tracked ↦ some tracked
            | none ↦
                some (record fresh { ownership_classification = classification c.vm_ownership j })
          ]
        ])
  unfolding sync_instances merged
  lookup-sync_instances c discovered w j =
      let seen = keys discovered in
      let start = add_all eng world discovered (0, c, w) in
      ground (
        arith,
        lookup-remove_all j (keep (λ id. not (contains_id id seen)) (keys start.1.instances))
            start.1 start.2,
        contains_id-keep (λ id. not (contains_id id seen)) j (keys start.1.instances),
        contains_id-keys j start.1.instances,
        contains_id-keys j discovered,
        lookup-add_all j discovered 0 c w,
      )
