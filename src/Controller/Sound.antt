-- ===== src/Controller/Sound.antt =====
-- The invariant of the controller's inventory and registry, and the single changes that keep it.
use io_thread_controller.Base.{
  ◌≡◌, refl, sym, Bool, true, false, ◌||◌, Option, none, some, List, [], ◌∷◌, String, All, if_keeps,
  inl, inr, Bool-cases, arith,
}
use io_thread_controller.Base.Sorting.{Distinct}
use io_thread_controller.Base.Table.{
  lookup, insert, remove, keys, contains_id, same_id, same_id_iff,
}
use io_thread_controller.State.{VmOwnership, classification}
use io_thread_controller.Instance.{InstanceStatus}

-- What the registry says of a VM, its status says.
unfoldable pub Agrees : Option Bool → Option Bool → Type 0
Agrees none own = Unit
Agrees (some managed) own = own ≡ some managed

unfoldable pub Follows : {F : Type 0} → VmOwnership → String × InstanceStatus F → Type 0
Follows registry vm = Agrees (classification registry vm.0) vm.1.ownership_classification

-- Every tracked VM is tracked once, with a status that follows the registry.
unfoldable pub IsTracked : {F : Type 0} → VmOwnership → List (String × InstanceStatus F) → Type 0
IsTracked registry vms = All (Follows registry) vms × Distinct (keys vms)

module _ {F : Type 0} where
  found_first :
      (id : String) (status : InstanceStatus F) (vm : String × InstanceStatus F)
      (vms : List (String × InstanceStatus F))
      → same_id vm.0 id ≡ true
      → lookup id (vm ∷ vms) ≡ some status
      → status ≡ vm.1
  unfolding lookup
  found_first id status vm vms same found = ground (arith, same, found)

module _ {F : Type 0} (registry : VmOwnership) where
  lookup-Follows :
      (id : String) (status : InstanceStatus F) (vms : List (String × InstanceStatus F))
      → All (Follows registry) vms
      → lookup id vms ≡ some status
      → Follows registry (id, status)
  unfolding lookup Follows
  lookup-Follows id status [] all found = absurd (ground (arith, found))
  lookup-Follows id status (vm ∷ vms) (head, tail) found = elim (Bool-cases (same_id vm.0 id)) [
    | inl same ↦
        rw (sym ((same_id_iff vm.0 id).0 same), found_first id status vm vms same found) head
    | inr differ ↦ lookup-Follows id status vms tail (ground (arith, found, differ))
  ]

  insert-All :
      (id : String) (status : InstanceStatus F) (vms : List (String × InstanceStatus F))
      → Follows registry (id, status)
      → All (Follows registry) vms
      → All (Follows registry) (insert id status vms)
  unfolding insert
  insert-All id status [] new all = (new, tt)
  insert-All id status (vm ∷ vms) new (head, tail) =
      if_keeps (All (Follows registry)) (same_id vm.0 id) _ _ (λ _. (new, tail))
        (λ _. (head, insert-All id status vms new tail))

  remove-All :
      (id : String) (vms : List (String × InstanceStatus F))
      → All (Follows registry) vms
      → All (Follows registry) (remove id vms)
  unfolding remove
  remove-All id [] all = tt
  remove-All id (vm ∷ vms) (head, tail) =
      if_keeps (All (Follows registry)) (same_id vm.0 id) _ _ (λ _. remove-All id vms tail)
        (λ _. (head, remove-All id vms tail))

module _ {F : Type 0} where
  contains_id-keys-insert :
      (j id : String) (status : InstanceStatus F) (vms : List (String × InstanceStatus F))
      → contains_id j (keys (insert id status vms)) ≡ (same_id id j || contains_id j (keys vms))
  unfolding contains_id insert
  contains_id-keys-insert j id status [] = refl
  contains_id-keys-insert j id status (vm ∷ vms) = ground (
    arith,
    contains_id-keys-insert j id status vms,
    same_id_iff vm.0 id,
    same_id_iff vm.0 j,
    same_id_iff id j,
  )

  contains_id-keys-remove :
      (j id : String) (vms : List (String × InstanceStatus F))
      → contains_id j (keys vms) ≡ false
      → contains_id j (keys (remove id vms)) ≡ false
  unfolding contains_id remove
  contains_id-keys-remove j id [] absent = absent
  contains_id-keys-remove j id (vm ∷ vms) absent =
      ground (arith, absent, contains_id-keys-remove j id vms)

  insert-Distinct :
      (id : String) (status : InstanceStatus F) (vms : List (String × InstanceStatus F))
      → Distinct (keys vms)
      → Distinct (keys (insert id status vms))
  unfolding Distinct contains_id insert
  insert-Distinct id status [] distinct = (refl, tt)
  insert-Distinct id status (vm ∷ vms) (head, tail) = ground (
    arith,
    head,
    tail,
    insert-Distinct id status vms,
    contains_id-keys-insert vm.0 id status vms,
    same_id_iff vm.0 id,
    same_id_iff id vm.0,
  )

  remove-Distinct :
      (id : String) (vms : List (String × InstanceStatus F))
      → Distinct (keys vms)
      → Distinct (keys (remove id vms))
  unfolding Distinct remove
  remove-Distinct id [] distinct = tt
  remove-Distinct id (vm ∷ vms) (head, tail) =
      if_keeps (λ (kept : List (String × InstanceStatus F)). Distinct (keys kept)) (same_id vm.0 id)
        _ _ (λ _. remove-Distinct id vms tail)
        (λ _. (contains_id-keys-remove vm.0 id vms head, remove-Distinct id vms tail))

module _ {F : Type 0} (registry : VmOwnership) (vms : List (String × InstanceStatus F)) where
  -- A status that follows the registry is stored.
  pub insert-IsTracked :
      (id : String) (status : InstanceStatus F)
      → Follows registry (id, status)
      → IsTracked registry vms
      → IsTracked registry (insert id status vms)
  unfolding IsTracked
  insert-IsTracked id status follows (all, distinct) =
      (insert-All registry id status vms follows all, insert-Distinct id status vms distinct)

  pub remove-IsTracked : (id : String) → IsTracked registry vms → IsTracked registry (remove id vms)
  unfolding IsTracked
  remove-IsTracked id (all, distinct) =
      (remove-All registry id vms all, remove-Distinct id vms distinct)

  -- A status of the VM with the classification that it had is stored.
  pub update-IsTracked :
      (id : String) (status new : InstanceStatus F)
      → lookup id vms ≡ some status
      → new.ownership_classification ≡ status.ownership_classification
      → IsTracked registry vms
      → IsTracked registry (insert id new vms)
  unfolding IsTracked Follows
  update-IsTracked id status new found same (all, distinct) =
      insert-IsTracked id new (rw same (lookup-Follows registry id status vms all found))
        (all, distinct)
