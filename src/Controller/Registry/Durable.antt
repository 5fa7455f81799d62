-- ===== src/Controller/Registry/Durable.antt =====
-- src/controller.rs: what `persist_new_classifications` makes durable.
use io_thread_controller.Base.{
  Bool, true, false, ◌≡◌, ◌≢◌, refl, sym, ◌∙◌, ap, ◌⊎◌, inl, inr, none, some, Option, List, [], ◌∷◌,
  String, arith, All,
}
use io_thread_controller.Base.Table.{same_id_iff}
use io_thread_controller.State.{
  Result, ok, err, VmOwnership, classification, record_vm, Codec, decode_encoded, Disk,
  VmStateStore, load, save,
}
use io_thread_controller.State.Ownership.{record_vm-classification}
use io_thread_controller.State.Store.{IsDisk, load-save}
use io_thread_controller.Instance.{InstanceStatus}
use io_thread_controller.Controller.{Controller}
use io_thread_controller.Controller.Registry.{
  Progress, going, stopped, after_record, persist_found, agree, persist_one, persist_all, saved,
  finish_persist, persist_new_classifications,
}

-- Every classification of `own` is one of `own'`.
IsKept : VmOwnership → VmOwnership → Type 0
IsKept own own' =
    (j : String) (known : Bool)
    → classification own j ≡ some known
    → classification own' j ≡ some known

-- The registry has the classification of the VM, if its status has one.
unfoldable pub IsRecorded : {F : Type 0} → VmOwnership → String × InstanceStatus F → Type 0
IsRecorded own vm =
    (vm.1.ownership_classification ≡ none)
    ⊎ (classification own vm.0 ≡ vm.1.ownership_classification)

-- What a step that goes on has done.
IsStep : VmOwnership → Bool → String → Option Bool → VmOwnership → Bool → Type 0
IsStep own changed id managed own' changed' =
    IsKept own own'
    × ((managed ≡ none) ⊎ (classification own' id ≡ managed))
    × (((changed' ≡ changed) × (own' ≡ own)) ⊎ (changed' ≡ true))

after_record-IsStep :
    (own : VmOwnership) (id : String) (changed changed' managed : Bool) (r : Result VmOwnership)
    → record_vm own id managed ≡ r
    → (after_record own r).1 ≡ going changed'
    → IsStep own changed id (some managed) (after_record own r).0 changed'
unfolding after_record IsStep IsKept
after_record-IsStep own id changed changed' managed (err e) recorded h = ground (arith, h)
after_record-IsStep own id changed changed' managed (ok new) recorded h = (
  λ j known before.
      ground
        (arith, before, record_vm-classification own new id j managed recorded, same_id_iff id j),
  inr (
      ground (
        arith,
        record_vm-classification own new id id managed recorded,
        (same_id_iff id id).1 refl,
      )),
  inr (ground (arith, h)),
)

known-IsStep :
    (own : VmOwnership) (id : String) (changed changed' managed : Bool) (c : Option Bool)
    → classification own id ≡ c
    → (persist_found own changed id managed c).1 ≡ going changed'
    → IsStep own changed id (some managed) (persist_found own changed id managed c).0 changed'
unfolding persist_found agree IsStep IsKept
known-IsStep own id changed changed' managed none found h =
    after_record-IsStep own id changed changed' managed (record_vm own id managed) refl h
known-IsStep own id changed changed' true (some true) found h =
    (λ j known before. before, inr found, inl (ground (arith, h), refl))
known-IsStep own id changed changed' false (some false) found h =
    (λ j known before. before, inr found, inl (ground (arith, h), refl))
known-IsStep own id changed changed' true (some false) found h = ground (arith, h)
known-IsStep own id changed changed' false (some true) found h = ground (arith, h)

persist_one-IsStep :
    (own : VmOwnership) (id : String) (changed changed' : Bool) (managed : Option Bool)
    → (persist_one own changed id managed).1 ≡ going changed'
    → IsStep own changed id managed (persist_one own changed id managed).0 changed'
unfolding persist_one IsStep IsKept
persist_one-IsStep own id changed changed' none h =
    (λ j known before. before, inl refl, inl (ground (arith, h), refl))
persist_one-IsStep own id changed changed' (some managed) h =
    known-IsStep own id changed changed' managed (classification own id) refl h

module _ {F : Type 0} where
  -- What a loop that ends without error has done.
  IsRun : VmOwnership → Bool → List (String × InstanceStatus F) → VmOwnership → Bool → Type 0
  IsRun own changed vms own' changed' =
      IsKept own own'
      × All (IsRecorded own') vms
      × (((changed' ≡ changed) × (own' ≡ own)) ⊎ (changed' ≡ true))

  IsRecorded-kept :
      (own own' : VmOwnership) (id : String) (status : InstanceStatus F) (managed : Option Bool)
      → status.ownership_classification ≡ managed
      → IsKept own own'
      → (managed ≡ none) ⊎ (classification own id ≡ managed)
      → IsRecorded own' (id, status)
  unfolding IsRecorded IsKept
  IsRecorded-kept own own' id status managed has kept (inl without) = inl (has ∙ without)
  IsRecorded-kept own own' id status none has kept (inr recorded) = inl has
  IsRecorded-kept own own' id status (some m) has kept (inr recorded) =
      inr (kept id m recorded ∙ sym has)

  IsRun-cons :
      (own own1 own2 : VmOwnership) (changed changed1 changed2 : Bool)
      (vm : String × InstanceStatus F) (rest : List (String × InstanceStatus F))
      → IsStep own changed vm.0 vm.1.ownership_classification own1 changed1
      → IsRun own1 changed1 rest own2 changed2
      → IsRun own changed (vm ∷ rest) own2 changed2
  unfolding IsRun IsStep IsKept
  IsRun-cons own own1 own2 changed changed1 changed2 vm rest (kept1, here, was1)
        (kept2, later, was2) =
      (
        λ j known before. kept2 j known (kept1 j known before),
        (IsRecorded-kept own1 own2 vm.0 vm.1 vm.1.ownership_classification refl kept2 here, later),
        joined was1 was2,
      )
    where
      joined :
          ((changed1 ≡ changed) × (own1 ≡ own)) ⊎ (changed1 ≡ true)
          → ((changed2 ≡ changed1) × (own2 ≡ own1)) ⊎ (changed2 ≡ true)
          → ((changed2 ≡ changed) × (own2 ≡ own)) ⊎ (changed2 ≡ true)
      joined w (inr dirty) = inr dirty
      joined (inl (same1, own_same1)) (inl (same2, own_same2)) =
          inl (same2 ∙ same1, own_same2 ∙ own_same1)
      joined (inr dirty) (inl (same2, own_same2)) = inr (same2 ∙ dirty)

  abbrev elim_progress :
      VmOwnership → List (String × InstanceStatus F) → Progress → VmOwnership × Progress
  elim_progress own rest progress = elim progress [
    | stopped e ↦ (own, stopped e)
    | going changed ↦ persist_all own changed rest
  ]

  -- The rest of the loop, by the progress of the first step.
  continued-IsRun :
      (own own1 : VmOwnership) (changed changed' : Bool) (vm : String × InstanceStatus F)
      (rest : List (String × InstanceStatus F)) (progress : Progress)
      → ((changed1 : Bool)
          → progress ≡ going changed1
          → IsStep own changed vm.0 vm.1.ownership_classification own1 changed1)
      → ((changed1 : Bool)
          → (persist_all own1 changed1 rest).1 ≡ going changed'
          → IsRun own1 changed1 rest (persist_all own1 changed1 rest).0 changed')
      → (elim_progress own1 rest progress).1 ≡ going changed'
      → IsRun own changed (vm ∷ rest) (elim_progress own1 rest progress).0 changed'
  continued-IsRun own own1 changed changed' vm rest (stopped e) step later h = ground (arith, h)
  continued-IsRun own own1 changed changed' vm rest (going changed1) step later h =
      IsRun-cons own own1 _ changed changed1 changed' vm rest (step changed1 refl)
        (later changed1 h)

  persist_all-IsRun :
      (vms : List (String × InstanceStatus F)) (own : VmOwnership) (changed changed' : Bool)
      → (persist_all own changed vms).1 ≡ going changed'
      → IsRun own changed vms (persist_all own changed vms).0 changed'
  unfolding persist_all IsRun IsKept
  persist_all-IsRun [] own changed changed' h =
      (λ j known before. before, tt, inl (ground (arith, h), refl))
  persist_all-IsRun (vm ∷ rest) own changed changed' h =
      let step = persist_one own changed vm.0 vm.1.ownership_classification in
      continued-IsRun own step.0 changed changed' vm rest step.1
        (λ changed1 e. persist_one-IsStep own vm.0 changed changed1 _ e)
        (λ changed1 e. persist_all-IsRun rest step.0 changed1 changed' e) h

module _ {D : Type 0} (fs : Disk D) (laws : IsDisk fs) (json : Codec) (store : VmStateStore)
    (own_tmp : store.tmp ≢ store.path) where
  saved_ok :
      (r : Result (Unit {0}) × D)
      → (saved fs json store r).0 ≡ none
      → (r.0 ≡ ok tt) × ((saved fs json store r).1 ≡ r.1)
  unfolding saved
  saved_ok (ok tt, d) h = (refl, refl)
  saved_ok (err e, d) h = ground (arith, h)

  finish_durable :
      (own own' : VmOwnership) (progress : Progress) (d : D)
      → decode_encoded json own' ≡ some own'
      → load fs json store d ≡ ok own
      → ((changed : Bool)
          → progress ≡ going changed
          → ((changed ≡ false) × (own' ≡ own)) ⊎ (changed ≡ true))
      → (finish_persist fs json store own' progress d).0 ≡ none
      → load fs json store (finish_persist fs json store own' progress d).1 ≡ ok own'
  unfolding finish_persist
  finish_durable own own' (stopped e) d decodes held was h = ground (arith, h)
  finish_durable own own' (going false) d decodes held was h = ground (arith, held, was false refl)
  finish_durable own own' (going true) d decodes held was h =
      let (ended, at) = saved_ok (save fs json store own' d) h in
      ap (load fs json store) at ∙ load-save fs laws json store own_tmp own' d decodes ended

  persist_going :
      {F E : Type 0} (c : Controller F E) (fleet : List (String × InstanceStatus F)) (d : D)
      (progress : Progress)
      → (persist_all c.vm_ownership false fleet).1 ≡ progress
      → (finish_persist fs json store (persist_all c.vm_ownership false fleet).0 progress d).0
        ≡ none
      → (changed : Bool) × (progress ≡ going changed)
  unfolding finish_persist
  persist_going c fleet d (stopped e) same h = ground (arith, h)
  persist_going c fleet d (going changed) same h = (changed, refl)

  -- If the registry file holds the controller's registry, and new classifications are persisted without
  -- an error, the file holds the controller's registry again, and the registry agrees with every VM of
  -- the fleet that has a classification; where the codec decodes its encoding of that registry, and on
  -- a file system with `IsDisk`.
  pub persist-durable :
      {F E : Type 0} (c : Controller F E) (fleet : List (String × InstanceStatus F)) (d : D)
      → let own = (persist_all c.vm_ownership false fleet).0 in
        decode_encoded json own ≡ some own
        → load fs json store d ≡ ok c.vm_ownership
        → (persist_new_classifications fs json store c fleet d).0 ≡ none
        → let (error, c', d') = persist_new_classifications fs json store c fleet d in
          (load fs json store d' ≡ ok c'.vm_ownership) × All (IsRecorded c'.vm_ownership) fleet
  unfolding persist_new_classifications IsRun
  persist-durable c fleet d decodes held h =
      let (changed, e) = persist_going c fleet d _ refl h in
      (
        finish_durable c.vm_ownership _ _ d decodes held
            (λ changed' e'. (persist_all-IsRun fleet c.vm_ownership false changed' e').2) h,
        (persist_all-IsRun fleet c.vm_ownership false changed e).1,
      )
