-- ===== src/Controller/Registry/Agreement.antt =====
-- Persisting the classifications of a tracked fleet finds no conflict.
use io_thread_controller.Base.{
  ◌≡◌, refl, ◌∙◌, Bool, true, false, Option, none, some, List, [], ◌∷◌, String, All, arith,
}
use io_thread_controller.Base.Sorting.{Distinct}
use io_thread_controller.Base.Table.{keys, contains_id, same_id, same_id_iff}
use io_thread_controller.State.{Result, ok, err, VmOwnership, classification, record_vm, validate}
use io_thread_controller.State.Ownership.{record_vm-classification}
use io_thread_controller.Instance.{InstanceStatus}
use io_thread_controller.Controller.Registry.{
  Progress, going, stopped, after_record, agree, persist_found, persist_one, persist_all,
}
use io_thread_controller.Controller.Sound.{Agrees, Follows, IsTracked}

-- What persisting one VM leaves: no error, the VM's own classification in the registry if it has one,
-- every other VM's as it was, and the validity of the registry.
unfoldable Recorded : VmOwnership → String → Option Bool → VmOwnership × Progress → Type 0
Recorded own id status (own', stopped e) = ⊥
Recorded own id status (own', going changed) =
    Agrees (classification own' id) status
    × ((j : String) → same_id id j ≡ false → classification own' j ≡ classification own j)
    × (validate own' ≡ validate own)

agree-going :
    (own : VmOwnership) (changed : Bool) (id : String) (managed persisted : Bool)
    → classification own id ≡ some persisted
    → some managed ≡ some persisted
    → Recorded own id (some managed) (own, agree changed id persisted managed)
unfolding Recorded agree Agrees
agree-going own changed id true true known same = (rw known refl, (λ j apart. refl), refl)
agree-going own changed id false false known same = (rw known refl, (λ j apart. refl), refl)
agree-going own changed id true false known same = absurd (ground (arith, same))
agree-going own changed id false true known same = absurd (ground (arith, same))

recorded_own :
    (own own' : VmOwnership) (id : String) (managed : Bool)
    → record_vm own id managed ≡ ok own'
    → classification own' id ≡ some managed
recorded_own own own' id managed recorded =
    ground
      (arith, record_vm-classification own own' id id managed recorded, (same_id_iff id id).1 refl)

after_record-Recorded :
    (own : VmOwnership) (id : String) (managed : Bool) (r : Result VmOwnership)
    → record_vm own id managed ≡ r
    → classification own id ≡ none
    → Recorded own id (some managed) (after_record own r)
unfolding Recorded after_record Agrees record_vm
after_record-Recorded own id managed (err e) recorded unknown =
    absurd (ground (arith, recorded, unknown))
after_record-Recorded own id managed (ok own') recorded unknown = (
  rw (recorded_own own own' id managed recorded) refl,
  (λ j apart. ground (arith, apart, record_vm-classification own own' id j managed recorded)),
  (record_vm-classification own own' id id managed recorded).2,
)

persist_found-Recorded :
    (own : VmOwnership) (changed : Bool) (id : String) (managed : Bool) (known : Option Bool)
    → classification own id ≡ known
    → Agrees known (some managed)
    → Recorded own id (some managed) (persist_found own changed id managed known)
unfolding persist_found Agrees
persist_found-Recorded own changed id managed none unknown agrees =
    after_record-Recorded own id managed (record_vm own id managed) refl unknown
persist_found-Recorded own changed id managed (some persisted) known agrees =
    agree-going own changed id managed persisted known agrees

persist_one-Recorded :
    (own : VmOwnership) (changed : Bool) (id : String) (status : Option Bool)
    → Agrees (classification own id) status
    → Recorded own id status (persist_one own changed id status)
unfolding persist_one Recorded
persist_one-Recorded own changed id none agrees = (agrees, (λ j apart. refl), refl)
persist_one-Recorded own changed id (some managed) agrees =
    persist_found-Recorded own changed id managed (classification own id) refl agrees

-- Statuses of other VMs follow a registry that has the same for them.
Follows-apart :
    {F : Type 0} (own own' : VmOwnership) (id : String) (vms : List (String × InstanceStatus F))
    → ((j : String) → same_id id j ≡ false → classification own' j ≡ classification own j)
    → contains_id id (keys vms) ≡ false
    → All (Follows own) vms
    → All (Follows own') vms
unfolding Follows contains_id
Follows-apart own own' id [] same absent all = tt
Follows-apart own own' id (vm ∷ vms) same absent (head, tail) = (
  rw (same vm.0 (ground (arith, absent, same_id_iff id vm.0, same_id_iff vm.0 id))) head,
  Follows-apart own own' id vms same (ground (arith, absent)) tail,
)

-- What persisting a list of VMs leaves.
unfoldable pub AllRecorded :
    {F : Type 0} → VmOwnership → List (String × InstanceStatus F) → VmOwnership × Progress → Type 0
AllRecorded own vms (own', stopped e) = ⊥
AllRecorded own vms (own', going changed) =
    All (Follows own') vms
    × ((j : String)
        → contains_id j (keys vms) ≡ false
        → classification own' j ≡ classification own j)
    × (validate own' ≡ validate own)

AllRecorded-cons :
    {F : Type 0} (own own1 : VmOwnership) (vm : String × InstanceStatus F)
    (vms : List (String × InstanceStatus F)) (r : VmOwnership × Progress)
    → Agrees (classification own1 vm.0) vm.1.ownership_classification
    → ((j : String) → same_id vm.0 j ≡ false → classification own1 j ≡ classification own j)
    → validate own1 ≡ validate own
    → contains_id vm.0 (keys vms) ≡ false
    → AllRecorded own1 vms r
    → AllRecorded own (vm ∷ vms) r
unfolding AllRecorded Follows contains_id
AllRecorded-cons own own1 vm vms (own', stopped e) agrees same valid absent held = held
AllRecorded-cons own own1 vm vms (own', going changed) agrees same valid absent
      (all, kept, valid') =
    (
      (rw (kept vm.0 absent) agrees, all),
      (λ j apart.
          kept j (ground (arith, apart))
          ∙ same j (ground (arith, apart, same_id_iff vm.0 j, same_id_iff j vm.0))),
      valid' ∙ valid,
    )

persist_step :
    {F : Type 0} (own : VmOwnership) (vm : String × InstanceStatus F)
    (vms : List (String × InstanceStatus F)) (one : VmOwnership × Progress)
    → ((own1 : VmOwnership) (changed : Bool)
        → All (Follows own1) vms
        → AllRecorded own1 vms (persist_all own1 changed vms))
    → contains_id vm.0 (keys vms) ≡ false
    → All (Follows own) vms
    → Recorded own vm.0 vm.1.ownership_classification one
    → AllRecorded own (vm ∷ vms) (elim one.1 as (λ _. VmOwnership × Progress) [
      | stopped e ↦ (one.0, stopped e)
      | going changed ↦ persist_all one.0 changed vms
    ])
unfolding Recorded
persist_step own vm vms (own1, stopped e) later absent all held = absurd held
persist_step own vm vms (own1, going changed) later absent all (agrees, same, valid) =
    AllRecorded-cons own own1 vm vms _ agrees same valid absent
      (later own1 changed (Follows-apart own own1 vm.0 vms same absent all))

pub persist_all-AllRecorded :
    {F : Type 0} (own : VmOwnership) (changed : Bool) (vms : List (String × InstanceStatus F))
    → IsTracked own vms
    → AllRecorded own vms (persist_all own changed vms)
unfolding persist_all IsTracked Distinct AllRecorded Agrees Follows
persist_all-AllRecorded own changed [] (all, distinct) = (tt, (λ j apart. refl), refl)
persist_all-AllRecorded own changed (vm ∷ vms) ((head, tail), (absent, distinct)) =
    persist_step own vm vms (persist_one own changed vm.0 vm.1.ownership_classification)
      (λ own1 changed' all. persist_all-AllRecorded own1 changed' vms (all, distinct)) absent tail
      (persist_one-Recorded own changed vm.0 vm.1.ownership_classification head)
