-- ===== src/Controller/Plan/Order.antt =====
-- src/controller.rs: which decisions the plan of a tick holds, and in which order.
use mathlib.Core.List.{map-append}
use io_thread_controller.Base.{
  ℕ, ◌+◌, Bool, false, not, ◌≡◌, refl, ap, ◌∙◌, none, some, List, [], ◌∷◌, ◌++◌, String, arith,
  keep, map, ltb, if◌then◌else◌,
}
use io_thread_controller.Base.Table.{lookup, contains_id, same_id}
use io_thread_controller.Engines.{target, InstanceDecision}
use io_thread_controller.Instance.{InstanceStatus}
use io_thread_controller.Controller.Plan.{Planned, plan_one, plan_from, plan}
use io_thread_controller.Controller.Plan.Sorting.{is_shrink, is_growing, shrink_first, plan-sorted}

-- A decision shrinks a pool if its VM is tracked with a size above its target, and grows it if with
-- one below.
unfoldable pub shrinks : {F : Type 0} → List (String × InstanceStatus F) → InstanceDecision → Bool
shrinks vms d = elim (lookup d.instance_id vms) [
  | none ↦ false
  | some status ↦ elim (target d.decision) [ none ↦ false | some t ↦ ltb t status.thread_count ]
]

unfoldable pub grows : {F : Type 0} → List (String × InstanceStatus F) → InstanceDecision → Bool
grows vms d = elim (lookup d.instance_id vms) [
  | none ↦ false
  | some status ↦ elim (target d.decision) [ none ↦ false | some t ↦ ltb status.thread_count t ]
]

-- The first decision on each VM.
unfoldable pub first_of_each : List InstanceDecision → List InstanceDecision
first_of_each [] = []
first_of_each (d ∷ ds) =
    d ∷ keep (λ e. not (same_id d.instance_id e.instance_id)) (first_of_each ds)

abbrev pub decision_of : Planned → InstanceDecision
decision_of p = record { instance_id = p.instance_id; decision = p.action }

abbrev is_new : List String → InstanceDecision → Bool
is_new seen d = not (contains_id d.instance_id seen)

keep_new-keep :
    (id : String) (seen : List String) (ds : List InstanceDecision)
    → keep (is_new seen) (keep (λ e. not (same_id id e.instance_id)) ds)
      ≡ keep (is_new (id ∷ seen)) ds
unfolding contains_id
keep_new-keep id seen [] = refl
keep_new-keep id seen (d ∷ ds) = ground (arith, keep_new-keep id seen ds)

module _ {F : Type 0} (vms : List (String × InstanceStatus F)) where
  plan_one-grows :
      (n : ℕ) (d : InstanceDecision) (rest : List Planned)
      → map decision_of (keep is_growing (plan_one vms n d ++ rest)) ≡ (
          if grows vms d
          then d ∷ map decision_of (keep is_growing rest)
          else map decision_of (keep is_growing rest))
  unfolding plan_one grows
  plan_one-grows n d rest = ground arith

  plan_one-shrinks :
      (n : ℕ) (d : InstanceDecision) (rest : List Planned)
      → map decision_of (keep is_shrink (plan_one vms n d ++ rest)) ≡ (
          if shrinks vms d
          then d ∷ map decision_of (keep is_shrink rest)
          else map decision_of (keep is_shrink rest))
  unfolding plan_one shrinks
  plan_one-shrinks n d rest = ground arith

  plan_from-grows :
      (seen : List String) (n : ℕ) (ds : List InstanceDecision)
      → map decision_of (keep is_growing (plan_from vms seen n ds))
        ≡ keep (grows vms) (keep (is_new seen) (first_of_each ds))
  unfolding plan_from first_of_each
  plan_from-grows seen n [] = refl
  plan_from-grows seen n (d ∷ ds) = ground (
    arith,
    plan_one-grows n d (plan_from vms (d.instance_id ∷ seen) (n + 1) ds),
    plan_from-grows (d.instance_id ∷ seen) (n + 1) ds,
    keep_new-keep d.instance_id seen (first_of_each ds),
  )

  plan_from-shrinks :
      (seen : List String) (n : ℕ) (ds : List InstanceDecision)
      → map decision_of (keep is_shrink (plan_from vms seen n ds))
        ≡ keep (shrinks vms) (keep (is_new seen) (first_of_each ds))
  unfolding plan_from first_of_each
  plan_from-shrinks seen n [] = refl
  plan_from-shrinks seen n (d ∷ ds) = ground (
    arith,
    plan_one-shrinks n d (plan_from vms (d.instance_id ∷ seen) (n + 1) ds),
    plan_from-shrinks (d.instance_id ∷ seen) (n + 1) ds,
    keep_new-keep d.instance_id seen (first_of_each ds),
  )

keep_new-nil : (ds : List InstanceDecision) → keep (is_new []) ds ≡ ds
unfolding contains_id
keep_new-nil [] = refl
keep_new-nil (d ∷ ds) = ap (λ rest. d ∷ rest) (keep_new-nil ds)

-- Of the first decision on each VM, the plan of a tick holds those that shrink a pool, in the order of
-- the engine's decisions, and after all of them those that grow one, in that order, and nothing else.
-- What shrinks or grows is told by the target and the size of the tracked VM.
pub plan-shrink_first :
    {F : Type 0} (vms : List (String × InstanceStatus F)) (decisions : List InstanceDecision)
    → map decision_of (plan vms decisions)
      ≡ keep (shrinks vms) (first_of_each decisions) ++ keep (grows vms) (first_of_each decisions)
unfolding shrink_first
plan-shrink_first vms decisions =
    let items = plan_from vms [] 0 decisions in
    let new = keep_new-nil (first_of_each decisions) in
    ap (map decision_of) (plan-sorted vms decisions)
    ∙ map-append decision_of (keep is_shrink items) (keep is_growing items)
    ∙ rw (plan_from-shrinks vms [] 0 decisions, plan_from-grows vms [] 0 decisions, new) refl
