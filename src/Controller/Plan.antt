-- ===== src/Controller/Plan.antt =====
-- src/controller.rs: the part of `tick` that turns the engine's decisions into a plan and applies it.
pub mod Sorting
pub mod Order
pub mod Limits
pub mod Effects
pub mod View
use io_thread_controller.Base.{
  ℕ, ◌+◌, Bool, true, false, not, ◌&&◌, ◌||◌, Option, none, some, List, [], ◌∷◌, ◌++◌, String, ltb,
  leb, ◌==◌, if◌then◌else◌,
}
use io_thread_controller.Base.Table.{lookup, contains_id}
use io_thread_controller.Float.{Float}
use io_thread_controller.Engines.{ScaleAction, target, InstanceDecision}
use io_thread_controller.Instance.{InstanceStatus, World}
use io_thread_controller.Fleet.{ScalingEngine}
use io_thread_controller.Controller.{Controller}
use io_thread_controller.Controller.Actuation.{apply_engine_decision}

-- The tuple `(target > current, sequence, item.instance_id, action)`.
pub record Planned : Type 0 where
  pub is_growth : Bool
  pub sequence : ℕ
  pub instance_id : String
  pub action : ScaleAction

-- The body of the loop after the test for duplicates: nothing for an unknown VM, without a target,
-- or at the current size.
unfoldable pub plan_one :
    {F : Type 0} → List (String × InstanceStatus F) → ℕ → InstanceDecision → List Planned
plan_one vms sequence d = elim (lookup d.instance_id vms) [
  | none ↦ []
  | some status ↦ elim (target d.decision) [
    | none ↦ []
    | some t ↦
        if t == status.thread_count
        then []
        else record {
          is_growth = ltb status.thread_count t;
          sequence = sequence;
          instance_id = d.instance_id;
          action = d.decision;
        }
          ∷ []
  ]
]

-- The loop over the enumerated decisions, with `planned_ids`.
unfoldable pub plan_from :
    {F : Type 0}
    → List (String × InstanceStatus F)
    → List String
    → ℕ
    → List InstanceDecision
    → List Planned
plan_from vms planned_ids sequence [] = []
plan_from vms planned_ids sequence (d ∷ ds) =
    let rest = plan_from vms (d.instance_id ∷ planned_ids) (sequence + 1) ds in
    if contains_id d.instance_id planned_ids then rest else plan_one vms sequence d ++ rest

-- `sort_by_key` on `(is_up, sequence)`, a stable sort by insertion: whether `a` may stand before `b`.
unfoldable pub key_le : Planned → Planned → Bool
key_le a b =
    if a.is_growth
    then b.is_growth && leb a.sequence b.sequence
    else b.is_growth || leb a.sequence b.sequence

unfoldable pub insert_sorted : Planned → List Planned → List Planned
insert_sorted a [] = a ∷ []
insert_sorted a (b ∷ rest) =
    let later = insert_sorted a rest in if key_le a b then a ∷ b ∷ rest else b ∷ later

unfoldable pub sort_plan : List Planned → List Planned
sort_plan [] = []
sort_plan (a ∷ rest) = insert_sorted a (sort_plan rest)

unfoldable pub plan :
    {F : Type 0} → List (String × InstanceStatus F) → List InstanceDecision → List Planned
plan vms decisions = sort_plan (plan_from vms [] 0 decisions)

module _ {F E W : Type 0} (fl : Float F) (eng : ScalingEngine F E) (world : World W) where
  -- The body of the loop that applies the plan: `cap` is `max_instances_adjusted_per_poll`.
  unfoldable pub apply_planned : ℕ → Planned → ℕ × Controller F E × W → ℕ × Controller F E × W
  apply_planned cap item (adjusted, c, w) =
      if ltb 0 cap && leb cap adjusted
      then (adjusted, c, w)
      else (let (applied, c', w') =
            apply_engine_decision fl eng world c item.instance_id item.action w in
          (if applied then adjusted + 1 else adjusted, c', w'))

  unfoldable pub apply_plan : ℕ → List Planned → ℕ × Controller F E × W → ℕ × Controller F E × W
  apply_plan cap [] state = state
  apply_plan cap (item ∷ rest) state = apply_plan cap rest (apply_planned cap item state)

  -- From the engine's decisions to the end of the tick's actuation.
  unfoldable pub act_on : Controller F E → List InstanceDecision → W → ℕ × Controller F E × W
  act_on c decisions w =
      apply_plan c.cfg.max_instances_adjusted_per_poll (plan c.instances decisions) (0, c, w)
