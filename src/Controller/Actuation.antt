-- ===== src/Controller/Actuation.antt =====
-- src/controller.rs: `apply_engine_decision` and `report_blocked_scale`. The body has no `?`, so its
-- `Result<bool, _>` is always `Ok`, and the model returns the Boolean.
pub mod Safety
pub mod Cooldown
use io_thread_controller.Base.{
  ℕ, ◌+◌, ◌*◌, Bool, true, false, not, ◌&&◌, Option, none, some, String, ltb, leb, if◌then◌else◌,
}
use io_thread_controller.Base.Table.{lookup, insert}
use io_thread_controller.Float.{Float, zero_f}
use io_thread_controller.Engines.{
  ScaleAction, target, is_up, is_up_or_down, is_scaling, BlockedReason, manual_override,
  unmanaged_vm, target_below_minimum, target_exceeds_maximum, target_exceeds_vcpu_count,
  host_cpu_ceiling, cooldown, Applied, success, dry_run, blocked, failed,
}
use io_thread_controller.Config.{Config}
use io_thread_controller.Instance.{InstanceStatus, World, io_count, is_scaling_allowed}
use io_thread_controller.Fleet.{ScalingEngine}
use io_thread_controller.Controller.{Controller}

-- The guards that come before the clock is read.
unfoldable pub policy_guard : {F : Type 0} → Config F → InstanceStatus F → ℕ → Option BlockedReason
policy_guard cfg status t =
    if status.manual_scaling_sticky
    then some manual_override
    else if not (is_scaling_allowed status)
    then some unmanaged_vm
    else if ltb t cfg.min_thread_count
    then some target_below_minimum
    else if ltb cfg.max_thread_count t
    then some target_exceeds_maximum
    else if ltb status.vcpu_count t
    then some target_exceeds_vcpu_count
    else none

-- `Duration::from_secs(cooldown_secs)` after an instant.
abbrev pub cooldown_from : {F : Type 0} → Config F → ℕ → ℕ
cooldown_from cfg at = at + cfg.cooldown_secs * 1000000000

module _ {F E W : Type 0} (fl : Float F) (eng : ScalingEngine F E) (world : World W) where
  -- The cooldown guard; the clock is read only when there is a cooldown to compare with.
  unfoldable pub is_cooling : ScaleAction → Option ℕ → W → Bool × W
  is_cooling action none w = (false, w)
  is_cooling action (some until) w =
      if is_up_or_down action
      then (let (at, w') = world.now w in (ltb at until, w'))
      else (false, w)

  unfoldable pub is_over_ceiling : Controller F E → ScaleAction → ℕ → ℕ → Bool
  is_over_ceiling c action previous_count t =
      ltb previous_count t
      && is_up action
      && fl.lt (zero_f fl) c.cfg.host_cpu_scale_up_ceiling
      && fl.le c.cfg.host_cpu_scale_up_ceiling c.host_cpu_util

  unfoldable pub report : Controller F E → String → BlockedReason → ScaleAction → Controller F E
  report c id reason action = record c {
    engine = eng.on_applied c.engine id (blocked action reason);
  }

  abbrev pub cool_down : Controller F E → ScaleAction → ℕ → InstanceStatus F → InstanceStatus F
  cool_down c action at status =
      if is_scaling action
      then record status { cooldown_until = some (cooldown_from c.cfg at) }
      else status

  abbrev pub outcome : ScaleAction → InstanceStatus F → ℕ → Applied
  outcome action status at = record {
    action = action;
    prev_thread_count = status.thread_count;
    prev_io_count_total = io_count status;
    applied_at = at;
  }

  -- The two `Instant::now()` of a dry run: the cooldown's, if the action has one, and the outcome's.
  unfoldable pub apply_dry :
      Controller F E → String → InstanceStatus F → ScaleAction → W → Controller F E × W
  apply_dry c id status action w =
      let (cooled_at, w') = (if is_scaling action then world.now w else (0, w)) in
      let (applied_at, w'') = world.now w' in
      (
        record c {
          instances = insert id (cool_down c action cooled_at status) c.instances;
          engine = eng.on_applied c.engine id (dry_run (outcome action status applied_at));
        },
        w'',
      )

  -- The two arms of the backend's answer.
  unfoldable pub apply_answer :
      Controller F E
      → String
      → InstanceStatus F
      → ScaleAction
      → ℕ
      → Option String × W
      → Bool × Controller F E × W
  apply_answer c id status action t (some error, w) =
      (false, record c { engine = eng.on_applied c.engine id (failed action error) }, w)
  apply_answer c id status action t (none, w) =
      let (applied_at, w') = world.now w in
      let sized = record status { thread_count = t } in
      (
        true,
        record c {
          instances = insert id (cool_down c action applied_at sized) c.instances;
          engine = eng.on_applied c.engine id (success (outcome action status applied_at));
        },
        w',
      )

  -- After every guard.
  unfoldable pub actuate :
      Controller F E → String → InstanceStatus F → ScaleAction → ℕ → W → Bool × Controller F E × W
  actuate c id status action t w =
      if c.cfg.dry_run
      then (let (c', w') = apply_dry c id status action w in (true, c', w'))
      else apply_answer c id status action t (world.set_thread_count id t w)

  unfoldable pub apply_unblocked :
      Controller F E
      → String
      → InstanceStatus F
      → ScaleAction
      → ℕ
      → Bool × W
      → Bool × Controller F E × W
  apply_unblocked c id status action t (cooling, w) =
      if cooling
      then (false, report c id cooldown action, w)
      else if is_over_ceiling c action status.thread_count t
      then (false, report c id host_cpu_ceiling action, w)
      else actuate c id status action t w

  -- On a tracked VM with a target.
  unfoldable pub apply_target :
      Controller F E → String → InstanceStatus F → ScaleAction → ℕ → W → Bool × Controller F E × W
  apply_target c id status action t w = elim (policy_guard c.cfg status t) [
    | some reason ↦ (false, report c id reason action, w)
    | none ↦ apply_unblocked c id status action t (is_cooling action status.cooldown_until w)
  ]

  unfoldable pub apply_engine_decision :
      Controller F E → String → ScaleAction → W → Bool × Controller F E × W
  apply_engine_decision c id action w = elim (target action) [
    | none ↦ (false, c, w)
    | some t ↦ elim (lookup id c.instances) [
      | none ↦ (false, c, w)
      | some status ↦ apply_target c id status action t w
    ]
  ]
