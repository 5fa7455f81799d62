-- ===== src/Threshold/Validation.antt =====
-- src/engines/threshold.rs: the validation of an applied action, and its revert.
use io_thread_controller.Base.{ℕ, ◌-◌, Bool, false, ◌&&◌, Option, none, some, ltb, if◌then◌else◌}
use io_thread_controller.Base.Words.{sat_add}
use io_thread_controller.Float.{Float, zero_f, one_f}
use io_thread_controller.Engines.{ScaleAction, hold, up, down, revert, is_up}
use io_thread_controller.Threshold.Settings.{ThresholdConfig, ThresholdPolls}
use io_thread_controller.Threshold.State.{
  IoSample, PendingValidation, InstanceState, reset_baseline_window, begin_post_revert_up_hold,
  iops_rate,
}
use io_thread_controller.Threshold.Target.{post_revert_up_grace_polls}

-- What `evaluate` reads from the status of the VM.
pub record Observed (F : Type 0) : Type 0 where
  pub per_thread_util : F
  pub thread_count : ℕ
  pub io_count_total : ℕ
  pub throttled_recently : Bool

-- The settlement of a validation: the revert hold or the sustain backoff.
unfoldable pub fail_action : ThresholdPolls → ScaleAction → InstanceState → InstanceState
fail_action polls action s =
    if is_up action
    then (let failures = sat_add s.consecutive_failed_ups 1 in
        begin_post_revert_up_hold (record s { consecutive_failed_ups = failures })
          (post_revert_up_grace_polls polls failures))
    else record s { consecutive_failed_downs = sat_add s.consecutive_failed_downs 1 }

unfoldable pub keep_action : ScaleAction → InstanceState → InstanceState
keep_action action s =
    if is_up action
    then record s { consecutive_failed_ups = 0 }
    else record s { consecutive_failed_downs = 0 }

module _ {F : Type 0} (fl : Float F) where
  -- The pair `(required_iops, failed)` is only logged in its first part, so `failed` is kept alone.
  up_failed : ThresholdConfig F → ℕ → ℕ → Bool
  up_failed cfg baseline_iops observed_iops =
      fl.lt (zero_f fl) cfg.scale_up_min_gain
      && ltb 0 baseline_iops
      && fl.lt (fl.of_nat observed_iops)
          (fl.mul (fl.of_nat baseline_iops) (fl.add (one_f fl) cfg.scale_up_min_gain))

  down_failed : ThresholdConfig F → ℕ → ℕ → Bool
  down_failed cfg baseline_iops observed_iops =
      fl.lt (zero_f fl) cfg.scale_down_revert_drop
      && ltb 0 baseline_iops
      && fl.lt (fl.of_nat observed_iops)
          (fl.mul (fl.of_nat baseline_iops) (fl.sub (one_f fl) cfg.scale_down_revert_drop))

  -- Whether the action has failed, by the arms of the `match pending.action`.
  unfoldable pub regressed : ThresholdConfig F → ScaleAction → ℕ → ℕ → F → Bool
  unfolding up_failed down_failed
  regressed cfg (up t) baseline_iops observed_iops util = up_failed cfg baseline_iops observed_iops
  regressed cfg (down t) baseline_iops observed_iops util =
      if fl.le util cfg.scale_up_threshold
      then false
      else down_failed cfg baseline_iops observed_iops
  regressed cfg hold baseline_iops observed_iops util = false
  regressed cfg (revert t) baseline_iops observed_iops util = false

  unfoldable pub validation_revert_target : ThresholdConfig F → ℕ → F → PendingValidation → Option ℕ
  validation_revert_target cfg observed_iops per_thread_util pending =
      if regressed cfg pending.action pending.baseline_iops observed_iops per_thread_util
      then some pending.baseline_thread_count
      else none

  -- `evaluate` under a pending validation, which has been taken out of `s`.
  unfoldable pub settle :
      ThresholdConfig F
      → ThresholdPolls
      → Observed F
      → IoSample
      → PendingValidation
      → InstanceState
      → ScaleAction × InstanceState
  settle cfg polls seen sample pending s =
      let s' = reset_baseline_window s sample in
      let observed_iops = iops_rate fl pending.validation_start sample in
      elim (validation_revert_target cfg observed_iops seen.per_thread_util pending) [
        | none ↦ (hold, keep_action pending.action s')
        | some t ↦ (revert t, fail_action polls pending.action s')
      ]

  unfoldable pub validate :
      ThresholdConfig F
      → ThresholdPolls
      → Observed F
      → IoSample
      → PendingValidation
      → InstanceState
      → ScaleAction × InstanceState
  validate cfg polls seen sample pending s =
      if ltb 0 pending.polls_remaining
      then (
        hold,
        record s {
          pending_validation =
              some (record pending { polls_remaining = pending.polls_remaining - 1 });
        },
      )
      else settle cfg polls seen sample pending s
