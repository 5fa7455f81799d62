-- ===== src/Threshold.antt =====
-- src/engines/threshold.rs: the threshold engine: `evaluate`, `on_applied` and the notices of added
-- and removed VMs. `Settings`, `State`, `Target` and `Validation` hold the parts that it calls;
-- the other children prove.
pub mod Settings
pub mod State
pub mod Target
pub mod Validation
pub mod Backoff
pub mod Sizing
pub mod Decisions
pub mod Runs
pub mod Recovery
pub mod Settlement
pub mod Isolation
pub mod Build
pub mod Startup
mod Examples
use io_thread_controller.Base.{
  ℕ, ◌+◌, min, Bool, not, ◌&&◌, none, some, Option, List, String, ltb, leb, if◌then◌else◌,
}
use io_thread_controller.Base.Words.{wrap32}
use io_thread_controller.Base.Table.{lookup, insert, remove}
use io_thread_controller.Float.{Float, zero_f}
use io_thread_controller.Engines.{
  ScaleAction, hold, up, down, revert, EngineTickContext, Applied, AppliedOutcome, success, dry_run,
  blocked, failed,
}
use Settings.{ThresholdConfig, ThresholdPolls}
use State.{
  IoSample, PendingValidation, InstanceState, start_validation, reset_baseline_window,
  reset_after_applied, refresh_baseline_rate, advance_post_revert_up_hold,
}
use State
use Target.{validation_sample_polls, scale_down_sustain_polls, scale_down_target}
use Validation.{Observed, validate}

pub record ThresholdEngine (F : Type 0) : Type 0 where
  pub cfg : ThresholdConfig F
  pub polls : ThresholdPolls
  pub poll_period : ℕ
  pub state : List (String × InstanceState)

module _ {F : Type 0} (fl : Float F) where
  -- `low_util_polls += 1` wraps in the release build.
  unfoldable pub count_low : ℕ → ℕ → InstanceState → InstanceState
  count_low down_target thread_count s =
      if ltb down_target thread_count
      then record s { low_util_polls = wrap32 (s.low_util_polls + 1) }
      else record s { low_util_polls = 0 }

  -- The proposals of `evaluate`, once the hold and the baseline have been advanced.
  unfoldable pub propose :
      ThresholdConfig F
      → ThresholdPolls
      → EngineTickContext F
      → Observed F
      → Bool
      → ℕ
      → InstanceState
      → ScaleAction
  propose cfg polls context seen block_scale_up down_target s =
      if not block_scale_up
        && ltb seen.thread_count context.max_thread_count
        && fl.lt cfg.scale_up_threshold seen.per_thread_util
      then (if cfg.block_scale_up_when_cgroup_throttled && seen.throttled_recently
          then hold
          else up (min (wrap32 (seen.thread_count + 1)) context.max_thread_count))
      else if ltb down_target seen.thread_count
          && leb (scale_down_sustain_polls polls s.consecutive_failed_downs) s.low_util_polls
      then down down_target
      else hold

  -- The hold is advanced; the baseline is refreshed unless the hold still blocks.
  unfoldable pub advance_baseline : ThresholdPolls → InstanceState → IoSample → Bool × InstanceState
  advance_baseline polls s sample =
      let (blocks, s') = advance_post_revert_up_hold fl s sample polls.post_revert_up_recovery in
      (blocks, if blocks then s' else refresh_baseline_rate fl s' sample)

  -- `evaluate` with no validation pending.
  unfoldable pub scale :
      ThresholdConfig F
      → ThresholdPolls
      → EngineTickContext F
      → Observed F
      → IoSample
      → InstanceState
      → ScaleAction × InstanceState
  scale cfg polls context seen sample s =
      let down_target =
        scale_down_target fl cfg seen.per_thread_util seen.thread_count context.min_thread_count in
      let (blocks, refreshed) = advance_baseline polls s sample in
      let counted = count_low down_target seen.thread_count refreshed in
      (propose cfg polls context seen blocks down_target counted, counted)

  -- `evaluate` after `pending_validation.take()`, by what was taken.
  unfoldable pub evaluate_taken :
      ThresholdConfig F
      → ThresholdPolls
      → EngineTickContext F
      → Observed F
      → IoSample
      → Option PendingValidation
      → InstanceState
      → ScaleAction × InstanceState
  evaluate_taken cfg polls context seen sample none s = scale cfg polls context seen sample s
  evaluate_taken cfg polls context seen sample (some pending) s =
      validate fl cfg polls seen sample pending (record s { pending_validation = none })

  -- `evaluate` on the state of the VM.
  unfoldable pub evaluate_state :
      ThresholdConfig F
      → ThresholdPolls
      → EngineTickContext F
      → Observed F
      → InstanceState
      → ScaleAction × InstanceState
  unfolding evaluate_taken
  evaluate_state cfg polls context seen s =
      let sample : IoSample = record { io_count = seen.io_count_total; at = context.now } in
      evaluate_taken cfg polls context seen sample s.pending_validation s

  -- The arms of `on_applied` on one VM's state, for an action that was applied or only logged.
  unfoldable pub applied_state :
      ThresholdConfig F → ThresholdPolls → Applied → InstanceState → InstanceState
  applied_state cfg polls outcome s = elim outcome.action [
    | hold ↦ s
    | revert t ↦ s
    | up t ↦
        if fl.lt (zero_f fl) cfg.scale_up_min_gain
        then validated (up t) t
        else reset_baseline_window (reset_after_applied s (up t)) applied
    | down t ↦
        if fl.lt (zero_f fl) cfg.scale_down_revert_drop
        then validated (down t) t
        else reset_baseline_window (reset_after_applied s (down t)) applied
  ]
    where
      applied : IoSample
      applied = record { io_count = outcome.prev_io_count_total; at = outcome.applied_at }

      -- `action.target()` is the `t` of the action.
      validated : ScaleAction → ℕ → InstanceState
      validated action t =
          let s' = reset_after_applied s action in
          start_validation s' action outcome.prev_thread_count s'.current_baseline_iops applied
            (validation_sample_polls polls t)

  -- `state.entry(id).or_insert_with(new)`.
  unfoldable pub entry : ThresholdEngine F → String → InstanceState
  entry e id = elim (lookup id e.state) [ none ↦ State.new id | some s ↦ s ]

  unfoldable pub evaluate :
      ThresholdEngine F
      → EngineTickContext F
      → String
      → Observed F
      → ScaleAction × ThresholdEngine F
  evaluate e context id seen =
      let (action, s) = evaluate_state e.cfg e.polls context seen (entry e id) in
      (action, record e { state = insert id s e.state })

  unfoldable pub update_applied : ThresholdEngine F → String → Applied → ThresholdEngine F
  update_applied e id outcome = elim (lookup id e.state) [
    | none ↦ e
    | some s ↦ record e { state = insert id (applied_state e.cfg e.polls outcome s) e.state }
  ]

  unfoldable pub on_applied : ThresholdEngine F → String → AppliedOutcome → ThresholdEngine F
  on_applied e id (success outcome) = update_applied e id outcome
  on_applied e id (dry_run outcome) = update_applied e id outcome
  on_applied e id (blocked action reason) = e
  on_applied e id (failed action error) = e

  unfoldable pub on_instance_added : ThresholdEngine F → String → ThresholdEngine F
  on_instance_added e id = elim (lookup id e.state) [
    | none ↦ record e { state = insert id (State.new id) e.state }
    | some s ↦ e
  ]

  unfoldable pub on_instance_removed : ThresholdEngine F → String → ThresholdEngine F
  on_instance_removed e id = record e { state = remove id e.state }
