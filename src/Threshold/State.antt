-- ===== src/Threshold/State.antt =====
-- src/engines/threshold.rs: `InstanceState`, the counters that the engine keeps for one VM.
use io_thread_controller.Base.{
  ℕ, ◌-◌, Bool, true, false, Option, none, some, String, ltb, ◌==◌, if◌then◌else◌,
}
use io_thread_controller.Float.{Float, zero_f, as_secs}
use io_thread_controller.Engines.{ScaleAction, hold, up, down, revert}

pub record IoSample : Type 0 where
  pub io_count : ℕ
  pub at : ℕ

pub record PendingValidation : Type 0 where
  pub action : ScaleAction
  pub baseline_thread_count : ℕ
  pub baseline_iops : ℕ
  pub validation_start : IoSample
  pub polls_remaining : ℕ

pub data PostRevertUpHold : Type 0 where
  -- polls remaining
  grace : ℕ → PostRevertUpHold
  -- polls remaining, start of the window
  recovery : ℕ → IoSample → PostRevertUpHold

-- `instance` keeps the identifier of the record that the Rust field points to.
pub record InstanceState : Type 0 where
  pub instance_id : String
  pub low_util_polls : ℕ
  pub pending_validation : Option PendingValidation
  pub baseline_window_start : Option IoSample
  pub current_baseline_iops : ℕ
  pub post_revert_up_hold : Option PostRevertUpHold
  pub consecutive_failed_ups : ℕ
  pub consecutive_failed_downs : ℕ

unfoldable pub new : String → InstanceState
new id = record {
  instance_id = id;
  low_util_polls = 0;
  pending_validation = none;
  baseline_window_start = none;
  current_baseline_iops = 0;
  post_revert_up_hold = none;
  consecutive_failed_ups = 0;
  consecutive_failed_downs = 0;
}

unfoldable pub start_validation : InstanceState → ScaleAction → ℕ → ℕ → IoSample → ℕ → InstanceState
start_validation s action previous_thread_count baseline_iops start polls = record s {
  pending_validation = some (record {
    action = action;
    baseline_thread_count = previous_thread_count;
    baseline_iops = baseline_iops;
    validation_start = start;
    polls_remaining = polls;
  });
}

unfoldable pub reset_baseline_window : InstanceState → IoSample → InstanceState
reset_baseline_window s start = record s {
  baseline_window_start = some start;
  current_baseline_iops = 0;
}

unfoldable pub reset_after_applied : InstanceState → ScaleAction → InstanceState
reset_after_applied s (up t) = record s { consecutive_failed_downs = 0; low_util_polls = 0 }
reset_after_applied s (down t) = record s {
  post_revert_up_hold = none;
  consecutive_failed_ups = 0;
  low_util_polls = 0;
}
reset_after_applied s hold = s
reset_after_applied s (revert t) = s

unfoldable pub begin_post_revert_up_hold : InstanceState → ℕ → InstanceState
begin_post_revert_up_hold s grace_polls = record s {
  baseline_window_start = none;
  current_baseline_iops = 0;
  post_revert_up_hold = some (grace grace_polls);
}

module _ {F : Type 0} (fl : Float F) where
  -- Average operations per second between two samples. An `end` before `start` gives 0.
  unfoldable pub iops_rate : IoSample → IoSample → ℕ
  iops_rate start end =
      let secs = as_secs fl (end.at - start.at) in
      if ltb end.at start.at
      then 0
      else if fl.le secs (zero_f fl)
      then 0
      else fl.as_u64 (fl.round (fl.div (fl.of_nat (end.io_count - start.io_count)) secs))

  unfoldable pub refresh_baseline_rate : InstanceState → IoSample → InstanceState
  refresh_baseline_rate s end = elim s.baseline_window_start [
    | none ↦ record s { baseline_window_start = some end; current_baseline_iops = 0 }
    | some start ↦ record s { current_baseline_iops = iops_rate start end }
  ]

  -- The arms of the `match hold`; the hold has been taken out of `s`.
  advance_hold : PostRevertUpHold → InstanceState → IoSample → ℕ → Bool × InstanceState
  unfolding reset_baseline_window
  advance_hold (grace polls_remaining) s sample recovery_polls =
      if ltb 0 polls_remaining
      then (true, record s { post_revert_up_hold = some (grace (polls_remaining - 1)) })
      else if recovery_polls == 0
      then (false, reset_baseline_window s sample)
      else (true, record s { post_revert_up_hold = some (recovery recovery_polls sample) })
  advance_hold (recovery polls_remaining window_start) s sample recovery_polls =
      let rate = iops_rate window_start sample in
      if ltb 1 polls_remaining
      then (
        true,
        record s {
          current_baseline_iops = rate;
          post_revert_up_hold = some (recovery (polls_remaining - 1) window_start);
        },
      )
      else (
        false,
        record s { baseline_window_start = some window_start; current_baseline_iops = rate },
      )

  -- True while scale-up must stay blocked.
  unfoldable pub advance_post_revert_up_hold : InstanceState → IoSample → ℕ → Bool × InstanceState
  unfolding advance_hold
  advance_post_revert_up_hold s sample recovery_polls = elim s.post_revert_up_hold [
    | none ↦ (false, s)
    | some h ↦ advance_hold h (record s { post_revert_up_hold = none }) sample recovery_polls
  ]
