-- ===== src/Threshold/Settlement.antt =====
-- From an applied action to the verdict on it: the countdown and the comparison with the baseline.
use io_thread_controller.Base.{
  ℕ, zero, suc, ◌≡◌, refl, sym, true, Option, none, some, List, [], ◌∷◌, arith, ltb, if◌then◌else◌,
  length, ◌&&◌, not,
}
use io_thread_controller.Base.Words.{sat_add}
use io_thread_controller.Float.{Float, zero_f, one_f}
use io_thread_controller.Engines.{
  ScaleAction, hold, up, down, revert, is_up, EngineTickContext, Applied,
}
use io_thread_controller.Threshold.Settings.{ThresholdConfig, ThresholdPolls}
use io_thread_controller.Threshold.State.{
  IoSample, PendingValidation, InstanceState, iops_rate, start_validation, reset_after_applied,
  reset_baseline_window, begin_post_revert_up_hold,
}
use io_thread_controller.Threshold.Target.{validation_sample_polls}
use io_thread_controller.Threshold.Validation.{
  Observed, validate, settle, validation_revert_target, regressed, fail_action, keep_action,
}
use io_thread_controller.Threshold.{evaluate_state, evaluate_taken, applied_state}
use io_thread_controller.Threshold.Runs.{Poll, evaluate_run}

-- `n` polls that hold.
abbrev pub holds : ℕ → List ScaleAction
holds zero = []
holds (suc n) = hold ∷ holds n

module _ {F : Type 0} (fl : Float F) (cfg : ThresholdConfig F) (polls : ThresholdPolls) where
  abbrev pub counted_down : InstanceState → PendingValidation → InstanceState
  counted_down s p = record s { pending_validation = some (record p { polls_remaining = 0 }) }

  step_waits :
      (context : EngineTickContext F) (seen : Observed F) (s : InstanceState)
      (taken : Option PendingValidation) (p : PendingValidation) (n : ℕ)
      → s.pending_validation ≡ taken
      → taken ≡ some p
      → p.polls_remaining ≡ suc n
      → evaluate_taken fl cfg polls context seen
          (record { io_count = seen.io_count_total; at = context.now })
          taken
          s
        ≡ (hold, record s { pending_validation = some (record p { polls_remaining = n }) })
  unfolding evaluate_taken validate
  step_waits context seen s none p n e f h = absurd (cc)
  step_waits context seen s (some q) p n e f h = ground arith

  -- While the countdown runs every poll holds, and nothing else of the state changes.
  pub evaluate_run_waits :
      (steps : List (Poll F)) (s : InstanceState) (p : PendingValidation)
      → s.pending_validation ≡ some p
      → p.polls_remaining ≡ length steps
      → evaluate_run fl cfg polls s steps ≡ (holds (length steps), counted_down s p)
  unfolding evaluate_run evaluate_state
  evaluate_run_waits [] s p e h = ground arith
  evaluate_run_waits ((context, seen) ∷ rest) s p e h =
      let one = step_waits context seen s s.pending_validation p (length rest) refl e h in
      let ih =
        evaluate_run_waits rest
          (record s { pending_validation = some (record p { polls_remaining = length rest }) })
          (record p { polls_remaining = length rest }) refl refl in
      rw (one, ih) refl

  abbrev pub at_poll : EngineTickContext F → Observed F → IoSample
  at_poll context seen = record { io_count = seen.io_count_total; at = context.now }

  settle_verdict :
      (context : EngineTickContext F) (seen : Observed F) (s : InstanceState)
      (p : PendingValidation)
      → p.polls_remaining ≡ 0
      → let fails =
          regressed fl cfg p.action p.baseline_iops
            (iops_rate fl p.validation_start (at_poll context seen))
            seen.per_thread_util in
        let (action, s') =
          evaluate_taken fl cfg polls context seen (at_poll context seen) (some p) s in
        (action ≡ (if fails then revert p.baseline_thread_count else hold))
        × (s'.pending_validation ≡ none)
        × (s'.low_util_polls ≡ s.low_util_polls)
        × (s'.consecutive_failed_ups ≡ (
            if is_up p.action
            then (if fails then sat_add s.consecutive_failed_ups 1 else 0)
            else s.consecutive_failed_ups))
        × (s'.consecutive_failed_downs ≡ (
            if is_up p.action
            then s.consecutive_failed_downs
            else if fails
            then sat_add s.consecutive_failed_downs 1
            else 0))
  unfolding evaluate_taken validate settle validation_revert_target fail_action keep_action
      begin_post_revert_up_hold reset_baseline_window
  settle_verdict context seen s p h = ground arith

  -- The validation that an applied action starts.
  abbrev started : ScaleAction → ℕ → Applied → InstanceState → PendingValidation
  started action t outcome s = record {
    action = action;
    baseline_thread_count = outcome.prev_thread_count;
    baseline_iops = s.current_baseline_iops;
    validation_start = record { io_count = outcome.prev_io_count_total; at = outcome.applied_at };
    polls_remaining = validation_sample_polls polls t;
  }

  abbrev after_up : ℕ → Applied → InstanceState → InstanceState
  after_up t outcome s = record s {
    consecutive_failed_downs = 0;
    low_util_polls = 0;
    pending_validation = some (started (up t) t outcome s);
  }

  applied_up :
      (outcome : Applied) (t : ℕ) (s : InstanceState)
      → outcome.action ≡ up t
      → fl.lt (zero_f fl) cfg.scale_up_min_gain ≡ true
      → applied_state fl cfg polls outcome s ≡ after_up t outcome s
  unfolding applied_state start_validation reset_after_applied
  applied_up outcome t s ea hg = ground arith

  -- The verdict on a scale-up. Once the controller has reported a scale-up and validation is on, the
  -- engine holds for exactly the polls that the new size asks for; at the next poll it goes back to
  -- the previous size if and only if the operations per second since the scale-up fall short of the
  -- baseline times (1 + gain), the baseline not being zero, and otherwise holds. A revert counts one
  -- more failed scale-up; a kept one clears the count.
  pub applied_up_validated :
      (outcome : Applied) (t : ℕ) (s : InstanceState) (steps : List (Poll F))
      (context : EngineTickContext F) (seen : Observed F)
      → outcome.action ≡ up t
      → fl.lt (zero_f fl) cfg.scale_up_min_gain ≡ true
      → length steps ≡ validation_sample_polls polls t
      → let run = evaluate_run fl cfg polls (applied_state fl cfg polls outcome s) steps in
        let (action, s') = evaluate_state fl cfg polls context seen run.1 in
        let rate =
          iops_rate fl
            (record { io_count = outcome.prev_io_count_total; at = outcome.applied_at })
            (at_poll context seen) in
        let fails =
          ltb 0 s.current_baseline_iops
          && fl.lt (fl.of_nat rate) (
              fl.mul
                (fl.of_nat s.current_baseline_iops)
                (fl.add (one_f fl) cfg.scale_up_min_gain)) in
        (run.0 ≡ holds (length steps))
        × (action ≡ (if fails then revert outcome.prev_thread_count else hold))
        × (s'.consecutive_failed_ups ≡ (if fails then sat_add s.consecutive_failed_ups 1 else 0))
  unfolding evaluate_state regressed
  applied_up_validated outcome t s steps context seen ea hg hn =
      let p = started (up t) t outcome s in
      rw
        (
          applied_up outcome t s ea hg,
          evaluate_run_waits steps (after_up t outcome s) p refl (sym hn),
        )
        (
          refl,
          ground (
            arith,
            settle_verdict context seen (counted_down (after_up t outcome s) p)
                (record p { polls_remaining = 0 }) refl,
          ),
          ground (
            arith,
            settle_verdict context seen (counted_down (after_up t outcome s) p)
                (record p { polls_remaining = 0 }) refl,
          ),
        )

  abbrev after_down : ℕ → Applied → InstanceState → InstanceState
  after_down t outcome s = record s {
    post_revert_up_hold = none;
    consecutive_failed_ups = 0;
    low_util_polls = 0;
    pending_validation = some (started (down t) t outcome s);
  }

  applied_down :
      (outcome : Applied) (t : ℕ) (s : InstanceState)
      → outcome.action ≡ down t
      → fl.lt (zero_f fl) cfg.scale_down_revert_drop ≡ true
      → applied_state fl cfg polls outcome s ≡ after_down t outcome s
  unfolding applied_state start_validation reset_after_applied
  applied_down outcome t s ea hg = ground arith

  -- The verdict on a scale-down, after the same countdown: it is reverted if and only if the
  -- utilisation has risen above the scale-up threshold and the operations per second since the
  -- scale-down fall short of the baseline times (1 - drop), the baseline not being zero. Where the
  -- utilisation has stayed at or below the threshold the smaller pool is kept, however far the rate
  -- has fallen. A revert counts one more failed scale-down; a kept one clears the count.
  pub applied_down_validated :
      (outcome : Applied) (t : ℕ) (s : InstanceState) (steps : List (Poll F))
      (context : EngineTickContext F) (seen : Observed F)
      → outcome.action ≡ down t
      → fl.lt (zero_f fl) cfg.scale_down_revert_drop ≡ true
      → length steps ≡ validation_sample_polls polls t
      → let run = evaluate_run fl cfg polls (applied_state fl cfg polls outcome s) steps in
        let (action, s') = evaluate_state fl cfg polls context seen run.1 in
        let rate =
          iops_rate fl
            (record { io_count = outcome.prev_io_count_total; at = outcome.applied_at })
            (at_poll context seen) in
        let fails =
          not (fl.le seen.per_thread_util cfg.scale_up_threshold)
          && ltb 0 s.current_baseline_iops
          && fl.lt (fl.of_nat rate) (
              fl.mul
                (fl.of_nat s.current_baseline_iops)
                (fl.sub (one_f fl) cfg.scale_down_revert_drop)) in
        (run.0 ≡ holds (length steps))
        × (action ≡ (if fails then revert outcome.prev_thread_count else hold))
        × (s'.consecutive_failed_downs
            ≡ (if fails then sat_add s.consecutive_failed_downs 1 else 0))
  unfolding evaluate_state regressed
  applied_down_validated outcome t s steps context seen ea hg hn =
      let p = started (down t) t outcome s in
      let verdict =
        settle_verdict context seen (counted_down (after_down t outcome s) p)
          (record p { polls_remaining = 0 }) refl in
      rw
        (
          applied_down outcome t s ea hg,
          evaluate_run_waits steps (after_down t outcome s) p refl (sym hn),
        )
        (refl, ground (arith, verdict), ground (arith, verdict))
