-- ===== src/Threshold/Recovery.antt =====
-- How long a failed scale-up keeps the next one away, and how long a scale-down has to wait.
use io_thread_controller.Base.{
  ℕ, ◌+◌, ◌≤◌, ◌<◌, ◌≡◌, refl, Bool, true, false, Option, none, some, List, [], ◌∷◌, arith, ltb,
  length, All, ◌&&◌, not, ◌↔◌,
}
use io_thread_controller.Base.Words.{u32_max, sat_add}
use io_thread_controller.Float.{Float}
use io_thread_controller.Engines.{up, down, revert, is_up, EngineTickContext}
use io_thread_controller.Threshold.Settings.{ThresholdConfig, ThresholdPolls}
use io_thread_controller.Threshold.State.{
  PendingValidation, InstanceState, begin_post_revert_up_hold, reset_baseline_window,
}
use io_thread_controller.Threshold.Target.{
  post_revert_up_grace_polls, scale_down_sustain_polls, scale_down_target,
}
use io_thread_controller.Threshold.Validation.{
  Observed, validate, settle, validation_revert_target, fail_action,
}
use io_thread_controller.Threshold.{evaluate_state, evaluate_taken, scale, propose, count_low}
use io_thread_controller.Threshold.Decisions.{advance_baseline_keeps}
use io_thread_controller.Threshold.Runs.{
  Poll, hold_left, holds_up-hold_left, evaluate_run, evaluate_run-Idle, evaluate_run-no_up,
  eligible, streak,
}

module _ {F : Type 0} (fl : Float F) (cfg : ThresholdConfig F) (polls : ThresholdPolls) where
  reverted_up :
      (context : EngineTickContext F) (seen : Observed F) (s : InstanceState)
      (taken : Option PendingValidation) (p : PendingValidation) (t : ℕ)
      → s.pending_validation ≡ taken
      → taken ≡ some p
      → is_up p.action ≡ true
      → (evaluate_taken fl cfg polls context seen
          (record { io_count = seen.io_count_total; at = context.now })
          taken
          s).0
        ≡ revert t
      → let s' =
          (evaluate_taken fl cfg polls context seen
            (record { io_count = seen.io_count_total; at = context.now })
            taken
            s).1 in
        (s'.pending_validation ≡ none)
        × (s'.low_util_polls ≡ s.low_util_polls)
        × (s'.consecutive_failed_ups ≡ sat_add s.consecutive_failed_ups 1)
        × (hold_left s'.post_revert_up_hold polls.post_revert_up_recovery
            ≡ post_revert_up_grace_polls polls (sat_add s.consecutive_failed_ups 1)
              + polls.post_revert_up_recovery)
  unfolding evaluate_taken validate settle validation_revert_target fail_action
      begin_post_revert_up_hold reset_baseline_window
  reverted_up context seen s none p t e f hu hr = absurd (cc)
  reverted_up context seen s (some q) p t e f hu hr = ground arith

  -- After the revert of a scale-up, and as long as nothing is reported as applied, no poll of the
  -- engine proposes a scale-up for the grace that the failures so far ask for and the recovery,
  -- whatever the polls observe (counters within a u32).
  pub revert_holds_up :
      (context : EngineTickContext F) (seen : Observed F) (s : InstanceState)
      (p : PendingValidation) (t : ℕ) (steps : List (Poll F))
      → s.pending_validation ≡ some p
      → is_up p.action ≡ true
      → (evaluate_state fl cfg polls context seen s).0 ≡ revert t
      → s.low_util_polls + length steps ≤ u32_max
      → length steps
        ≤ post_revert_up_grace_polls polls (sat_add s.consecutive_failed_ups 1)
          + polls.post_revert_up_recovery
      → All
          (λ a. is_up a ≡ false)
          (evaluate_run fl cfg polls (evaluate_state fl cfg polls context seen s).1 steps).0
  unfolding evaluate_state
  revert_holds_up context seen s p t steps e hu hr hl hs =
      let (pending, low, ups, left) =
        reverted_up context seen s s.pending_validation p t refl e hu hr in
      evaluate_run-no_up fl cfg polls steps _ pending (omega arith) (omega arith)

  -- `per_thread_util` is above the threshold, the pool has room and no throttling stands in the way.
  abbrev pub saturated : Poll F → Bool
  saturated (context, seen) =
      fl.lt cfg.scale_up_threshold seen.per_thread_util
      && ltb seen.thread_count context.max_thread_count
      && not (cfg.block_scale_up_when_cgroup_throttled && seen.throttled_recently)

  scales_up :
      (context : EngineTickContext F) (seen : Observed F) (s : InstanceState)
      (taken : Option PendingValidation)
      → s.pending_validation ≡ none
      → s.pending_validation ≡ taken
      → hold_left s.post_revert_up_hold polls.post_revert_up_recovery ≡ 0
      → saturated (context, seen) ≡ true
      → context.max_thread_count ≤ u32_max
      → (evaluate_taken fl cfg polls context seen
          (record { io_count = seen.io_count_total; at = context.now })
          taken
          s).0
        ≡ up (seen.thread_count + 1)
  unfolding evaluate_taken scale propose
  scales_up context seen s (some p) hp e hh hs hm = absurd (cc)
  scales_up context seen s none hp e hh hs hm = ground (
    arith,
    advance_baseline_keeps fl polls s (record { io_count = seen.io_count_total; at = context.now }),
    holds_up-hold_left s.post_revert_up_hold polls.post_revert_up_recovery,
  )

  -- The hold ends: for a VM without a pending validation, once at least as many polls have passed as
  -- the hold blocks, with nothing reported as applied in between, a saturated poll proposes one thread
  -- more. Saturated means that the utilisation is above the threshold, the pool below its maximum, and
  -- no heeded throttling seen (counters and limits within a u32).
  pub saturated_scales_up :
      (steps : List (Poll F)) (context : EngineTickContext F) (seen : Observed F)
      (s : InstanceState)
      → s.pending_validation ≡ none
      → s.low_util_polls + length steps ≤ u32_max
      → hold_left s.post_revert_up_hold polls.post_revert_up_recovery ≤ length steps
      → saturated (context, seen) ≡ true
      → context.max_thread_count ≤ u32_max
      → (evaluate_state fl cfg polls context seen (evaluate_run fl cfg polls s steps).1).0
        ≡ up (seen.thread_count + 1)
  unfolding evaluate_state
  saturated_scales_up steps context seen s hp hl hh hs hm =
      let idle = evaluate_run-Idle fl cfg polls steps s hp hl in
      scales_up context seen (evaluate_run fl cfg polls s steps).1 _ idle.none_pending refl
        (omega (arith, idle.hold_runs)) hs hm

  scales_down_iff :
      (context : EngineTickContext F) (seen : Observed F) (s : InstanceState)
      (taken : Option PendingValidation) (t low failures : ℕ)
      → s.pending_validation ≡ none
      → s.pending_validation ≡ taken
      → s.low_util_polls ≡ low
      → s.consecutive_failed_downs ≡ failures
      → low < u32_max
      → fl.lt cfg.scale_up_threshold seen.per_thread_util ≡ false
      → ((evaluate_taken fl cfg polls context seen
            (record { io_count = seen.io_count_total; at = context.now })
            taken
            s).0
          ≡ down t)
        ↔ ((t
              ≡ scale_down_target fl cfg seen.per_thread_util seen.thread_count
                  context.min_thread_count)
            × (eligible fl cfg polls (context, seen) ≡ true)
            × (scale_down_sustain_polls polls failures ≤ low + 1))
  unfolding evaluate_taken scale propose count_low
  scales_down_iff context seen s (some p) t n d hp e en ed hl hu = absurd (cc)
  scales_down_iff context seen s none t n d hp e en ed hl hu = ground (
    arith,
    advance_baseline_keeps fl polls s (record { io_count = seen.io_count_total; at = context.now }),
  )

  streak_le : (n : ℕ) (steps : List (Poll F)) → streak fl cfg polls n steps ≤ n + length steps
  streak_le n [] = omega arith
  streak_le n (p ∷ rest) = ground (arith, streak_le (n + 1) rest, streak_le 0 rest)

  -- A scale-down is proposed exactly when it has been eligible for long enough: for a VM without a
  -- pending validation whose utilisation is not above the scale-up threshold, a poll after a run of
  -- polls proposes it if and only if this poll is eligible and the unbroken run of eligible polls up
  -- to and with it is at least as long as the failed scale-downs so far ask for (counters within a
  -- u32). The size proposed is `scale_down_target`.
  pub scale_down_iff_sustained :
      (steps : List (Poll F)) (context : EngineTickContext F) (seen : Observed F)
      (s : InstanceState) (t : ℕ)
      → s.pending_validation ≡ none
      → s.low_util_polls + length steps < u32_max
      → fl.lt cfg.scale_up_threshold seen.per_thread_util ≡ false
      → ((evaluate_state fl cfg polls context seen (evaluate_run fl cfg polls s steps).1).0
          ≡ down t)
        ↔ ((t
              ≡ scale_down_target fl cfg seen.per_thread_util seen.thread_count
                  context.min_thread_count)
            × (eligible fl cfg polls (context, seen) ≡ true)
            × (scale_down_sustain_polls polls s.consecutive_failed_downs
                ≤ streak fl cfg polls s.low_util_polls steps + 1))
  unfolding evaluate_state
  scale_down_iff_sustained steps context seen s t hp hl hu =
      let idle = evaluate_run-Idle fl cfg polls steps s hp (omega arith) in
      scales_down_iff context seen (evaluate_run fl cfg polls s steps).1 _ t _ _ idle.none_pending
        refl idle.low_counted idle.downs_kept (omega (arith, streak_le s.low_util_polls steps)) hu
