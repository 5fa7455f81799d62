-- ===== src/Threshold/Decisions.antt =====
-- What a proposal of `evaluate` in src/engines/threshold.rs presupposes.
use io_thread_controller.Base.{
  ℕ, ◌+◌, ◌≤◌, ◌<◌, ◌≡◌, refl, Bool, true, false, ◌&&◌, ◌||◌, not, Option, none, some, arith, ltb,
  ◌==◌, ◌∙◌,
}
use io_thread_controller.Base.Words.{u32_max}
use io_thread_controller.Float.{Float}
use io_thread_controller.Engines.{ScaleAction, hold, up, down, revert, EngineTickContext}
use io_thread_controller.Threshold.Settings.{ThresholdConfig, ThresholdPolls}
use io_thread_controller.Threshold.State.{
  IoSample, PendingValidation, InstanceState, PostRevertUpHold, grace, recovery, iops_rate,
  advance_post_revert_up_hold, refresh_baseline_rate,
}
use io_thread_controller.Threshold.Target.{
  scale_down_sustain_polls, scale_down_target, required_threads,
}
use io_thread_controller.Threshold.Validation.{
  Observed, regressed, validate, settle, validation_revert_target,
}
use io_thread_controller.Threshold.{
  evaluate_state, evaluate_taken, advance_baseline, scale, propose, count_low,
}
use io_thread_controller.Threshold.Sizing.{scale_down_target-carries}

-- Whether the post-revert hold still blocks a scale-up at this poll.
abbrev pub holds_up : Option PostRevertUpHold → ℕ → Bool
holds_up none recovery_polls = false
holds_up (some (grace n)) recovery_polls = ltb 0 n || not (recovery_polls == 0)
holds_up (some (recovery n start)) recovery_polls = ltb 1 n

module _ {F : Type 0} (fl : Float F) (polls : ThresholdPolls) where
  -- What the advance of the hold and the baseline leaves alone, and what it says of the hold.
  pub advance_baseline_keeps :
      (s : InstanceState) (now : IoSample)
      → let (blocks, s') = advance_baseline fl polls s now in
        (blocks ≡ holds_up s.post_revert_up_hold polls.post_revert_up_recovery)
        × (s'.low_util_polls ≡ s.low_util_polls)
        × (s'.consecutive_failed_downs ≡ s.consecutive_failed_downs)
        × (s'.consecutive_failed_ups ≡ s.consecutive_failed_ups)
        × (s'.pending_validation ≡ s.pending_validation)
  unfolding advance_baseline advance_post_revert_up_hold refresh_baseline_rate
  advance_baseline_keeps s now = ground arith

module _ {F : Type 0} (fl : Float F) (cfg : ThresholdConfig F) (polls : ThresholdPolls)
    (context : EngineTickContext F) (seen : Observed F) where
  -- What each proposal presupposes of the state before the call.
  abbrev pub Justified : InstanceState → ScaleAction → Type 0
  Justified s hold = Unit
  Justified s (up t) =
      (t ≡ seen.thread_count + 1)
      × (t ≤ context.max_thread_count)
      × (fl.lt cfg.scale_up_threshold seen.per_thread_util ≡ true)
      × (s.pending_validation ≡ none)
      × (holds_up s.post_revert_up_hold polls.post_revert_up_recovery ≡ false)
      × ((cfg.block_scale_up_when_cgroup_throttled && seen.throttled_recently) ≡ false)
  Justified s (down t) =
      (context.min_thread_count ≤ t)
      × (t < seen.thread_count)
      × (required_threads fl cfg seen.per_thread_util seen.thread_count ≤ t)
      × (s.pending_validation ≡ none)
      × (scale_down_sustain_polls polls s.consecutive_failed_downs ≤ s.low_util_polls + 1)
  Justified s (revert t) =
      (p : PendingValidation) × (s.pending_validation ≡ some p)
      × (p.polls_remaining ≡ 0)
      × (t ≡ p.baseline_thread_count)
      × (regressed fl cfg p.action p.baseline_iops
            (iops_rate fl p.validation_start
              (record { io_count = seen.io_count_total; at = context.now }))
            seen.per_thread_util
          ≡ true)

  abbrev sample : IoSample
  sample = record { io_count = seen.io_count_total; at = context.now }

  propose-Justified :
      (s counted : InstanceState)
      → context.max_thread_count ≤ u32_max
      → s.low_util_polls < u32_max
      → s.pending_validation ≡ none
      → counted.low_util_polls ≤ s.low_util_polls + 1
      → counted.consecutive_failed_downs ≡ s.consecutive_failed_downs
      → Justified s (
          propose fl cfg polls context seen
            (holds_up s.post_revert_up_hold polls.post_revert_up_recovery)
            (scale_down_target fl cfg seen.per_thread_util seen.thread_count
              context.min_thread_count)
            counted)
  unfolding propose
  propose-Justified s counted hm hl hp hc hd = ground (
    arith,
    scale_down_target-carries fl cfg seen.per_thread_util seen.thread_count
        context.min_thread_count,
  )

  validate-Justified :
      (s : InstanceState) (p : PendingValidation)
      → s.pending_validation ≡ some p
      → Justified s (validate fl cfg polls seen sample p (record s { pending_validation = none })).0
  unfolding validate settle validation_revert_target
  validate-Justified s p h = ground arith

  count_low_keeps :
      (down_target thread_count : ℕ) (s : InstanceState)
      → let s' = count_low fl down_target thread_count s in
        (s'.low_util_polls ≤ s.low_util_polls + 1)
        × (s'.consecutive_failed_downs ≡ s.consecutive_failed_downs)
  unfolding count_low
  count_low_keeps d n s = ground arith

  scale-Justified :
      (s : InstanceState)
      → context.max_thread_count ≤ u32_max
      → s.low_util_polls < u32_max
      → s.pending_validation ≡ none
      → Justified s (scale fl cfg polls context seen sample s).0
  unfolding scale
  scale-Justified s hm hl hp =
      let kept = advance_baseline_keeps fl polls s sample in
      let counted =
        count_low_keeps
          (scale_down_target fl cfg seen.per_thread_util seen.thread_count context.min_thread_count)
          seen.thread_count (advance_baseline fl polls s sample).1 in
      rw kept.0 (propose-Justified s _ hm hl hp (omega arith) (counted.1 ∙ kept.2))

  evaluate_taken-Justified :
      (taken : Option PendingValidation) (s : InstanceState)
      → context.max_thread_count ≤ u32_max
      → s.low_util_polls < u32_max
      → s.pending_validation ≡ taken
      → Justified s (evaluate_taken fl cfg polls context seen sample taken s).0
  unfolding evaluate_taken
  evaluate_taken-Justified none s hm hl e = scale-Justified s hm hl e
  evaluate_taken-Justified (some p) s hm hl e = validate-Justified s p e

  -- Every proposal of `evaluate` is justified, for pool limits within a u32 and a low-utilisation
  -- count that has not reached its top. A scale-up asks for exactly one thread more, within the
  -- controller's maximum, and only while the utilisation is above the threshold, no validation is
  -- pending, the post-revert hold has run out, and no throttling that the configuration heeds was
  -- seen. A scale-down goes to a size below the current one that carries the load and keeps the
  -- minimum, with no validation pending and after the sustained polls that the failures so far ask
  -- for. A revert restores the size before the action under validation, when its countdown has
  -- ended and its performance check fails.
  pub evaluate_state-Justified :
      (s : InstanceState)
      → context.max_thread_count ≤ u32_max
      → s.low_util_polls < u32_max
      → Justified s (evaluate_state fl cfg polls context seen s).0
  unfolding evaluate_state
  evaluate_state-Justified s hm hl = evaluate_taken-Justified s.pending_validation s hm hl refl
