-- ===== src/Threshold/Runs.antt =====
-- Consecutive polls of one VM, with nothing applied in between, and what they do to its state.
use io_thread_controller.Base.{
  ℕ, ◌+◌, ◌-◌, ◌≤◌, ◌<◌, ◌≡◌, refl, ap, ◌∙◌, Bool, false, Option, none, some, List, [], ◌∷◌, arith,
  ltb, if◌then◌else◌, length, All,
}
use io_thread_controller.Base.Words.{u32_max}
use io_thread_controller.Float.{Float}
use io_thread_controller.Engines.{ScaleAction, is_up, EngineTickContext}
use io_thread_controller.Threshold.Settings.{ThresholdConfig, ThresholdPolls}
use io_thread_controller.Threshold.State.{
  IoSample, PendingValidation, InstanceState, PostRevertUpHold, grace, recovery,
  advance_post_revert_up_hold, refresh_baseline_rate,
}
use io_thread_controller.Threshold.Target.{scale_down_target}
use io_thread_controller.Threshold.Validation.{Observed}
use io_thread_controller.Threshold.{
  evaluate_state, evaluate_taken, advance_baseline, scale, count_low, propose,
}
use io_thread_controller.Threshold.Decisions.{holds_up, advance_baseline_keeps}

-- The polls for which the post-revert hold still blocks a scale-up.
abbrev pub hold_left : Option PostRevertUpHold → ℕ → ℕ
hold_left none recovery_polls = 0
hold_left (some (grace n)) recovery_polls = n + recovery_polls
hold_left (some (recovery n start)) recovery_polls = n - 1

pub holds_up-hold_left :
    (h : Option PostRevertUpHold) (recovery_polls : ℕ)
    → holds_up h recovery_polls ≡ ltb 0 (hold_left h recovery_polls)
holds_up-hold_left none r = refl
holds_up-hold_left (some (grace n)) r = ground arith
holds_up-hold_left (some (recovery n start)) r = ground arith

-- One poll: the tick's context and what was read of the VM.
abbrev pub Poll : Type 0 → Type 0
Poll F = EngineTickContext F × Observed F

module _ {F : Type 0} (fl : Float F) (cfg : ThresholdConfig F) (polls : ThresholdPolls) where
  unfoldable pub evaluate_run : InstanceState → List (Poll F) → List ScaleAction × InstanceState
  evaluate_run s [] = ([], s)
  evaluate_run s ((context, seen) ∷ rest) =
      let (action, s') = evaluate_state fl cfg polls context seen s in
      let (actions, last) = evaluate_run s' rest in (action ∷ actions, last)

  advance-hold_left :
      (s : InstanceState) (sample : IoSample)
      → hold_left
          (advance_baseline fl polls s sample).1.post_revert_up_hold
          polls.post_revert_up_recovery
        ≡ hold_left s.post_revert_up_hold polls.post_revert_up_recovery - 1
  unfolding advance_baseline advance_post_revert_up_hold refresh_baseline_rate
  advance-hold_left s sample = ground arith

  -- A scale-down is eligible: a smaller pool would carry the load.
  abbrev pub eligible : Poll F → Bool
  eligible (context, seen) =
      ltb (scale_down_target fl cfg seen.per_thread_util seen.thread_count context.min_thread_count)
        seen.thread_count

  taken_run :
      (context : EngineTickContext F) (seen : Observed F) (taken : Option PendingValidation)
      (s : InstanceState)
      → s.low_util_polls < u32_max
      → s.pending_validation ≡ none
      → s.pending_validation ≡ taken
      → let s' =
          (evaluate_taken fl cfg polls context seen
            (record { io_count = seen.io_count_total; at = context.now })
            taken
            s).1 in
        (s'.pending_validation ≡ none)
        × (hold_left s'.post_revert_up_hold polls.post_revert_up_recovery
            ≡ hold_left s.post_revert_up_hold polls.post_revert_up_recovery - 1)
        × (s'.low_util_polls ≡ (if eligible (context, seen) then s.low_util_polls + 1 else 0))
        × (s'.consecutive_failed_downs ≡ s.consecutive_failed_downs)
        × (s'.consecutive_failed_ups ≡ s.consecutive_failed_ups)
  unfolding evaluate_taken scale count_low
  taken_run context seen (some p) s hl hp e = absurd (cc)
  taken_run context seen none s hl hp e =
      let sample : IoSample = record { io_count = seen.io_count_total; at = context.now } in
      ground (arith, advance_baseline_keeps fl polls s sample, advance-hold_left s sample)

  -- The length of the current run of polls at which scale-down was eligible, from a count so far.
  abbrev pub streak : ℕ → List (Poll F) → ℕ
  streak n [] = n
  streak n (p ∷ rest) = streak (if eligible p then n + 1 else 0) rest

  -- What a run of polls with no validation pending leaves behind.
  pub record Idle (s : InstanceState) (steps : List (Poll F)) (last : InstanceState) : Type 0 where
    pub none_pending : last.pending_validation ≡ none
    pub hold_runs :
        hold_left last.post_revert_up_hold polls.post_revert_up_recovery
        ≡ hold_left s.post_revert_up_hold polls.post_revert_up_recovery - length steps
    pub low_counted : last.low_util_polls ≡ streak s.low_util_polls steps
    pub downs_kept : last.consecutive_failed_downs ≡ s.consecutive_failed_downs
    pub ups_kept : last.consecutive_failed_ups ≡ s.consecutive_failed_ups

  pub evaluate_run-Idle :
      (steps : List (Poll F)) (s : InstanceState)
      → s.pending_validation ≡ none
      → s.low_util_polls + length steps ≤ u32_max
      → Idle s steps (evaluate_run s steps).1
  unfolding evaluate_run evaluate_state
  evaluate_run-Idle [] s hp hl = record {
    none_pending = hp;
    hold_runs = omega arith;
    low_counted = refl;
    downs_kept = refl;
    ups_kept = refl;
  }
  evaluate_run-Idle ((context, seen) ∷ rest) s hp hl =
      let (p, h, l, d, u) = taken_run context seen s.pending_validation s (omega arith) hp refl in
      let s' : InstanceState = (evaluate_state fl cfg polls context seen s).1 in
      let ih = evaluate_run-Idle rest s' p (ground arith) in
      record {
        none_pending = ih.none_pending;
        hold_runs = omega (arith, ih.hold_runs);
        low_counted = ih.low_counted ∙ ap (λ n. streak n rest) l;
        downs_kept = ih.downs_kept ∙ d;
        ups_kept = ih.ups_kept ∙ u;
      }

  held_not_up :
      (context : EngineTickContext F) (seen : Observed F) (s : InstanceState)
      → s.pending_validation ≡ none
      → 0 < hold_left s.post_revert_up_hold polls.post_revert_up_recovery
      → is_up (evaluate_state fl cfg polls context seen s).0 ≡ false
  unfolding evaluate_state evaluate_taken scale propose
  held_not_up context seen s hp hh =
      let sample : IoSample = record { io_count = seen.io_count_total; at = context.now } in
      ground (
        arith,
        advance_baseline_keeps fl polls s sample,
        holds_up-hold_left s.post_revert_up_hold polls.post_revert_up_recovery,
      )

  -- While the hold lasts, no poll proposes a scale-up, whatever is observed.
  pub evaluate_run-no_up :
      (steps : List (Poll F)) (s : InstanceState)
      → s.pending_validation ≡ none
      → s.low_util_polls + length steps ≤ u32_max
      → length steps ≤ hold_left s.post_revert_up_hold polls.post_revert_up_recovery
      → All (λ a. is_up a ≡ false) (evaluate_run s steps).0
  unfolding evaluate_run
  evaluate_run-no_up [] s hp hl hh = tt
  evaluate_run-no_up ((context, seen) ∷ rest) s hp hl hh =
      let one = evaluate_run-Idle ((context, seen) ∷ []) s hp (omega arith) in
      let s' : InstanceState = (evaluate_state fl cfg polls context seen s).1 in
      (
        held_not_up context seen s hp (omega arith),
        evaluate_run-no_up rest s' one.none_pending (ground (arith, one.low_counted))
            (omega (arith, one.hold_runs)),
      )
