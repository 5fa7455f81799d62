-- ===== src/Threshold/Startup.antt =====
-- An engine whose durations finished without error counts its polls exactly.
use io_thread_controller.Base.{ℕ, ◌+◌, ◌*◌, ◌≤◌, ◌<◌, ◌≡◌, refl, sym, ap, ◌∙◌, [], arith}
use io_thread_controller.Base.Words.{u64_max}
use io_thread_controller.Float.{Float}
use io_thread_controller.Config.{PollConverter, polls, finish, ok}
use io_thread_controller.Config.Durations.{
  IsExact, polls-IsExact, polls-errors_nil, polls-IsExact_next, finish-ok,
}
use io_thread_controller.Threshold.Settings.{ThresholdConfig, ThresholdPolls}
use io_thread_controller.Threshold.{ThresholdEngine}
use io_thread_controller.Threshold.Build.{validate, resolve_polls, new}

-- No duration is within one period of the largest u64.
pub record Fits {F : Type 0} (period : ℕ) (cfg : ThresholdConfig F) : Type 0 where
  pub sustain_fits : cfg.scale_down_sustain_secs + period ≤ u64_max
  pub delay_fits : cfg.scale_validation_delay_secs + period ≤ u64_max
  pub per_thread_fits : cfg.scale_validation_delay_per_thread_secs + period ≤ u64_max
  pub grace_fits : cfg.post_revert_up_grace_secs + period ≤ u64_max
  pub recovery_fits : cfg.post_revert_up_recovery_secs + period ≤ u64_max
  pub up_max_fits : cfg.post_revert_up_backoff_max_secs + period ≤ u64_max
  pub down_max_fits : cfg.scale_down_backoff_max_secs + period ≤ u64_max

-- Every duration of the settings in place is its poll count times the period, and the least such
-- value that is not below the configured one.
pub record AllExact {F : Type 0} (period : ℕ) (before after : ThresholdConfig F)
    (n : ThresholdPolls) : Type 0 where
  pub sustain :
      IsExact period before.scale_down_sustain_secs after.scale_down_sustain_secs
        n.scale_down_sustain
  pub delay :
      IsExact period before.scale_validation_delay_secs after.scale_validation_delay_secs
        n.scale_validation_delay
  pub per_thread :
      IsExact period before.scale_validation_delay_per_thread_secs
        after.scale_validation_delay_per_thread_secs n.scale_validation_delay_per_thread
  pub grace :
      IsExact period before.post_revert_up_grace_secs after.post_revert_up_grace_secs
        n.post_revert_up_grace
  pub recovery :
      IsExact period before.post_revert_up_recovery_secs after.post_revert_up_recovery_secs
        n.post_revert_up_recovery
  pub up_max :
      IsExact period before.post_revert_up_backoff_max_secs after.post_revert_up_backoff_max_secs
        n.post_revert_up_backoff_max
  pub down_max :
      IsExact period before.scale_down_backoff_max_secs after.scale_down_backoff_max_secs
        n.scale_down_backoff_max

module _ {F : Type 0} (cfg : ThresholdConfig F) (c0 : PollConverter) where
  resolve_polls-AllExact :
      0 < c0.poll.secs
      → Fits c0.poll.secs cfg
      → (resolve_polls cfg c0).converter.errors ≡ []
      → ((resolve_polls cfg c0).converter ≡ c0)
        × AllExact c0.poll.secs cfg (resolve_polls cfg c0).cfg (resolve_polls cfg c0).poll_counts
  unfolding resolve_polls
  resolve_polls-AllExact hp f h7 =
      let r1 = polls c0 "scale_down_sustain_secs" cfg.scale_down_sustain_secs in
      let r2 = polls r1.converter "scale_validation_delay_secs" cfg.scale_validation_delay_secs in
      let r3 =
        polls r2.converter "scale_validation_delay_per_thread_secs"
          cfg.scale_validation_delay_per_thread_secs in
      let r4 = polls r3.converter "post_revert_up_grace_secs" cfg.post_revert_up_grace_secs in
      let r5 = polls r4.converter "post_revert_up_recovery_secs" cfg.post_revert_up_recovery_secs in
      let r6 =
        polls r5.converter "post_revert_up_backoff_max_secs" cfg.post_revert_up_backoff_max_secs in
      let h6 = polls-errors_nil r6.converter _ _ h7 in
      let h5 = polls-errors_nil r5.converter _ _ h6 in
      let h4 = polls-errors_nil r4.converter _ _ h5 in
      let h3 = polls-errors_nil r3.converter _ _ h4 in
      let h2 = polls-errors_nil r2.converter _ _ h3 in
      let h1 = polls-errors_nil r1.converter _ _ h2 in
      let k1 = polls-IsExact c0 _ _ hp f.sustain_fits h1 in
      let k2 = polls-IsExact_next r1.converter c0 _ _ k1.0 hp f.delay_fits h2 in
      let k3 = polls-IsExact_next r2.converter c0 _ _ k2.0 hp f.per_thread_fits h3 in
      let k4 = polls-IsExact_next r3.converter c0 _ _ k3.0 hp f.grace_fits h4 in
      let k5 = polls-IsExact_next r4.converter c0 _ _ k4.0 hp f.recovery_fits h5 in
      let k6 = polls-IsExact_next r5.converter c0 _ _ k5.0 hp f.up_max_fits h6 in
      let k7 = polls-IsExact_next r6.converter c0 _ _ k6.0 hp f.down_max_fits h7 in
      (
        k7.0,
        record {
          sustain = k1.1;
          delay = k2.1;
          per_thread = k3.1;
          grace = k4.1;
          recovery = k5.1;
          up_max = k6.1;
          down_max = k7.1;
        },
      )

new_parts :
    {F : Type 0} (fl : Float F) (cfg : ThresholdConfig F) (c0 c : PollConverter)
    (e : ThresholdEngine F)
    → new fl cfg c0 ≡ ok (e, c)
    → let r = resolve_polls cfg c0 in
      (validate fl cfg ≡ ok tt)
      × (r.converter ≡ c)
      × (e.cfg ≡ r.cfg)
      × (e.polls ≡ r.poll_counts)
      × (e.poll_period ≡ r.converter.poll.secs * 1000000000)
unfolding new
new_parts fl cfg c0 c e h = ground arith

-- The settings that are no durations are as configured.
pub record SameOthers {F : Type 0} (before after : ThresholdConfig F) : Type 0 where
  pub up_threshold : after.scale_up_threshold ≡ before.scale_up_threshold
  pub down_step : after.max_scale_down_step ≡ before.max_scale_down_step
  pub min_gain : after.scale_up_min_gain ≡ before.scale_up_min_gain
  pub revert_drop : after.scale_down_revert_drop ≡ before.scale_down_revert_drop
  pub block_throttled :
      after.block_scale_up_when_cgroup_throttled ≡ before.block_scale_up_when_cgroup_throttled

resolve_polls-SameOthers :
    {F : Type 0} (cfg : ThresholdConfig F) (c0 : PollConverter)
    → SameOthers cfg (resolve_polls cfg c0).cfg
unfolding resolve_polls
resolve_polls-SameOthers cfg c0 = record {
  up_threshold = refl;
  down_step = refl;
  min_gain = refl;
  revert_drop = refl;
  block_throttled = refl;
}

-- The validation reads no duration.
validate-SameOthers :
    {F : Type 0} (fl : Float F) (before after : ThresholdConfig F)
    → SameOthers before after
    → validate fl after ≡ validate fl before
unfolding validate
validate-SameOthers fl before after same =
    rw (same.up_threshold, same.min_gain, same.revert_drop) refl

-- An engine that `new` builds, and whose converter then finishes without error, has settings in place
-- that the validation accepts and that are as configured but for the durations, every one of its durations is exactly its poll count times the period and
-- the least such value not below what was configured, and nothing was recorded before it either
-- (for a positive period, and durations that are not within one period of the largest u64).
pub new-AllExact :
    {F : Type 0} (fl : Float F) (cfg : ThresholdConfig F) (c0 c : PollConverter)
    (e : ThresholdEngine F)
    → 0 < c0.poll.secs
    → Fits c0.poll.secs cfg
    → new fl cfg c0 ≡ ok (e, c)
    → finish c ≡ ok tt
    → AllExact c0.poll.secs cfg e.cfg e.polls
      × (c0.errors ≡ [])
      × (e.poll_period ≡ c0.poll.secs * 1000000000)
      × SameOthers cfg e.cfg
      × (validate fl e.cfg ≡ ok tt)
new-AllExact fl cfg c0 c e hp f h done =
    let parts = new_parts fl cfg c0 c e h in
    let errors : (resolve_polls cfg c0).converter.errors ≡ [] = rw parts.1 (finish-ok c done) in
    let others : SameOthers cfg e.cfg = rw parts.2 (resolve_polls-SameOthers cfg c0) in
    let exact = resolve_polls-AllExact cfg c0 hp f errors in
    (
      rw (parts.2, parts.3) exact.1,
      ap (λ k. k.errors) (sym exact.0) ∙ errors,
      parts.4 ∙ ap (λ k. k.poll.secs * 1000000000) exact.0,
      others,
      validate-SameOthers fl cfg e.cfg others ∙ parts.0,
    )
