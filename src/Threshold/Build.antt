-- ===== src/Threshold/Build.antt =====
-- src/engines/threshold.rs: `ThresholdEngine::new`, which validates the settings and converts their
-- durations.
use io_thread_controller.Base.{◌*◌, not, ◌&&◌, [], if◌then◌else◌}
use io_thread_controller.Float.{Float, zero_f, one_f}
use io_thread_controller.Config.{
  bad_scale_up_threshold, bad_scale_up_min_gain, bad_scale_down_revert_drop, invalid_value, Result,
  ok, err, PollConverter, polls, is_fraction,
}
use io_thread_controller.Threshold.Settings.{ThresholdConfig, ThresholdPolls}
use io_thread_controller.Threshold.{ThresholdEngine}

-- The settings in place, their polls, and the converter after all seven calls.
pub record Resolved (F : Type 0) : Type 0 where
  pub cfg : ThresholdConfig F
  pub poll_counts : ThresholdPolls
  pub converter : PollConverter

-- `resolve_polls`; Rust evaluates the fields in the order that they are written.
unfoldable pub resolve_polls : {F : Type 0} → ThresholdConfig F → PollConverter → Resolved F
resolve_polls cfg c0 =
    let sustain = polls c0 "scale_down_sustain_secs" cfg.scale_down_sustain_secs in
    let delay =
      polls sustain.converter "scale_validation_delay_secs" cfg.scale_validation_delay_secs in
    let per_thread =
      polls delay.converter "scale_validation_delay_per_thread_secs"
        cfg.scale_validation_delay_per_thread_secs in
    let grace =
      polls per_thread.converter "post_revert_up_grace_secs" cfg.post_revert_up_grace_secs in
    let recovery =
      polls grace.converter "post_revert_up_recovery_secs" cfg.post_revert_up_recovery_secs in
    let up_max =
      polls recovery.converter "post_revert_up_backoff_max_secs"
        cfg.post_revert_up_backoff_max_secs in
    let down_max =
      polls up_max.converter "scale_down_backoff_max_secs" cfg.scale_down_backoff_max_secs in
    record {
      cfg = record cfg {
        scale_down_sustain_secs = sustain.secs;
        scale_validation_delay_secs = delay.secs;
        scale_validation_delay_per_thread_secs = per_thread.secs;
        post_revert_up_grace_secs = grace.secs;
        post_revert_up_recovery_secs = recovery.secs;
        post_revert_up_backoff_max_secs = up_max.secs;
        scale_down_backoff_max_secs = down_max.secs;
      };
      poll_counts = record {
        scale_down_sustain = sustain.count;
        scale_validation_delay = delay.count;
        scale_validation_delay_per_thread = per_thread.count;
        post_revert_up_grace = grace.count;
        post_revert_up_recovery = recovery.count;
        post_revert_up_backoff_max = up_max.count;
        scale_down_backoff_max = down_max.count;
      };
      converter = down_max.converter;
    }

module _ {F : Type 0} (fl : Float F) where
  -- `ThresholdConfig::validate`, with the error that it returns, if any.
  unfoldable pub validate : ThresholdConfig F → Result (Unit {0})
  validate cfg =
      if not (
        fl.is_finite cfg.scale_up_threshold
        && fl.lt (zero_f fl) cfg.scale_up_threshold
        && fl.le cfg.scale_up_threshold (one_f fl))
      then err (invalid_value bad_scale_up_threshold)
      else if not (is_fraction fl cfg.scale_up_min_gain)
      then err (invalid_value bad_scale_up_min_gain)
      else if not (is_fraction fl cfg.scale_down_revert_drop)
      then err (invalid_value bad_scale_down_revert_drop)
      else ok tt

  -- `Duration::from_secs` of the period, in nanoseconds.
  unfoldable pub new :
      ThresholdConfig F → PollConverter → Result (ThresholdEngine F × PollConverter)
  new cfg c = elim (validate cfg) [
    | err e ↦ err e
    | ok _ ↦
        let r = resolve_polls cfg c in
        ok (
          record {
            cfg = r.cfg;
            polls = r.poll_counts;
            poll_period = r.converter.poll.secs * 1000000000;
            state = [];
          },
          r.converter,
        )
  ]
