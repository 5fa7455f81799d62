-- ===== src/Threshold/Settings.antt =====
-- src/engines/threshold.rs: `ThresholdConfig`, its durations in polls, and the backoff that doubles.
use io_thread_controller.Base.{ℕ, ◌^◌, min, max, Bool, ◌==◌, if◌then◌else◌}
use io_thread_controller.Base.Words.{u32_max, sat_mul}

pub record ThresholdConfig (F : Type 0) : Type 0 where
  pub scale_up_threshold : F
  pub scale_down_sustain_secs : ℕ
  pub max_scale_down_step : ℕ
  pub scale_up_min_gain : F
  pub scale_down_revert_drop : F
  pub scale_validation_delay_secs : ℕ
  pub scale_validation_delay_per_thread_secs : ℕ
  pub block_scale_up_when_cgroup_throttled : Bool
  pub post_revert_up_grace_secs : ℕ
  pub post_revert_up_recovery_secs : ℕ
  pub post_revert_up_backoff_max_secs : ℕ
  pub scale_down_backoff_max_secs : ℕ

pub record ThresholdPolls : Type 0 where
  pub scale_down_sustain : ℕ
  pub scale_validation_delay : ℕ
  pub scale_validation_delay_per_thread : ℕ
  pub post_revert_up_grace : ℕ
  pub post_revert_up_recovery : ℕ
  pub post_revert_up_backoff_max : ℕ
  pub scale_down_backoff_max : ℕ

-- `2u32.saturating_pow(doublings)`.
unfoldable pub sat_pow_two : ℕ → ℕ
sat_pow_two n = min (2 ^ n) u32_max

unfoldable pub backoff_polls : ℕ → ℕ → ℕ → ℕ
unfolding sat_pow_two
backoff_polls base doublings max_polls =
    if max_polls == 0 then base else min (sat_mul base (sat_pow_two doublings)) (max max_polls base)
