-- ===== src/Threshold/Target.antt =====
-- src/engines/threshold.rs: poll counts derived from the configuration, and the pool size that
-- carries the observed load.
use io_thread_controller.Base.{ℕ, ◌-◌, max, leb, ◌==◌, if◌then◌else◌}
use io_thread_controller.Base.Words.{u32_max, sat_add, sat_mul}
use io_thread_controller.Float.{Float, one_f, clamp}
use io_thread_controller.Threshold.Settings.{ThresholdConfig, ThresholdPolls, backoff_polls}

-- `validation_sample_polls`.
unfoldable pub validation_sample_polls : ThresholdPolls → ℕ → ℕ
validation_sample_polls polls target_thread_count =
    sat_add polls.scale_validation_delay
      (sat_mul polls.scale_validation_delay_per_thread target_thread_count)

-- `post_revert_up_grace_polls`; `failures.saturating_sub(1)` is `-` on ℕ.
unfoldable pub post_revert_up_grace_polls : ThresholdPolls → ℕ → ℕ
post_revert_up_grace_polls polls failures =
    backoff_polls (sat_add polls.post_revert_up_grace polls.post_revert_up_recovery) (failures - 1)
      polls.post_revert_up_backoff_max
    - polls.post_revert_up_recovery

unfoldable pub scale_down_sustain_polls : ThresholdPolls → ℕ → ℕ
scale_down_sustain_polls polls failures =
    backoff_polls polls.scale_down_sustain failures polls.scale_down_backoff_max

module _ {F : Type 0} (fl : Float F) where
  unfoldable pub required_threads : ThresholdConfig F → F → ℕ → ℕ
  required_threads cfg per_thread_util thread_count =
      let total_load = fl.mul per_thread_util (fl.of_nat thread_count) in
      fl.as_u32 (
        clamp fl (fl.ceil (fl.div total_load cfg.scale_up_threshold)) (one_f fl)
          (fl.of_nat u32_max))

  unfoldable pub scale_down_target : ThresholdConfig F → F → ℕ → ℕ → ℕ
  scale_down_target cfg per_thread_util thread_count min_thread_count =
      let goal = max (required_threads cfg per_thread_util thread_count) min_thread_count in
      if leb thread_count goal
      then thread_count
      else if cfg.max_scale_down_step == 0
      then goal
      else max goal (max (thread_count - cfg.max_scale_down_step) min_thread_count)
