-- ===== src/Threshold/Sizing.antt =====
-- The pool size that `scale_down_target` of src/engines/threshold.rs chooses.
use io_thread_controller.Base.{ℕ, ◌+◌, ◌≤◌, ◌<◌, min, max, ◌≡◌, ◌⊎◌, ◌↔◌, arith}
use io_thread_controller.Base.Words.{u32_max}
use io_thread_controller.Float.{Float, one_f, clamp}
use io_thread_controller.Threshold.Settings.{ThresholdConfig}
use io_thread_controller.Threshold.Target.{required_threads, scale_down_target}

module _ {F : Type 0} (fl : Float F) (cfg : ThresholdConfig F) (util : F) where
  pub scale_down_target-carries :
      (thread_count min_thread_count : ℕ)
      → let size = scale_down_target fl cfg util thread_count min_thread_count in
        (size ≡ thread_count)
        ⊎ ((size < thread_count)
            × (required_threads fl cfg util thread_count ≤ size)
            × (min_thread_count ≤ size))
  unfolding scale_down_target
  scale_down_target-carries n m = ground arith

  -- The load needs as many threads as the utilisation per thread times the number of threads, divided
  -- by the scale-up threshold and rounded up, but one at least and no more than a u32 holds. The size
  -- chosen for a scale-down is the current one, or a smaller one that is not below this need nor below
  -- the controller's minimum, and it is smaller if and only if the need and the minimum are. A step
  -- limit bounds how many threads go at once; without one, the size is the least that is not below the
  -- need and the minimum, or the current size if that is smaller still.
  pub scale_down_target_bounds :
      (thread_count min_thread_count : ℕ)
      → let size = scale_down_target fl cfg util thread_count min_thread_count in
        let need = fl.div (fl.mul util (fl.of_nat thread_count)) cfg.scale_up_threshold in
        let required = fl.as_u32 (clamp fl (fl.ceil need) (one_f fl) (fl.of_nat u32_max)) in
        ((size ≡ thread_count)
          ⊎ ((size < thread_count) × (required ≤ size) × (min_thread_count ≤ size)))
        × ((size < thread_count) ↔ ((required < thread_count) × (min_thread_count < thread_count)))
        × ((cfg.max_scale_down_step ≡ 0) ⊎ (thread_count ≤ size + cfg.max_scale_down_step))
        × ((0 < cfg.max_scale_down_step)
            ⊎ (size ≡ min thread_count (max required min_thread_count)))
  unfolding scale_down_target required_threads
  scale_down_target_bounds n m = ground arith
