-- ===== src/Config/Validation.antt =====
-- What an accepted controller configuration (src/config.rs) guarantees to the rest of the daemon.
use io_thread_controller.Base.{ℕ, ◌+◌, ◌≤◌, ◌<◌, ◌≡◌, ◌≢◌, refl, true, arith}
use io_thread_controller.Base.Words.{u64_max}
use io_thread_controller.Base.Table.{same_id_iff}
use io_thread_controller.Float.{Float}
use io_thread_controller.Config.{
  Config, PollConverter, Polls, converter, poll_period, polls, finish, ok, is_fraction,
  validate_config,
}
use io_thread_controller.Config.Durations.{IsExact, polls-IsExact, finish-ok}

module _ {F : Type 0} (fl : Float F) (cfg cfg' : Config F) (c : PollConverter) where
  abbrev cooldown : Polls
  cooldown = polls (converter (poll_period fl cfg)) "cooldown_secs" cfg.cooldown_secs

  accepted :
      validate_config fl cfg ≡ ok (cfg', c)
      → (0 < cfg.scale_poll_secs)
        × (cfg.engine ≢ "")
        × (0 < cfg.min_thread_count)
        × (cfg.min_thread_count ≤ cfg.max_thread_count)
        × (is_fraction fl cfg.host_cpu_scale_up_ceiling ≡ true)
        × (cfg' ≡ record cfg { cooldown_secs = cooldown.secs })
        × (c ≡ cooldown.converter)
  unfolding validate_config
  accepted h = ground (arith, same_id_iff cfg.engine "")

  -- A configuration that is accepted, and whose converter finishes without error, polls at a
  -- positive period with a named engine, allows pools between a positive minimum and a maximum that
  -- is not below it, and has a host ceiling between 0 and 1. All of it is as configured but the
  -- cooldown, which is the least multiple of the period that is not below the configured one (for a
  -- cooldown that is not within one period of the largest u64).
  pub validate_config-ok :
      validate_config fl cfg ≡ ok (cfg', c)
      → cfg.cooldown_secs + cfg.scale_poll_secs ≤ u64_max
      → finish c ≡ ok tt
      → (0 < cfg'.scale_poll_secs)
        × (cfg'.engine ≢ "")
        × (0 < cfg'.min_thread_count)
        × (cfg'.min_thread_count ≤ cfg'.max_thread_count)
        × (is_fraction fl cfg'.host_cpu_scale_up_ceiling ≡ true)
        × (cfg' ≡ record cfg { cooldown_secs = cfg'.cooldown_secs })
        × ((n : ℕ) × IsExact cfg.scale_poll_secs cfg.cooldown_secs cfg'.cooldown_secs n)
  validate_config-ok h fits done =
      let (p, e, lo, hi, f, same, same_c) = accepted h in
      let exact =
        polls-IsExact (converter (poll_period fl cfg)) "cooldown_secs" cfg.cooldown_secs p fits
          (rw same_c at (finish-ok c done)) in
      rw same (p, e, lo, hi, f, refl, (cooldown.count, exact.1))
