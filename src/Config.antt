-- ===== src/Config.antt =====
-- src/config.rs: the controller's settings, their validation, and durations in polls. Loading a file
-- (JSON, includes) is left out; a path is its text.
pub mod Durations
pub mod Validation
mod Examples
use io_thread_controller.Base.{
  ℕ, ◌+◌, ◌*◌, ◌/◌, ◌%◌, min, Bool, true, false, not, ◌&&◌, List, [], ◌∷◌, ◌++◌, String, ltb, leb,
  ◌==◌, if◌then◌else◌,
}
use io_thread_controller.Base.Words.{u32_max, sat_add64}
use io_thread_controller.Base.Table.{same_id}
use io_thread_controller.Float.{Float, zero_f, one_f}

-- The two messages of `PollConverter::polls`, by what they show.
pub data DurationError : Type 0 where
  -- name, seconds, period, the nearest valid values
  not_multiple : String → ℕ → ℕ → ℕ → ℕ → DurationError
  -- name, seconds
  too_many_polls : String → ℕ → DurationError

pub data InvalidValue : Type 0 where
  zero_scale_poll empty_engine bad_thread_bounds bad_host_ceiling : InvalidValue
  bad_scale_up_threshold bad_scale_up_min_gain bad_scale_down_revert_drop : InvalidValue

pub data ConfigError : Type 0 where
  invalid_value : InvalidValue → ConfigError
  not_poll_multiple : List DurationError → ConfigError

pub data Result {ℓ} (A : Type ℓ) : Type ℓ where
  ok : A → Result A
  err : ConfigError → Result A

pub record PollPeriod : Type 0 where
  pub secs : ℕ
  pub round_up : Bool

pub record PollConverter : Type 0 where
  pub poll : PollPeriod
  pub errors : List DurationError

-- `PollPeriod::converter`.
abbrev pub converter : PollPeriod → PollConverter
converter p = record { poll = p; errors = [] }

abbrev pub add_error : PollConverter → DurationError → PollConverter
add_error c e = record c { errors = c.errors ++ e ∷ [] }

-- The poll count, the setting in place, and the converter after the call.
pub record Polls : Type 0 where
  pub count : ℕ
  pub secs : ℕ
  pub converter : PollConverter

-- The `match u32::try_from(polls)`.
unfoldable pub to_count : PollConverter → String → ℕ → ℕ → Polls
to_count c name count secs =
    if leb count u32_max
    then record { count = count; secs = secs; converter = c }
    else record { count = 0; secs = secs; converter = add_error c (too_many_polls name secs) }

unfoldable pub polls : PollConverter → String → ℕ → Polls
unfolding to_count
polls c name secs =
    let period = c.poll.secs in
    let below = secs / period * period in
    let above = sat_add64 below period in
    if secs % period == 0
    then to_count c name (secs / period) secs
    else if c.poll.round_up
    then to_count c name (secs / period + 1) above
    else record {
      count = 0;
      secs = secs;
      converter = add_error c (not_multiple name secs period below above);
    }

unfoldable pub finish : PollConverter → Result (Unit {0})
finish c = elim c.errors [ [] ↦ ok tt | e ∷ es ↦ err (not_poll_multiple c.errors) ]

pub record Config (F : Type 0) : Type 0 where
  pub engine : String
  pub engine_config_dir : String
  pub backend_config_dir : String
  pub vm_state_path : String
  pub min_thread_count : ℕ
  pub max_thread_count : ℕ
  pub host_cpu_scale_up_ceiling : F
  pub cooldown_secs : ℕ
  pub scale_poll_secs : ℕ
  pub round_up_durations : Bool
  pub enable_per_vm_status_line : Bool
  pub enable_per_vm_main_log : Bool
  pub enable_aggregate_status_line : Bool
  pub print_status_header : Bool
  pub max_instances_adjusted_per_poll : ℕ
  pub experimental_psi_monitoring : Bool
  pub refresh_cgroup_on_each_read : Bool
  pub dry_run : Bool

module _ {F : Type 0} (fl : Float F) where
  -- `Config::poll_period`; the assertion in `PollPeriod::new` is what `validate_config` tests first.
  abbrev pub poll_period : Config F → PollPeriod
  poll_period cfg = record { secs = cfg.scale_poll_secs; round_up = cfg.round_up_durations }

  -- `x.is_finite() && (0.0..=1.0).contains(&x)`.
  abbrev pub is_fraction : F → Bool
  is_fraction x = fl.is_finite x && fl.le (zero_f fl) x && fl.le x (one_f fl)

  -- The configuration with its durations in place, and the converter for the engine's.
  unfoldable pub validate_config : Config F → Result (Config F × PollConverter)
  validate_config cfg =
      let cooldown = polls (converter (poll_period cfg)) "cooldown_secs" cfg.cooldown_secs in
      if cfg.scale_poll_secs == 0
      then err (invalid_value zero_scale_poll)
      else if same_id cfg.engine ""
      then err (invalid_value empty_engine)
      else if not (ltb 0 cfg.min_thread_count && leb cfg.min_thread_count cfg.max_thread_count)
      then err (invalid_value bad_thread_bounds)
      else if not (is_fraction cfg.host_cpu_scale_up_ceiling)
      then err (invalid_value bad_host_ceiling)
      else ok (record cfg { cooldown_secs = cooldown.secs }, cooldown.converter)
