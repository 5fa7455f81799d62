-- ===== src/Engines.antt =====
-- src/engines/mod.rs: scaling actions, the outcomes reported to an engine, the engine trait and its
-- default evaluation of a fleet. Times are nanoseconds on one monotonic clock.
use io_thread_controller.Base.{ℕ, Bool, true, false, Option, none, some, String}

-- `PsiSample`, filled from `/proc/pressure`, is carried by the tick context and read by no engine
-- of the repository, so the context below leaves it out.
pub data ScaleAction : Type 0 where
  hold : ScaleAction
  up : ℕ → ScaleAction
  down : ℕ → ScaleAction
  revert : ℕ → ScaleAction

-- `ScaleAction::target`.
unfoldable pub target : ScaleAction → Option ℕ
target hold = none
target (up t) = some t
target (down t) = some t
target (revert t) = some t

-- `matches!(action, ScaleAction::Up(_))` and the other patterns on actions.
abbrev pub is_up : ScaleAction → Bool
is_up (up t) = true
is_up _ = false

abbrev pub is_up_or_down : ScaleAction → Bool
is_up_or_down (up t) = true
is_up_or_down (down t) = true
is_up_or_down _ = false

abbrev pub is_scaling : ScaleAction → Bool
is_scaling hold = false
is_scaling _ = true

pub record EngineTickContext (F : Type 0) : Type 0 where
  pub now : ℕ
  pub min_thread_count : ℕ
  pub max_thread_count : ℕ
  pub host_cpu_util : F
  pub tick_index : ℕ

pub record InstanceDecision : Type 0 where
  pub instance_id : String
  pub decision : ScaleAction

pub data BlockedReason : Type 0 where
  manual_override unmanaged_vm target_below_minimum target_exceeds_maximum : BlockedReason
  target_exceeds_vcpu_count host_cpu_ceiling cooldown : BlockedReason

-- The fields of `Success` and of `DryRun`.
pub record Applied : Type 0 where
  pub action : ScaleAction
  pub prev_thread_count : ℕ
  pub prev_io_count_total : ℕ
  pub applied_at : ℕ

pub data AppliedOutcome : Type 0 where
  success : Applied → AppliedOutcome
  dry_run : Applied → AppliedOutcome
  blocked : ScaleAction → BlockedReason → AppliedOutcome
  failed : ScaleAction → String → AppliedOutcome
