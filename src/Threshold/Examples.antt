-- ===== src/Threshold/Examples.antt =====
-- The default settings of src/engines/threshold.rs over a poll period of 10 seconds, runs of one VM
-- through them, and the theorems of the sibling modules at these inputs.
use text.Mathlib.TextEquality.{eq_iff}
use io_thread_controller.Base.{
  ℕ, ◌+◌, ◌*◌, ◌≤◌, ◌<◌, min, max, ◌≡◌, ◌≢◌, ◌⊎◌, ◌↔◌, refl, true, false, none, some, List, [], ◌∷◌,
  String, arith, ltb, if◌then◌else◌, All,
}
use io_thread_controller.Base.Table.{lookup}
use io_thread_controller.Float.{Micro, micro_float, one_f, clamp}
use io_thread_controller.Base.Words.{u32_max}
use io_thread_controller.Engines.{hold, up, down, revert, is_up, EngineTickContext, Applied}
use io_thread_controller.Threshold.Settings.{ThresholdConfig, ThresholdPolls, backoff_polls}
use io_thread_controller.Threshold.State.{InstanceState, PendingValidation, grace}
use io_thread_controller.Threshold.State
use io_thread_controller.Threshold.Target.{
  required_threads, scale_down_target, scale_down_sustain_polls, post_revert_up_grace_polls,
  validation_sample_polls,
}
use io_thread_controller.Threshold.Validation.{
  Observed, validate, settle, validation_revert_target, regressed,
}
use io_thread_controller.Threshold.{
  ThresholdEngine, evaluate_state, evaluate_taken, scale, propose, count_low, advance_baseline,
  applied_state, evaluate,
}
use io_thread_controller.Config.{PollConverter, polls, finish, ok}
use io_thread_controller.Threshold.Build.{new, resolve_polls}
use io_thread_controller.Threshold.Build
use io_thread_controller.Threshold.Startup.{AllExact, new-AllExact}
use io_thread_controller.Threshold.Backoff.{
  backoff_polls-eq-exact, exact_backoff, scale_down_sustain_polls-doubles,
  post_revert_up_grace_polls-extends,
}
use io_thread_controller.Threshold.Sizing.{scale_down_target_bounds}
use io_thread_controller.Threshold.Decisions.{Justified, evaluate_state-Justified}
use io_thread_controller.Threshold.Runs.{Poll, evaluate_run}
use io_thread_controller.Threshold.Recovery.{
  revert_holds_up, saturated_scales_up, scale_down_iff_sustained,
}
use io_thread_controller.Threshold.Settlement.{applied_up_validated, applied_down_validated, holds}
use io_thread_controller.Threshold.Isolation.{evaluate_comm}

abbrev pub default_config : ThresholdConfig Micro
default_config = record {
  scale_up_threshold = 950000;
  scale_down_sustain_secs = 30;
  max_scale_down_step = 0;
  scale_up_min_gain = 50000;
  scale_down_revert_drop = 50000;
  scale_validation_delay_secs = 20;
  scale_validation_delay_per_thread_secs = 0;
  block_scale_up_when_cgroup_throttled = true;
  post_revert_up_grace_secs = 10;
  post_revert_up_recovery_secs = 20;
  post_revert_up_backoff_max_secs = 300;
  scale_down_backoff_max_secs = 1200;
}

abbrev pub default_polls : ThresholdPolls
default_polls = record {
  scale_down_sustain = 3;
  scale_validation_delay = 2;
  scale_validation_delay_per_thread = 0;
  post_revert_up_grace = 1;
  post_revert_up_recovery = 2;
  post_revert_up_backoff_max = 30;
  scale_down_backoff_max = 120;
}

-- Poll number `n`, 10 seconds after the one before it.
abbrev pub tick : ℕ → EngineTickContext Micro
tick n = record {
  now = n * 10000000000;
  min_thread_count = 2;
  max_thread_count = 8;
  host_cpu_util = 0;
  tick_index = n;
}

-- Four threads at a utilisation in millionths, with a total of completed operations.
abbrev pub seen : ℕ → ℕ → Observed Micro
seen util ios = record {
  per_thread_util = util;
  thread_count = 4;
  io_count_total = ios;
  throttled_recently = false;
}

abbrev fresh : InstanceState
fresh = record {
  instance_id = "vm-1";
  low_util_polls = 0;
  pending_validation = none;
  baseline_window_start = none;
  current_baseline_iops = 100;
  post_revert_up_hold = none;
  consecutive_failed_ups = 0;
  consecutive_failed_downs = 0;
}

abbrev grown : Applied
grown = record {
  action = up 4;
  prev_thread_count = 3;
  prev_io_count_total = 1000;
  applied_at = 10000000000;
}

-- A validation that has run down, on a pool that gained nothing.
abbrev stalled : InstanceState
stalled = record fresh {
  pending_validation = some (record {
    action = up 4;
    baseline_thread_count = 3;
    baseline_iops = 100;
    validation_start = record { io_count = 1000; at = 10000000000 };
    polls_remaining = 0;
  });
}

abbrev quiet : List (Poll Micro)
quiet = (tick 2, seen 200000 2000) ∷ (tick 3, seen 200000 3000) ∷ []

busy_scales_up :
    (evaluate_state micro_float default_config default_polls (tick 1) (seen 990000 0) fresh).0
    ≡ up 5
unfolding evaluate_state scale propose count_low advance_baseline State.advance_post_revert_up_hold
    State.refresh_baseline_rate scale_down_target required_threads scale_down_sustain_polls
    backoff_polls
busy_scales_up = refl

backoff_polls-eq-exact_example : backoff_polls 3 2 120 ≡ exact_backoff 3 2 120
backoff_polls-eq-exact_example = backoff_polls-eq-exact 3 2 120 (omega arith) (omega arith)

scale_down_sustain_polls-doubles_example :
    (3 ≤ scale_down_sustain_polls default_polls 1)
    × (scale_down_sustain_polls default_polls (1 + 1)
        ≡ min (2 * scale_down_sustain_polls default_polls 1) 120)
scale_down_sustain_polls-doubles_example =
    scale_down_sustain_polls-doubles default_polls 1 (omega arith) (omega arith)

post_revert_up_grace_polls-extends_example :
    (post_revert_up_grace_polls default_polls 2 + 2 ≡ exact_backoff 3 1 30)
    × (1 ≤ post_revert_up_grace_polls default_polls 2)
post_revert_up_grace_polls-extends_example =
    post_revert_up_grace_polls-extends default_polls 2 (omega arith) (omega arith)

evaluate_state-Justified_example :
    Justified micro_float default_config default_polls
      (tick 1)
      (seen 990000 0)
      fresh
      (evaluate_state micro_float default_config default_polls (tick 1) (seen 990000 0) fresh).0
evaluate_state-Justified_example =
    evaluate_state-Justified micro_float default_config default_polls (tick 1) (seen 990000 0) fresh
      (omega arith) (omega arith)

scale_down_target_bounds_example :
    let size = scale_down_target micro_float default_config 200000 4 2 in
    let need =
      micro_float.div
        (micro_float.mul 200000 (micro_float.of_nat 4))
        default_config.scale_up_threshold in
    let required = micro_float.as_u32 (
      clamp micro_float (micro_float.ceil need) (one_f micro_float) (micro_float.of_nat u32_max)) in
    ((size ≡ 4) ⊎ ((size < 4) × (required ≤ size) × (2 ≤ size)))
    × ((size < 4) ↔ ((required < 4) × (2 < 4)))
    × ((default_config.max_scale_down_step ≡ 0) ⊎ (4 ≤ size + default_config.max_scale_down_step))
    × ((0 < default_config.max_scale_down_step) ⊎ (size ≡ min 4 (max required 2)))
scale_down_target_bounds_example = scale_down_target_bounds micro_float default_config 200000 4 2

-- Four threads at a fifth of their capacity: one could carry the load, and two is the minimum.
sized_down : scale_down_target micro_float default_config 200000 4 2 ≡ 2
unfolding scale_down_target required_threads
sized_down = refl

stalled_reverts :
    (evaluate_state micro_float default_config default_polls (tick 4) (seen 990000 1900) stalled).0
    ≡ revert 3
unfolding evaluate_state evaluate_taken validate settle validation_revert_target regressed
    State.iops_rate
stalled_reverts = refl

revert_holds_up_example :
    All
      (λ a. is_up a ≡ false)
      (evaluate_run micro_float default_config default_polls
        (evaluate_state micro_float default_config default_polls
          (tick 4)
          (seen 990000 1900)
          stalled).1
        ((tick 5, seen 990000 2000)
          ∷ (tick 6, seen 990000 2100)
          ∷ (tick 7, seen 990000 2200)
          ∷ [])).0
unfolding post_revert_up_grace_polls backoff_polls
revert_holds_up_example =
    revert_holds_up micro_float default_config default_polls (tick 4) (seen 990000 1900) stalled
      (record {
        action = up 4;
        baseline_thread_count = 3;
        baseline_iops = 100;
        validation_start = record { io_count = 1000; at = 10000000000 };
        polls_remaining = 0;
      })
      3 ((tick 5, seen 990000 2000) ∷ (tick 6, seen 990000 2100) ∷ (tick 7, seen 990000 2200) ∷ [])
      refl refl stalled_reverts (omega arith) (omega arith)

-- After the revert of a scale-up: one poll of grace and two of recovery are left.
abbrev held : InstanceState
held = record fresh { post_revert_up_hold = some (grace 1); consecutive_failed_ups = 1 }

abbrev busy : List (Poll Micro)
busy = (tick 1, seen 990000 1000) ∷ (tick 2, seen 990000 2000) ∷ (tick 3, seen 990000 3000) ∷ []

saturated_scales_up_example :
    (evaluate_state micro_float default_config default_polls
      (tick 4)
      (seen 990000 9000)
      (evaluate_run micro_float default_config default_polls held busy).1).0
    ≡ up (4 + 1)
saturated_scales_up_example =
    saturated_scales_up micro_float default_config default_polls busy (tick 4) (seen 990000 9000)
      held refl (omega arith) (omega arith) refl (omega arith)

-- Until then the same load changes nothing.
held_polls :
    (evaluate_run micro_float default_config default_polls held busy).0 ≡ hold ∷ hold ∷ hold ∷ []
unfolding evaluate_run evaluate_state scale propose count_low advance_baseline
    State.advance_post_revert_up_hold State.refresh_baseline_rate State.iops_rate
    State.reset_baseline_window scale_down_target required_threads scale_down_sustain_polls
    backoff_polls
held_polls = refl

scale_down_iff_sustained_example :
    ((evaluate_state micro_float default_config default_polls
        (tick 4)
        (seen 200000 9000)
        (evaluate_run micro_float default_config default_polls fresh quiet).1).0
      ≡ down 2)
    ↔ ((2 ≡ scale_down_target micro_float default_config 200000 4 2)
        × (ltb (scale_down_target micro_float default_config 200000 4 2) 4 ≡ true)
        × (scale_down_sustain_polls default_polls 0
            ≤ (if ltb (scale_down_target micro_float default_config 200000 4 2) 4
                then (if ltb (scale_down_target micro_float default_config 200000 4 2) 4
                    then 0 + 1
                    else 0)
                  + 1
                else 0)
              + 1))
scale_down_iff_sustained_example =
    scale_down_iff_sustained micro_float default_config default_polls quiet (tick 4)
      (seen 200000 9000) fresh 2 refl (omega arith) refl

applied_up_validated_example :
    (evaluate_run micro_float default_config default_polls
      (applied_state micro_float default_config default_polls grown fresh)
      quiet).0
    ≡ holds 2
unfolding validation_sample_polls
applied_up_validated_example =
    (applied_up_validated micro_float default_config default_polls grown 4 fresh quiet (tick 4)
      (seen 990000 9000) refl refl refl).0

abbrev shrunk : Applied
shrunk = record grown { action = down 4; prev_thread_count = 6 }

applied_down_validated_example :
    (evaluate_run micro_float default_config default_polls
      (applied_state micro_float default_config default_polls shrunk fresh)
      quiet).0
    ≡ holds 2
unfolding validation_sample_polls
applied_down_validated_example =
    (applied_down_validated micro_float default_config default_polls shrunk 4 fresh quiet (tick 4)
      (seen 990000 9000) refl refl refl).0

abbrev engine : ThresholdEngine Micro
engine = record {
  cfg = default_config;
  polls = default_polls;
  poll_period = 10000000000;
  state = ("vm-1", fresh) ∷ [];
}

vm_ids_differ : ◌≢◌ {A = String} "vm-1" "vm-2"
vm_ids_differ = ground (arith, eq_iff "vm-1" "vm-2")

evaluate_comm_example :
    let first = evaluate micro_float engine (tick 1) "vm-1" (seen 990000 0) in
    let second = evaluate micro_float first.1 (tick 1) "vm-2" (seen 200000 0) in
    let first' = evaluate micro_float engine (tick 1) "vm-2" (seen 200000 0) in
    let second' = evaluate micro_float first'.1 (tick 1) "vm-1" (seen 990000 0) in
    (first.0 ≡ second'.0)
    × (second.0 ≡ first'.0)
    × (lookup "vm-2" second.1.state ≡ lookup "vm-2" second'.1.state)
evaluate_comm_example =
    evaluate_comm micro_float engine (tick 1) "vm-1" "vm-2" "vm-2" (seen 990000 0) (seen 200000 0)
      vm_ids_differ

abbrev start : PollConverter
start = record { poll = record { secs = 10; round_up = false }; errors = [] }

default_builds :
    new micro_float default_config start
    ≡ ok (
      record { cfg = default_config; polls = default_polls; poll_period = 10000000000; state = [] },
      start,
    )
unfolding new Build.validate resolve_polls polls
default_builds = refl

default_finishes : finish start ≡ ok tt
unfolding finish
default_finishes = refl

new-AllExact_example : AllExact 10 default_config default_config default_polls
new-AllExact_example =
    (new-AllExact micro_float default_config start start
      (record {
        cfg = default_config;
        polls = default_polls;
        poll_period = 10000000000;
        state = [];
      })
      (omega arith) (omega arith) default_builds default_finishes).0
