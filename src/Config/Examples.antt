-- ===== src/Config/Examples.antt =====
-- The built-in configuration of src/config.rs, and the theorems at it.
use io_thread_controller.Base.{◌+◌, ◌*◌, ◌%◌, ◌≤◌, ◌<◌, ◌≡◌, ◌≢◌, ◌⊎◌, refl, true, false, [], arith}
use io_thread_controller.Base.Words.{u32_max}
use io_thread_controller.Float.{Micro, micro_float}
use io_thread_controller.Config.{
  Config, PollConverter, converter, polls, finish, ok, validate_config, not_multiple,
  too_many_polls, add_error,
}
use io_thread_controller.Config.Durations.{polls_cases}
use io_thread_controller.Config.Validation.{validate_config-ok}

abbrev pub default_config : Config Micro
default_config = record {
  engine = "threshold";
  engine_config_dir = "/etc/io-thread-controller.d/engines";
  backend_config_dir = "/etc/io-thread-controller.d/backends";
  vm_state_path = "/run/io-thread-controller/vm-ownership.json";
  min_thread_count = 2;
  max_thread_count = 8;
  host_cpu_scale_up_ceiling = 900000;
  cooldown_secs = 30;
  scale_poll_secs = 10;
  round_up_durations = false;
  enable_per_vm_status_line = false;
  enable_per_vm_main_log = false;
  enable_aggregate_status_line = true;
  print_status_header = false;
  max_instances_adjusted_per_poll = 0;
  experimental_psi_monitoring = false;
  refresh_cgroup_on_each_read = false;
  dry_run = false;
}

abbrev lenient : PollConverter
lenient = record { poll = record { secs = 10; round_up = true }; errors = [] }

rounds_up : polls lenient "cooldown_secs" 31 ≡ record { count = 4; secs = 40; converter = lenient }
unfolding polls
rounds_up = refl

polls_cases_example :
    let r = polls lenient "cooldown_secs" 31 in
    ((r.converter ≡ lenient)
      × (r.secs ≡ r.count * 10)
      × (31 ≤ r.secs)
      × (r.secs < 31 + 10)
      × (r.count ≤ u32_max)
      × ((r.secs ≡ 31) ⊎ (lenient.poll.round_up ≡ true)))
    ⊎ ((r.count ≡ 0)
        × ((r.converter ≡ add_error lenient (not_multiple "cooldown_secs" 31 10 30 40))
              × (lenient.poll.round_up ≡ false)
              × (31 % lenient.poll.secs ≢ 0)
            ⊎ (r.converter ≡ add_error lenient (too_many_polls "cooldown_secs" r.secs))
              × (u32_max * 10 < 31)))
polls_cases_example = polls_cases lenient "cooldown_secs" 31 (omega arith) (omega arith)

default_accepted :
    validate_config micro_float default_config
    ≡ ok (default_config, converter (record { secs = 10; round_up = false }))
unfolding validate_config polls
default_accepted = refl

default_finishes : finish (converter (record { secs = 10; round_up = false })) ≡ ok tt
unfolding finish
default_finishes = refl

validate_config-ok_example : 0 < default_config.scale_poll_secs
validate_config-ok_example =
    (validate_config-ok micro_float default_config default_config
      (converter (record { secs = 10; round_up = false })) default_accepted (omega arith)
      default_finishes).0
