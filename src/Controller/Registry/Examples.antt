-- ===== src/Controller/Registry/Examples.antt =====
-- `persist_new_classifications` on the file system in memory, for a first snapshot of one VM.
use io_thread_controller.Base.{ℕ, ◌≡◌, refl, true, false, none, some, List, [], ◌∷◌, String, All}
use io_thread_controller.Base.Table.{lookup, insert, remove, contains_id}
use io_thread_controller.Float.{Micro, micro_float}
use io_thread_controller.State.{
  decode_encoded, ok, default_ownership, classification, record_vm, is_disjoint, validate, load,
  save,
}
use io_thread_controller.State.Memory.{memory, memory-IsDisk, move, json, store, tmp_differs, Files}
use io_thread_controller.Config.{Config}
use io_thread_controller.Instance.{InstanceStatus, new_status}
use io_thread_controller.Controller.{Controller}
use io_thread_controller.Controller.Registry.{
  after_record, agree, persist_found, persist_one, persist_all, saved, finish_persist,
  persist_new_classifications,
}
use io_thread_controller.Controller.Registry.Durable.{IsRecorded, persist-durable}

abbrev cfg : Config Micro
cfg = record {
  engine = "threshold";
  engine_config_dir = "/etc/io-thread-controller.d/engines";
  backend_config_dir = "/etc/io-thread-controller.d/backends";
  vm_state_path = "/run/io-thread-controller/vm-ownership.json";
  min_thread_count = 2;
  max_thread_count = 8;
  host_cpu_scale_up_ceiling = micro_float.of_nat 1;
  cooldown_secs = 20;
  scale_poll_secs = 10;
  round_up_durations = false;
  enable_per_vm_status_line = false;
  enable_per_vm_main_log = false;
  enable_aggregate_status_line = true;
  print_status_header = false;
  max_instances_adjusted_per_poll = 0;
  experimental_psi_monitoring = false;
  refresh_cgroup_on_each_read = false;
  dry_run = false;
}

-- One VM whose first snapshot made it managed, one without a snapshot.
abbrev fleet : List (String × InstanceStatus Micro)
fleet =
    ("vm-1", record (new_status micro_float) { ownership_classification = some true })
    ∷ ("vm-2", new_status micro_float)
    ∷ []

abbrev started : Controller Micro ℕ
started = record {
  cfg = cfg;
  engine = 0;
  vm_ownership = default_ownership;
  instances = fleet;
  tick_index = 1;
  last_host_cpu = none;
  host_cpu_util = micro_float.of_nat 0;
}

abbrev no_files : Files
no_files = []

held : load memory json store no_files ≡ ok default_ownership
unfolding load lookup
held = refl

decodes_one :
    let own = (persist_all default_ownership false fleet).0 in decode_encoded json own ≡ some own
unfolding persist_all persist_one persist_found after_record agree record_vm classification
    contains_id
decodes_one = refl

persisted : (persist_new_classifications memory json store started fleet no_files).0 ≡ none
unfolding persist_new_classifications finish_persist saved persist_all persist_one persist_found
    after_record agree record_vm classification contains_id save validate is_disjoint insert lookup
    move remove
persisted = refl

persist-durable_example :
    let (error, c, d) = persist_new_classifications memory json store started fleet no_files in
    (load memory json store d ≡ ok c.vm_ownership) × All (IsRecorded c.vm_ownership) fleet
persist-durable_example =
    persist-durable memory memory-IsDisk json store tmp_differs started fleet no_files decodes_one
      held persisted
