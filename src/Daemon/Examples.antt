-- ===== src/Daemon/Examples.antt =====
-- A run of the daemon over a backend and a disk in memory.
use io_thread_controller.Base.{
  ℕ, ◌≡◌, refl, true, false, Option, none, some, List, [], ◌∷◌, String, if◌then◌else◌,
}
use io_thread_controller.Base.Table.{same_id, lookup}
use io_thread_controller.Float.{Micro, micro_float}
use io_thread_controller.State.{ok, load, default_ownership}
use io_thread_controller.State.Memory.{Files, memory, json, store}
use io_thread_controller.Instance.{InstanceStatus, new_status}
use io_thread_controller.Instance.Refresh.{ThreadPoolSnapshot, Probe, refresh_state}
use io_thread_controller.Instance.Refresh.Policy.{IsRefresh, refresh_state-IsRefresh}
use io_thread_controller.Controller.{Controller}
use io_thread_controller.Controller.Examples.{Bench, bench, start, counter, cfg}
use io_thread_controller.Controller.Tick.{Environment}
use io_thread_controller.Controller.Tick.Soundness.{IsSound}
use io_thread_controller.Daemon.{
  new, new_controller, sync, handle_event, poll, DaemonState, Reachable, started,
}
use io_thread_controller.State.Ownership.{IsApart}
use io_thread_controller.Daemon.Ownership.{IsHandled, reachable-IsHandled}

-- Every VM has four threads at half load, but "b" does not answer.
abbrev snapshot : ThreadPoolSnapshot Micro
snapshot = record { thread_count = 4; vcpu_count = 8; perf = none; per_thread_util = some 500000 }

abbrev snapshot_of : String → Option (ThreadPoolSnapshot Micro)
snapshot_of id = if same_id id "b" then none else some snapshot

abbrev probe : Probe Micro Bench
probe = record {
  get_thread_pool_snapshot = λ id w. (snapshot_of id, w);
  tasks = λ id w. (none, w);
  read_cgroup_sample = λ id w. (none, w);
  initial_pool_is_managed = λ id threads vcpus. true;
  thread_name_filter = λ id. record { match_regex = none; ignored_names = [] };
  close = λ id w. w;
  now = bench.now;
}

abbrev env : Environment Micro ℕ Bench Files
env = record {
  fl = micro_float;
  ticks = micro_float.of_nat 100;
  eng = counter;
  world = bench;
  probe = probe;
  host_cpu = λ w. (none, w);
  fs = memory;
  json = json;
  store = store;
  median = λ values. micro_float.of_nat 0;
  pid_of = λ id. 0;
  decode_mapping = λ text. none;
}

abbrev fresh : Controller Micro ℕ
fresh = record {
  cfg = cfg;
  engine = 0;
  vm_ownership = default_ownership;
  instances = [];
  tick_index = 0;
  last_host_cpu = none;
  host_cpu_util = micro_float.of_nat 0;
}

starts : new env cfg 0 [] ≡ ok fresh
unfolding new new_controller load lookup
starts = refl

abbrev found : List (String × InstanceStatus Micro)
found = ("a", new_status micro_float) ∷ ("b", new_status micro_float) ∷ []

abbrev first : DaemonState Micro ℕ Bench Files
first = sync env found (record { controller = fresh; disk = []; outside = start })

first-Reachable : Reachable env cfg 0 first
first-Reachable = started [] start fresh found starts

reachable-IsHandled_example :
    IsSound first.controller
    × IsApart first.controller.vm_ownership
    × IsHandled env (handle_event env (poll found) first)
reachable-IsHandled_example = reachable-IsHandled env cfg 0 first (poll found) first-Reachable

refresh_state-IsRefresh_example :
    IsRefresh micro_float 100000000 probe "a"
      (new_status micro_float)
      start
      (refresh_state micro_float 100000000 probe "a" false (new_status micro_float) start)
refresh_state-IsRefresh_example =
    refresh_state-IsRefresh micro_float 100000000 probe "a" false (new_status micro_float) start
