-- ===== src/Controller/Examples.antt =====
-- Runs of the controller's operations on a small fleet and a backend in memory.
use io_thread_controller.Base.{
  ◌⊎◌, ℕ, ◌+◌, ◌≤◌, ◌<◌, true, false, ◌≡◌, refl, Option, none, some, List, [], ◌∷◌, ◌++◌, String,
  arith, ◌*◌, keep, leb, if◌then◌else◌, ◌↔◌, map,
}
use io_thread_controller.Base.Table.{lookup, contains_id, same_id}
use io_thread_controller.Float.{Micro, micro_float}
use io_thread_controller.Engines.{ScaleAction, up, down, target, InstanceDecision, manual_override}
use io_thread_controller.State.{classification}
use io_thread_controller.Config.{Config}
use io_thread_controller.Instance.{InstanceStatus, World, new_status, is_scaling_allowed}
use io_thread_controller.Fleet.{ScalingEngine}
use io_thread_controller.Controller.{Controller}
use io_thread_controller.Controller.Actuation.Safety.{IsPermitted}
use io_thread_controller.Controller.Actuation.{
  apply_engine_decision, report, apply_target, policy_guard, is_cooling, apply_unblocked,
  is_over_ceiling, actuate, apply_answer,
}
use io_thread_controller.Controller.Actuation.Cooldown.{cooldown_of, applied_cools, cooling_refuses}
use io_thread_controller.Controller.Plan.{
  act_on, plan, plan_from, plan_one, sort_plan, insert_sorted, key_le,
}
use io_thread_controller.Controller.Plan.Effects.{act_on-safe, act_on-cap}
use io_thread_controller.Controller.Plan.Order.{
  plan-shrink_first, shrinks, grows, first_of_each, decision_of,
}
use io_thread_controller.Controller.Manual.{handle_set_thread_count, set_answer}
use io_thread_controller.Controller.Manual.Override.{
  sticky_request_blocks, handle_set_thread_count-ok_iff,
}
use io_thread_controller.Controller.Inventory.{sync_instances}
use io_thread_controller.Controller.Inventory.Tracked.{lookup-sync_instances}

-- A backend in memory that refuses more than six threads; every reading of the clock takes a second.
pub record Bench : Type 0 where
  pools : String → ℕ
  resized : ℕ
  clock : ℕ

abbrev set_pool : String → ℕ → Bench → Option String × Bench
set_pool id t w =
    if leb t 6
    then (
      none,
      record w { pools = λ j. if same_id id j then t else w.pools j; resized = w.resized + 1 },
    )
    else (some "refused", w)

abbrev pub bench : World Bench
bench = record {
  set_thread_count = set_pool;
  close = λ id w. w;
  close_duplicate = λ id w. w;
  now = λ w. (w.clock, record w { clock = w.clock + 1000000000 });
}

-- An engine that counts what it is told.
abbrev pub counter : ScalingEngine Micro ℕ
counter = record {
  evaluate_fleet = λ e fleet context. ([], e);
  on_applied = λ e id outcome. e + 1;
  on_instance_added = λ e id. e + 1;
  on_instance_removed = λ e id. e + 1;
}

abbrev pub cfg : Config Micro
cfg = record {
  engine = "threshold";
  engine_config_dir = "/etc/io-thread-controller.d/engines";
  backend_config_dir = "/etc/io-thread-controller.d/backends";
  vm_state_path = "/run/io-thread-controller/vm-ownership.json";
  min_thread_count = 2;
  max_thread_count = 8;
  host_cpu_scale_up_ceiling = micro_float.of_nat 1;
  cooldown_secs = 20;
  scale_poll_secs = 10;
  round_up_durations = false;
  enable_per_vm_status_line = false;
  enable_per_vm_main_log = false;
  enable_aggregate_status_line = true;
  print_status_header = false;
  max_instances_adjusted_per_poll = 2;
  experimental_psi_monitoring = false;
  refresh_cgroup_on_each_read = false;
  dry_run = false;
}

abbrev pub status : ℕ → InstanceStatus Micro
status n = record (new_status micro_float) {
  thread_count = n;
  vcpu_count = 8;
  ownership_classification = some true;
}

abbrev pub fleet : Controller Micro ℕ
fleet = record {
  cfg = cfg;
  engine = 0;
  vm_ownership = record { managed_vms = "a" ∷ []; unmanaged_vms = "d" ∷ [] };
  instances = ("a", status 2) ∷ ("b", status 4) ∷ ("c", status 5) ∷ [];
  tick_index = 1;
  last_host_cpu = none;
  host_cpu_util = micro_float.of_nat 0;
}

abbrev pub start : Bench
start = record {
  pools = λ id. if same_id "a" id then 2 else if same_id "b" id then 4 else 5;
  resized = 0;
  clock = 0;
}

abbrev pub decide : String → ScaleAction → InstanceDecision
decide id action = record { instance_id = id; decision = action }

-- A growth, a shrink, a duplicate, an unknown VM, and a shrink.
abbrev pub decisions : List InstanceDecision
decisions =
    decide "a" (up 3)
    ∷ decide "b" (down 3)
    ∷ decide "a" (up 4)
    ∷ decide "x" (up 2)
    ∷ decide "c" (down 4)
    ∷ []

now_small : (w : Bench) → w.pools "a" ≤ 8 → (bench.now w).1.pools "a" ≤ 8
now_small w small = small

call_small :
    (id : String) (s : InstanceStatus Micro) (t : ℕ) (w : Bench)
    → lookup id fleet.instances ≡ some s
    → IsPermitted cfg s t
    → cfg.dry_run ≡ false
    → w.pools "a" ≤ 8
    → (set_pool id t w).1.pools "a" ≤ 8
call_small id s t w found permitted live small = ground (arith, small, permitted.below_max)

act_on-safe_example : (act_on micro_float counter bench fleet decisions start).2.pools "a" ≤ 8
act_on-safe_example =
    act_on-safe micro_float counter bench (λ w. w.pools "a" ≤ 8) fleet now_small call_small
      decisions start (omega arith)

now_resized : (w : Bench) → (bench.now w).1.resized ≡ w.resized
now_resized w = refl

failed_resized :
    (id : String) (t : ℕ) (error : String) (w : Bench)
    → (set_pool id t w).0 ≡ some error
    → (set_pool id t w).1.resized ≡ w.resized
failed_resized id t error w e = ground (arith, e)

accepted_resized :
    (id : String) (t : ℕ) (w : Bench)
    → (set_pool id t w).0 ≡ none
    → (set_pool id t w).1.resized ≤ w.resized + 1
accepted_resized id t w e = ground (arith, e)

act_on-cap_example : (act_on micro_float counter bench fleet decisions start).2.resized ≤ 0 + 2
act_on-cap_example =
    act_on-cap micro_float counter bench (λ w. w.resized) now_resized failed_resized
      accepted_resized fleet decisions start (omega arith)

plan-shrink_first_example :
    map decision_of (plan fleet.instances decisions)
    ≡ keep (shrinks fleet.instances) (first_of_each decisions)
      ++ keep (grows fleet.instances) (first_of_each decisions)
plan-shrink_first_example = plan-shrink_first fleet.instances decisions

-- The sizes that the plan asks for, in its order.
plan_order : map (λ p. p.instance_id) (plan fleet.instances decisions) ≡ "b" ∷ "c" ∷ "a" ∷ []
unfolding plan plan_from plan_one sort_plan insert_sorted key_le lookup contains_id target
plan_order = refl

accepts_three : (handle_set_thread_count bench fleet "a" 3 true start).0 ≡ none
unfolding handle_set_thread_count set_answer lookup
accepts_three = refl

aims_at_four : target (up 4) ≡ some 4
unfolding target
aims_at_four = refl

sticky_request_blocks_example :
    let (error, c, w) = handle_set_thread_count bench fleet "a" 3 true start in
    apply_engine_decision micro_float counter bench c "a" (up 4) start
    ≡ (false, report micro_float counter bench c "a" manual_override (up 4), start)
sticky_request_blocks_example =
    sticky_request_blocks micro_float counter bench fleet "a" 3 4 (up 4) start start accepts_three
      aims_at_four

handle_set_thread_count-ok_iff_example :
    ((handle_set_thread_count bench fleet "b" 9 false start).0 ≡ none) ↔ (
      (s : InstanceStatus Micro) × (lookup "b" fleet.instances ≡ some s)
      × (0 < 9)
      × (9 ≤ s.vcpu_count)
      × ((set_pool "b" 9 start).0 ≡ none))
handle_set_thread_count-ok_iff_example =
    handle_set_thread_count-ok_iff micro_float counter bench fleet "b" 9 false start

-- "a" stays, "b" and "c" go, and "d" comes.
abbrev discovered : List (String × InstanceStatus Micro)
discovered = ("d", new_status micro_float) ∷ ("a", new_status micro_float) ∷ []

lookup-sync_instances_example :
    let (added, removed, c, w) = sync_instances counter bench fleet discovered start in
    lookup "d" c.instances ≡ (elim (lookup "d" discovered) [
      | none ↦ none
      | some fresh ↦ elim (lookup "d" fleet.instances) [
        | some tracked ↦ some tracked
        | none ↦
            some (record fresh { ownership_classification = classification fleet.vm_ownership "d" })
      ]
    ])
lookup-sync_instances_example = lookup-sync_instances counter bench fleet discovered start "d"

applies_three : (apply_engine_decision micro_float counter bench fleet "a" (up 3) start).0 ≡ true
unfolding apply_engine_decision apply_target policy_guard is_cooling apply_unblocked is_over_ceiling
    actuate apply_answer lookup target is_scaling_allowed
applies_three = refl

applied_cools_example :
    (t : ℕ) × (guarded : Bench) × (target (up 3) ≡ some t)
    × ((guarded ≡ start) ⊎ (guarded ≡ (bench.now start).1))
    × (cooldown_of (apply_engine_decision micro_float counter bench fleet "a" (up 3) start).1 "a"
        ≡ some (
            (bench.now (if false then guarded else (set_pool "a" t guarded).1)).0
            + 20 * 1000000000))
applied_cools_example = applied_cools micro_float counter bench fleet "a" (up 3) start applies_three

-- The fleet with "a" cooling down for twenty seconds.
abbrev cooling : Controller Micro ℕ
cooling = record fleet {
  instances = ("a", record (status 3) { cooldown_until = some 20000000000 }) ∷ [];
}

cools_twenty : cooldown_of cooling "a" ≡ some 20000000000
unfolding cooldown_of lookup
cools_twenty = refl

cooling_refuses_example :
    let (applied, c, w) =
      apply_engine_decision micro_float counter bench cooling "a" (up 4) start in
    (applied ≡ false)
    × (c.instances ≡ cooling.instances)
    × ((w ≡ start) ⊎ (w ≡ (bench.now start).1))
cooling_refuses_example =
    cooling_refuses micro_float counter bench cooling "a" (up 4) 20000000000 start refl cools_twenty
      (omega arith)
