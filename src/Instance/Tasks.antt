-- ===== src/Instance/Tasks.antt =====
-- src/instance.rs: `ThreadNameFilter`, `read_cpu_sample`, and the utilisation of workers between two
-- samples. What procfs lists of a process is an argument.
use io_thread_controller.Base.{
  ℕ, suc, Bool, true, false, Option, none, some, List, [], ◌∷◌, ◌++◌, map, String, ◌==◌,
  if◌then◌else◌, length,
}
use io_thread_controller.Base.Words.{sat_add64, wrap32}
use io_thread_controller.Base.Table.{same_id, contains_id}
use io_thread_controller.Base.Sorting.{sort_names}
use io_thread_controller.Float.{Float, zero_f, one_f, clamp}
use io_thread_controller.Rolling.{checked_sub}
use io_thread_controller.Instance.{TaskCpuSample, CpuSample, InstanceStatus}

-- A compiled regex is its `is_match`.
pub record ThreadNameFilter : Type 0 where
  pub match_regex : Option (String → Bool)
  pub ignored_names : List String

unfoldable pub matches : ThreadNameFilter → String → Bool
matches filter task_name =
    if contains_id task_name filter.ignored_names
    then false
    else elim filter.match_regex [ none ↦ true | some is_match ↦ is_match task_name ]

-- What procfs gives of a task: its stat, or an error of the listing or of the reading.
pub record TaskStat : Type 0 where
  pub pid : ℕ
  pub comm : String
  pub utime : ℕ
  pub stime : ℕ

-- The counters that the loop adds up.
pub record TaskTotals : Type 0 where
  pub cpu_ticks : ℕ
  pub thread_count : ℕ
  pub per_worker : List TaskCpuSample

-- The body of the loop for a task that is read and that matches.
unfoldable pub add_task : TaskTotals → TaskStat → TaskTotals
add_task t stat =
    let task_ticks = sat_add64 stat.utime stat.stime in
    record {
      cpu_ticks = sat_add64 t.cpu_ticks task_ticks;
      thread_count = wrap32 (suc t.thread_count);
      per_worker =
          t.per_worker ++ record { tid = stat.pid; name = stat.comm; cpu_ticks = task_ticks } ∷ [];
    }

unfoldable pub add_entry : ThreadNameFilter → TaskTotals → Option TaskStat → TaskTotals
add_entry filter t none = t
add_entry filter t (some stat) = if matches filter stat.comm then add_task t stat else t

unfoldable pub add_entries : ThreadNameFilter → TaskTotals → List (Option TaskStat) → TaskTotals
add_entries filter t [] = t
add_entries filter t (entry ∷ rest) = add_entries filter (add_entry filter t entry) rest

-- No task counted is an error. The time is read after the tasks.
unfoldable pub finish_sample : TaskTotals → ℕ → Option CpuSample
finish_sample t now =
    if t.thread_count == 0
    then none
    else some (record {
      cpu_ticks = t.cpu_ticks;
      sampled_at = now;
      thread_count = t.thread_count;
      per_worker = t.per_worker;
    })

-- `previous_by_tid.get(&task.tid)`: a later task of the list replaces an earlier one.
unfoldable pub task_of : ℕ → List TaskCpuSample → Option TaskCpuSample
task_of tid [] = none
task_of tid (t ∷ ts) = elim (task_of tid ts) [
  | some later ↦ some later
  | none ↦ if t.tid == tid then some t else none
]

module _ {F : Type 0} (fl : Float F) where
  -- `(delta as f64 / wall_ticks).clamp(0.0, 1.0)`.
  unfoldable pub worker_fraction : F → ℕ → F
  worker_fraction wall_ticks delta =
      clamp fl (fl.div (fl.of_nat delta) wall_ticks) (zero_f fl) (one_f fl)

  -- The closure of `filter_map`: a task of the same name, whose counter has not gone back.
  unfoldable pub worker_util : F → List TaskCpuSample → TaskCpuSample → Option (String × F)
  worker_util wall_ticks previous task = elim (task_of task.tid previous) [
    | none ↦ none
    | some before ↦
        if same_id before.name task.name
        then elim (checked_sub task.cpu_ticks before.cpu_ticks) [
          | none ↦ none
          | some delta ↦ some (task.name, worker_fraction wall_ticks delta)
        ]
        else none
  ]

  unfoldable pub compute_per_worker_util :
      F → List TaskCpuSample → List TaskCpuSample → List (String × F)
  compute_per_worker_util wall_ticks previous [] = []
  compute_per_worker_util wall_ticks previous (task ∷ tasks) =
      let rest = compute_per_worker_util wall_ticks previous tasks in
      elim (worker_util wall_ticks previous task) [ none ↦ rest | some util ↦ util ∷ rest ]

  -- `iter().sum()` from 0, in order.
  unfoldable pub sum_from : F → List F → F
  sum_from total [] = total
  sum_from total (x ∷ xs) = sum_from (fl.add total x) xs

  unfoldable pub mean : List F → F
  mean [] = zero_f fl
  mean (x ∷ xs) = fl.div (sum_from (zero_f fl) (x ∷ xs)) (fl.of_nat (length (x ∷ xs)))

  -- The sorted names are stored when they differ from those stored, so they are stored after either.
  unfoldable pub update_worker_utilisation : InstanceStatus F → List (String × F) → InstanceStatus F
  update_worker_utilisation s util = record s {
    last_worker_names = some (sort_names (map (λ u. u.0) util));
    per_worker_util = map (λ u. u.1) util;
    per_thread_util = mean (map (λ u. u.1) util);
  }
