-- ===== src/Rolling/Examples.antt =====
-- Runs of the history of one VM, and the theorems of the sibling modules at these inputs.
use io_thread_controller.Base.{ℕ, ◌≡◌, refl, ◌*◌, some, [], ◌∷◌, arith}
use io_thread_controller.Float.{micro_float}
use io_thread_controller.Rolling.{
  RollingMetrics, push_from_procfs_delta, push_from_backend_util, push_delta, push_procfs,
  set_baseline, drop_before, trim, newest, sum_samples, totals, iops_over,
}
use io_thread_controller.Rolling.Window.{IsBetween, IsWindow, pushes-IsWindow}

abbrev second : ℕ
second = 1000000000

-- One sample, of the first ten seconds of counting.
abbrev history : RollingMetrics
history = record {
  samples =
      record {
        wall_ts = 20 * second;
        io_ops_delta = 500;
        cpu_ns_delta = 1000;
        wall_dt_ns = 10 * second;
      }
      ∷ [];
  previous_wall_ts = some (20 * second);
  previous_io_ops = some 700;
  previous_cpu_ticks = some 40;
}

history-IsWindow : IsWindow (20 * second) history
unfolding IsWindow IsBetween
history-IsWindow = (refl, (20 * second, omega arith, (omega arith, omega arith, tt)))

-- A thousand seconds later the old sample has left the window.
pushes-IsWindow_example :
    let now = 1020 * second in
    IsWindow now (push_from_procfs_delta micro_float (micro_float.of_nat 100) history now 900 50)
    × IsWindow now (push_from_backend_util micro_float history now 900 (micro_float.of_nat 1) 4)
    × IsWindow now (push_delta history now 900 50)
pushes-IsWindow_example =
    pushes-IsWindow micro_float (micro_float.of_nat 100) (micro_float.of_nat 1) (20 * second)
      (1020 * second) 900 50 4 history (omega arith) history-IsWindow

-- 200 operations in ten seconds on top of 500 in ten.
rate_over_two :
    iops_over
      (push_from_procfs_delta micro_float (micro_float.of_nat 100) history (30 * second) 900 50)
      (60 * second)
    ≡ some 35
unfolding iops_over totals sum_samples newest push_from_procfs_delta push_procfs set_baseline trim
    drop_before
rate_over_two = refl
