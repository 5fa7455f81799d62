-- ===== src/Rolling.antt =====
-- src/rolling.rs: the bounded history of one VM. An `Instant` is a number of nanoseconds from the
-- clock's origin, so `checked_sub` fails below 0. The deque is a list, oldest sample first.
pub mod Window
mod Examples
use io_thread_controller.Base.{
  ℕ, ◌-◌, ◌*◌, ◌/◌, min, Bool, true, Option, none, some, List, [], ◌∷◌, ◌++◌, keep, ltb, leb, ◌||◌,
  if◌then◌else◌,
}
use io_thread_controller.Base.Words.{u64_max, sat_add64}
use io_thread_controller.Float.{Float, zero_f, one_f, clamp}

-- `MAX_WINDOW`: 15 minutes.
abbrev pub max_window : ℕ
max_window = 900000000000

pub record TickSample : Type 0 where
  pub wall_ts : ℕ
  pub io_ops_delta : ℕ
  pub cpu_ns_delta : ℕ
  pub wall_dt_ns : ℕ

pub record RollingMetrics : Type 0 where
  pub samples : List TickSample
  pub previous_wall_ts : Option ℕ
  pub previous_io_ops : Option ℕ
  pub previous_cpu_ticks : Option ℕ

abbrev pub new : RollingMetrics
new = record {
  samples = [];
  previous_wall_ts = none;
  previous_io_ops = none;
  previous_cpu_ticks = none;
}

-- `Instant::checked_sub` and `Instant::checked_duration_since`.
abbrev pub checked_sub : ℕ → ℕ → Option ℕ
checked_sub a b = if leb b a then some (a - b) else none

unfoldable pub set_baseline : RollingMetrics → ℕ → ℕ → ℕ → RollingMetrics
set_baseline m now io_ops cpu_ticks = record m {
  previous_wall_ts = some now;
  previous_io_ops = some io_ops;
  previous_cpu_ticks = some cpu_ticks;
}

unfoldable pub set_backend_baseline : RollingMetrics → ℕ → ℕ → RollingMetrics
set_backend_baseline m now io_ops = record m {
  previous_wall_ts = some now;
  previous_io_ops = some io_ops;
  previous_cpu_ticks = none;
}

-- The loop of `trim`: old samples leave at the front until one is inside the window.
unfoldable pub drop_before : ℕ → List TickSample → List TickSample
drop_before cutoff [] = []
drop_before cutoff (s ∷ rest) =
    let shorter = drop_before cutoff rest in if ltb s.wall_ts cutoff then shorter else s ∷ rest

unfoldable pub trim : RollingMetrics → ℕ → RollingMetrics
trim m now = elim (checked_sub now max_window) [
  | none ↦ m
  | some cutoff ↦ record m { samples = drop_before cutoff m.samples }
]

abbrev pub push_back : RollingMetrics → TickSample → RollingMetrics
push_back m s = record m { samples = m.samples ++ s ∷ [] }

-- `elapsed.as_nanos().min(u64::MAX)`.
abbrev pub as_nanos : ℕ → ℕ
as_nanos elapsed = min elapsed u64_max

module _ {F : Type 0} (fl : Float F) where
  -- The end of `push_from_procfs_delta`, after its guards; `ticks` is the kernel's tick rate.
  push_procfs : F → RollingMetrics → ℕ → ℕ → ℕ → ℕ → ℕ → ℕ → RollingMetrics
  push_procfs ticks m now io cpu elapsed previous_io previous_cpu =
      let cpu_ns =
        fl.as_u64 (fl.div (fl.mul (fl.of_nat (cpu - previous_cpu)) (fl.of_nat 1000000000)) ticks) in
      let pushed = push_back m (record {
        wall_ts = now;
        io_ops_delta = io - previous_io;
        cpu_ns_delta = cpu_ns;
        wall_dt_ns = as_nanos elapsed;
      }) in
      trim (set_baseline pushed now io cpu) now

  unfoldable pub push_from_procfs_delta : F → RollingMetrics → ℕ → ℕ → ℕ → RollingMetrics
  unfolding push_procfs
  push_from_procfs_delta ticks m now io cpu = elim m.previous_wall_ts [
    | none ↦ set_baseline m now io cpu
    | some previous_wall_ts ↦ elim m.previous_io_ops [
      | none ↦ set_baseline m now io cpu
      | some previous_io ↦ elim m.previous_cpu_ticks [
        | none ↦ set_baseline m now io cpu
        | some previous_cpu ↦ elim (checked_sub now previous_wall_ts) [
          | none ↦ set_baseline m now io cpu
          | some elapsed ↦
              if ltb io previous_io || ltb cpu previous_cpu
              then set_baseline m now io cpu
              else push_procfs ticks m now io cpu elapsed previous_io previous_cpu
        ]
      ]
    ]
  ]

  -- `push_from_backend_util`, after its guards.
  push_util : RollingMetrics → ℕ → ℕ → F → ℕ → ℕ → ℕ → RollingMetrics
  push_util m now io per_thread_util thread_count elapsed previous_io =
      let wall_dt_ns = as_nanos elapsed in
      let busy =
        fl.mul (fl.mul (fl.of_nat wall_dt_ns) (clamp fl per_thread_util (zero_f fl) (one_f fl)))
          (fl.of_nat thread_count) in
      let limit = fl.of_nat u64_max in
      let pushed = push_back m (record {
        wall_ts = now;
        io_ops_delta = io - previous_io;
        cpu_ns_delta = fl.as_u64 (if fl.lt busy limit then busy else limit);
        wall_dt_ns = wall_dt_ns;
      }) in
      trim (set_backend_baseline pushed now io) now

  unfoldable pub push_from_backend_util : RollingMetrics → ℕ → ℕ → F → ℕ → RollingMetrics
  unfolding push_util
  push_from_backend_util m now io per_thread_util thread_count = elim m.previous_wall_ts [
    | none ↦ set_backend_baseline m now io
    | some previous_wall_ts ↦ elim m.previous_io_ops [
      | none ↦ set_backend_baseline m now io
      | some previous_io ↦ elim (checked_sub now previous_wall_ts) [
        | none ↦ set_backend_baseline m now io
        | some elapsed ↦
            if ltb io previous_io
            then set_backend_baseline m now io
            else push_util m now io per_thread_util thread_count elapsed previous_io
      ]
    ]
  ]

unfoldable pub push_delta : RollingMetrics → ℕ → ℕ → ℕ → RollingMetrics
push_delta m now io_ops_delta cpu_ns_delta = elim m.previous_wall_ts [
  | none ↦ record m { previous_wall_ts = some now }
  | some previous_wall_ts ↦ elim (checked_sub now previous_wall_ts) [
    | none ↦ record m { previous_wall_ts = some now }
    | some elapsed ↦
        let pushed = push_back m (record {
          wall_ts = now;
          io_ops_delta = io_ops_delta;
          cpu_ns_delta = cpu_ns_delta;
          wall_dt_ns = as_nanos elapsed;
        }) in
        trim (record pushed { previous_wall_ts = some now }) now
  ]
]

-- `samples.back()`.
unfoldable pub newest : List TickSample → Option TickSample
newest [] = none
newest (s ∷ []) = some s
newest (s ∷ t ∷ rest) = newest (t ∷ rest)

unfoldable pub last_delta : RollingMetrics → Option (ℕ × ℕ)
last_delta m = elim (newest m.samples) [
  | none ↦ none
  | some s ↦ some (s.io_ops_delta, s.cpu_ns_delta)
]

-- I/O operations, CPU nanoseconds and wall-clock nanoseconds.
pub record Totals : Type 0 where
  pub io_ops : ℕ
  pub cpu_ns : ℕ
  pub wall_ns : ℕ

-- The body of the loop of `totals`.
unfoldable pub sum_samples : Totals → List TickSample → Totals
sum_samples t [] = t
sum_samples t (s ∷ rest) =
    sum_samples
      (record {
        io_ops = sat_add64 t.io_ops s.io_ops_delta;
        cpu_ns = sat_add64 t.cpu_ns s.cpu_ns_delta;
        wall_ns = sat_add64 t.wall_ns s.wall_dt_ns;
      })
      rest

-- `cutoff.is_none_or(|cutoff| sample.wall_ts >= cutoff)`.
abbrev pub is_inside : Option ℕ → TickSample → Bool
is_inside none s = true
is_inside (some cutoff) s = leb cutoff s.wall_ts

unfoldable pub totals : RollingMetrics → ℕ → Option Totals
totals m window = elim (newest m.samples) [
  | none ↦ none
  | some last ↦ some (
      sum_samples (record { io_ops = 0; cpu_ns = 0; wall_ns = 0 })
        (keep (is_inside (checked_sub last.wall_ts window)) m.samples))
]

unfoldable pub iops_over : RollingMetrics → ℕ → Option ℕ
iops_over m window = elim (totals m window) [
  | none ↦ none
  | some t ↦
      if ltb 0 t.wall_ns then some (min (t.io_ops * 1000000000 / t.wall_ns) u64_max) else none
]

unfoldable pub cpu_us_per_io_over : RollingMetrics → ℕ → Option ℕ
cpu_us_per_io_over m window = elim (totals m window) [
  | none ↦ none
  | some t ↦ if ltb 0 t.io_ops then some (t.cpu_ns / t.io_ops / 1000) else none
]
