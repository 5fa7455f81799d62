-- ===== src/Rolling/Window.antt =====
-- src/rolling.rs: the history stays in order and within its window.
use io_thread_controller.Base.{
  ℕ, ◌-◌, ◌≤◌, ◌≡◌, refl, none, some, List, [], ◌∷◌, ◌++◌, arith, ltb, if_keeps, elim_keeps, ◌||◌,
}
use io_thread_controller.Float.{Float}
use io_thread_controller.Rolling.{
  max_window, TickSample, RollingMetrics, checked_sub, set_baseline, set_backend_baseline,
  drop_before, trim, push_procfs, push_from_procfs_delta, push_util, push_from_backend_util,
  push_delta,
}

-- Samples in the order of their times, from `lo` to `hi`.
unfoldable pub IsBetween : ℕ → ℕ → List TickSample → Type 0
IsBetween lo hi [] = Unit
IsBetween lo hi (s ∷ rest) = (lo ≤ s.wall_ts) × (s.wall_ts ≤ hi) × IsBetween s.wall_ts hi rest

-- The history at the last time recorded: its samples are in order, the newest not later than that,
-- and none is more than 15 minutes older than the newest.
unfoldable pub IsWindow : ℕ → RollingMetrics → Type 0
IsWindow at m =
    (m.previous_wall_ts ≡ some at)
    × ((newest : ℕ) × (newest ≤ at) × IsBetween (newest - max_window) newest m.samples)

IsBetween-append :
    (lo hi now : ℕ) (samples : List TickSample) (s : TickSample)
    → s.wall_ts ≡ now
    → hi ≤ now
    → lo ≤ now
    → IsBetween lo hi samples
    → IsBetween lo now (samples ++ s ∷ [])
unfolding IsBetween
IsBetween-append lo hi now [] s at hi_le lo_le between = (omega (arith, at), omega (arith, at), tt)
IsBetween-append lo hi now (x ∷ rest) s at hi_le lo_le (from, to, later) =
    (from, omega arith, IsBetween-append x.wall_ts hi now rest s at hi_le (omega arith) later)

IsBetween-weaken :
    (lo lo' hi : ℕ) (samples : List TickSample)
    → lo' ≤ lo
    → IsBetween lo hi samples
    → IsBetween lo' hi samples
unfolding IsBetween
IsBetween-weaken lo lo' hi [] le between = tt
IsBetween-weaken lo lo' hi (x ∷ rest) le (from, to, later) = (omega arith, to, later)

drop_before-IsBetween :
    (lo hi cutoff : ℕ) (samples : List TickSample)
    → IsBetween lo hi samples
    → IsBetween cutoff hi (drop_before cutoff samples)
unfolding IsBetween drop_before
drop_before-IsBetween lo hi cutoff [] between = tt
drop_before-IsBetween lo hi cutoff (x ∷ rest) (from, to, later) =
    if_keeps (IsBetween cutoff hi) (ltb x.wall_ts cutoff) _ _
      (λ _. drop_before-IsBetween x.wall_ts hi cutoff rest later)
      (λ fresh. (ground (arith, fresh), to, later))

checked_sub-none : (now : ℕ) → checked_sub now max_window ≡ none → now - max_window ≡ 0
checked_sub-none now e = ground (arith, e)

checked_sub-some :
    (now cutoff : ℕ) → checked_sub now max_window ≡ some cutoff → cutoff ≡ now - max_window
checked_sub-some now cutoff e = ground (arith, e)

trim-IsWindow :
    (lo now : ℕ) (m : RollingMetrics)
    → m.previous_wall_ts ≡ some now
    → IsBetween lo now m.samples
    → IsWindow now (trim m now)
unfolding IsWindow trim
trim-IsWindow lo now m last between =
    elim_keeps (IsWindow now) (checked_sub now max_window) _ _
      (λ e. (
        last,
        (
          now,
          omega arith,
          IsBetween-weaken lo (now - max_window) now m.samples
              (omega (arith, checked_sub-none now e)) between,
        ),
      ))
      (λ cutoff e. (
        last,
        (
          now,
          omega arith,
          IsBetween-weaken cutoff (now - max_window) now _
              (omega (arith, checked_sub-some now cutoff e))
              (drop_before-IsBetween lo now cutoff m.samples between),
        ),
      ))

-- A sample at the new time, then the trim.
grown-IsWindow :
    (at : ℕ) (m pushed : RollingMetrics) (s : TickSample)
    → pushed.previous_wall_ts ≡ some s.wall_ts
    → pushed.samples ≡ m.samples ++ s ∷ []
    → at ≤ s.wall_ts
    → IsWindow at m
    → IsWindow s.wall_ts (trim pushed s.wall_ts)
unfolding IsWindow
grown-IsWindow at m pushed s stamped grown le (last, (newest, old, between)) =
    trim-IsWindow (newest - max_window) s.wall_ts pushed stamped (
      rw grown (
        IsBetween-append (newest - max_window) newest s.wall_ts m.samples s refl (omega arith)
          (omega arith) between))

-- A new baseline without a sample, when a counter went back: the samples stay.
rebased-IsWindow :
    (at now : ℕ) (m rebased : RollingMetrics)
    → rebased.previous_wall_ts ≡ some now
    → rebased.samples ≡ m.samples
    → at ≤ now
    → IsWindow at m
    → IsWindow now rebased
unfolding IsWindow
rebased-IsWindow at now m rebased stamped same le (last, (newest, old, between)) =
    (stamped, (newest, omega arith, rw same between))

module _ {F : Type 0} (fl : Float F) where
  push_from_procfs_delta-IsWindow :
      (ticks : F) (at now io cpu : ℕ) (m : RollingMetrics)
      → at ≤ now
      → IsWindow at m
      → IsWindow now (push_from_procfs_delta fl ticks m now io cpu)
  unfolding push_from_procfs_delta push_procfs set_baseline
  push_from_procfs_delta-IsWindow ticks at now io cpu m le w =
      elim_keeps (IsWindow now) m.previous_wall_ts _ _ (λ _. rebased)
        (λ before _.
          elim_keeps (IsWindow now) m.previous_io_ops _ _ (λ _. rebased)
            (λ previous_io _.
              elim_keeps (IsWindow now) m.previous_cpu_ticks _ _ (λ _. rebased)
                (λ previous_cpu _.
                  elim_keeps (IsWindow now) (checked_sub now before) _ _ (λ _. rebased)
                    (λ elapsed _.
                      if_keeps (IsWindow now) (ltb io previous_io || ltb cpu previous_cpu) _ _
                        (λ _. rebased) (λ _. grown-IsWindow at m _ _ refl refl le w)))))
    where
      rebased : IsWindow now (set_baseline m now io cpu)
      rebased = rebased-IsWindow at now m _ refl refl le w

  push_from_backend_util-IsWindow :
      (at now io : ℕ) (util : F) (threads : ℕ) (m : RollingMetrics)
      → at ≤ now
      → IsWindow at m
      → IsWindow now (push_from_backend_util fl m now io util threads)
  unfolding push_from_backend_util push_util set_backend_baseline
  push_from_backend_util-IsWindow at now io util threads m le w =
      elim_keeps (IsWindow now) m.previous_wall_ts _ _ (λ _. rebased)
        (λ before _.
          elim_keeps (IsWindow now) m.previous_io_ops _ _ (λ _. rebased)
            (λ previous_io _.
              elim_keeps (IsWindow now) (checked_sub now before) _ _ (λ _. rebased)
                (λ elapsed _.
                  if_keeps (IsWindow now) (ltb io previous_io) _ _ (λ _. rebased)
                    (λ _. grown-IsWindow at m _ _ refl refl le w))))
    where
      rebased : IsWindow now (set_backend_baseline m now io)
      rebased = rebased-IsWindow at now m _ refl refl le w

  push_delta-IsWindow :
      (at now io cpu_ns : ℕ) (m : RollingMetrics)
      → at ≤ now
      → IsWindow at m
      → IsWindow now (push_delta m now io cpu_ns)
  unfolding push_delta
  push_delta-IsWindow at now io cpu_ns m le w =
      elim_keeps (IsWindow now) m.previous_wall_ts _ _
        (λ _. rebased-IsWindow at now m _ refl refl le w)
        (λ before _.
          elim_keeps (IsWindow now) (checked_sub now before) _ _
            (λ _. rebased-IsWindow at now m _ refl refl le w)
            (λ elapsed _. grown-IsWindow at m _ _ refl refl le w))

  -- On a clock that does not go back, every push keeps the history in order and within 15 minutes of its
  -- newest sample: a push of process counters, of a backend's utilisation, and of a ready delta,
  -- whether it adds a sample or only sets a new baseline.
  pub pushes-IsWindow :
      (ticks util : F) (at now io cpu threads : ℕ) (m : RollingMetrics)
      → at ≤ now
      → IsWindow at m
      → IsWindow now (push_from_procfs_delta fl ticks m now io cpu)
        × IsWindow now (push_from_backend_util fl m now io util threads)
        × IsWindow now (push_delta m now io cpu)
  pushes-IsWindow ticks util at now io cpu threads m le w = (
    push_from_procfs_delta-IsWindow ticks at now io cpu m le w,
    push_from_backend_util-IsWindow at now io util threads m le w,
    push_delta-IsWindow at now io cpu m le w,
  )
