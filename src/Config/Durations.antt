-- ===== src/Config/Durations.antt =====
-- What a conversion to polls in src/config.rs gives, and what `finish` then vouches for.
use mathlib.Core.Path.{subst}
use io_thread_controller.Base.{
  ℕ, suc, ◌+◌, ◌*◌, ◌/◌, ◌%◌, ◌≤◌, ◌<◌, ◌≡◌, ◌≢◌, ◌⊎◌, ◌∙◌, true, false, List, [], ◌∷◌, ◌++◌,
  String, arith,
}
use io_thread_controller.Base.Division.{div_parts, mul_mono, add_one_mul}
use io_thread_controller.Base.Words.{u32_max, u64_max, sat_add64}
use io_thread_controller.Config.{
  not_multiple, too_many_polls, PollConverter, add_error, polls, finish, ok,
}

-- For a positive period, and a duration that is not within one period of the largest u64, a
-- conversion either succeeds or records exactly one error. If it succeeds, the setting in place is
-- the poll count times the period, it is the smallest such multiple that is not below the duration,
-- the count fits a u32, and a setting changes only where rounding up is on. If it fails, the
-- count is 0, and either the duration is no multiple and rounding is off, or the count would not
-- fit.
pub polls_cases :
    (c : PollConverter) (name : String) (duration : ℕ)
    → 0 < c.poll.secs
    → duration + c.poll.secs ≤ u64_max
    → let r = polls c name duration in
      ((r.converter ≡ c)
        × (r.secs ≡ r.count * c.poll.secs)
        × (duration ≤ r.secs)
        × (r.secs < duration + c.poll.secs)
        × (r.count ≤ u32_max)
        × ((r.secs ≡ duration) ⊎ (c.poll.round_up ≡ true)))
      ⊎ ((r.count ≡ 0)
          × ((r.converter
                  ≡ add_error c (
                      not_multiple name duration c.poll.secs
                        (duration / c.poll.secs * c.poll.secs)
                        (duration / c.poll.secs * c.poll.secs + c.poll.secs)))
                × (c.poll.round_up ≡ false)
                × (duration % c.poll.secs ≢ 0)
              ⊎ (r.converter ≡ add_error c (too_many_polls name r.secs))
                × (u32_max * c.poll.secs < duration)))
unfolding polls
polls_cases c name duration hp hd = ground (
  arith,
  div_parts duration c.poll.secs hp,
  add_one_mul (duration / c.poll.secs) c.poll.secs,
  mul_mono (suc u32_max) (duration / c.poll.secs) c.poll.secs,
  mul_mono u32_max (duration / c.poll.secs) c.poll.secs,
)

-- A setting that stands for a number of polls of `period` seconds, near what was configured.
pub record IsExact (period configured effective count : ℕ) : Type 0 where
  pub product : effective ≡ count * period
  pub not_below : configured ≤ effective
  pub nearest : effective < configured + period
  pub fits : count ≤ u32_max

append-ne-nil {ℓ} : {A : Type ℓ} (xs : List A) (x : A) → xs ++ x ∷ [] ≢ []
append-ne-nil [] x h = cc
append-ne-nil (y ∷ xs) x h = cc

-- A conversion that leaves no error behind was exact, and found none.
pub polls-IsExact :
    (c : PollConverter) (name : String) (duration : ℕ)
    → 0 < c.poll.secs
    → duration + c.poll.secs ≤ u64_max
    → (polls c name duration).converter.errors ≡ []
    → ((polls c name duration).converter ≡ c)
      × IsExact c.poll.secs duration (polls c name duration).secs (polls c name duration).count
polls-IsExact c name duration hp hd h = ground (
  arith,
  polls_cases c name duration hp hd,
  append-ne-nil c.errors (too_many_polls name (polls c name duration).secs),
  append-ne-nil c.errors (
      not_multiple name duration c.poll.secs (duration / c.poll.secs * c.poll.secs)
        (duration / c.poll.secs * c.poll.secs + c.poll.secs)),
)

pub finish-ok : (c : PollConverter) → finish c ≡ ok tt → c.errors ≡ []
unfolding finish
finish-ok c h = ground arith

-- The same two steps for a converter that earlier conversions have handed on.
pub polls-errors_nil :
    (c : PollConverter) (name : String) (duration : ℕ)
    → (polls c name duration).converter.errors ≡ []
    → c.errors ≡ []
unfolding polls
polls-errors_nil c name duration h = ground (
  arith,
  append-ne-nil c.errors (too_many_polls name duration),
  append-ne-nil c.errors
      (too_many_polls name (sat_add64 (duration / c.poll.secs * c.poll.secs) c.poll.secs)),
  append-ne-nil c.errors (
      not_multiple name duration c.poll.secs (duration / c.poll.secs * c.poll.secs)
        (sat_add64 (duration / c.poll.secs * c.poll.secs) c.poll.secs)),
)

pub polls-IsExact_next :
    (c c0 : PollConverter) (name : String) (duration : ℕ)
    → c ≡ c0
    → 0 < c0.poll.secs
    → duration + c0.poll.secs ≤ u64_max
    → (polls c name duration).converter.errors ≡ []
    → ((polls c name duration).converter ≡ c0)
      × IsExact c0.poll.secs duration (polls c name duration).secs (polls c name duration).count
polls-IsExact_next c c0 name duration e hp hd h =
    let same = polls-IsExact c name duration (rw e hp) (rw e hd) h in
    (
      same.0 ∙ e,
      subst
          (λ k.
            IsExact k.poll.secs duration (polls c name duration).secs (polls c name duration).count)
          e same.1,
    )
