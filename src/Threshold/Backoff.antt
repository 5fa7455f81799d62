-- ===== src/Threshold/Backoff.antt =====
-- What the doubling backoff of src/engines/threshold.rs gives the two holds.
use native.Mathlib.Nat.{pow-suc}
use native.Mathlib.Numerals.{towards_suc}
use native.Mathlib.Decide.{dec_le}
use io_thread_controller.Base.{
  ℕ, zero, suc, ◌+◌, ◌-◌, ◌*◌, ◌^◌, ◌≤◌, min, max, ◌≡◌, arith, ◌==◌, if◌then◌else◌,
}
use io_thread_controller.Base.Words.{u32_max, sat_add}
use io_thread_controller.Threshold.Settings.{ThresholdPolls, backoff_polls}
use io_thread_controller.Threshold.Target.{post_revert_up_grace_polls, scale_down_sustain_polls}

pow_two_pos : (n : ℕ) → 1 ≤ 2 ^ n
pow_two_pos zero = omega arith
pow_two_pos (suc n) = omega (arith, pow-suc 2 n, pow_two_pos n)

-- The doubled base over exact numbers, with no word size.
abbrev pub exact_backoff : ℕ → ℕ → ℕ → ℕ
exact_backoff base doublings cap =
    if cap == 0 then base else min (base * 2 ^ doublings) (max cap base)

min_le : (a b : ℕ) → min a b ≤ b
min_le a b = omega arith

le_mul : (b x : ℕ) → 1 ≤ b → x ≤ b * x
le_mul b x h = grind arith

le_mul_right : (b x : ℕ) → 1 ≤ x → b ≤ b * x
le_mul_right b x h = grind arith

pow_two_add_one : (n : ℕ) → 2 ^ (n + 1) ≡ 2 * 2 ^ n
pow_two_add_one n = simp towards_suc (omega (arith, pow-suc 2 n))

-- A factor that has saturated at `m` shows no more under a limit of at most `m`.
min_saturated : (b x m c : ℕ) → c ≤ m → min (min (b * min x m) m) c ≡ min (b * x) c
min_saturated zero x m c h = omega arith
min_saturated (suc b) x m c h = elim (dec_le x m) [
  | yes p ↦ let e : min x m ≡ x = omega arith in rw e (omega arith)
  | no p ↦
      let e : min x m ≡ m = omega arith in
      rw e (omega (arith, le_mul (suc b) m (omega arith), le_mul (suc b) x (omega arith)))
]

-- Saturation of the u32 arithmetic never shows in `backoff_polls`: for settings that fit a u32 it is
-- the base doubled as often as asked, capped at the larger of the cap and the base, and the base
-- itself where the cap is zero.
pub backoff_polls-eq-exact :
    (base doublings cap : ℕ)
    → base ≤ u32_max
    → cap ≤ u32_max
    → backoff_polls base doublings cap ≡ exact_backoff base doublings cap
unfolding backoff_polls
backoff_polls-eq-exact base n cap hb hc =
    ground (arith, min_saturated base (2 ^ n) u32_max (max cap base))

exact_backoff_ge : (base n cap : ℕ) → base ≤ exact_backoff base n cap
exact_backoff_ge base n cap = ground (arith, le_mul_right base (2 ^ n) (pow_two_pos n))

min_double : (b p c : ℕ) → min (b * (2 * p)) c ≡ min (2 * min (b * p) c) c
min_double b p c = omega arith

-- Each further failed scale-down doubles the low-utilisation polls that the next scale-down needs,
-- up to the cap (or the setting, where that is larger), and never below the setting; a zero cap
-- leaves the setting as it is.
pub scale_down_sustain_polls-doubles :
    (polls : ThresholdPolls) (failures : ℕ)
    → polls.scale_down_sustain ≤ u32_max
    → polls.scale_down_backoff_max ≤ u32_max
    → (polls.scale_down_sustain ≤ scale_down_sustain_polls polls failures)
      × (scale_down_sustain_polls polls (failures + 1) ≡ (
          if polls.scale_down_backoff_max == 0
          then polls.scale_down_sustain
          else min
              (2 * scale_down_sustain_polls polls failures)
              (max polls.scale_down_backoff_max polls.scale_down_sustain)))
unfolding scale_down_sustain_polls
scale_down_sustain_polls-doubles polls n hb hc =
    let base = polls.scale_down_sustain in
    let cap = polls.scale_down_backoff_max in
    rw (backoff_polls-eq-exact base n cap hb hc, backoff_polls-eq-exact base (n + 1) cap hb hc)
      (
        exact_backoff_ge base n cap,
        ground (arith, pow_two_add_one n, min_double base (2 ^ n) (max cap base)),
      )

-- The hold after the k-th consecutive failed scale-up lasts the configured grace and recovery,
-- doubled k - 1 times and capped; the recovery keeps its length, so all the growth is grace.
pub post_revert_up_grace_polls-extends :
    (polls : ThresholdPolls) (failures : ℕ)
    → polls.post_revert_up_grace + polls.post_revert_up_recovery ≤ u32_max
    → polls.post_revert_up_backoff_max ≤ u32_max
    → (post_revert_up_grace_polls polls failures + polls.post_revert_up_recovery
        ≡ exact_backoff
            (polls.post_revert_up_grace + polls.post_revert_up_recovery)
            (failures - 1)
            polls.post_revert_up_backoff_max)
      × (polls.post_revert_up_grace ≤ post_revert_up_grace_polls polls failures)
unfolding post_revert_up_grace_polls
post_revert_up_grace_polls-extends polls n h hc =
    let base = polls.post_revert_up_grace + polls.post_revert_up_recovery in
    let cap = polls.post_revert_up_backoff_max in
    let e : sat_add polls.post_revert_up_grace polls.post_revert_up_recovery ≡ base = omega arith in
    rw (e, backoff_polls-eq-exact base (n - 1) cap h hc)
      (
        omega (arith, exact_backoff_ge base (n - 1) cap),
        omega (arith, exact_backoff_ge base (n - 1) cap),
      )
