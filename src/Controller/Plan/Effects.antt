-- ===== src/Controller/Plan/Effects.antt =====
-- src/controller.rs: what the actuation of a tick does to the backend's pools.
use io_thread_controller.Base.{
  ℕ, ◌+◌, ◌≤◌, ◌<◌, Bool, false, ◌≡◌, refl, sym, ◌∙◌, ap, Option, none, some, List, String, arith,
  ltb, leb, ◌&&◌, ◌⊎◌, inl, inr,
}
use io_thread_controller.Base.Table.{lookup, same_id_iff, lookup-insert}
use io_thread_controller.Float.{Float}
use io_thread_controller.Engines.{InstanceDecision}
use io_thread_controller.Config.{Config}
use io_thread_controller.Instance.{InstanceStatus, World, is_scaling_allowed}
use io_thread_controller.Fleet.{ScalingEngine}
use io_thread_controller.Controller.{Controller}
use io_thread_controller.Controller.Actuation.Safety.{Steps, IsPermitted, with_pool}
use io_thread_controller.Controller.Plan.{act_on}
use io_thread_controller.Controller.Plan.Limits.{tally, apply_plan_keeps}

-- The same VMs under the same limits: only pool sizes and cooldowns may differ.
record SameLimits {F E : Type 0} (c0 c : Controller F E) : Type 0 where
  pub same_cfg : c.cfg ≡ c0.cfg
  pub known :
      (id : String) (status : InstanceStatus F)
      → lookup id c.instances ≡ some status
      → (old : InstanceStatus F) × (lookup id c0.instances ≡ some old)
        × (old.manual_scaling_sticky ≡ status.manual_scaling_sticky)
        × (old.ownership_classification ≡ status.ownership_classification)
        × (old.vcpu_count ≡ status.vcpu_count)

SameLimits-refl : {F E : Type 0} (c : Controller F E) → SameLimits c c
SameLimits-refl c = record {
  same_cfg = refl;
  known = λ id status found. (status, found, refl, refl, refl);
}

pub lookup-with_pool :
    {F E : Type 0} (c : Controller F E) (id j : String) (status other : InstanceStatus F) (t : ℕ)
    (until : Option ℕ)
    → lookup j (with_pool c id status t until).instances ≡ some other
    → ((id ≡ j) × (record status { thread_count = t; cooldown_until = until } ≡ other))
      ⊎ (lookup j c.instances ≡ some other)
lookup-with_pool c id j status other t until found = ground (
  arith,
  found,
  lookup-insert id j (record status { thread_count = t; cooldown_until = until }) c.instances,
  same_id_iff id j,
)

SameLimits-with_pool :
    {F E : Type 0} (c0 c : Controller F E) (id : String) (status : InstanceStatus F) (t : ℕ)
    (until : Option ℕ)
    → lookup id c.instances ≡ some status
    → SameLimits c0 c
    → SameLimits c0 (with_pool c id status t until)
SameLimits-with_pool c0 c id status t until found same = record {
  same_cfg = same.same_cfg;
  known = λ j other held. elim (lookup-with_pool c id j status other t until held) [
    | inr kept ↦ same.known j other kept
    | inl (at, now) ↦
        let (old, was, sticky, managed, vcpus) = same.known id status found in
        (
          old,
          sym (ap (λ k. lookup k c0.instances) at) ∙ was,
          sticky ∙ ap (λ s. s.manual_scaling_sticky) now,
          managed ∙ ap (λ s. s.ownership_classification) now,
          vcpus ∙ ap (λ s. s.vcpu_count) now,
        )
  ];
}

-- What the limits of `c` permit, the same limits of `c0` permit.
IsPermitted-SameLimits :
    {F : Type 0} (cfg cfg' : Config F) (old status : InstanceStatus F) (t : ℕ)
    → cfg ≡ cfg'
    → old.manual_scaling_sticky ≡ status.manual_scaling_sticky
    → old.ownership_classification ≡ status.ownership_classification
    → old.vcpu_count ≡ status.vcpu_count
    → IsPermitted cfg status t
    → IsPermitted cfg' old t
unfolding is_scaling_allowed
IsPermitted-SameLimits cfg cfg' old status t same sticky managed vcpus permitted = record {
  automatic = sticky ∙ permitted.automatic;
  managed =
      ap (λ o. elim o as (λ _. Bool) [ none ↦ false | some m ↦ m ]) managed ∙ permitted.managed;
  above_min = grind (arith, permitted.above_min, ap (λ g. g.min_thread_count) same);
  below_max = grind (arith, permitted.below_max, ap (λ g. g.max_thread_count) same);
  within_vcpus = grind (arith, permitted.within_vcpus, vcpus);
}

module _ {F E W : Type 0} (fl : Float F) (eng : ScalingEngine F E) (world : World W)
    (P : W → Type 0) (c0 : Controller F E) (now_keeps : (w : W) → P w → P (world.now w).1)
    (call_keeps : (id : String) (status : InstanceStatus F) (t : ℕ) (w : W)
      → lookup id c0.instances ≡ some status
      → IsPermitted c0.cfg status t
      → c0.cfg.dry_run ≡ false
      → P w
      → P (world.set_thread_count id t w).1) where
  call_keeps_later :
      (c : Controller F E) (id : String) (status : InstanceStatus F) (t : ℕ) (w : W)
      → lookup id c.instances ≡ some status
      → IsPermitted c.cfg status t
      → c.cfg.dry_run ≡ false
      → SameLimits c0 c × P w
      → P (world.set_thread_count id t w).1
  call_keeps_later c id status t w found permitted live (same, p) =
      let (old, was, sticky, managed, vcpus) = same.known id status found in
      call_keeps id old t w was
        (IsPermitted-SameLimits c.cfg c0.cfg old status t same.same_cfg sticky managed vcpus
          permitted)
        (sym (ap (λ g. g.dry_run) same.same_cfg) ∙ live) p

  safe_steps : Steps world (λ _ c w. SameLimits c0 c × P w)
  safe_steps = record {
    read_clock = λ b c w (same, p). (same, now_keeps w p);
    tell_engine = λ b c e w (same, p). (record { same_cfg = same.same_cfg; known = same.known }, p);
    cool_dry = λ c id status until w found (same, p).
        (SameLimits-with_pool c0 c id status status.thread_count until found same, p);
    call_failed = λ c id status t error w found permitted live e (same, p).
        (same, call_keeps_later c id status t w found permitted live (same, p));
    call_accepted = λ c id status t until w found permitted live e (same, p). (
      SameLimits-with_pool c0 c id status t until found same,
      call_keeps_later c id status t w found permitted live (same, p),
    );
  }

  -- Whatever the engine decides, a tick's actuation asks the backend for nothing that its limits
  -- forbid: every property of the outside world that survives a reading of the clock, and a call for
  -- a permitted pool of a VM tracked when the actuation starts, made outside a dry run, survives
  -- the actuation. A pool is permitted if the VM is managed and not under a manual override, and the
  -- size is within the configured bounds and the guest's vCPUs.
  pub act_on-safe :
      (decisions : List InstanceDecision) (w : W) → P w → P (act_on fl eng world c0 decisions w).2
  unfolding act_on
  act_on-safe decisions w p =
      (apply_plan_keeps fl eng world c0.cfg.max_instances_adjusted_per_poll
        (λ _ c w. SameLimits c0 c × P w) (λ _ _. safe_steps) _ (0, c0, w) (SameLimits-refl c0, p)).1

le_cap : (after start n cap : ℕ) → (after ≤ start + n) × (n ≤ cap) → after ≤ start + cap
le_cap after start n cap (le, within) = omega arith

module _ {F E W : Type 0} (fl : Float F) (eng : ScalingEngine F E) (world : World W)
    (resized : W → ℕ) (now_counts : (w : W) → resized (world.now w).1 ≡ resized w)
    (failed_counts : (id : String) (t : ℕ) (error : String) (w : W)
      → (world.set_thread_count id t w).0 ≡ some error
      → resized (world.set_thread_count id t w).1 ≡ resized w)
    (accepted_counts : (id : String) (t : ℕ) (w : W)
      → (world.set_thread_count id t w).0 ≡ none
      → resized (world.set_thread_count id t w).1 ≤ resized w + 1) where
  cap_steps :
      (cap start n : ℕ)
      → 0 < cap
      → (ltb 0 cap && leb cap n) ≡ false
      → Steps {F = F} {E = E} world
          (λ applied c w. (resized w ≤ start + tally applied n) × (tally applied n ≤ cap))
  cap_steps cap start n limited below = record {
    read_clock = λ b c w (le, within). (grind (arith, now_counts w, le), within);
    tell_engine = λ b c e w h. h;
    cool_dry = λ c id status until w found (le, within). (omega arith, ground (arith, below));
    call_failed = λ c id status t error w found permitted live e (le, within).
        (grind (arith, failed_counts id t error w e, le), within);
    call_accepted = λ c id status t until w found permitted live e (le, within).
        (grind (arith, accepted_counts id t w e, le), ground (arith, below));
  }

  -- If the configured maximum of adjustments per poll is not 0, a tick's actuation resizes at most
  -- that many pools, where `resized` counts the calls that the backend accepted.
  pub act_on-cap :
      (c : Controller F E) (decisions : List InstanceDecision) (w : W)
      → 0 < c.cfg.max_instances_adjusted_per_poll
      → resized (act_on fl eng world c decisions w).2
        ≤ resized w + c.cfg.max_instances_adjusted_per_poll
  unfolding act_on
  act_on-cap c decisions w limited =
      let cap = c.cfg.max_instances_adjusted_per_poll in
      le_cap _ (resized w) _ cap (
        apply_plan_keeps fl eng world cap (λ n _ w'. (resized w' ≤ resized w + n) × (n ≤ cap))
          (λ n. cap_steps cap (resized w) n limited) _ (0, c, w) (omega arith, omega arith))
