-- ===== src/Controller/Actuation/Safety.antt =====
-- src/controller.rs: `apply_engine_decision` asks the backend only for permitted pools.
use io_thread_controller.Base.{
  ℕ, ◌≤◌, Bool, true, false, ◌≡◌, refl, Option, none, some, String, arith, if_keeps, elim_keeps,
}
use io_thread_controller.Base.Table.{lookup, insert}
use io_thread_controller.Float.{Float}
use io_thread_controller.Engines.{ScaleAction, target, is_up_or_down, is_scaling}
use io_thread_controller.Config.{Config}
use io_thread_controller.Instance.{InstanceStatus, World, is_scaling_allowed}
use io_thread_controller.Fleet.{ScalingEngine}
use io_thread_controller.Controller.{Controller}
use io_thread_controller.Controller.Actuation.{
  policy_guard, cooldown_from, is_cooling, is_over_ceiling, report, cool_down, actuate, apply_dry,
  apply_answer, apply_unblocked, apply_target, apply_engine_decision,
}

-- A size that the controller may ask for: the VM is managed and not under a manual override, and the
-- size is within the configured bounds and the guest's vCPUs.
pub record IsPermitted {F : Type 0} (cfg : Config F) (status : InstanceStatus F) (t : ℕ)
    : Type 0 where
  pub automatic : status.manual_scaling_sticky ≡ false
  pub managed : is_scaling_allowed status ≡ true
  pub above_min : cfg.min_thread_count ≤ t
  pub below_max : t ≤ cfg.max_thread_count
  pub within_vcpus : t ≤ status.vcpu_count

policy_guard-IsPermitted :
    {F : Type 0} (cfg : Config F) (status : InstanceStatus F) (t : ℕ)
    → policy_guard cfg status t ≡ none
    → IsPermitted cfg status t
unfolding policy_guard
policy_guard-IsPermitted cfg status t passed = record {
  automatic = ground arith;
  managed = ground arith;
  above_min = ground arith;
  below_max = ground arith;
  within_vcpus = ground arith;
}

-- `c` with another state of the engine, and with another size and cooldown of a VM.
abbrev pub with_engine : {F E : Type 0} → Controller F E → E → Controller F E
with_engine c e = record c { engine = e }

abbrev pub with_pool :
    {F E : Type 0} → Controller F E → String → InstanceStatus F → ℕ → Option ℕ → Controller F E
with_pool c id status t until = record c {
  instances = insert id (record status { thread_count = t; cooldown_until = until }) c.instances;
}

-- `Holds applied` is any property of the controller and the world that the steps of an actuation keep:
-- a reading of the clock, a report to the engine, the cooldown of a dry run, and a permitted call of
-- the backend with what the controller makes of the answer. The Boolean says whether the action has
-- been applied.
pub record Steps {F E W : Type 0} (world : World W) (Holds : Bool → Controller F E → W → Type 0)
    : Type 0 where
  pub read_clock : (b : Bool) (c : Controller F E) (w : W) → Holds b c w → Holds b c (world.now w).1
  pub tell_engine :
      (b : Bool) (c : Controller F E) (e : E) (w : W) → Holds b c w → Holds b (with_engine c e) w
  pub cool_dry :
      (c : Controller F E) (id : String) (status : InstanceStatus F) (until : Option ℕ) (w : W)
      → lookup id c.instances ≡ some status
      → Holds false c w
      → Holds true (with_pool c id status status.thread_count until) w
  pub call_failed :
      (c : Controller F E) (id : String) (status : InstanceStatus F) (t : ℕ) (error : String)
      (w : W)
      → lookup id c.instances ≡ some status
      → IsPermitted c.cfg status t
      → c.cfg.dry_run ≡ false
      → (world.set_thread_count id t w).0 ≡ some error
      → Holds false c w
      → Holds false c (world.set_thread_count id t w).1
  pub call_accepted :
      (c : Controller F E) (id : String) (status : InstanceStatus F) (t : ℕ) (until : Option ℕ)
      (w : W)
      → lookup id c.instances ≡ some status
      → IsPermitted c.cfg status t
      → c.cfg.dry_run ≡ false
      → (world.set_thread_count id t w).0 ≡ none
      → Holds false c w
      → Holds true (with_pool c id status t until) (world.set_thread_count id t w).1

module _ {F E W : Type 0} (fl : Float F) (eng : ScalingEngine F E) (world : World W)
    (Holds : Bool → Controller F E → W → Type 0) (steps : Steps world Holds) where
  is_cooling_keeps :
      (c : Controller F E) (action : ScaleAction) (until : Option ℕ) (w : W)
      → Holds false c w
      → Holds false c (is_cooling fl eng world action until w).1
  unfolding is_cooling
  is_cooling_keeps c action none w h = h
  is_cooling_keeps c action (some until) w h =
      if_keeps (λ (r : Bool × W). Holds false c r.1) (is_up_or_down action) _ _
        (λ _. steps.read_clock false c w h) (λ _. h)

  -- The status that an actuation stores, with its cooldown if the action has one.
  stored_keeps :
      (c : Controller F E) (id : String) (status : InstanceStatus F) (action : ScaleAction)
      (at t : ℕ) (e : E) (w : W)
      → ((until : Option ℕ) → Holds true (with_pool c id status t until) w)
      → let cooled = cool_down fl eng world c action at (record status { thread_count = t }) in
        Holds true (record c { instances = insert id cooled c.instances; engine = e }) w
  stored_keeps c id status action at t e w h =
      if_keeps
        (λ (s : InstanceStatus F).
          Holds true (record c { instances = insert id s c.instances; engine = e }) w)
        (is_scaling action) _ _
        (λ _. steps.tell_engine true _ e w (h (some (cooldown_from c.cfg at))))
        (λ _. steps.tell_engine true _ e w (h status.cooldown_until))

  apply_dry_keeps :
      (c : Controller F E) (id : String) (status : InstanceStatus F) (action : ScaleAction) (w : W)
      → lookup id c.instances ≡ some status
      → Holds false c w
      → let (c', w') = apply_dry fl eng world c id status action w in Holds true c' w'
  unfolding apply_dry
  apply_dry_keeps c id status action w found h =
      stored_keeps c id status action _ status.thread_count _ _ (λ until.
        steps.cool_dry c id status until _ found (
          steps.read_clock false c _ (
            if_keeps (λ (r : ℕ × W). Holds false c r.1) (is_scaling action) (world.now w) (0, w)
              (λ _. steps.read_clock false c w h) (λ _. h))))

  apply_answer_keeps :
      (c : Controller F E) (id : String) (status : InstanceStatus F) (action : ScaleAction) (t : ℕ)
      (answer : Option String × W)
      → ((error : String) → answer.0 ≡ some error → Holds false c answer.1)
      → ((until : Option ℕ) → answer.0 ≡ none → Holds true (with_pool c id status t until) answer.1)
      → let (applied, c', w') = apply_answer fl eng world c id status action t answer in
        Holds applied c' w'
  unfolding apply_answer
  apply_answer_keeps c id status action t (some error, w) on_failed on_accepted =
      steps.tell_engine false c _ w (on_failed error refl)
  apply_answer_keeps c id status action t (none, w) on_failed on_accepted =
      stored_keeps c id status action _ t _ _
        (λ until. steps.read_clock true _ w (on_accepted until refl))

  -- What holds before one decision is applied holds after it, with the new state.
  abbrev pub Kept : Bool × Controller F E × W → Type 0
  Kept r = Holds r.0 r.1 r.2

  actuate_keeps :
      (c : Controller F E) (id : String) (status : InstanceStatus F) (action : ScaleAction) (t : ℕ)
      (w : W)
      → lookup id c.instances ≡ some status
      → IsPermitted c.cfg status t
      → Holds false c w
      → Kept (actuate fl eng world c id status action t w)
  unfolding actuate
  actuate_keeps c id status action t w found permitted h =
      if_keeps Kept c.cfg.dry_run _ _ (λ _. apply_dry_keeps c id status action w found h)
        (λ live.
          apply_answer_keeps c id status action t (world.set_thread_count id t w)
            (λ error e. steps.call_failed c id status t error w found permitted live e h)
            (λ until e. steps.call_accepted c id status t until w found permitted live e h))

  apply_unblocked_keeps :
      (c : Controller F E) (id : String) (status : InstanceStatus F) (action : ScaleAction) (t : ℕ)
      (cooling : Bool × W)
      → lookup id c.instances ≡ some status
      → IsPermitted c.cfg status t
      → Holds false c cooling.1
      → Kept (apply_unblocked fl eng world c id status action t cooling)
  unfolding apply_unblocked report
  apply_unblocked_keeps c id status action t (cooling, w) found permitted h =
      if_keeps Kept cooling _ _ (λ _. steps.tell_engine false c _ w h)
        (λ _.
          if_keeps Kept (is_over_ceiling fl eng world c action status.thread_count t) _ _
            (λ _. steps.tell_engine false c _ w h)
            (λ _. actuate_keeps c id status action t w found permitted h))

  pub apply_engine_decision_keeps :
      (c : Controller F E) (id : String) (action : ScaleAction) (w : W)
      → Holds false c w
      → Kept (apply_engine_decision fl eng world c id action w)
  unfolding apply_engine_decision apply_target report
  apply_engine_decision_keeps c id action w h =
      elim_keeps Kept (target action) _ _ (λ _. h)
        (λ t _.
          elim_keeps Kept (lookup id c.instances) _ _ (λ _. h)
            (λ status found.
              elim_keeps Kept (policy_guard c.cfg status t) _ _
                (λ passed.
                  apply_unblocked_keeps c id status action t _ found
                    (policy_guard-IsPermitted c.cfg status t passed)
                    (is_cooling_keeps c action status.cooldown_until w h))
                (λ reason _. steps.tell_engine false c _ w h)))
