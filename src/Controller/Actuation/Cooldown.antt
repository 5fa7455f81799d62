-- ===== src/Controller/Actuation/Cooldown.antt =====
-- src/controller.rs: the cooldown that `apply_engine_decision` starts and respects.
use io_thread_controller.Base.{
  ℕ, ◌+◌, ◌*◌, ◌<◌, Bool, true, false, ◌≡◌, refl, sym, ap, ◌∙◌, Option, none, some, String, arith,
  if◌then◌else◌, if_keeps, elim_keeps, ◌⊎◌, inl, inr,
}
use io_thread_controller.Base.Table.{lookup, insert, lookup-insert_same}
use io_thread_controller.Float.{Float}
use io_thread_controller.Engines.{
  ScaleAction, up, down, revert, hold, target, is_scaling, is_up_or_down,
}
use io_thread_controller.Instance.{InstanceStatus, World}
use io_thread_controller.Fleet.{ScalingEngine}
use io_thread_controller.Controller.{Controller}
use io_thread_controller.Controller.Actuation.{
  policy_guard, cooldown_from, is_cooling, is_over_ceiling, report, cool_down, apply_dry,
  apply_answer, actuate, apply_unblocked, apply_target, apply_engine_decision,
}

-- The cooldown of a tracked VM.
unfoldable pub cooldown_of : {F E : Type 0} → Controller F E → String → Option ℕ
cooldown_of c id = elim (lookup id c.instances) [ none ↦ none | some s ↦ s.cooldown_until ]

target-is_scaling :
    (action : ScaleAction) (t : ℕ) → target action ≡ some t → is_scaling action ≡ true
unfolding target
target-is_scaling (up t') t h = refl
target-is_scaling (down t') t h = refl
target-is_scaling (revert t') t h = refl
target-is_scaling hold t h = ground (arith, h)

module _ {F E W : Type 0} (world : World W) (c : Controller F E) (id : String) where
  -- The reading of the clock that follows the guards and, outside a dry run, the backend's answer.
  abbrev reading : ℕ → W → ℕ
  reading t guarded =
      (world.now (if c.cfg.dry_run then guarded else (world.set_thread_count id t guarded).1)).0

  -- An applied action has started a cooldown at that reading.
  IsCooled : ℕ → W → Bool × Controller F E × W → Type 0
  IsCooled t guarded r =
      r.0 ≡ true → cooldown_of r.1 id ≡ some (cooldown_from c.cfg (reading t guarded))

module _ {F E W : Type 0} (fl : Float F) (eng : ScalingEngine F E) (world : World W)
    (c : Controller F E) (id : String) (action : ScaleAction)
    (scales : is_scaling action ≡ true) where
  cooldown_of-stored :
      (status : InstanceStatus F) (at : ℕ) (e : E)
      → cooldown_of
          (record c {
            instances = insert id (cool_down fl eng world c action at status) c.instances;
            engine = e;
          })
          id
        ≡ some (cooldown_from c.cfg at)
  unfolding cooldown_of
  cooldown_of-stored status at e =
      ground (
        arith,
        scales,
        lookup-insert_same id (cool_down fl eng world c action at status) c.instances,
      )

  dry_cools :
      (status : InstanceStatus F) (w : W)
      → cooldown_of (apply_dry fl eng world c id status action w).0 id
        ≡ some (cooldown_from c.cfg (world.now w).0)
  unfolding apply_dry
  dry_cools status w =
      cooldown_of-stored status _ _
      ∙ ap (λ scaling. some (cooldown_from c.cfg (if scaling then world.now w else (0, w)).0))
          scales

  answer_cools :
      (status : InstanceStatus F) (t : ℕ) (answer : Option String × W)
      → (apply_answer fl eng world c id status action t answer).0 ≡ true
      → cooldown_of (apply_answer fl eng world c id status action t answer).1 id
        ≡ some (cooldown_from c.cfg (world.now answer.1).0)
  unfolding apply_answer
  answer_cools status t (some error, w) h = ground (arith, h)
  answer_cools status t (none, w) h =
      cooldown_of-stored (record status { thread_count = t }) (world.now w).0 _

  actuate-IsCooled :
      (status : InstanceStatus F) (t : ℕ) (w : W)
      → IsCooled world c id t w (actuate fl eng world c id status action t w)
  unfolding actuate IsCooled
  actuate-IsCooled status t w =
      let at : Bool → Option ℕ = λ dry. some (
        cooldown_from c.cfg (world.now (if dry then w else (world.set_thread_count id t w).1)).0) in
      if_keeps (IsCooled world c id t w) c.cfg.dry_run _ _
        (λ dry _. dry_cools status w ∙ ap at (sym dry))
        (λ live h. answer_cools status t (world.set_thread_count id t w) h ∙ ap at (sym live))

  unblocked-IsCooled :
      (status : InstanceStatus F) (t : ℕ) (cooling : Bool × W)
      → IsCooled world c id t cooling.1 (apply_unblocked fl eng world c id status action t cooling)
  unfolding apply_unblocked IsCooled
  unblocked-IsCooled status t (cooling, w) =
      if_keeps (IsCooled world c id t w) cooling _ _ (λ _ h. ground (arith, h))
        (λ _.
          if_keeps (IsCooled world c id t w)
            (is_over_ceiling fl eng world c action status.thread_count t) _ _
            (λ _ h. ground (arith, h)) (λ _. actuate-IsCooled status t w))

  -- The guards read the clock once at most.
  is_cooling-outside :
      (until : Option ℕ) (w : W)
      → ((is_cooling fl eng world action until w).1 ≡ w)
        ⊎ ((is_cooling fl eng world action until w).1 ≡ (world.now w).1)
  unfolding is_cooling
  is_cooling-outside none w = inl refl
  is_cooling-outside (some until) w =
      if_keeps (λ (r : Bool × W). (r.1 ≡ w) ⊎ (r.1 ≡ (world.now w).1)) (is_up_or_down action) _ _
        (λ _. inr refl) (λ _. inl refl)

module _ {F E W : Type 0} (fl : Float F) (eng : ScalingEngine F E) (world : World W) where
  -- What an applied action on a VM says of its cooldown.
  Cools : Controller F E → String → ScaleAction → W → Bool × Controller F E × W → Type 0
  Cools c id action w r =
      r.0 ≡ true
      → (t : ℕ) × (guarded : W) × (target action ≡ some t)
        × ((guarded ≡ w) ⊎ (guarded ≡ (world.now w).1))
        × (cooldown_of r.1 id ≡ some (cooldown_from c.cfg (reading world c id t guarded)))

  apply_target-Cools :
      (c : Controller F E) (id : String) (status : InstanceStatus F) (action : ScaleAction) (t : ℕ)
      (w : W)
      → target action ≡ some t
      → Cools c id action w (apply_target fl eng world c id status action t w)
  unfolding apply_target Cools IsCooled
  apply_target-Cools c id status action t w aims =
      let scales = target-is_scaling action t aims in
      elim_keeps (Cools c id action w) (policy_guard c.cfg status t) _ _
        (λ _ h. (
          t,
          (is_cooling fl eng world action status.cooldown_until w).1,
          aims,
          is_cooling-outside fl eng world c id action scales status.cooldown_until w,
          unblocked-IsCooled fl eng world c id action scales status t
              (is_cooling fl eng world action status.cooldown_until w) h,
        ))
        (λ reason _ h. ground (arith, h))

  -- An action that is applied, or would be in a dry run, starts a cooldown of the VM: it ends the
  -- configured seconds after a reading of the clock, which is the first after the guards in a dry run,
  -- and else the first after the backend's call for the size of the action. The guards themselves read
  -- the clock once at most.
  pub applied_cools :
      (c : Controller F E) (id : String) (action : ScaleAction) (w : W)
      → (apply_engine_decision fl eng world c id action w).0 ≡ true
      → (t : ℕ) × (guarded : W) × (target action ≡ some t)
        × ((guarded ≡ w) ⊎ (guarded ≡ (world.now w).1))
        × (cooldown_of (apply_engine_decision fl eng world c id action w).1 id
            ≡ some (
                (world.now
                  (if c.cfg.dry_run then guarded else (world.set_thread_count id t guarded).1)).0
                + c.cfg.cooldown_secs * 1000000000))
  unfolding apply_engine_decision Cools
  applied_cools c id action w =
      elim_keeps (Cools c id action w) (target action) _ _ (λ _ h. ground (arith, h))
        (λ t aims.
          elim_keeps (Cools c id action w) (lookup id c.instances) _ _ (λ _ h. ground (arith, h))
            (λ status _. apply_target-Cools c id status action t w aims))

  cooling_now :
      (action : ScaleAction) (o : Option ℕ) (until : ℕ) (w : W)
      → is_up_or_down action ≡ true
      → o ≡ some until
      → (world.now w).0 < until
      → is_cooling fl eng world action o w ≡ (true, (world.now w).1)
  unfolding is_cooling
  cooling_now action none until w ordinary cooled early = ground (arith, cooled)
  cooling_now action (some at) until w ordinary cooled early =
      ground (arith, cooled, ordinary, early)

  -- Not applied, nothing of the fleet changed, and at most the clock read.
  IsRefused : Controller F E → W → Bool × Controller F E × W → Type 0
  IsRefused c w r =
      (r.0 ≡ false) × (r.1.instances ≡ c.instances) × ((r.2 ≡ w) ⊎ (r.2 ≡ (world.now w).1))

  cooling_unblocked :
      (c : Controller F E) (id : String) (status : InstanceStatus F) (action : ScaleAction) (t : ℕ)
      (w : W) (cooling : Bool × W)
      → cooling ≡ (true, (world.now w).1)
      → IsRefused c w (apply_unblocked fl eng world c id status action t cooling)
  unfolding apply_unblocked report IsRefused
  cooling_unblocked c id status action t w cooling e = rw e (refl, refl, inr refl)

  cooldown_of-found :
      (c : Controller F E) (id : String) (status : InstanceStatus F) (until : ℕ)
      → lookup id c.instances ≡ some status
      → cooldown_of c id ≡ some until
      → status.cooldown_until ≡ some until
  unfolding cooldown_of
  cooldown_of-found c id status until found cooled = ground (arith, found, cooled)

  -- While the clock reads less than the end of a VM's cooldown, a scale-up or scale-down of it is not
  -- applied, the fleet stays as it is, and the outside world sees at most that reading.
  pub cooling_refuses :
      (c : Controller F E) (id : String) (action : ScaleAction) (until : ℕ) (w : W)
      → is_up_or_down action ≡ true
      → cooldown_of c id ≡ some until
      → (world.now w).0 < until
      → let (applied, c', w') = apply_engine_decision fl eng world c id action w in
        (applied ≡ false) × (c'.instances ≡ c.instances) × ((w' ≡ w) ⊎ (w' ≡ (world.now w).1))
  unfolding apply_engine_decision apply_target report IsRefused
  cooling_refuses c id action until w ordinary cooled early =
      elim_keeps (IsRefused c w) (target action) _ _ (λ _. (refl, refl, inl refl))
        (λ t _.
          elim_keeps (IsRefused c w) (lookup id c.instances) _ _ (λ _. (refl, refl, inl refl))
            (λ status found.
              elim_keeps (IsRefused c w) (policy_guard c.cfg status t) _ _
                (λ _. cooling_unblocked c id status action t w _ (
                  cooling_now action status.cooldown_until until w ordinary
                    (cooldown_of-found c id status until found cooled) early))
                (λ reason _. (refl, refl, inl refl))))
