-- ===== src/Controller/Plan/View.antt =====
-- src/controller.rs: what the controller knows of the pools after a tick's actuation. A call that the
-- backend refuses may leave a pool between two sizes, so the VMs with such a call are listed apart.
use io_thread_controller.Base.{
  ℕ, ◌≤◌, Bool, true, false, ◌≡◌, ap, Option, none, some, List, [], ◌∷◌, String, arith, ◌⊎◌, inl,
  inr,
}
use io_thread_controller.Base.Words.{u32_max}
use io_thread_controller.Base.Table.{lookup, same_id, same_id_iff, contains_id, lookup-insert}
use io_thread_controller.Float.{Float}
use io_thread_controller.Engines.{InstanceDecision}
use io_thread_controller.Instance.{InstanceStatus, World}
use io_thread_controller.Fleet.{ScalingEngine}
use io_thread_controller.Controller.{Controller}
use io_thread_controller.Controller.Actuation.Safety.{Steps, with_pool}
use io_thread_controller.Controller.Plan.{act_on}
use io_thread_controller.Controller.Plan.Limits.{apply_plan_keeps}
use io_thread_controller.Controller.Plan.Effects.{lookup-with_pool}

-- The world with the VMs for which a call was refused.
pub record Logged (W : Type 0) : Type 0 where
  pub outside : W
  pub refused : List String

unfoldable pub note_refusal : String → Option String → List String → List String
note_refusal id none refused = refused
note_refusal id (some error) refused = id ∷ refused

abbrev pub logged : {W : Type 0} → World W → World (Logged W)
logged world = record {
  set_thread_count = λ id t w.
      (let (answer, w') = world.set_thread_count id t w.outside in
        (answer, record { outside = w'; refused = note_refusal id answer w.refused }));
  close = λ id w. record w { outside = world.close id w.outside };
  close_duplicate = λ id w. record w { outside = world.close_duplicate id w.outside };
  now = λ w. (let (at, w') = world.now w.outside in (at, record w { outside = w' }));
}

-- The controller's size of every tracked VM is the backend's, unless a call for it was refused.
unfoldable pub IsConsistent :
    {F E W : Type 0} → (W → String → ℕ) → Controller F E → Logged W → Type 0
IsConsistent {F = F} pool c w =
    (id : String) (status : InstanceStatus F)
    → lookup id c.instances ≡ some status
    → (status.thread_count ≡ pool w.outside id) ⊎ (contains_id id w.refused ≡ true)

module _ {F E W : Type 0} (fl : Float F) (eng : ScalingEngine F E) (world : World W)
    (pool : W → String → ℕ) (now_pools : (w : W) (j : String) → pool (world.now w).1 j ≡ pool w j)
    (other_pools : (id : String) (t : ℕ) (w : W) (j : String)
      → same_id id j ≡ false
      → pool (world.set_thread_count id t w).1 j ≡ pool w j)
    (accepted_pools : (id : String) (t : ℕ) (w : W)
      → t ≤ u32_max
      → (world.set_thread_count id t w).0 ≡ none
      → pool (world.set_thread_count id t w).1 id ≡ t) where
  refused-IsConsistent :
      (c : Controller F E) (id : String) (t : ℕ) (error : String) (w : Logged W)
      → (world.set_thread_count id t w.outside).0 ≡ some error
      → IsConsistent pool c w
      → IsConsistent pool c ((logged world).set_thread_count id t w).1
  unfolding IsConsistent note_refusal contains_id
  refused-IsConsistent c id t error w e h j other held =
      ground (arith, e, h j other held, other_pools id t w.outside j)

  accepted-IsConsistent :
      (c : Controller F E) (id : String) (status : InstanceStatus F) (t : ℕ) (until : Option ℕ)
      (w : Logged W)
      → t ≤ u32_max
      → (world.set_thread_count id t w.outside).0 ≡ none
      → IsConsistent pool c w
      → IsConsistent pool (with_pool c id status t until) ((logged world).set_thread_count id t w).1
  unfolding IsConsistent note_refusal
  accepted-IsConsistent c id status t until w fits e h j other held = ground (
    arith,
    e,
    held,
    lookup-insert id j (record status { thread_count = t; cooldown_until = until }) c.instances,
    other_pools id t w.outside j,
    accepted_pools id t w.outside fits e,
    same_id_iff id j,
    h j other,
  )

  cooled-IsConsistent :
      (c : Controller F E) (id : String) (status : InstanceStatus F) (until : Option ℕ)
      (w : Logged W)
      → lookup id c.instances ≡ some status
      → IsConsistent pool c w
      → IsConsistent pool (with_pool c id status status.thread_count until) w
  unfolding IsConsistent
  cooled-IsConsistent c id status until w found h j other held =
      elim (lookup-with_pool c id j status other status.thread_count until held) [
        | inl (at, now) ↦ ground (arith, at, ap (λ s. s.thread_count) now, h id status found)
        | inr kept ↦ h j other kept
      ]

  read-IsConsistent :
      (c : Controller F E) (w : Logged W)
      → IsConsistent pool c w
      → IsConsistent pool c ((logged world).now w).1
  unfolding IsConsistent
  read-IsConsistent c w h j s found = ground (arith, h j s found, now_pools w.outside j)

  abbrev Holds : Bool → Controller F E → Logged W → Type 0
  Holds applied c w = (c.cfg.max_thread_count ≤ u32_max) × IsConsistent pool c w

  IsConsistent-steps : Steps {F = F} {E = E} (logged world) Holds
  unfolding IsConsistent
  IsConsistent-steps = record {
    read_clock = λ b c w (fits, h). (fits, read-IsConsistent c w h);
    tell_engine = λ b c e w h. h;
    cool_dry = λ c id status until w found (fits, h).
        (fits, cooled-IsConsistent c id status until w found h);
    call_failed = λ c id status t error w found permitted live e (fits, h).
        (fits, refused-IsConsistent c id t error w e h);
    call_accepted = λ c id status t until w found permitted live e (fits, h). (
      fits,
      accepted-IsConsistent c id status t until w (omega (arith, permitted.below_max, fits)) e h,
    );
  }

  -- If the controller's size of every tracked VM is the backend's before a tick's actuation, it is so
  -- after it for every VM but those for which the backend refused a call in this actuation, with dry
  -- runs and blocked actions among the decisions. The configured maximum fits a u32, an accepted call
  -- for a size that does sets the pool of the named VM to it, and no call, accepted or refused, touches
  -- the pool of another VM. A refused call may leave its own pool at any size.
  pub act_on-IsConsistent :
      (c : Controller F E) (decisions : List InstanceDecision) (w : W)
      → c.cfg.max_thread_count ≤ u32_max
      → IsConsistent pool c (record { outside = w; refused = [] })
      → let (adjusted, c', w') =
          act_on fl eng (logged world) c decisions (record { outside = w; refused = [] }) in
        IsConsistent pool c' w'
  unfolding act_on
  act_on-IsConsistent c decisions w fits h =
      (apply_plan_keeps fl eng (logged world) c.cfg.max_instances_adjusted_per_poll
        (λ _. Holds true) (λ _ _. IsConsistent-steps) _ (0, c, record { outside = w; refused = [] })
        (fits, h)).1
