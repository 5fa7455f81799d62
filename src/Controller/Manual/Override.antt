-- ===== src/Controller/Manual/Override.antt =====
-- src/controller.rs: a sticky manual request against the engine's decisions.
use io_thread_controller.Base.{
  ℕ, ◌<◌, ◌≤◌, Bool, true, false, ◌≡◌, refl, Option, none, some, String, arith, ltb, ◌==◌,
  elim_keeps, if_keeps, ◌↔◌,
}
use io_thread_controller.Base.Table.{lookup, lookup-insert_same}
use io_thread_controller.Float.{Float}
use io_thread_controller.Engines.{ScaleAction, target, manual_override}
use io_thread_controller.Instance.{InstanceStatus, World}
use io_thread_controller.Fleet.{ScalingEngine}
use io_thread_controller.Controller.{Controller}
use io_thread_controller.Controller.Actuation.{
  policy_guard, apply_target, apply_engine_decision, report,
}
use io_thread_controller.Controller.Manual.{ManualError, set_answer, handle_set_thread_count}

module _ {F E W : Type 0} (fl : Float F) (eng : ScalingEngine F E) (world : World W) where
  -- A sticky VM is left alone, and the engine is told.
  apply_engine_decision-sticky :
      (c : Controller F E) (id : String) (status : InstanceStatus F) (action : ScaleAction) (t : ℕ)
      (w : W)
      → lookup id c.instances ≡ some status
      → status.manual_scaling_sticky ≡ true
      → target action ≡ some t
      → apply_engine_decision fl eng world c id action w
        ≡ (false, report fl eng world c id manual_override action, w)
  unfolding apply_engine_decision apply_target policy_guard
  apply_engine_decision-sticky c id status action t w found sticky aims =
      ground (arith, found, sticky, aims)

  -- What an accepted request leaves for the VM.
  IsOverridden : String → ℕ → Bool → Option ManualError × Controller F E × W → Type 0
  IsOverridden vm threads sticky r =
      r.0 ≡ none
      → (s : InstanceStatus F) × (lookup vm r.1.instances ≡ some s)
        × (s.thread_count ≡ threads)
        × (s.manual_scaling_sticky ≡ sticky)

  set_answer-IsOverridden :
      (c : Controller F E) (vm : String) (status : InstanceStatus F) (threads : ℕ) (sticky : Bool)
      (answer : Option String × W)
      → IsOverridden vm threads sticky (set_answer world c vm status threads sticky answer)
  unfolding IsOverridden set_answer
  set_answer-IsOverridden c vm status threads sticky (some error, w) accepted =
      ground (arith, accepted)
  set_answer-IsOverridden c vm status threads sticky (none, w) accepted =
      let status' = record status { thread_count = threads; manual_scaling_sticky = sticky } in
      (status', lookup-insert_same vm status' c.instances, refl, refl)

  handle_set_thread_count-IsOverridden :
      (c : Controller F E) (vm : String) (threads : ℕ) (sticky : Bool) (w : W)
      → IsOverridden vm threads sticky (handle_set_thread_count world c vm threads sticky w)
  unfolding handle_set_thread_count IsOverridden
  handle_set_thread_count-IsOverridden c vm threads sticky w =
      elim_keeps (IsOverridden vm threads sticky) (lookup vm c.instances) _ _
        (λ _ accepted. ground (arith, accepted))
        (λ status _.
          if_keeps (IsOverridden vm threads sticky) (threads == 0) _ _
            (λ _ accepted. ground (arith, accepted))
            (λ _.
              if_keeps (IsOverridden vm threads sticky) (ltb status.vcpu_count threads) _ _
                (λ _ accepted. ground (arith, accepted))
                (λ _.
                  set_answer-IsOverridden c vm status threads sticky
                    (world.set_thread_count vm threads w))))

  -- After a sticky manual request that was accepted, no action of the engine with a target touches the
  -- VM: the action is reported as blocked by the override, the backend is not called, and the clock
  -- is not even read.
  pub sticky_request_blocks :
      (c : Controller F E) (vm : String) (threads t : ℕ) (action : ScaleAction) (w later : W)
      → (handle_set_thread_count world c vm threads true w).0 ≡ none
      → target action ≡ some t
      → let (error, c', w') = handle_set_thread_count world c vm threads true w in
        apply_engine_decision fl eng world c' vm action later
        ≡ (false, report fl eng world c' vm manual_override action, later)
  unfolding IsOverridden
  sticky_request_blocks c vm threads t action w later accepted aims =
      let (s, found, sized, sticky) =
        handle_set_thread_count-IsOverridden c vm threads true w accepted in
      apply_engine_decision-sticky (handle_set_thread_count world c vm threads true w).1 vm s action
        t later found sticky aims

  set_answer-ok_iff :
      (c : Controller F E) (vm : String) (status : InstanceStatus F) (threads : ℕ) (sticky : Bool)
      (answer : Option String × W)
      → ((set_answer world c vm status threads sticky answer).0 ≡ none) ↔ (answer.0 ≡ none)
  unfolding set_answer
  set_answer-ok_iff c vm status threads sticky (some error, w) = ground arith
  set_answer-ok_iff c vm status threads sticky (none, w) = ground arith

  -- What the success of a request says.
  IsAcceptable : Controller F E → String → ℕ → W → Type 0
  IsAcceptable c vm threads w =
      (status : InstanceStatus F) × (lookup vm c.instances ≡ some status)
      × (0 < threads)
      × (threads ≤ status.vcpu_count)
      × ((world.set_thread_count vm threads w).0 ≡ none)

  ok-IsAcceptable :
      (c : Controller F E) (vm : String) (threads : ℕ) (sticky : Bool) (w : W)
      → (handle_set_thread_count world c vm threads sticky w).0 ≡ none
      → IsAcceptable c vm threads w
  unfolding handle_set_thread_count IsAcceptable
  ok-IsAcceptable c vm threads sticky w =
      elim_keeps Q (lookup vm c.instances) _ _ (λ _ accepted. ground (arith, accepted))
        (λ status found.
          if_keeps Q (threads == 0) _ _ (λ _ accepted. ground (arith, accepted))
            (λ some_threads.
              if_keeps Q (ltb status.vcpu_count threads) _ _
                (λ _ accepted. ground (arith, accepted))
                (λ fits accepted. (
                  status,
                  found,
                  ground (arith, some_threads),
                  ground (arith, fits),
                  (set_answer-ok_iff c vm status threads sticky _).0 accepted,
                ))))
    where
      Q : Option ManualError × Controller F E × W → Type 0
      Q r = r.0 ≡ none → IsAcceptable c vm threads w

  acceptable-ok :
      (c : Controller F E) (vm : String) (threads : ℕ) (sticky : Bool) (w : W)
      → IsAcceptable c vm threads w
      → (handle_set_thread_count world c vm threads sticky w).0 ≡ none
  unfolding handle_set_thread_count IsAcceptable
  acceptable-ok c vm threads sticky w (status, found, positive, fits, accepted) = ground (
    arith,
    found,
    positive,
    fits,
    (set_answer-ok_iff c vm status threads sticky (world.set_thread_count vm threads w)).1 accepted,
  )

  -- A manual request succeeds if and only if the VM is tracked, the size is at least 1 and at most
  -- the guest's vCPUs, and the backend accepts it.
  pub handle_set_thread_count-ok_iff :
      (c : Controller F E) (vm : String) (threads : ℕ) (sticky : Bool) (w : W)
      → ((handle_set_thread_count world c vm threads sticky w).0 ≡ none) ↔ (
          (status : InstanceStatus F) × (lookup vm c.instances ≡ some status)
          × (0 < threads)
          × (threads ≤ status.vcpu_count)
          × ((world.set_thread_count vm threads w).0 ≡ none))
  unfolding IsAcceptable
  handle_set_thread_count-ok_iff c vm threads sticky w =
      (ok-IsAcceptable c vm threads sticky w, acceptable-ok c vm threads sticky w)
