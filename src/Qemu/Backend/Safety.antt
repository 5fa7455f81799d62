-- ===== src/Qemu/Backend/Safety.antt =====
-- A tick's actuation over QEMU guests loses no queue.
use io_thread_controller.Base.{
  ℕ, ◌≤◌, ◌≡◌, sym, inl, inr, Option, none, some, String, List, elim_keeps, arith,
}
use io_thread_controller.Base.Words.{wrap32}
use io_thread_controller.Base.Table.{lookup, insert, lookup-insert_cases}
use io_thread_controller.Float.{Float}
use io_thread_controller.Engines.{InstanceDecision}
use io_thread_controller.Fleet.{ScalingEngine}
use io_thread_controller.Controller.{Controller}
use io_thread_controller.Controller.Plan.{act_on}
use io_thread_controller.Controller.Plan.Effects.{act_on-safe}
use io_thread_controller.Qemu.{BackendClientError}
use io_thread_controller.Qemu.Transport.{Monitor}
use io_thread_controller.Qemu.Client.{Session, pool_size}
use io_thread_controller.Qemu.Client.Resize.{Resized}
use io_thread_controller.Qemu.Client.Guest.{GuestView, Obeys}
use io_thread_controller.Qemu.Client.Request.{IsCounted, Served, set_thread_count-Served}
use io_thread_controller.Qemu.Backend.{Host, answer_of, request, resize_pool, qemu_world}

answer_of-IsCounted :
    {Q : Type 0} (view : GuestView Q) (first : Session Q) (target from : ℕ)
    (r : Option (Option BackendClientError × Session Q)) (ended : Resized target from r)
    → Served view first target r
    → IsCounted view (answer_of target from r ended).1
unfolding answer_of Served
answer_of-IsCounted view first target from none ended held = absurd held
answer_of-IsCounted view first target from (some (none, s)) ended (counted, sized, how) = counted
answer_of-IsCounted view first target from (some (some e, s)) ended (counted, between) = counted

module _ {Q H : Type 0} (view : GuestView Q) (monitors : String → Monitor Q)
    (read_clock : H → ℕ × H) (obeys : (id : String) → Obeys view (monitors id)) where
  -- Every guest of the host has a safe session.
  unfoldable pub AllSafe : Host Q H → Type 0
  AllSafe host = (id : String) (s : Session Q) → lookup id host.sessions ≡ some s → IsCounted view s

  request-IsCounted :
      (id : String) (t : ℕ) (s : Session Q)
      → t ≤ 1024
      → IsCounted view s
      → IsCounted view (request (monitors id) t s).1
  unfolding request
  request-IsCounted id t s fits counted =
      answer_of-IsCounted view s (wrap32 t) (pool_size s) _ _
        (set_thread_count-Served view (monitors id) (obeys id) s (wrap32 t) (omega arith) counted)

  insert-AllSafe :
      (id : String) (s : Session Q) (host : Host Q H)
      → IsCounted view s
      → AllSafe host
      → AllSafe (record host { sessions = insert id s host.sessions })
  unfolding AllSafe
  insert-AllSafe id s host counted safe j other found =
      elim (lookup-insert_cases id j s other host.sessions found) [
        | inl (at, same) ↦ rw (sym same) counted
        | inr kept ↦ safe j other kept
      ]

  session_of :
      (id : String) (s : Session Q) (host : Host Q H)
      → lookup id host.sessions ≡ some s
      → AllSafe host
      → IsCounted view s
  unfolding AllSafe
  session_of id s host found safe = safe id s found

  resize_pool-AllSafe :
      (id : String) (t : ℕ) (host : Host Q H)
      → t ≤ 1024
      → AllSafe host
      → AllSafe (resize_pool monitors read_clock id t host).1
  unfolding resize_pool
  resize_pool-AllSafe id t host fits safe =
      elim_keeps (λ (r : Option String × Host Q H). AllSafe r.1) (lookup id host.sessions) _ _
        (λ _. safe)
        (λ s found.
          insert-AllSafe id _ host (request-IsCounted id t s fits (session_of id s host found safe))
            safe)

  -- Whatever the engine decides and whatever the guests refuse, a tick's actuation over QEMU guests
  -- leaves every guest with a session as safe as before, if every guest had one, no pool may have over
  -- 1024 IOThreads, and a command that is not refused has its documented effect.
  pub act_on-AllSafe :
      {F E : Type 0} (fl : Float F) (eng : ScalingEngine F E) (c : Controller F E)
      (decisions : List InstanceDecision) (host : Host Q H)
      → c.cfg.max_thread_count ≤ 1024
      → AllSafe host
      → AllSafe (act_on fl eng (qemu_world monitors read_clock) c decisions host).2
  unfolding qemu_world AllSafe
  act_on-AllSafe fl eng c decisions host bounded safe =
      act_on-safe fl eng (qemu_world monitors read_clock) AllSafe c (λ w held. held)
        (λ id status t w found permitted live held.
          resize_pool-AllSafe id t w (omega (arith, permitted.below_max)) held)
        decisions host safe
