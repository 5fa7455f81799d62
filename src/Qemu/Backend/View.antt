-- ===== src/Qemu/Backend/View.antt =====
-- The pools of QEMU guests, as the controller's actuation counts them: what a request does to the pool
-- of its own guest, if it is accepted, and to the pools of the others.
use io_thread_controller.Base.{
  ℕ, ◌≤◌, ◌≡◌, refl, ◌∙◌, false, Option, none, some, String, elim_keeps, arith,
}
use io_thread_controller.Base.Words.{wrap32, u32_max}
use io_thread_controller.Base.Table.{lookup, same_id, same_id_iff, lookup-insert}
use io_thread_controller.Qemu.{BackendClientError}
use io_thread_controller.Qemu.Transport.{Monitor}
use io_thread_controller.Qemu.Client.{Session, pool_size}
use io_thread_controller.Qemu.Client.Loops.{set_thread_count}
use io_thread_controller.Qemu.Client.Resize.{Resized, set_thread_count-Resized}
use io_thread_controller.Qemu.Backend.{
  Host, error_text, answer_of, fits_u32, request, resize_pool, qemu_world,
}

-- The IOThreads of a guest, by its client's count.
unfoldable pub pool_of : {Q H : Type 0} → Host Q H → String → ℕ
pool_of host id = elim (lookup id host.sessions) [ none ↦ 0 | some s ↦ pool_size s ]

error_text-none : (e : Option BackendClientError) → error_text e ≡ none → e ≡ none
unfolding error_text
error_text-none none h = refl
error_text-none (some e) h = absurd (ground (arith, h))

answer_of-sized :
    {Q : Type 0} (target from : ℕ) (r : Option (Option BackendClientError × Session Q))
    (ended : Resized target from r)
    → (answer_of target from r ended).0 ≡ none
    → pool_size (answer_of target from r ended).1 ≡ target
unfolding answer_of Resized
answer_of-sized target from none ended accepted = absurd ended
answer_of-sized target from (some (none, s)) ended accepted = ended
answer_of-sized target from (some (some e, s)) ended accepted = absurd (ground (arith, accepted))

module _ {Q H : Type 0} (monitors : String → Monitor Q) (read_clock : H → ℕ × H) where
  request-sized :
      (id : String) (t : ℕ) (s : Session Q)
      → t ≤ u32_max
      → (request (monitors id) t s).0 ≡ none
      → pool_size (request (monitors id) t s).1 ≡ t
  unfolding request
  request-sized id t s fits accepted =
      answer_of-sized (wrap32 t) (pool_size s) (set_thread_count (monitors id) (wrap32 t) s)
        (set_thread_count-Resized (monitors id) (wrap32 t) s (fits_u32 t)) accepted
      ∙ omega (arith, fits)

  pub resize_pool-others :
      (id : String) (t : ℕ) (host : Host Q H) (j : String)
      → same_id id j ≡ false
      → pool_of (resize_pool monitors read_clock id t host).1 j ≡ pool_of host j
  unfolding resize_pool pool_of
  resize_pool-others id t host j differ =
      elim_keeps (λ (r : Option String × Host Q H). pool_of r.1 j ≡ pool_of host j)
        (lookup id host.sessions) _ _ (λ _. refl)
        (λ s found.
          ground (arith, differ, lookup-insert id j (request (monitors id) t s).1 host.sessions))

  pub resize_pool-accepted :
      (id : String) (t : ℕ) (host : Host Q H)
      → t ≤ u32_max
      → (resize_pool monitors read_clock id t host).0 ≡ none
      → pool_of (resize_pool monitors read_clock id t host).1 id ≡ t
  unfolding resize_pool pool_of
  resize_pool-accepted id t host fits =
      elim_keeps (λ (r : Option String × Host Q H). r.0 ≡ none → pool_of r.1 id ≡ t)
        (lookup id host.sessions) _ _ (λ _ accepted. absurd (ground (arith, accepted)))
        (λ s found accepted. ground (
          arith,
          lookup-insert id id (request (monitors id) t s).1 host.sessions,
          same_id_iff id id,
          request-sized id t s fits (error_text-none (request (monitors id) t s).0 accepted),
        ))

  pub now_pools :
      (host : Host Q H) (j : String)
      → pool_of ((qemu_world monitors read_clock).now host).1 j ≡ pool_of host j
  unfolding pool_of qemu_world
  now_pools host j = refl
