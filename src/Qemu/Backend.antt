-- ===== src/Qemu/Backend.antt =====
-- The clients of a host's guests, as the backend that the controller resizes pools through. A tracked
-- VM has one client. The size of a request is a u32, and the request always ends.
pub mod Safety
pub mod View
use io_thread_controller.Base.{ℕ, ◌≤◌, Option, none, some, String, List, arith}
use io_thread_controller.Base.Words.{wrap32, u32_max}
use io_thread_controller.Base.Table.{lookup, insert}
use io_thread_controller.Instance.{World}
use io_thread_controller.Qemu.{BackendClientError, describe}
use io_thread_controller.Qemu.Transport.{Monitor}
use io_thread_controller.Qemu.Client.{Session, pool_size}
use io_thread_controller.Qemu.Client.Loops.{set_thread_count}
use io_thread_controller.Qemu.Client.Resize.{Resized, set_thread_count-Resized}

-- A host: the sessions with its guests, and the state of its clock.
pub record Host (Q H : Type 0) : Type 0 where
  pub sessions : List (String × Session Q)
  pub clock : H

-- The text of the error that the controller reports, if any.
unfoldable pub error_text : Option BackendClientError → Option String
error_text none = none
error_text (some e) = some (describe e)

-- An answer, which the request has.
unfoldable pub answer_of :
    {Q : Type 0} (target from : ℕ) (r : Option (Option BackendClientError × Session Q))
    → Resized target from r
    → Option BackendClientError × Session Q
unfolding Resized
answer_of target from none ended = absurd ended
answer_of target from (some answer) ended = answer

pub fits_u32 : (n : ℕ) → wrap32 n ≤ u32_max
fits_u32 n = omega arith

unfoldable pub request :
    {Q : Type 0} → Monitor Q → ℕ → Session Q → Option BackendClientError × Session Q
request monitor t s =
    answer_of (wrap32 t) (pool_size s) (set_thread_count monitor (wrap32 t) s)
      (set_thread_count-Resized monitor (wrap32 t) s (fits_u32 t))

module _ {Q H : Type 0} (monitors : String → Monitor Q) (read_clock : H → ℕ × H) where
  unfoldable pub resize_pool : String → ℕ → Host Q H → Option String × Host Q H
  resize_pool id t host = elim (lookup id host.sessions) [
    | none ↦ (some "no client", host)
    | some s ↦
        let (error, s') = request (monitors id) t s in
        (error_text error, record host { sessions = insert id s' host.sessions })
  ]

  -- `close` of this client does nothing.
  unfoldable pub qemu_world : World (Host Q H)
  qemu_world = record {
    set_thread_count = resize_pool;
    close = λ id host. host;
    close_duplicate = λ id host. host;
    now =
        λ host. (let (at, clock') = read_clock host.clock in (at, record host { clock = clock' }));
  }
