-- ===== src/Qemu/Client/Loops.antt =====
-- src/backends/qemu/client.rs: the two loops of `set_thread_count`.
use io_thread_controller.Base.{ℕ, zero, suc, Bool, Option, none, some, ◌==◌, leb, if◌then◌else◌}
use io_thread_controller.Qemu.{Result, ok, err, BackendClientError, client_error}
use io_thread_controller.Qemu.Transport.{Monitor}
use io_thread_controller.Qemu.Client.{Session, pool_size, scale_up, scale_down}

-- What follows a step: an error ends the request, and a step that changed nothing ends the loop.
unfoldable pub after_step :
    {Q : Type 0}
    → ℕ
    → (Session Q → Option (Result Unit × Session Q))
    → Result ℕ × Session Q
    → Option (Result Unit × Session Q)
after_step cur again (err e, s) = some (err e, s)
after_step cur again (ok new, s) = if new == cur then some (ok tt, s) else again s

-- A loop over a step, on fuel: it ends when the size of the pool passes a test. No answer means that
-- the fuel is used up.
unfoldable pub repeat_step :
    {Q : Type 0}
    → (ℕ → Bool)
    → (Session Q → Result ℕ × Session Q)
    → ℕ
    → Session Q
    → Option (Result Unit × Session Q)
repeat_step is_done step zero s = none
repeat_step is_done step (suc fuel) s =
    let rest = after_step (pool_size s) (repeat_step is_done step fuel) (step s) in
    if is_done (pool_size s) then some (ok tt, s) else rest

module _ {Q : Type 0} (monitor : Monitor Q) where
  -- The first loop, which makes at most `target` steps.
  unfoldable pub grow : ℕ → Session Q → Option (Result Unit × Session Q)
  grow target s = repeat_step (λ cur. leb target cur) (scale_up monitor) (suc target) s

  -- The second loop, which makes at most as many steps as there are IOThreads.
  unfoldable pub shrink : ℕ → Session Q → Option (Result Unit × Session Q)
  shrink target s = repeat_step (λ cur. leb cur target) (scale_down monitor) (suc (pool_size s)) s

  -- The second loop runs after the first has ended without an error.
  unfoldable pub then_shrink :
      ℕ → Option (Result Unit × Session Q) → Option (Result Unit × Session Q)
  then_shrink target none = none
  then_shrink target (some (err e, s)) = some (err e, s)
  then_shrink target (some (ok done, s)) = shrink target s

  unfoldable pub resize : ℕ → Session Q → Option (Result Unit × Session Q)
  resize target s = then_shrink target (grow target s)

-- The error of the request, if any, as the caller gets it.
unfoldable pub request_error : Result Unit → Option BackendClientError
request_error (ok done) = none
request_error (err e) = some (client_error e)

unfoldable pub set_thread_count :
    {Q : Type 0} → Monitor Q → ℕ → Session Q → Option (Option BackendClientError × Session Q)
set_thread_count monitor target s = elim (resize monitor target s) [
  | none ↦ none
  | some (answer, s') ↦ some (request_error answer, s')
]
