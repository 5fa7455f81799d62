-- ===== src/Qemu/Client/Request.antt =====
-- A whole request keeps a session safe, and one that succeeds leaves the pool that was asked for.
use io_thread_controller.Base.{
  ℕ, zero, suc, ◌≤◌, ◌<◌, ◌≡◌, refl, ap, ◌⊎◌, inl, inr, Bool, false, Option, none, some, ◌==◌, leb,
  if_keeps, length, arith,
}
use io_thread_controller.Base.Words.{u32_max}
use io_thread_controller.Qemu.{Result, ok, err, BackendClientError}
use io_thread_controller.Qemu.Transport.{Monitor}
use io_thread_controller.Qemu.Client.{Session, pool_size, scale_up, scale_down}
use io_thread_controller.Qemu.Client.Guest.{GuestView, Obeys}
use io_thread_controller.Qemu.Client.Safety.{IsSafe, IsSpread, StepSafe}
use io_thread_controller.Qemu.Client.Safety.Steps.{scale_up-StepSafe, scale_down-StepSafe}
use io_thread_controller.Qemu.Client.Steps.{StepUp, StepDown, scale_up-StepUp, scale_down-StepDown}
use io_thread_controller.Qemu.Client.Loops.{
  after_step, repeat_step, grow, shrink, then_shrink, resize, request_error, set_thread_count,
}
use io_thread_controller.Qemu.Client.Resize.{Resized, set_thread_count-Resized}

-- What holds after a step or a loop: one thing if it succeeded, another if not.
StepKeeps : {Q : Type 0} → (P R : Session Q → Type 0) → Result ℕ × Session Q → Type 0
StepKeeps P R (ok new, s) = P s
StepKeeps P R (err e, s) = R s

unfoldable LoopKeeps :
    {Q : Type 0} → (P R : Session Q → Type 0) → Option (Result Unit × Session Q) → Type 0
LoopKeeps P R none = Unit
LoopKeeps P R (some (ok done, s)) = P s
LoopKeeps P R (some (err e, s)) = R s

module _ {Q : Type 0} (P R : Session Q → Type 0) (is_done : ℕ → Bool)
    (step : Session Q → Result ℕ × Session Q)
    (step_keeps : (s : Session Q)
      → is_done (pool_size s) ≡ false
      → P s
      → StepKeeps P R (step s)) where
  after_step_keeps :
      (cur : ℕ) (again : Session Q → Option (Result Unit × Session Q))
      (taken : Result ℕ × Session Q)
      → StepKeeps P R taken
      → ((s : Session Q) → P s → LoopKeeps P R (again s))
      → LoopKeeps P R (after_step cur again taken)
  unfolding after_step StepKeeps LoopKeeps
  after_step_keeps cur again (ok new, s) held goes_on =
      if_keeps (LoopKeeps P R) (new == cur) _ _ (λ stuck. held) (λ moved. goes_on s held)
  after_step_keeps cur again (err e, s) held goes_on = held

  repeat_step_keeps :
      (fuel : ℕ) (s : Session Q) → P s → LoopKeeps P R (repeat_step is_done step fuel s)
  unfolding repeat_step LoopKeeps
  repeat_step_keeps zero s held = tt
  repeat_step_keeps (suc fuel) s held =
      if_keeps (LoopKeeps P R) (is_done (pool_size s)) _ _ (λ done. held)
        (λ more.
          after_step_keeps (pool_size s) (repeat_step is_done step fuel) (step s)
            (step_keeps s more held) (repeat_step_keeps fuel))

-- A safe session whose pool is counted by a u32.
unfoldable pub IsCounted : {Q : Type 0} → GuestView Q → Session Q → Type 0
IsCounted view s = IsSafe view s × (length s.inner.iothreads ≤ u32_max)

module _ {Q : Type 0} (view : GuestView Q) (first : Session Q) where
  -- What a loop keeps: a safe session, spread over its pool once a step has succeeded.
  unfoldable Kept : Session Q → Type 0
  Kept s = IsSafe view s × (length s.inner.iothreads ≤ u32_max) × ((s ≡ first) ⊎ IsSpread view s)

  StepUp-Kept :
      (before : Session Q) (taken : Result ℕ × Session Q)
      → length before.inner.iothreads < 1024
      → StepUp before.inner taken
      → StepSafe view taken
      → StepKeeps Kept (IsCounted view) taken
  unfolding StepUp StepSafe StepKeeps Kept IsCounted
  StepUp-Kept before (ok new, s) room (answered, longer) (safe, spread) =
      (safe, omega arith, inr spread)
  StepUp-Kept before (err e, s) room same safe =
      (safe, ground (arith, ap (λ inner. length inner.iothreads) same))

  StepDown-Kept :
      (before : Session Q) (taken : Result ℕ × Session Q)
      → length before.inner.iothreads ≤ u32_max
      → StepDown before.inner taken
      → StepSafe view taken
      → StepKeeps Kept (IsCounted view) taken
  unfolding StepDown StepSafe StepKeeps Kept IsCounted
  StepDown-Kept before (ok new, s) small (answered, shorter) (safe, spread) =
      (safe, omega arith, inr spread)
  StepDown-Kept before (err e, s) small same safe =
      (safe, ground (arith, ap (λ inner. length inner.iothreads) same))

-- How a request for a size of at most 1024 ends, whatever the guest refuses.
unfoldable pub Served :
    {Q : Type 0}
    → GuestView Q
    → Session Q
    → ℕ
    → Option (Option BackendClientError × Session Q)
    → Type 0
Served view first target none = ⊥
Served view first target (some (none, s)) =
    IsCounted view s × (length s.inner.iothreads ≡ target) × ((s ≡ first) ⊎ IsSpread view s)
Served view first target (some (some e, s)) =
    IsCounted view s
    × (((pool_size first ≤ pool_size s) × (pool_size s < target))
        ⊎ ((target < pool_size s) × (pool_size s ≤ pool_size first)))

module _ {Q : Type 0} (view : GuestView Q) (monitor : Monitor Q) (obeys : Obeys view monitor)
    (first : Session Q) (target : ℕ) where
  has_room :
      (before : Session Q)
      → length before.inner.iothreads ≤ u32_max
      → target ≤ 1024
      → leb target (pool_size before) ≡ false
      → length before.inner.iothreads < 1024
  has_room before small fits more = ground (arith, more)

  grow_keeps :
      (s : Session Q)
      → target ≤ 1024
      → Kept view first s
      → LoopKeeps (Kept view first) (IsCounted view) (grow monitor target s)
  unfolding grow Kept
  grow_keeps s fits kept =
      repeat_step_keeps (Kept view first) (IsCounted view) (λ cur. leb target cur)
        (scale_up monitor)
        (λ before more (safe, small, how).
          let room = has_room before small fits more in
          StepUp-Kept view first before _ room (scale_up-StepUp monitor before)
            (scale_up-StepSafe view monitor obeys before room safe))
        (suc target) s kept

  shrink_keeps :
      (s : Session Q)
      → Kept view first s
      → LoopKeeps (Kept view first) (IsCounted view) (shrink monitor target s)
  unfolding shrink Kept
  shrink_keeps s kept =
      repeat_step_keeps (Kept view first) (IsCounted view) (λ cur. leb cur target)
        (scale_down monitor)
        (λ before more (safe, small, how).
          StepDown-Kept view first before _ small (scale_down-StepDown monitor before)
            (scale_down-StepSafe view monitor obeys before safe))
        (suc (pool_size s)) s kept

  then_shrink_keeps :
      (r : Option (Result Unit × Session Q))
      → LoopKeeps (Kept view first) (IsCounted view) r
      → LoopKeeps (Kept view first) (IsCounted view) (then_shrink monitor target r)
  unfolding then_shrink LoopKeeps
  then_shrink_keeps none held = held
  then_shrink_keeps (some (ok done, s)) held = shrink_keeps s held
  then_shrink_keeps (some (err e, s)) held = held

  served :
      (r : Option (Result Unit × Session Q))
      → target ≤ 1024
      → LoopKeeps (Kept view first) (IsCounted view) r
      → Resized target
          (pool_size first)
          (elim r [ none ↦ none | some (answer, s') ↦ some (request_error answer, s') ])
      → Served view first target
          (elim r [ none ↦ none | some (answer, s') ↦ some (request_error answer, s') ])
  unfolding Served LoopKeeps Resized request_error Kept IsCounted
  served none fits kept sized = sized
  served (some (ok done, s)) fits (safe, small, how) sized = ((safe, small), omega arith, how)
  served (some (err e, s)) fits safe sized = (safe, sized)

  -- A guest that refuses any of its commands, and whose commands otherwise have their documented
  -- effect, holds every IOThread of the pool, the mapping of its device names IOThreads of the pool
  -- only, and no name stands twice in the pool: what a request for at most 1024 IOThreads finds so, it
  -- leaves so, on every path. Without an error the pool has the size asked for, and either nothing
  -- has changed or the queues are spread over exactly that pool. With one, the size is between the
  -- former one and the one asked for.
  pub set_thread_count-Served :
      target ≤ 1024
      → IsCounted view first
      → Served view first target (set_thread_count monitor target first)
  unfolding set_thread_count resize Kept IsCounted
  set_thread_count-Served fits (safe, small) =
      served (resize monitor target first) fits
        (then_shrink_keeps (grow monitor target first)
          (grow_keeps first fits (safe, small, inl refl)))
        (set_thread_count-Resized monitor target first (omega arith))
