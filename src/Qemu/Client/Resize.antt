-- ===== src/Qemu/Client/Resize.antt =====
-- Every request for a pool size is answered, and what the size is then.
use io_thread_controller.Base.{
  ℕ, zero, suc, ◌-◌, ◌≤◌, ◌<◌, min, max, ◌≡◌, ◌⊎◌, inl, inr, refl, sym, ap, ◌∙◌, Option, none, some,
  ◌==◌, leb, leb→le, if_keeps, length, arith,
}
use io_thread_controller.Base.Words.{wrap32, u32_max}
use io_thread_controller.Qemu.{Result, ok, err, BackendClientError}
use io_thread_controller.Qemu.Transport.{Monitor}
use io_thread_controller.Qemu.Client.{Inner, Session, pool_size, scale_up, scale_down}
use io_thread_controller.Qemu.Client.Steps.{StepUp, StepDown, scale_up-StepUp, scale_down-StepDown}
use io_thread_controller.Qemu.Client.Loops.{
  after_step, repeat_step, grow, shrink, then_shrink, resize, request_error, set_thread_count,
}

-- What the first loop leaves: nothing is known only if it did not end.
unfoldable Grown : {Q : Type 0} → ℕ → ℕ → Option (Result Unit × Session Q) → Type 0
Grown target from none = ⊥
Grown target from (some (ok done, s)) = pool_size s ≡ max target from
Grown target from (some (err e, s)) = (from ≤ pool_size s) × (pool_size s < target)

unfoldable Shrunk : {Q : Type 0} → ℕ → ℕ → Option (Result Unit × Session Q) → Type 0
Shrunk target from none = ⊥
Shrunk target from (some (ok done, s)) = pool_size s ≡ min target from
Shrunk target from (some (err e, s)) = (target < pool_size s) × (pool_size s ≤ from)

Grown-suc :
    {Q : Type 0} (target from : ℕ) (r : Option (Result Unit × Session Q))
    → from < target
    → Grown target (suc from) r
    → Grown target from r
unfolding Grown
Grown-suc target from none below held = held
Grown-suc target from (some (ok done, s)) below held = omega arith
Grown-suc target from (some (err e, s)) below (least, most) = (omega arith, most)

Shrunk-suc :
    {Q : Type 0} (target smaller from : ℕ) (r : Option (Result Unit × Session Q))
    → suc smaller ≡ from
    → target ≤ smaller
    → Shrunk target smaller r
    → Shrunk target from r
unfolding Shrunk
Shrunk-suc target smaller from none next above held = held
Shrunk-suc target smaller from (some (ok done, s)) next above held = omega arith
Shrunk-suc target smaller from (some (err e, s)) next above (least, most) = (least, omega arith)

-- The size after a step that succeeds, below the bounds of a u32.
size_up :
    (before after : ℕ)
    → wrap32 before < u32_max
    → after ≡ suc before
    → wrap32 after ≡ suc (wrap32 before)
size_up before after room longer = omega arith

size_down :
    (before after : ℕ) → 0 < wrap32 before → before ≡ suc after → wrap32 before ≡ suc (wrap32 after)
size_down before after room shorter = omega arith

after_step-Grown :
    {Q : Type 0} (target cur : ℕ) (again : Session Q → Option (Result Unit × Session Q))
    (before : Inner) (taken : Result ℕ × Session Q)
    → cur ≡ wrap32 (length before.iothreads)
    → target ≤ u32_max
    → cur < target
    → StepUp before taken
    → ((s : Session Q) → pool_size s ≡ suc cur → Grown target (suc cur) (again s))
    → Grown target cur (after_step cur again taken)
unfolding after_step Grown StepUp
after_step-Grown target cur again before (err e, s) size fits below same goes_on =
    ground (arith, same)
after_step-Grown target cur again before (ok new, s) size fits below (answered, longer) goes_on =
    let sized = size_up _ _ (omega (arith, size)) longer in
    if_keeps (Grown target cur) (new == cur) _ _
      (λ stuck. absurd (ground (arith, stuck, sized, answered, size)))
      (λ _. Grown-suc target cur _ below (goes_on s (sized ∙ ap suc (sym size))))

after_step-Shrunk :
    {Q : Type 0} (target cur : ℕ) (again : Session Q → Option (Result Unit × Session Q))
    (before : Inner) (taken : Result ℕ × Session Q)
    → cur ≡ wrap32 (length before.iothreads)
    → target < cur
    → StepDown before taken
    → ((s : Session Q) → suc (pool_size s) ≡ cur → Shrunk target (pool_size s) (again s))
    → Shrunk target cur (after_step cur again taken)
unfolding after_step Shrunk StepDown
after_step-Shrunk target cur again before (err e, s) size above same goes_on = ground (arith, same)
after_step-Shrunk target cur again before (ok new, s) size above (answered, shorter) goes_on =
    let sized = size_down _ _ (omega (arith, size)) shorter in
    let next = sym sized ∙ sym size in
    if_keeps (Shrunk target cur) (new == cur) _ _
      (λ stuck. absurd (ground (arith, stuck, sized, answered, size)))
      (λ _. Shrunk-suc target _ cur _ next (omega (arith, next)) (goes_on s next))

module _ {Q : Type 0} (monitor : Monitor Q) (target : ℕ) where
  Grown-reached :
      (s : Session Q) → target ≤ pool_size s → Grown target (pool_size s) (some (ok tt, s))
  unfolding Grown
  Grown-reached s reached = omega arith

  Shrunk-reached :
      (s : Session Q) → pool_size s ≤ target → Shrunk target (pool_size s) (some (ok tt, s))
  unfolding Shrunk
  Shrunk-reached s reached = omega arith

  grow_ends :
      (fuel : ℕ) (s : Session Q)
      → target ≤ u32_max
      → target - pool_size s < fuel
      → Grown target (pool_size s) (repeat_step (λ size. leb target size) (scale_up monitor) fuel s)
  unfolding repeat_step
  grow_ends zero s fits enough = absurd (omega arith)
  grow_ends (suc fuel) s fits enough =
      if_keeps (Grown target (pool_size s)) (leb target (pool_size s)) _ _
        (λ reached. Grown-reached s (leb→le _ _ reached))
        (λ below.
          after_step-Grown target (pool_size s) _ s.inner (scale_up monitor s) refl fits
            (ground (arith, below)) (scale_up-StepUp monitor s)
            (λ s' next. rw (sym next) (grow_ends fuel s' fits (ground (arith, next, below)))))

  shrink_ends :
      (fuel : ℕ) (s : Session Q)
      → pool_size s - target < fuel
      → Shrunk target
          (pool_size s)
          (repeat_step (λ size. leb size target) (scale_down monitor) fuel s)
  unfolding repeat_step
  shrink_ends zero s enough = absurd (omega arith)
  shrink_ends (suc fuel) s enough =
      if_keeps (Shrunk target (pool_size s)) (leb (pool_size s) target) _ _
        (λ reached. Shrunk-reached s (leb→le _ _ reached))
        (λ above.
          after_step-Shrunk target (pool_size s) _ s.inner (scale_down monitor s) refl
            (ground (arith, above)) (scale_down-StepDown monitor s)
            (λ s' next. shrink_ends fuel s' (ground (arith, next, above))))

-- How a request that met a pool of a size ends: with the size asked for, or with an error and a size
-- on the way to it.
unfoldable pub Resized :
    {Q : Type 0} → ℕ → ℕ → Option (Option BackendClientError × Session Q) → Type 0
Resized target from none = ⊥
Resized target from (some (none, s)) = pool_size s ≡ target
Resized target from (some (some e, s)) =
    ((from ≤ pool_size s) × (pool_size s < target))
    ⊎ ((target < pool_size s) × (pool_size s ≤ from))

requested :
    {Q : Type 0} → Option (Result Unit × Session Q) → Option (Option BackendClientError × Session Q)
requested r = elim r [ none ↦ none | some (answer, s') ↦ some (request_error answer, s') ]

Shrunk-Resized :
    {Q : Type 0} (target from now : ℕ) (r : Option (Result Unit × Session Q))
    → now ≡ max target from
    → Shrunk target now r
    → Resized target from (requested r)
unfolding Shrunk Resized requested request_error
Shrunk-Resized target from now none grown held = held
Shrunk-Resized target from now (some (ok done, s)) grown held = omega arith
Shrunk-Resized target from now (some (err e, s)) grown (least, most) = inr (least, omega arith)

then_shrink-Resized :
    {Q : Type 0} (monitor : Monitor Q) (target from : ℕ) (r : Option (Result Unit × Session Q))
    → Grown target from r
    → Resized target from (requested (then_shrink monitor target r))
unfolding Grown Resized requested request_error then_shrink shrink
then_shrink-Resized monitor target from none held = held
then_shrink-Resized monitor target from (some (err e, s)) held = inl held
then_shrink-Resized monitor target from (some (ok done, s)) held =
    Shrunk-Resized target from (pool_size s) _ held
      (shrink_ends monitor target (suc (pool_size s)) s (omega arith))

-- Whatever the guest answers, a request for a size that fits a u32 ends within the fuel of its two
-- loops. Without an error the pool has the size asked for. With one, its size is between the former
-- size and the one asked for, which it has not reached.
pub set_thread_count-Resized :
    {Q : Type 0} (monitor : Monitor Q) (target : ℕ) (s : Session Q)
    → target ≤ u32_max
    → Resized target (pool_size s) (set_thread_count monitor target s)
unfolding set_thread_count resize grow requested
set_thread_count-Resized monitor target s fits =
    then_shrink-Resized monitor target (pool_size s) _
      (grow_ends monitor target (suc target) s fits (omega arith))
