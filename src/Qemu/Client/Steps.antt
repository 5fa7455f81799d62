-- ===== src/Qemu/Client/Steps.antt =====
-- What one step of a loop of `set_thread_count` does to the pool.
use io_thread_controller.Base.{
  ℕ, suc, ◌≡◌, refl, sym, ap, ◌∙◌, none, String, List, [], ◌∷◌, ◌++◌, length, length-append, arith,
}
use io_thread_controller.Base.Sorting.{length-sort_names}
use io_thread_controller.Qemu.{Result, ok, err}
use io_thread_controller.Qemu.Transport.{Monitor, add_io_thread}
use io_thread_controller.Qemu.Names.{next_qemu_iothread_id}
use io_thread_controller.Qemu.Client.{
  Inner, Session, pool_size, split_last, scale_up, reshard_up, finish_up, scale_down,
  scale_down_from, delete_down, finish_down,
}

length-split_last : (id : String) (ids : List String) → length ((split_last id ids).1) ≡ length ids
unfolding split_last
length-split_last id [] = refl
length-split_last id (j ∷ js) = ap suc (length-split_last j js)

-- A step that succeeds makes the pool one larger and answers with its size; one that fails leaves the
-- cached topology as it was.
unfoldable pub StepUp : {Q : Type 0} → Inner → Result ℕ × Session Q → Type 0
StepUp before (err e, s) = s.inner ≡ before
StepUp before (ok new, s) =
    (new ≡ pool_size s) × (length s.inner.iothreads ≡ suc (length before.iothreads))

unfoldable pub StepDown : {Q : Type 0} → Inner → Result ℕ × Session Q → Type 0
StepDown before (err e, s) = s.inner ≡ before
StepDown before (ok new, s) =
    (new ≡ pool_size s) × (length before.iothreads ≡ suc (length s.inner.iothreads))

module _ {Q : Type 0} (monitor : Monitor Q) where
  finish_up-StepUp :
      (new_id : String) (new_set : List String) (s : Session Q) (answer : Result Unit × Q)
      → length new_set ≡ suc (length s.inner.iothreads)
      → StepUp s.inner (finish_up monitor new_id new_set s answer)
  unfolding finish_up StepUp
  finish_up-StepUp new_id new_set s (ok done, q) longer = (refl, longer)
  finish_up-StepUp new_id new_set s (err e, q) longer = refl

  reshard_up-StepUp :
      (new_id : String) (s : Session Q) (answer : Result Unit × Q)
      → StepUp s.inner (reshard_up monitor new_id s answer)
  unfolding reshard_up StepUp
  reshard_up-StepUp new_id s (err e, q) = refl
  reshard_up-StepUp new_id s (ok done, q) = finish_up-StepUp new_id _ s _ (
      length-sort_names (s.inner.iothreads ++ new_id ∷ [])
      ∙ length-append s.inner.iothreads (new_id ∷ [])
      ∙ omega arith)

  pub scale_up-StepUp : (s : Session Q) → StepUp s.inner (scale_up monitor s)
  unfolding scale_up
  scale_up-StepUp s =
      let (new_id, extra') = next_qemu_iothread_id s.inner.iothreads s.extra in
      reshard_up-StepUp new_id (record s { extra = extra' })
        (add_io_thread monitor new_id none s.guest)

  finish_down-StepDown :
      (remaining : List String) (s : Session Q) (answer : Result Unit × Q)
      → length s.inner.iothreads ≡ suc (length remaining)
      → StepDown s.inner (finish_down monitor remaining s answer)
  unfolding finish_down StepDown
  finish_down-StepDown remaining s (ok done, q) shorter = (refl, shorter)
  finish_down-StepDown remaining s (err e, q) shorter = refl

  delete_down-StepDown :
      (doomed : String) (remaining : List String) (s : Session Q) (answer : Result Unit × Q)
      → length s.inner.iothreads ≡ suc (length remaining)
      → StepDown s.inner (delete_down monitor doomed remaining s answer)
  unfolding delete_down StepDown
  delete_down-StepDown doomed remaining s (err e, q) shorter = refl
  delete_down-StepDown doomed remaining s (ok done, q) shorter =
      finish_down-StepDown remaining s _ shorter

  scale_down_from-StepDown :
      (ids : List String) (s : Session Q)
      → s.inner.iothreads ≡ ids
      → StepDown s.inner (scale_down_from monitor ids s)
  unfolding scale_down_from StepDown
  scale_down_from-StepDown [] s held = refl
  scale_down_from-StepDown (id ∷ []) s held = refl
  scale_down_from-StepDown (id ∷ j ∷ js) s held =
      let (doomed, remaining) = split_last id (j ∷ js) in
      delete_down-StepDown doomed remaining s _
        (ap length held ∙ ap suc (sym (length-split_last id (j ∷ js))))

  pub scale_down-StepDown : (s : Session Q) → StepDown s.inner (scale_down monitor s)
  unfolding scale_down
  scale_down-StepDown s = scale_down_from-StepDown s.inner.iothreads s refl
