-- ===== src/Qemu/Client/Safety/Steps.antt =====
-- A step of a loop of `set_thread_count` keeps a session safe, whatever the guest refuses.
use io_thread_controller.Base.{
  ℕ, ◌<◌, ◌≡◌, refl, sym, ap, ◌∙◌, false, ◌||◌, none, String, List, [], ◌∷◌, ◌++◌, length,
}
use io_thread_controller.Base.Table.{same_id, contains_id}
use io_thread_controller.Qemu.{QemuError, Result, ok, err}
use io_thread_controller.Qemu.Mapping.{round_robin_vq_mapping}
use io_thread_controller.Qemu.Names.{next_qemu_iothread_id}
use io_thread_controller.Qemu.Names.Fresh.{IsLowest, next_qemu_iothread_id-IsLowest}
use io_thread_controller.Qemu.Transport.{
  Monitor, object_add, object_del, set_iothread_vq_mapping, add_io_thread, del_io_thread,
  set_fields,
}
use io_thread_controller.Base.Sorting.{Distinct, sort_names}
use io_thread_controller.Qemu.Client.{
  Session, set_guest, split_last, scale_up, reshard_up, finish_up, scale_down, scale_down_from,
  delete_down, finish_down,
}
use io_thread_controller.Qemu.Client.Pool.{
  grown-Distinct, contains_id-split_last, split_last-Distinct,
}
use io_thread_controller.Qemu.Client.Guest.{
  GuestView, SameMappings, Effect, Answers, Obeys, add_io_thread-Answers, del_io_thread-Answers,
  set_vq_mapping-Answers,
}
use io_thread_controller.Qemu.Client.Safety.{
  AllExist, IsSafe, IsSpread, StepSafe, AllExist-same, NamesPool-same, NamesPool-spread,
  AllExist-del, AllExist-grown, AllExist-fewer, NamesPool-fewer, IsSafe-Distinct,
}

module _ {Q : Type 0} (view : GuestView Q) (monitor : Monitor Q) (obeys : Obeys view monitor) where
  -- Taking the new IOThread back.
  rolled_back :
      (new_id : String) (s : Session Q) (e : QemuError) (answer : Result Unit × Q)
      → contains_id new_id s.inner.iothreads ≡ false
      → IsSafe view s
      → Answers view (Effect view (object_del new_id)) s.guest answer
      → IsSafe view (set_guest answer.1 s)
  unfolding IsSafe Answers Effect
  rolled_back new_id s e (ok done, q) fresh (exist, names, distinct) (deleted, same) = (
    AllExist-del view s.inner.iothreads new_id s.guest q fresh deleted exist,
    NamesPool-same view s.inner.iothreads s.inner.device_path s.guest q same names,
    distinct,
  )
  rolled_back new_id s e (err e', q) fresh (exist, names, distinct) (same_objects, same) = (
    AllExist-same view s.inner.iothreads s.guest q same_objects exist,
    NamesPool-same view s.inner.iothreads s.inner.device_path s.guest q same names,
    distinct,
  )

  -- After `at`, the guest that has the new IOThread.
  finish_up-StepSafe :
      (new_id : String) (s : Session Q) (at : Q) (answer : Result Unit × Q)
      → let new_set = sort_names (s.inner.iothreads ++ new_id ∷ []) in
        let mapping = round_robin_vq_mapping new_set s.inner.vq_count in
        contains_id new_id s.inner.iothreads ≡ false
        → IsSafe view (set_guest at s)
        → AllExist view new_set at
        → Answers view (Effect view (set_iothread_vq_mapping s.inner.device_path mapping)) at answer
        → StepSafe view (finish_up monitor new_id new_set s answer)
  unfolding finish_up StepSafe IsSafe IsSpread Answers Effect
  finish_up-StepSafe new_id s at (ok done, q) fresh (exist, names, distinct) all_exist
        (same, spread) =
      (
        (
          AllExist-same view _ at q same all_exist,
          NamesPool-spread view _ s.inner.device_path s.inner.vq_count q spread,
          grown-Distinct new_id s.inner.iothreads fresh distinct,
        ),
        spread,
      )
  finish_up-StepSafe new_id s at (err e, q) fresh (exist, names, distinct) all_exist
        (same_objects, same) =
      rolled_back new_id (set_guest q s) e (del_io_thread monitor new_id q) fresh
        (
          AllExist-same view s.inner.iothreads at q same_objects exist,
          NamesPool-same view s.inner.iothreads s.inner.device_path at q same names,
          distinct,
        )
        (del_io_thread-Answers view monitor obeys new_id q)

  reshard_up-StepSafe :
      (new_id : String) (s : Session Q) (answer : Result Unit × Q)
      → contains_id new_id s.inner.iothreads ≡ false
      → IsSafe view s
      → Answers view (Effect view (object_add new_id (set_fields none))) s.guest answer
      → StepSafe view (reshard_up monitor new_id s answer)
  unfolding reshard_up StepSafe IsSafe Answers Effect
  reshard_up-StepSafe new_id s (err e, q) fresh (exist, names, distinct) (same_objects, same) = (
    AllExist-same view s.inner.iothreads s.guest q same_objects exist,
    NamesPool-same view s.inner.iothreads s.inner.device_path s.guest q same names,
    distinct,
  )
  reshard_up-StepSafe new_id s (ok done, q) fresh (exist, names, distinct) (added, same) =
      let (still, all_exist) = AllExist-grown view s.inner.iothreads new_id s.guest q added exist in
      finish_up-StepSafe new_id s q _ fresh
        (
          still,
          NamesPool-same view s.inner.iothreads s.inner.device_path s.guest q same names,
          distinct,
        )
        all_exist (set_vq_mapping-Answers view monitor obeys s.inner.device_path _ q)

  scale_up_named :
      (s : Session Q) (named : String × ℕ)
      → IsLowest s.inner.iothreads s.extra named
      → IsSafe view s
      → StepSafe view (
          reshard_up monitor named.0
            (record s { extra = named.1 })
            (add_io_thread monitor named.0 none s.guest))
  unfolding IsLowest IsSafe
  scale_up_named s (new_id, extra') (m, near, is_m, kept, fresh, taken) safe =
      reshard_up-StepSafe new_id (record s { extra = extra' }) _ fresh safe
        (add_io_thread-Answers view monitor obeys new_id none s.guest)

  pub scale_up-StepSafe :
      (s : Session Q)
      → length s.inner.iothreads < 1024
      → IsSafe view s
      → StepSafe view (scale_up monitor s)
  unfolding scale_up
  scale_up-StepSafe s room safe =
      scale_up_named s (next_qemu_iothread_id s.inner.iothreads s.extra)
        (next_qemu_iothread_id-IsLowest s.inner.iothreads s.extra room) safe

  -- After `at`, the guest whose queues are spread over the remaining IOThreads.
  finish_down-StepSafe :
      (doomed : String) (remaining : List String) (s : Session Q) (at : Q)
      (answer : Result Unit × Q)
      → ((j : String)
          → contains_id j s.inner.iothreads ≡ (same_id doomed j || contains_id j remaining))
      → (contains_id doomed remaining ≡ false) × Distinct remaining
      → Distinct s.inner.iothreads
      → AllExist view s.inner.iothreads at
      → view.mapping_of at s.inner.device_path ≡ round_robin_vq_mapping remaining s.inner.vq_count
      → Answers view (Effect view (object_del doomed)) at answer
      → StepSafe view (finish_down monitor remaining s answer)
  unfolding finish_down StepSafe IsSafe IsSpread Answers Effect SameMappings
  finish_down-StepSafe doomed remaining s at (ok done, q) parts (gone, distinct) whole exist spread
        (deleted, same) =
      let spread' = same s.inner.device_path ∙ spread in
      (
        (
          AllExist-del view remaining doomed at q gone deleted
              (AllExist-fewer view remaining s.inner.iothreads doomed at parts exist),
          NamesPool-spread view remaining s.inner.device_path s.inner.vq_count q spread',
          distinct,
        ),
        spread',
      )
  finish_down-StepSafe doomed remaining s at (err e, q) parts (gone, distinct) whole exist spread
        (same_objects, same) =
      (
        AllExist-same view s.inner.iothreads at q same_objects exist,
        NamesPool-fewer view remaining s.inner.iothreads doomed s.inner.device_path q parts (
            NamesPool-spread view remaining s.inner.device_path s.inner.vq_count q
              (same s.inner.device_path ∙ spread)),
        whole,
      )

  delete_down-StepSafe :
      (doomed : String) (remaining : List String) (s : Session Q) (answer : Result Unit × Q)
      → ((j : String)
          → contains_id j s.inner.iothreads ≡ (same_id doomed j || contains_id j remaining))
      → (contains_id doomed remaining ≡ false) × Distinct remaining
      → IsSafe view s
      → Answers view
          (Effect view (
            set_iothread_vq_mapping s.inner.device_path
              (round_robin_vq_mapping remaining s.inner.vq_count)))
          s.guest
          answer
      → StepSafe view (delete_down monitor doomed remaining s answer)
  unfolding delete_down StepSafe IsSafe Answers Effect
  delete_down-StepSafe doomed remaining s (err e, q) parts apart (exist, names, distinct)
        (same_objects, same) =
      (
        AllExist-same view s.inner.iothreads s.guest q same_objects exist,
        NamesPool-same view s.inner.iothreads s.inner.device_path s.guest q same names,
        distinct,
      )
  delete_down-StepSafe doomed remaining s (ok done, q) parts apart (exist, names, distinct)
        (same, spread) =
      finish_down-StepSafe doomed remaining s q _ parts apart distinct
        (AllExist-same view s.inner.iothreads s.guest q same exist) spread
        (del_io_thread-Answers view monitor obeys doomed q)

  scale_down_from-StepSafe :
      (ids : List String) (s : Session Q)
      → s.inner.iothreads ≡ ids
      → IsSafe view s
      → StepSafe view (scale_down_from monitor ids s)
  unfolding scale_down_from StepSafe
  scale_down_from-StepSafe [] s held safe = safe
  scale_down_from-StepSafe (id ∷ []) s held safe = safe
  scale_down_from-StepSafe (id ∷ j ∷ js) s held safe =
      let (doomed, remaining) = split_last id (j ∷ js) in
      delete_down-StepSafe doomed remaining s _
        (λ k. ap (contains_id k) held ∙ contains_id-split_last k id (j ∷ js))
        (split_last-Distinct id (j ∷ js) (rw (sym held) (IsSafe-Distinct view s safe))) safe
        (set_vq_mapping-Answers view monitor obeys s.inner.device_path _ s.guest)

  pub scale_down-StepSafe : (s : Session Q) → IsSafe view s → StepSafe view (scale_down monitor s)
  unfolding scale_down
  scale_down-StepSafe s safe = scale_down_from-StepSafe s.inner.iothreads s refl safe
