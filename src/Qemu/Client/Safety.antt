-- ===== src/Qemu/Client/Safety.antt =====
-- The sessions in which every queue has an IOThread that exists.
pub mod Steps
use io_thread_controller.Base.{
  ℕ, suc, ◌≤◌, ◌<◌, ◌≡◌, refl, sym, ap, ◌∙◌, Bool, true, false, ◌||◌, none, String, List, [], ◌∷◌,
  ◌++◌, if◌then◌else◌, length, arith,
}
use io_thread_controller.Base.Table.{same_id, same_id_iff, contains_id}
use io_thread_controller.Qemu.{QemuError, Result, ok, err, VqMapping}
use io_thread_controller.Qemu.Mapping.{round_robin_vq_mapping}
use io_thread_controller.Qemu.Names.{next_qemu_iothread_id}
use io_thread_controller.Qemu.Names.Fresh.{IsLowest, next_qemu_iothread_id-IsLowest}
use io_thread_controller.Qemu.Transport.{
  Monitor, object_add, object_del, set_iothread_vq_mapping, add_io_thread, del_io_thread,
  set_vq_mapping, set_fields,
}
use io_thread_controller.Base.Sorting.{Distinct, sort_names, insert_name}
use io_thread_controller.Qemu.Client.{
  Session, set_guest, split_last, scale_up, reshard_up, finish_up, scale_down, scale_down_from,
  delete_down, finish_down,
}
use io_thread_controller.Qemu.Client.Pool.{
  mapped_names, round_robin-names, grown-Distinct, contains_id-grown, contains_id-split_last,
  split_last-Distinct,
}
use io_thread_controller.Qemu.Client.Guest.{
  GuestView, SameObjects, SameMappings, Effect, Answers, Obeys, add_io_thread-Answers,
  del_io_thread-Answers, set_vq_mapping-Answers,
}

module _ {Q : Type 0} (view : GuestView Q) where
  -- Every IOThread of a pool exists.
  unfoldable pub AllExist : List String → Q → Type 0
  AllExist ids q = (j : String) → contains_id j ids ≡ true → view.has_object q j ≡ true

  -- Every IOThread that the mapping of a device names is in the pool.
  unfoldable pub NamesPool : List String → String → Q → Type 0
  NamesPool ids path q =
      (j : String)
      → contains_id j (mapped_names (view.mapping_of q path)) ≡ true
      → contains_id j ids ≡ true

  unfoldable pub IsSafe : Session Q → Type 0
  IsSafe s =
      AllExist s.inner.iothreads s.guest
      × NamesPool s.inner.iothreads s.inner.device_path s.guest
      × Distinct s.inner.iothreads

  -- The queues are spread over the pool.
  unfoldable pub IsSpread : Session Q → Type 0
  IsSpread s =
      view.mapping_of s.guest s.inner.device_path
      ≡ round_robin_vq_mapping s.inner.iothreads s.inner.vq_count

  -- A step that succeeds leaves the queues spread; each leaves a safe session.
  unfoldable pub StepSafe : Result ℕ × Session Q → Type 0
  StepSafe (ok new, s) = IsSafe s × IsSpread s
  StepSafe (err e, s) = IsSafe s

  pub AllExist-same :
      (ids : List String) (q q' : Q) → SameObjects view q q' → AllExist ids q → AllExist ids q'
  unfolding AllExist SameObjects
  AllExist-same ids q q' same exist j held = same j ∙ exist j held

  pub NamesPool-same :
      (ids : List String) (path : String) (q q' : Q)
      → SameMappings view q q'
      → NamesPool ids path q
      → NamesPool ids path q'
  unfolding NamesPool SameMappings
  NamesPool-same ids path q q' same names j named =
      names j (sym (ap (λ mapping. contains_id j (mapped_names mapping)) (same path)) ∙ named)

  pub NamesPool-spread :
      (ids : List String) (path : String) (vq_count : ℕ) (q : Q)
      → view.mapping_of q path ≡ round_robin_vq_mapping ids vq_count
      → NamesPool ids path q
  unfolding NamesPool
  NamesPool-spread ids path vq_count q spread j named =
      round_robin-names j ids vq_count
        (sym (ap (λ mapping. contains_id j (mapped_names mapping)) spread) ∙ named)

  -- Deleting an IOThread that is not in the pool.
  pub AllExist-del :
      (ids : List String) (id : String) (q q' : Q)
      → contains_id id ids ≡ false
      → ((j : String)
          → view.has_object q' j ≡ (if same_id id j then false else view.has_object q j))
      → AllExist ids q
      → AllExist ids q'
  unfolding AllExist
  AllExist-del ids id q q' absent deleted exist j held =
      ground (arith, absent, held, deleted j, exist j held, same_id_iff id j)

  -- A pool with a new IOThread.
  pub AllExist-grown :
      (ids : List String) (id : String) (q q' : Q)
      → ((j : String) → view.has_object q' j ≡ (same_id id j || view.has_object q j))
      → AllExist ids q
      → AllExist ids q' × AllExist (sort_names (ids ++ id ∷ [])) q'
  unfolding AllExist
  AllExist-grown ids id q q' added exist = (
    λ j held. ground (arith, added j, exist j held),
    λ j held. ground (arith, added j, exist j, held, contains_id-grown j id ids),
  )

  -- A pool that has another's IOThreads and one more.
  pub AllExist-fewer :
      (fewer ids : List String) (id : String) (q : Q)
      → ((j : String) → contains_id j ids ≡ (same_id id j || contains_id j fewer))
      → AllExist ids q
      → AllExist fewer q
  unfolding AllExist
  AllExist-fewer fewer ids id q parts exist j held = ground (arith, parts j, exist j, held)

  pub NamesPool-fewer :
      (fewer ids : List String) (id path : String) (q : Q)
      → ((j : String) → contains_id j ids ≡ (same_id id j || contains_id j fewer))
      → NamesPool fewer path q
      → NamesPool ids path q
  unfolding NamesPool
  NamesPool-fewer fewer ids id path q parts names j named = ground (arith, parts j, names j named)

  pub IsSafe-Distinct : (s : Session Q) → IsSafe s → Distinct s.inner.iothreads
  unfolding IsSafe
  IsSafe-Distinct s (exist, names, distinct) = distinct
