-- ===== src/Qemu/Client/Guest.antt =====
-- What the client relies on from a guest, and the states of a guest in which no queue is lost.
use io_thread_controller.Base.{
  ◌≡◌, refl, Bool, false, ◌||◌, Option, String, List, [], ◌∷◌, if◌then◌else◌, if_keeps,
}
use io_thread_controller.Base.Table.{same_id}
use io_thread_controller.Qemu.{Result, ok, err, VqMapping, IoThreadProperties}
use io_thread_controller.Base.Text.{is_blank}
use io_thread_controller.Qemu.Transport.{
  Monitor, Command, object_add, object_del, set_iothread_vq_mapping, query_blockstats_cmd,
  query_prometheus, qom_get, execute, execute_unit, forget, add_io_thread, del_io_thread,
  set_vq_mapping, send_mapping, set_fields,
}

-- The IOThread objects of a guest, and the mapping of the device at a path.
pub record GuestView (Q : Type 0) : Type 0 where
  pub has_object : Q → String → Bool
  pub mapping_of : Q → String → List VqMapping

module _ {Q : Type 0} (view : GuestView Q) where
  unfoldable pub SameObjects : Q → Q → Type 0
  SameObjects q q' = (j : String) → view.has_object q' j ≡ view.has_object q j

  unfoldable pub SameMappings : Q → Q → Type 0
  SameMappings q q' = (path : String) → view.mapping_of q' path ≡ view.mapping_of q path

  -- The documented effect of a QMP command that is not refused.
  unfoldable pub Effect : Command → Q → Q → Type 0
  Effect (object_add id fields) q q' =
      ((j : String) → view.has_object q' j ≡ (same_id id j || view.has_object q j))
      × SameMappings q q'
  Effect (object_del id) q q' =
      ((j : String) → view.has_object q' j ≡ (if same_id id j then false else view.has_object q j))
      × SameMappings q q'
  Effect (set_iothread_vq_mapping path mapping) q q' =
      SameObjects q q' × (view.mapping_of q' path ≡ mapping)
  Effect query_blockstats_cmd q q' = SameObjects q q' × SameMappings q q'
  Effect query_prometheus q q' = SameObjects q q' × SameMappings q q'
  Effect (qom_get path property) q q' = SameObjects q q' × SameMappings q q'

  -- A command that is refused changes nothing.
  unfoldable pub Answers : {A : Type 0} → (Q → Q → Type 0) → Q → Result A × Q → Type 0
  Answers effect q (ok answer, q') = effect q q'
  Answers effect q (err e, q') = SameObjects q q' × SameMappings q q'

  unfoldable pub Obeys : Monitor Q → Type 0
  Obeys monitor = (cmd : Command) (q : Q) → Answers (Effect cmd) q (execute monitor cmd q)

  forget-Answers :
      (effect : Q → Q → Type 0) (q q' : Q) (answer : Result String)
      → Answers effect q (answer, q')
      → Answers effect q (forget answer, q')
  unfolding Answers forget
  forget-Answers effect q q' (ok body) held = held
  forget-Answers effect q q' (err e) held = held

module _ {Q : Type 0} (view : GuestView Q) (monitor : Monitor Q) (obeys : Obeys view monitor) where
  execute_unit-Answers :
      (cmd : Command) (q : Q) → Answers view (Effect view cmd) q (execute_unit monitor cmd q)
  unfolding execute_unit Obeys
  execute_unit-Answers cmd q =
      let (answer, q') = execute monitor cmd q in
      forget-Answers view (Effect view cmd) q q' answer (obeys cmd q)

  pub add_io_thread-Answers :
      (id : String) (props : Option IoThreadProperties) (q : Q)
      → Answers view
          (Effect view (object_add id (set_fields props)))
          q
          (add_io_thread monitor id props q)
  unfolding add_io_thread Answers SameObjects SameMappings
  add_io_thread-Answers id props q =
      if_keeps (Answers view (Effect view (object_add id (set_fields props))) q) (is_blank id) _ _
        (λ blank. (λ j. refl, λ path. refl))
        (λ named. execute_unit-Answers (object_add id (set_fields props)) q)

  pub del_io_thread-Answers :
      (id : String) (q : Q)
      → Answers view (Effect view (object_del id)) q (del_io_thread monitor id q)
  unfolding del_io_thread Answers SameObjects SameMappings
  del_io_thread-Answers id q =
      if_keeps (Answers view (Effect view (object_del id)) q) (is_blank id) _ _
        (λ blank. (λ j. refl, λ path. refl)) (λ named. execute_unit-Answers (object_del id) q)

  send_mapping-Answers :
      (path : String) (mapping : List VqMapping) (q : Q)
      → Answers view
          (Effect view (set_iothread_vq_mapping path mapping))
          q
          (send_mapping monitor path mapping q)
  unfolding send_mapping Answers SameObjects SameMappings
  send_mapping-Answers path [] q = (λ j. refl, λ path'. refl)
  send_mapping-Answers path (m ∷ rest) q =
      execute_unit-Answers (set_iothread_vq_mapping path (m ∷ rest)) q

  pub set_vq_mapping-Answers :
      (path : String) (mapping : List VqMapping) (q : Q)
      → Answers view
          (Effect view (set_iothread_vq_mapping path mapping))
          q
          (set_vq_mapping monitor path mapping q)
  unfolding set_vq_mapping Answers SameObjects SameMappings
  set_vq_mapping-Answers path mapping q =
      if_keeps (Answers view (Effect view (set_iothread_vq_mapping path mapping)) q) (is_blank path)
        _ _ (λ blank. (λ j. refl, λ path'. refl)) (λ named. send_mapping-Answers path mapping q)
