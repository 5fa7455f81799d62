-- ===== src/Daemon/Ownership.antt =====
-- Over any run of the daemon, the registry and the statuses of the VMs agree.
use io_thread_controller.Base.{
  ℕ, ◌≡◌, refl, sym, ap, Bool, Option, none, some, List, [], ◌∷◌, String, is_some, ltb, ◌==◌,
  if_keeps, elim_keeps, arith,
}
use io_thread_controller.Base.Sorting.{Distinct}
use io_thread_controller.Base.Table.{lookup}
use io_thread_controller.Config.{Config}
use io_thread_controller.State.{Result, ok, err, VmOwnership, classification, validate, load}
use io_thread_controller.State.Ownership.{IsApart, validate-IsApart}
use io_thread_controller.State.Store.{load-validate}
use io_thread_controller.Instance.{InstanceStatus}
use io_thread_controller.Controller.{Controller}
use io_thread_controller.Controller.Sound.{
  Agrees, Follows, IsTracked, insert-IsTracked, remove-IsTracked, update-IsTracked,
}
use io_thread_controller.Controller.Registry.{RegistryError}
use io_thread_controller.Controller.Inventory.{
  sync_instances, add_one, add_all, remove_one, remove_all,
}
use io_thread_controller.Controller.Manual.{handle_set_thread_count, set_answer, ManualError}
use io_thread_controller.Controller.Manual.All.{handle_set_all_thread_counts, set_each}
use io_thread_controller.Controller.Requests.{
  DbusRequest, set_thread_count_request, set_all_thread_counts_request, get_stats, get_snapshot,
  get_version, get_io_thread_vq_mapping, add_io_thread_request, del_io_thread_request,
  set_io_thread_vq_mapping, handle_dbus_request,
}
use io_thread_controller.Controller.Tick.{Environment}
use io_thread_controller.Controller.Tick.Soundness.{IsSound, IsDiskError, tick-IsSound}
use io_thread_controller.Daemon.{
  DaemonError, registry, watch, Event, poll, path_changed, watch_failed, dbus, DaemonState,
  new_controller, new, sync, after_tick, handle_event, Reachable, started, handled,
}

Agrees-refl : (known : Option Bool) → Agrees known known
unfolding Agrees
Agrees-refl none = tt
Agrees-refl (some managed) = refl

module _ {F E W D : Type 0} (env : Environment F E W D) where
  add_one-IsSound :
      (vm : String × InstanceStatus F) (added : ℕ) (c : Controller F E) (w : W)
      → IsSound c
      → IsSound (add_one env.eng env.world vm (added, c, w)).1
  unfolding add_one IsSound Follows
  add_one-IsSound (id, status) added c w (tracked, valid) =
      if_keeps (λ (r : ℕ × Controller F E × W). IsSound r.1) (is_some (lookup id c.instances)) _ _
        (λ known. (tracked, valid))
        (λ unknown. (
          insert-IsTracked c.vm_ownership c.instances id _
              (Agrees-refl (classification c.vm_ownership id)) tracked,
          valid,
        ))

  add_all-IsSound :
      (vms : List (String × InstanceStatus F)) (state : ℕ × Controller F E × W)
      → IsSound state.1
      → IsSound (add_all env.eng env.world vms state).1
  unfolding add_all
  add_all-IsSound [] state sound = sound
  add_all-IsSound (vm ∷ vms) (added, c, w) sound =
      add_all-IsSound vms (add_one env.eng env.world vm (added, c, w))
        (add_one-IsSound vm added c w sound)

  remove_one-IsSound :
      (id : String) (c : Controller F E) (w : W)
      → IsSound c
      → IsSound (remove_one env.eng env.world id (c, w)).0
  unfolding remove_one IsSound
  remove_one-IsSound id c w (tracked, valid) =
      elim_keeps (λ (r : Controller F E × W). IsSound r.0) (lookup id c.instances) _ _
        (λ _. (tracked, valid))
        (λ status _. (remove-IsTracked c.vm_ownership c.instances id tracked, valid))

  remove_all-IsSound :
      (ids : List String) (state : Controller F E × W)
      → IsSound state.0
      → IsSound (remove_all env.eng env.world ids state).0
  unfolding remove_all
  remove_all-IsSound [] state sound = sound
  remove_all-IsSound (id ∷ ids) (c, w) sound =
      remove_all-IsSound ids (remove_one env.eng env.world id (c, w))
        (remove_one-IsSound id c w sound)

  sync-IsSound :
      (discovered : List (String × InstanceStatus F)) (s : DaemonState F E W D)
      → IsSound s.controller
      → IsSound (sync env discovered s).controller
  unfolding sync sync_instances
  sync-IsSound discovered s sound =
      remove_all-IsSound _ _ (add_all-IsSound discovered (0, s.controller, s.outside) sound)

  set_answer-IsSound :
      (c : Controller F E) (vm : String) (status : InstanceStatus F) (threads : ℕ) (sticky : Bool)
      (answer : Option String × W)
      → lookup vm c.instances ≡ some status
      → IsSound c
      → IsSound (set_answer env.world c vm status threads sticky answer).1
  unfolding set_answer IsSound
  set_answer-IsSound c vm status threads sticky (some error, w) found sound = sound
  set_answer-IsSound c vm status threads sticky (none, w) found (tracked, valid) =
      (update-IsTracked c.vm_ownership c.instances vm status _ found refl tracked, valid)

  set_one-IsSound :
      (c : Controller F E) (vm : String) (threads : ℕ) (sticky : Bool) (w : W)
      → IsSound c
      → IsSound (handle_set_thread_count env.world c vm threads sticky w).1
  unfolding handle_set_thread_count
  set_one-IsSound c vm threads sticky w sound =
      elim_keeps (λ (r : Option ManualError × Controller F E × W). IsSound r.1)
        (lookup vm c.instances) _ _ (λ _. sound)
        (λ status found.
          if_keeps (λ (r : Option ManualError × Controller F E × W). IsSound r.1) (threads == 0) _ _
            (λ _. sound)
            (λ _.
              if_keeps (λ (r : Option ManualError × Controller F E × W). IsSound r.1)
                (ltb status.vcpu_count threads) _ _ (λ _. sound)
                (λ _. set_answer-IsSound c vm status threads sticky _ found sound)))

  set_each-IsSound :
      (threads : ℕ) (sticky : Bool) (ids : List String) (c : Controller F E) (w : W)
      → IsSound c
      → IsSound (set_each env.world threads sticky ids c w).1
  unfolding set_each
  set_each-IsSound threads sticky [] c w sound = sound
  set_each-IsSound threads sticky (id ∷ ids) c w sound =
      let (error, c', w') = handle_set_thread_count env.world c id threads sticky w in
      set_each-IsSound threads sticky ids c' w' (set_one-IsSound c id threads sticky w sound)

  handle_dbus_request-IsSound :
      (request : DbusRequest) (c : Controller F E) (w : W)
      → IsSound c
      → IsSound
          (handle_dbus_request env.fl env.median env.pid_of env.decode_mapping env.world request c
            w).1
  unfolding handle_dbus_request handle_set_all_thread_counts
  handle_dbus_request-IsSound (set_thread_count_request vm threads sticky) c w sound =
      set_one-IsSound c vm threads sticky w sound
  handle_dbus_request-IsSound (set_all_thread_counts_request threads sticky) c w sound =
      set_each-IsSound threads sticky _ c w sound
  handle_dbus_request-IsSound get_stats c w sound = sound
  handle_dbus_request-IsSound get_snapshot c w sound = sound
  handle_dbus_request-IsSound get_version c w sound = sound
  handle_dbus_request-IsSound (get_io_thread_vq_mapping vm device) c w sound = sound
  handle_dbus_request-IsSound (add_io_thread_request vm id poll_max_ns) c w sound = sound
  handle_dbus_request-IsSound (del_io_thread_request vm id) c w sound = sound
  handle_dbus_request-IsSound (set_io_thread_vq_mapping vm device mapping_json) c w sound = sound

  -- No error, or one of a call on the disk, of the encoding of the registry, or of the watch on the
  -- directories.
  unfoldable pub IsOutsideError : Option DaemonError → Type 0
  IsOutsideError none = Unit
  IsOutsideError (some (registry e)) = IsDiskError (some e)
  IsOutsideError (some (watch message)) = Unit

  -- What an event leaves.
  unfoldable pub IsHandled : Option DaemonError × DaemonState F E W D → Type 0
  IsHandled (error, s) =
      IsOutsideError error × IsSound s.controller × IsApart s.controller.vm_ownership

  IsSound-IsApart : (c : Controller F E) → IsSound c → IsApart c.vm_ownership
  unfolding IsSound
  IsSound-IsApart c (tracked, valid) = validate-IsApart c.vm_ownership valid

  after_tick-IsHandled :
      (discovered : List (String × InstanceStatus F))
      (r : Option RegistryError × Controller F E × D × W)
      → IsDiskError r.0 × IsSound r.1
      → IsHandled (after_tick env discovered r)
  unfolding after_tick IsHandled IsOutsideError
  after_tick-IsHandled discovered (some e, c, d, w) (fine, sound) =
      (fine, sound, IsSound-IsApart c sound)
  after_tick-IsHandled discovered (none, c, d, w) (fine, sound) =
      let synced = sync-IsSound discovered _ sound in (tt, synced, IsSound-IsApart _ synced)

  handle_event-IsHandled :
      (event : Event F) (s : DaemonState F E W D)
      → IsSound s.controller
      → IsHandled (handle_event env event s)
  unfolding handle_event IsHandled IsOutsideError
  handle_event-IsHandled (poll discovered) s sound =
      after_tick-IsHandled discovered _ (tick-IsSound env s.controller s.disk s.outside sound)
  handle_event-IsHandled (path_changed discovered) s sound =
      let synced = sync-IsSound discovered s sound in (tt, synced, IsSound-IsApart _ synced)
  handle_event-IsHandled (watch_failed message) s sound =
      (tt, sound, IsSound-IsApart s.controller sound)
  handle_event-IsHandled (dbus request) s sound =
      let served = handle_dbus_request-IsSound request s.controller s.outside sound in
      (tt, served, IsSound-IsApart _ served)

  empty-IsSound :
      (c : Controller F E) (own : VmOwnership)
      → c.instances ≡ []
      → c.vm_ownership ≡ own
      → validate own ≡ ok tt
      → IsSound c
  unfolding IsSound IsTracked Distinct
  empty-IsSound c own empty loaded valid = rw (empty, loaded) ((tt, tt), valid)

  loaded-IsSound :
      (cfg : Config F) (engine : E) (d : D) (c : Controller F E) (r : Result VmOwnership)
      → load env.fs env.json env.store d ≡ r
      → new_controller env cfg engine r ≡ ok c
      → IsSound c
  unfolding new_controller IsSound IsTracked
  loaded-IsSound cfg engine d c (err e) loaded made = absurd (ground (arith, made))
  loaded-IsSound cfg engine d c (ok own) loaded made =
      empty-IsSound c own (ground (arith, made)) (ground (arith, made))
        (load-validate env.fs env.json env.store d own loaded)

  still-IsSound :
      (s s' : DaemonState F E W D) (event : Event F)
      → handle_event env event s ≡ (none, s')
      → IsHandled (handle_event env event s)
      → IsSound s'.controller
  unfolding IsHandled
  still-IsSound s s' event ends (fine, sound, apart) =
      rw (sym (ap (λ (r : Option DaemonError × DaemonState F E W D). r.1) ends)) sound

  reachable-IsSound :
      (cfg : Config F) (engine : E) {s : DaemonState F E W D}
      → Reachable env cfg engine s
      → IsSound s.controller
  unfolding new IsHandled
  reachable-IsSound cfg engine (started d w c discovered made) =
      sync-IsSound discovered _
        (loaded-IsSound cfg engine d c (load env.fs env.json env.store d) refl made)
  reachable-IsSound cfg engine (handled s s' event before ends) =
      still-IsSound s s' event ends
        (handle_event-IsHandled event s (reachable-IsSound cfg engine before))

  -- Whatever is discovered, measured, asked for and decided, and whatever fails, in every state that
  -- the daemon can come to, no VM is in the registry's managed and in its unmanaged set, every tracked
  -- VM is tracked once, and what the registry says of it its status says. The next event keeps this,
  -- and ends the daemon only with an error of a call on the disk, of the encoding of the registry,
  -- or of the watch on the directories: no conflict of ownership ever does.
  pub reachable-IsHandled :
      (cfg : Config F) (engine : E) (s : DaemonState F E W D) (event : Event F)
      → Reachable env cfg engine s
      → IsSound s.controller
        × IsApart s.controller.vm_ownership
        × IsHandled (handle_event env event s)
  reachable-IsHandled cfg engine s event reached =
      let sound = reachable-IsSound cfg engine reached in
      (sound, IsSound-IsApart s.controller sound, handle_event-IsHandled event s sound)
