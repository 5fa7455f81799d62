-- ===== src/Daemon.antt =====
-- src/daemon.rs: the event loop of `run` as a step relation, with `Controller::new` of src/controller.rs.
-- What discovery finds is part of an event. Signals end the loop.
pub mod Ownership
mod Examples
use io_thread_controller.Base.{ℕ, Bool, Option, none, some, List, [], String, ◌≡◌}
use io_thread_controller.Float.{zero_f}
use io_thread_controller.Config.{Config}
use io_thread_controller.State.{Result, ok, err, load, VmOwnership}
use io_thread_controller.Instance.{InstanceStatus}
use io_thread_controller.Controller.{Controller}
use io_thread_controller.Controller.Registry.{RegistryError}
use io_thread_controller.Controller.Inventory.{sync_instances}
use io_thread_controller.Controller.Requests.{DbusRequest, handle_dbus_request}
use io_thread_controller.Controller.Tick.{Environment, tick}

-- The errors of the two `?` in the loop: of a tick, and of an event of inotify.
pub data DaemonError : Type 0 where
  registry : RegistryError → DaemonError
  watch : String → DaemonError

-- The branches of the loop, with what discovery finds. An event of inotify may be an error.
pub data Event (F : Type 0) : Type 0 where
  poll : (discovered : List (String × InstanceStatus F)) → Event F
  path_changed : (discovered : List (String × InstanceStatus F)) → Event F
  watch_failed : String → Event F
  dbus : DbusRequest → Event F

-- The controller, the disk, and all else outside.
pub record DaemonState (F E W D : Type 0) : Type 0 where
  pub controller : Controller F E
  pub disk : D
  pub outside : W

module _ {F E W D : Type 0} (env : Environment F E W D) where
  -- `Controller::new`, after the load.
  unfoldable pub new_controller : Config F → E → Result VmOwnership → Result (Controller F E)
  new_controller cfg engine (err e) = err e
  new_controller cfg engine (ok own) = ok (record {
    cfg = cfg;
    engine = engine;
    vm_ownership = own;
    instances = [];
    tick_index = 0;
    last_host_cpu = none;
    host_cpu_util = zero_f env.fl;
  })

  unfoldable pub new : Config F → E → D → Result (Controller F E)
  new cfg engine d = new_controller cfg engine (load env.fs env.json env.store d)

  unfoldable pub sync : List (String × InstanceStatus F) → DaemonState F E W D → DaemonState F E W D
  sync discovered s =
      let (added, removed, c, w) =
        sync_instances env.eng env.world s.controller discovered s.outside in
      record s { controller = c; outside = w }

  -- The `?` on the tick, and the discovery after it.
  unfoldable pub after_tick :
      List (String × InstanceStatus F)
      → Option RegistryError × Controller F E × D × W
      → Option DaemonError × DaemonState F E W D
  after_tick discovered (some e, c, d, w) =
      (some (registry e), record { controller = c; disk = d; outside = w })
  after_tick discovered (none, c, d, w) =
      (none, sync discovered (record { controller = c; disk = d; outside = w }))

  -- One pass of the loop: the error that ends the daemon, if any, and the state after.
  unfoldable pub handle_event :
      Event F → DaemonState F E W D → Option DaemonError × DaemonState F E W D
  handle_event (poll discovered) s = after_tick discovered (tick env s.controller s.disk s.outside)
  handle_event (path_changed discovered) s = (none, sync discovered s)
  handle_event (watch_failed message) s = (some (watch message), s)
  handle_event (dbus request) s =
      let (reply, c, w) =
        handle_dbus_request env.fl env.median env.pid_of env.decode_mapping env.world request
          s.controller s.outside in
      (none, record s { controller = c; outside = w })

  -- The states that the loop can come to, from the registry that the disk holds at the start.
  pub data Reachable (cfg : Config F) (engine : E) : DaemonState F E W D → Type 0 where
    started :
        (d : D) (w : W) (c : Controller F E) (discovered : List (String × InstanceStatus F))
        → new cfg engine d ≡ ok c
        → Reachable cfg engine (sync discovered (record { controller = c; disk = d; outside = w }))
    handled :
        (s s' : DaemonState F E W D) (event : Event F)
        → Reachable cfg engine s
        → handle_event event s ≡ (none, s')
        → Reachable cfg engine s'
