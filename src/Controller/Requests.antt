-- ===== src/Controller/Requests.antt =====
-- src/controller.rs: `handle_dbus_request`, over the requests of src/dbus.rs. A reply is what is sent,
-- before it is text.
use io_thread_controller.Base.{ℕ, Bool, Option, none, some, List, String, is_some, if◌then◌else◌}
use io_thread_controller.Base.Table.{lookup}
use io_thread_controller.Float.{Float}
use io_thread_controller.Instance.{World}
use io_thread_controller.Qemu.{ℤ}
use io_thread_controller.Controller.{Controller}
use io_thread_controller.Controller.Manual.{ManualError, handle_set_thread_count}
use io_thread_controller.Controller.Manual.All.{Summary, handle_set_all_thread_counts}
use io_thread_controller.Controller.Snapshot.{
  SnapshotVm, StatsVm, handle_get_snapshot, handle_get_stats,
}

pub data DbusRequest : Type 0 where
  set_thread_count_request : (vm : String) → (threads : ℕ) → (sticky : Bool) → DbusRequest
  set_all_thread_counts_request : (threads : ℕ) → (sticky : Bool) → DbusRequest
  get_stats : DbusRequest
  get_snapshot : DbusRequest
  get_version : DbusRequest
  get_io_thread_vq_mapping : (vm device : String) → DbusRequest
  add_io_thread_request : (vm id : String) → (poll_max_ns : ℤ) → DbusRequest
  del_io_thread_request : (vm id : String) → DbusRequest
  set_io_thread_vq_mapping : (vm device mapping_json : String) → DbusRequest

-- The errors of the requests on IOThreads.
pub data IoThreadError : Type 0 where
  unknown_io_vm : (vm : String) → IoThreadError
  not_supported : (operation : String) → IoThreadError
  malformed_mapping : (error : String) → IoThreadError

pub data DbusReply (F : Type 0) : Type 0 where
  set_reply : Option ManualError → DbusReply F
  set_all_reply : ℕ → Summary → DbusReply F
  stats_reply : ℕ → List (StatsVm F) → DbusReply F
  snapshot_reply : List (SnapshotVm F) → DbusReply F
  version_reply : DbusReply F
  io_thread_error : IoThreadError → DbusReply F

-- The four operations of `InstanceClient` on IOThreads, by the name in their default answer: a call on
-- `Instance::client`, a boxed client, resolves to the defaults.
unfoldable pub default_answer :
    {F E : Type 0} → Controller F E → (vm operation : String) → DbusReply F
default_answer c vm operation =
    if is_some (lookup vm c.instances)
    then io_thread_error (not_supported operation)
    else io_thread_error (unknown_io_vm vm)

module _ {F E W : Type 0} (fl : Float F) (median : List F → F) (pid_of : String → ℕ)
    (decode_mapping : String → Option String) (world : World W) where
  -- `decode_mapping` is serde's error for a text that is no mapping, none for a mapping.
  unfoldable pub answer_mapping : Controller F E → (vm mapping_json : String) → DbusReply F
  answer_mapping c vm mapping_json = elim (decode_mapping mapping_json) [
    | some error ↦ io_thread_error (malformed_mapping error)
    | none ↦ default_answer c vm "set IOThread virtqueue mapping"
  ]

  unfoldable pub handle_dbus_request :
      DbusRequest → Controller F E → W → DbusReply F × Controller F E × W
  handle_dbus_request (set_thread_count_request vm threads sticky) c w =
      let (error, c', w') = handle_set_thread_count world c vm threads sticky w in
      (set_reply error, c', w')
  handle_dbus_request (set_all_thread_counts_request threads sticky) c w =
      let (failed, summary, c', w') = handle_set_all_thread_counts world c threads sticky w in
      (set_all_reply failed summary, c', w')
  handle_dbus_request get_stats c w =
      let (tick, vms) = handle_get_stats c in (stats_reply tick vms, c, w)
  handle_dbus_request get_snapshot c w =
      (snapshot_reply (handle_get_snapshot fl median pid_of c), c, w)
  handle_dbus_request get_version c w = (version_reply, c, w)
  handle_dbus_request (get_io_thread_vq_mapping vm device) c w =
      (default_answer c vm "get IOThread virtqueue mapping", c, w)
  handle_dbus_request (add_io_thread_request vm id poll_max_ns) c w =
      (default_answer c vm "add IOThread", c, w)
  handle_dbus_request (del_io_thread_request vm id) c w =
      (default_answer c vm "delete IOThread", c, w)
  handle_dbus_request (set_io_thread_vq_mapping vm device mapping_json) c w =
      (answer_mapping c vm mapping_json, c, w)
