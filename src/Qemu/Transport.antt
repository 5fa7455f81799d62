-- ===== src/Qemu/Transport.antt =====
-- src/backends/qemu/libvirt.rs: `LibvirtQmp`. Its methods build a command and read the answer;
-- libvirt's `virDomainQemuMonitorCommand` and serde's decoding of JSON are a `Monitor`. A `Command`
-- stands for the JSON value that is sent, which serialises without errors.
pub mod Blockstats
use io_thread_controller.Base.{
  ℕ, Bool, true, false, ◌&&◌, ◌||◌, Option, none, some, String, List, [], ◌∷◌, ◌++◌ as append, ◌==◌,
  leb, if◌then◌else◌,
}
use Prim.Native.Char.{Char, code}
use Prim.Native.String.{[] as empty, ◌∷◌ as cons, ◌++◌}
use io_thread_controller.Base.Table.{same_id}
use io_thread_controller.Base.Text.{is_blank}
use io_thread_controller.Qemu.{
  ErrorKind, QemuError, io, qmp_error, parse, Result, ok, err, VqMapping, IoThreadProperties, ℤ,
}

-- `{"execute": …, "arguments": …}`.
pub data Command : Type 0 where
  object_add : (id : String) → (fields : List (String × ℤ)) → Command
  object_del : (id : String) → Command
  set_iothread_vq_mapping : (path : String) → (mapping : List VqMapping) → Command
  query_blockstats_cmd : Command
  query_prometheus : Command
  qom_get : (path property : String) → Command

-- The name that errors carry.
unfoldable pub command_name : Command → String
command_name (object_add id fields) = "object-add"
command_name (object_del id) = "object-del"
command_name (set_iothread_vq_mapping path mapping) = "x-virtio-scsi-set-iothread-vq-mapping"
command_name query_blockstats_cmd = "query-blockstats"
command_name query_prometheus = "x-query-prometheus-metrics"
command_name (qom_get path property) = "qom-get"

-- What `virDomainQemuMonitorCommand` does: the text of the reply, or an error.
pub data Reply : Type 0 where
  replied : String → Reply
  unreachable : ErrorKind → String → Reply

-- `struct Envelope`, as serde decodes it.
pub record ErrBody : Type 0 where
  pub class : String
  pub desc : String

pub record Envelope : Type 0 where
  pub ret : Option String
  pub error : Option ErrBody

-- What serde makes of a text.
pub data Decoded {ℓ} (A : Type ℓ) : Type ℓ where
  decoded : A → Decoded A
  malformed : String → Decoded A

-- The counters of a block device, 0 where the reply has none.
pub record Stats : Type 0 where
  pub rd_bytes : ℕ
  pub wr_bytes : ℕ
  pub rd_operations : ℕ
  pub wr_operations : ℕ
  pub flush_operations : ℕ
  pub unmap_operations : ℕ

-- The monitor of one guest, whose state every call passes on, and the decoders.
pub record Monitor (Q : Type 0) : Type 0 where
  pub monitor_command : Command → Q → Reply × Q
  pub decode_envelope : String → Decoded Envelope
  pub decode_blockstats : String → Decoded (List Stats)
  pub decode_mapping : String → Decoded (List VqMapping)
  pub decode_metrics : String → Decoded String

-- `parse_qmp_envelope`, after the decoding.
unfoldable pub open_envelope : String → String → Envelope → Result String
open_envelope cmd body env = elim env.error [
  | some e ↦ err (qmp_error cmd e.class e.desc)
  | none ↦ elim env.ret [
    | none ↦ err (parse ("qmp " ++ (cmd ++ (" response missing return/error: " ++ body))))
    | some ret ↦ ok ret
  ]
]

-- The fields that are set, under their JSON names.
unfoldable pub field : String → Option ℤ → List (String × ℤ)
field name none = []
field name (some value) = (name, value) ∷ []

unfoldable pub set_fields : Option IoThreadProperties → List (String × ℤ)
set_fields none = []
set_fields (some p) = append (field "poll-max-ns" p.poll_max_ns) (
    append (field "poll-grow" p.poll_grow) (
      append (field "poll-shrink" p.poll_shrink) (
        append (field "aio-max-batch" p.aio_max_batch) (
          append (field "thread-pool-min" p.thread_pool_min)
            (field "thread-pool-max" p.thread_pool_max)))))

-- `map(|_| ())`.
unfoldable pub forget : Result String → Result Unit
forget (ok body) = ok tt
forget (err e) = err e

module _ {Q : Type 0} (monitor : Monitor Q) where
  unfoldable pub parse_qmp_envelope : String → String → Result String
  parse_qmp_envelope cmd body = elim (monitor.decode_envelope body) [
    | malformed e ↦
        err (parse ("decode " ++ (cmd ++ (" response: " ++ (e ++ (" (body=" ++ (body ++ ")")))))))
    | decoded env ↦ open_envelope cmd body env
  ]

  unfoldable pub read_reply : String → Reply → Result String
  read_reply cmd (unreachable kind text) = err (io kind text)
  read_reply cmd (replied body) = parse_qmp_envelope cmd body

  unfoldable pub execute : Command → Q → Result String × Q
  execute cmd q =
      let (reply, q') = monitor.monitor_command cmd q in (read_reply (command_name cmd) reply, q')

  unfoldable pub execute_unit : Command → Q → Result Unit × Q
  execute_unit cmd q = let (answer, q') = execute cmd q in (forget answer, q')

  unfoldable pub add_io_thread : String → Option IoThreadProperties → Q → Result Unit × Q
  add_io_thread id props q =
      if is_blank id
      then (err (parse "iothread id must be non-empty"), q)
      else execute_unit (object_add id (set_fields props)) q

  unfoldable pub del_io_thread : String → Q → Result Unit × Q
  del_io_thread id q =
      if is_blank id
      then (err (parse "iothread id must be non-empty"), q)
      else execute_unit (object_del id) q

  -- The checks of `set_vq_mapping` after that of the path.
  unfoldable pub send_mapping : String → List VqMapping → Q → Result Unit × Q
  send_mapping device_path [] q =
      (err (parse "iothread-vq-mapping must contain at least one entry"), q)
  send_mapping device_path (m ∷ rest) q =
      execute_unit (set_iothread_vq_mapping device_path (m ∷ rest)) q

  unfoldable pub set_vq_mapping : String → List VqMapping → Q → Result Unit × Q
  set_vq_mapping device_path mapping q =
      if is_blank device_path
      then (err (parse "device path must be non-empty"), q)
      else send_mapping device_path mapping q

  -- An empty body or `null` is an empty mapping.
  unfoldable pub read_mapping : Result String → Result (List VqMapping)
  read_mapping (err e) = err e
  read_mapping (ok body) =
      if same_id body "" || same_id body "null" then ok [] else elim (monitor.decode_mapping body) [
        | malformed e ↦ err (parse ("parse qom-get iothread-vq-mapping: " ++ e))
        | decoded mapping ↦ ok mapping
      ]

  unfoldable pub query_vq_mapping : String → Q → Result (List VqMapping) × Q
  query_vq_mapping device_path q =
      if is_blank device_path
      then (err (parse "device path must be non-empty"), q)
      else (let (answer, q') = execute (qom_get device_path "iothread-vq-mapping") q in
          (read_mapping answer, q'))

  unfoldable pub read_metrics : Result String → Result String
  read_metrics (err e) = err e
  read_metrics (ok body) = elim (monitor.decode_metrics body) [
    | malformed e ↦ err (parse ("decode x-query-prometheus-metrics: " ++ e))
    | decoded text ↦ ok text
  ]

  unfoldable pub query_prometheus_metrics : Q → Result String × Q
  query_prometheus_metrics q =
      let (answer, q') = execute query_prometheus q in (read_metrics answer, q')
