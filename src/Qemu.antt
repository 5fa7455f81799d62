-- ===== src/Qemu.antt =====
-- src/backends/qemu: the backend for QEMU guests. This file holds the errors and types that the parts
-- share, of helpers.rs and of backends/mod.rs. An error of another library is its kind and text.
pub mod Mapping
pub mod Names
pub mod Transport
pub mod Cpu
pub mod Topology
pub mod Client
pub mod Discovery
pub mod Backend
mod Examples
use io_thread_controller.Base.{ℕ, Bool, true, false, Option, String, List, ◌==◌, if◌then◌else◌}
use Prim.Native.String.{◌++◌}

-- `std::io::ErrorKind`, as far as `is_peer_disconnect_kind` tells kinds apart.
pub data ErrorKind : Type 0 where
  broken_pipe : ErrorKind
  connection_reset : ErrorKind
  connection_aborted : ErrorKind
  unexpected_eof : ErrorKind
  not_found : ErrorKind
  other_kind : ErrorKind

pub data QemuError : Type 0 where
  broken : QemuError
  io : ErrorKind → String → QemuError
  qmp_error : (cmd class desc : String) → QemuError
  parse : String → QemuError

pub data Result (A : Type 0) : Type 0 where
  ok : A → Result A
  err : QemuError → Result A

-- The variants that the QEMU client builds.
pub data BackendClientError : Type 0 where
  disconnected : String → BackendClientError
  transport : String → BackendClientError
  client_qmp_error : (cmd class desc : String) → BackendClientError
  protocol : String → BackendClientError
  invalid_state : String → BackendClientError
  procfs : String → BackendClientError

unfoldable pub is_peer_disconnect_kind : ErrorKind → Bool
is_peer_disconnect_kind other_kind = false
is_peer_disconnect_kind _ = true

-- `from_transport_io` with its context.
unfoldable pub from_transport_io : String → ErrorKind → String → BackendClientError
from_transport_io context kind text =
    let message = context ++ (": " ++ text) in
    if is_peer_disconnect_kind kind then disconnected message else transport message

-- `From<QemuError> for BackendClientError`.
unfoldable pub client_error : QemuError → BackendClientError
client_error broken = transport "qemu client broken"
client_error (io kind text) = from_transport_io "io" kind text
client_error (qmp_error cmd class desc) = client_qmp_error cmd class desc
client_error (parse text) = protocol text

-- `Display` of a client's error.
unfoldable pub describe : BackendClientError → String
describe (disconnected text) = "disconnected: " ++ text
describe (transport text) = "transport: " ++ text
describe (client_qmp_error cmd class desc) =
    "qmp " ++ (cmd ++ (" error: " ++ (class ++ (": " ++ desc))))
describe (protocol text) = text
describe (invalid_state text) = text
describe (procfs text) = "proc error"

pub record VqMapping : Type 0 where
  pub iothread : String
  pub vqs : List ℕ

-- `i64`.
pub data ℤ : Type 0 where
  pos : ℕ → ℤ
  negsuc : ℕ → ℤ

-- `==` on `i64` and on `i32`.
unfoldable pub same_int : ℤ → ℤ → Bool
same_int (pos a) (pos b) = a == b
same_int (negsuc a) (negsuc b) = a == b
same_int (pos a) (negsuc b) = false
same_int (negsuc a) (pos b) = false

pub record IoThreadProperties : Type 0 where
  pub poll_max_ns : Option ℤ
  pub poll_grow : Option ℤ
  pub poll_shrink : Option ℤ
  pub aio_max_batch : Option ℤ
  pub thread_pool_min : Option ℤ
  pub thread_pool_max : Option ℤ
