-- ===== src/Qemu/Discovery.antt =====
-- src/backends/qemu/mod.rs and libvirt.rs: the discovery of QEMU guests. What libvirt and the pid files
-- answer is a `Libvirt`; a blocking task always joins. A UUID is its text, whose order is that of its
-- bytes.
mod Examples
use io_thread_controller.Base.{
  ℕ, Bool, true, false, ◌&&◌, ◌||◌, Option, none, some, String, List, [], ◌∷◌, ltb, if◌then◌else◌,
}
use Prim.Native.String.{◌++◌}
use text.Mathlib.Text.{starts_with}
use io_thread_controller.Base.Table.{same_id}
use io_thread_controller.Base.Sorting.{sort_names}
use io_thread_controller.Base.Text.{trim, trim_start, is_whitespace, contains, lines}
use io_thread_controller.Float.{Float}
use io_thread_controller.Instance.{InstanceStatus, new_status}
use io_thread_controller.Qemu.{ℤ, pos, QemuError, io, other_kind, Result, ok, err}
use io_thread_controller.Qemu.Topology.{parse_i32}
use io_thread_controller.Qemu.Client.{Inner, fresh_inner}
use io_thread_controller.Qemu.Client.Snapshot.{is_positive}

-- An answer of libvirt, or the text of its error.
pub data Answer (A : Type 0) : Type 0 where
  found : A → Answer A
  refused : String → Answer A

-- `Connect` (whose `open` is `connect`) and `Domain`: a connection is a `C`, a domain a `D`.
pub record Libvirt (C D L : Type 0) : Type 0 where
  pub connect : String → L → Answer C × L
  pub list_all_domains : C → L → Answer (List D) × L
  pub get_uuid : D → L → Answer String × L
  pub get_xml_desc : D → L → Answer String × L
  pub lookup_by_uuid_string : C → String → L → Answer D × L
  pub get_max_vcpus : D → L → Answer ℕ × L
  pub get_name : D → L → Answer String × L
  pub read_to_string : String → L → Option String × L

pub record LibvirtConn (C : Type 0) : Type 0 where
  pub inner : C
  pub uri : String

pub record QemuBackend (C : Type 0) : Type 0 where
  pub libvirt_uri : String
  pub conn : Option (LibvirtConn C)

-- What `discover` makes of a VM: `Instance::new` with its client.
pub record QemuInstance (F : Type 0) : Type 0 where
  pub id : String
  pub sock_path : String
  pub pid : ℤ
  pub vcpu_count : ℕ
  pub client : Inner
  pub status : InstanceStatus F

-- `QemuError::Io(IoError::other(..))`.
abbrev pub failed : {A : Type 0} → String → String → Result A
failed context text = err (io other_kind (context ++ (": " ++ text)))

-- The test of a line, without its leading blanks.
unfoldable pub is_virtio_scsi_tag : String → Bool
is_virtio_scsi_tag t =
    starts_with t "<controller"
    && ((contains "type='scsi'" t || contains "type=\"scsi\"" t)
        && (contains "model='virtio-scsi'" t || contains "model=\"virtio-scsi\"" t))

unfoldable pub any_virtio_scsi : List String → Bool
any_virtio_scsi [] = false
any_virtio_scsi (line ∷ rest) =
    is_virtio_scsi_tag (trim_start is_whitespace line) || any_virtio_scsi rest

unfoldable pub xml_has_virtio_scsi : String → Bool
xml_has_virtio_scsi xml = any_virtio_scsi (lines xml)

-- The pid of a file: a positive number, or none.
unfoldable pub pid_in : Option String → Option ℤ
pid_in none = none
pid_in (some s) = elim (parse_i32 (trim s)) [
  | none ↦ none
  | some pid ↦ if is_positive pid then some pid else none
]

module _ {F C D L : Type 0} (fl : Float F) (virt : Libvirt C D L) where
  unfoldable pub connected : String → Answer C × L → Result (LibvirtConn C) × L
  connected uri (found c, l) = (ok (record { inner = c; uri = uri }), l)
  connected uri (refused e, l) = (failed ("libvirt open(" ++ (uri ++ ")")) e, l)

  -- `LibvirtConn::open`.
  unfoldable pub open_conn : String → L → Result (LibvirtConn C) × L
  open_conn uri l = connected uri (virt.connect uri l)

  -- The XML of a domain decides; one that cannot be read is passed over.
  unfoldable pub list_if_scsi : String → Answer String × L → List String → List String × L
  list_if_scsi uuid (refused e, l) out = (out, l)
  list_if_scsi uuid (found xml, l) out = (if xml_has_virtio_scsi xml then uuid ∷ out else out, l)

  unfoldable pub list_domain : D → Answer String × L → List String → List String × L
  list_domain vm (refused e, l) out = (out, l)
  list_domain vm (found uuid, l) out = list_if_scsi uuid (virt.get_xml_desc vm l) out

  -- The loop of `list_qemu_vms`. The names are sorted after it.
  unfoldable pub list_domains : List D → List String × L → List String × L
  list_domains [] state = state
  list_domains (vm ∷ rest) (out, l) = list_domains rest (list_domain vm (virt.get_uuid vm l) out)

  unfoldable pub listed : Answer (List D) × L → Result (List String) × L
  listed (refused e, l) = (failed "list_all_domains" e, l)
  listed (found vms, l) = let (out, l') = list_domains vms ([], l) in (ok (sort_names out), l')

  unfoldable pub list_qemu_vms : LibvirtConn C → L → Result (List String) × L
  list_qemu_vms conn l = listed (virt.list_all_domains conn.inner l)

  unfoldable pub max_vcpus_answer : String → Answer ℕ × L → Result ℕ × L
  max_vcpus_answer uuid (found n, l) = (ok n, l)
  max_vcpus_answer uuid (refused e, l) = (failed ("get_max_vcpus(" ++ (uuid ++ ")")) e, l)

  unfoldable pub max_vcpus_of : String → Answer D × L → Result ℕ × L
  max_vcpus_of uuid (refused e, l) = (failed ("lookup_vm(" ++ (uuid ++ ")")) e, l)
  max_vcpus_of uuid (found vm, l) = max_vcpus_answer uuid (virt.get_max_vcpus vm l)

  unfoldable pub qemu_max_vcpus : LibvirtConn C → String → L → Result ℕ × L
  qemu_max_vcpus conn uuid l = max_vcpus_of uuid (virt.lookup_by_uuid_string conn.inner uuid l)

  -- The loop over the pid files.
  unfoldable pub read_pid_files : List String → L → ℤ × L
  read_pid_files [] l = (pos 0, l)
  read_pid_files (path ∷ rest) l =
      let (text, l') = virt.read_to_string path l in
      elim (pid_in text) [ none ↦ read_pid_files rest l' | some pid ↦ (pid, l') ]

  unfoldable pub pid_of_name : String → Answer String × L → Result ℤ × L
  pid_of_name uuid (refused e, l) = (failed ("vm name(" ++ (uuid ++ ")")) e, l)
  pid_of_name uuid (found name, l) =
      let (pid, l') =
        read_pid_files
          (("/run/libvirt/qemu/" ++ (name ++ ".pid"))
            ∷ ("/var/run/libvirt/qemu/" ++ (name ++ ".pid"))
            ∷ [])
          l in
      (ok pid, l')

  unfoldable pub host_pid_of : String → Answer D × L → Result ℤ × L
  host_pid_of uuid (refused e, l) = (failed ("lookup_vm(" ++ (uuid ++ ")")) e, l)
  host_pid_of uuid (found vm, l) = pid_of_name uuid (virt.get_name vm l)

  unfoldable pub qemu_host_pid : LibvirtConn C → String → L → Result ℤ × L
  qemu_host_pid conn uuid l = host_pid_of uuid (virt.lookup_by_uuid_string conn.inner uuid l)

  -- A connection opened now is kept.
  unfoldable pub keep_conn :
      QemuBackend C → Result (LibvirtConn C) × L → Option (LibvirtConn C) × QemuBackend C × L
  keep_conn backend (ok c, l) = (some c, record backend { conn = some c }, l)
  keep_conn backend (err e, l) = (none, backend, l)

  unfoldable pub get_or_open_conn :
      String → QemuBackend C → L → Option (LibvirtConn C) × QemuBackend C × L
  get_or_open_conn uri backend l = elim backend.conn [
    | none ↦ keep_conn backend (open_conn uri l)
    | some c ↦
        if same_id c.uri uri then (some c, backend, l) else keep_conn backend (open_conn uri l)
  ]

  -- The pid, or 0 for an error.
  unfoldable pub pid_or_zero : Result ℤ → ℤ
  pid_or_zero (ok pid) = pid
  pid_or_zero (err e) = pos 0

  -- A VM without vCPUs, or with an error, is passed over.
  unfoldable pub instance_of : String → String → ℤ → Result ℕ → Option (QemuInstance F)
  instance_of uri uuid pid (err e) = none
  instance_of uri uuid pid (ok count) =
      if ltb 0 count
      then some (record {
        id = uuid;
        sock_path = uri;
        pid = pid;
        vcpu_count = count;
        client = fresh_inner;
        status = new_status fl;
      })
      else none

  unfoldable pub discover_one : String → LibvirtConn C → String → L → Option (QemuInstance F) × L
  discover_one uri conn uuid l =
      let (pid, l') = qemu_host_pid conn uuid l in
      let (count, l'') = qemu_max_vcpus conn uuid l' in
      (instance_of uri uuid (pid_or_zero pid) count, l'')

  abbrev pub push_found : Option (QemuInstance F) → List (QemuInstance F) → List (QemuInstance F)
  push_found none out = out
  push_found (some vm) out = vm ∷ out

  unfoldable pub discover_each :
      String → LibvirtConn C → List String → L → List (QemuInstance F) × L
  discover_each uri conn [] l = ([], l)
  discover_each uri conn (uuid ∷ rest) l =
      let (vm, l') = discover_one uri conn uuid l in
      let (out, l'') = discover_each uri conn rest l' in (push_found vm out, l'')

  unfoldable pub discover_listed :
      String → LibvirtConn C → Result (List String) × L → List (QemuInstance F) × L
  discover_listed uri conn (err e, l) = ([], l)
  discover_listed uri conn (ok uuids, l) = discover_each uri conn uuids l

  unfoldable pub discover_on :
      Option (LibvirtConn C) × QemuBackend C × L → List (QemuInstance F) × QemuBackend C × L
  discover_on (none, backend, l) = ([], backend, l)
  discover_on (some conn, backend, l) =
      let (out, l') = discover_listed backend.libvirt_uri conn (list_qemu_vms conn l) in
      (out, backend, l')

  unfoldable pub discover : QemuBackend C → L → List (QemuInstance F) × QemuBackend C × L
  discover backend l = discover_on (get_or_open_conn backend.libvirt_uri backend l)
