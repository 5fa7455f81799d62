-- ===== src/Qemu/Discovery/Examples.antt =====
-- A discovery on a host with three domains: two have a virtio-scsi controller, one of them no vCPU.
use io_thread_controller.Base.{ℕ, ◌≡◌, refl, none, some, String, [], ◌∷◌, if◌then◌else◌}
use io_thread_controller.Base.Sorting.{sort_names, insert_name}
use io_thread_controller.Base.Table.{same_id}
use io_thread_controller.Base.Text.{
  trim_start, trim_end, trim_both, is_whitespace, is_empty, contains, lines_from, strip_cr,
  digits_from, parse_digits, parse_unsigned,
}
use io_thread_controller.Float.{micro_float}
use io_thread_controller.Instance.{new_status}
use io_thread_controller.Qemu.{pos}
use io_thread_controller.Qemu.Client.{fresh_inner}
use io_thread_controller.Qemu.Client.Snapshot.{is_positive}
use io_thread_controller.Qemu.Topology.{parse_i32, positive}
use io_thread_controller.Qemu.Discovery.{
  found, Libvirt, QemuBackend, QemuInstance, is_virtio_scsi_tag, any_virtio_scsi,
  xml_has_virtio_scsi, pid_in, connected, open_conn, list_if_scsi, list_domain, list_domains,
  listed, list_qemu_vms, max_vcpus_answer, max_vcpus_of, qemu_max_vcpus, read_pid_files,
  pid_of_name, host_pid_of, qemu_host_pid, keep_conn, get_or_open_conn, pid_or_zero, instance_of,
  discover_one, discover_each, discover_listed, discover_on, discover,
}

abbrev scsi : String
scsi = "<domain>\n  <controller type='scsi' model='virtio-scsi'/>\n</domain>"

-- A domain is its UUID, and the state counts the connections.
abbrev host : Libvirt String String ℕ
host = record {
  connect = λ uri opened. (found uri, 1);
  list_all_domains = λ c opened. (found ("vm-c" ∷ "vm-b" ∷ "vm-a" ∷ []), opened);
  get_uuid = λ vm opened. (found vm, opened);
  get_xml_desc = λ vm opened. (found (if same_id vm "vm-b" then "<domain/>" else scsi), opened);
  lookup_by_uuid_string = λ c uuid opened. (found uuid, opened);
  get_max_vcpus = λ vm opened. (found (if same_id vm "vm-c" then 0 else 4), opened);
  get_name = λ vm opened. (found vm, opened);
  read_to_string = λ path opened.
      (if same_id path "/var/run/libvirt/qemu/vm-a.pid" then some " 77\n" else none, opened);
}

abbrev backend : QemuBackend String
backend = record { libvirt_uri = "qemu:///system"; conn = none }

abbrev vm_a : QemuInstance ℕ
vm_a = record {
  id = "vm-a";
  sock_path = "qemu:///system";
  pid = pos 77;
  vcpu_count = 4;
  client = fresh_inner;
  status = new_status micro_float;
}

-- The first discovery opens the connection and keeps it.
discover-on_host : discover micro_float host backend 0 ≡ (
  vm_a ∷ [],
  record backend { conn = some (record { inner = "qemu:///system"; uri = "qemu:///system" }) },
  1,
)
unfolding discover discover_on discover_listed discover_each discover_one instance_of pid_or_zero
    get_or_open_conn keep_conn qemu_host_pid host_pid_of pid_of_name read_pid_files qemu_max_vcpus
    max_vcpus_of max_vcpus_answer list_qemu_vms listed list_domains list_domain list_if_scsi
    open_conn connected pid_in xml_has_virtio_scsi any_virtio_scsi is_virtio_scsi_tag sort_names
    insert_name trim_both trim_start trim_end is_whitespace is_empty contains lines_from strip_cr
    digits_from parse_digits parse_unsigned parse_i32 positive is_positive
discover-on_host = refl
