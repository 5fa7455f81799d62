-- ===== src/Sockets/Examples.antt =====
-- Two discoveries of one VM: the second reads the peer from the cache.
use io_thread_controller.Base.{
  ℕ, ◌+◌, ◌≡◌, refl, true, false, some, String, List, [], ◌∷◌, All, if_keeps, if◌then◌else◌,
}
use io_thread_controller.Base.Table.{lookup, insert, contains_id, same_id}
use io_thread_controller.Qemu.{pos}
use io_thread_controller.Sockets.{
  CachedPeer, IoResult, Entry, ok, Kernel, SocketInstance, control_socket_peer_pid, keep_peer,
  identify_peer, check_peer, peer_of_file, cached_control_socket_peer_pid, add_instance, visit_id,
  visit_entry, visit_entries, retain_seen, finish_pass, discover_via_control_socket,
}
use io_thread_controller.Sockets.Cache.{IsListed, discover_via_control_socket-IsPruned}
use text.Mathlib.Text.{starts_with}

-- The state counts the connections.
abbrev kernel : Kernel ℕ
kernel = record {
  sock_path = λ dir id socket_name. if same_id id "vm-a" then "/run/vm-a/ctl" else "/run/x/ctl";
  starts_with = λ path dir. starts_with path dir;
  read_dir = λ dir connections. (
    some (
        ok (record { file_name = some "vm-a"; is_dir = some true })
        ∷ ok (record { file_name = some "notes"; is_dir = some false })
        ∷ []),
    connections,
  );
  metadata = λ path connections. (ok (8, 15), connections);
  process_start_time = λ pid connections. (some 100, connections);
  peer_cred = λ path connections. (ok (some (pos 77)), connections + 1);
}

abbrev peer : CachedPeer
peer = record { dev = 8; ino = 15; pid = pos 77; start_time = 100 }

abbrev vm_a : SocketInstance
vm_a = record { id = "vm-a"; sock_path = "/run/vm-a/ctl"; pid = pos 77 }

discover_via_control_socket-first :
    discover_via_control_socket kernel "/run" "ctl"
      (("/run/gone/ctl", peer) ∷ ("/srv/vm-b/ctl", peer) ∷ [])
      0
    ≡ (ok (vm_a ∷ []), ("/srv/vm-b/ctl", peer) ∷ ("/run/vm-a/ctl", peer) ∷ [], 1)
unfolding discover_via_control_socket finish_pass retain_seen visit_entries visit_entry visit_id
    add_instance cached_control_socket_peer_pid peer_of_file check_peer identify_peer keep_peer
    control_socket_peer_pid lookup insert contains_id
discover_via_control_socket-first = refl

discover_via_control_socket-cached :
    discover_via_control_socket kernel "/run" "ctl" (("/run/vm-a/ctl", peer) ∷ []) 1
    ≡ (ok (vm_a ∷ []), ("/run/vm-a/ctl", peer) ∷ [], 1)
unfolding discover_via_control_socket finish_pass retain_seen visit_entries visit_entry visit_id
    add_instance cached_control_socket_peer_pid peer_of_file check_peer identify_peer keep_peer
    control_socket_peer_pid lookup insert contains_id
discover_via_control_socket-cached = refl

run_joined : (id : String) → kernel.starts_with (kernel.sock_path "/run" id "ctl") "/run" ≡ true
run_joined id =
    if_keeps (λ path. starts_with path "/run" ≡ true) (same_id id "vm-a") "/run/vm-a/ctl"
      "/run/x/ctl" (λ _. refl) (λ _. refl)

discover_via_control_socket-IsPruned_example :
    let (answer, after, w) =
      discover_via_control_socket kernel "/run" "ctl"
        (("/run/gone/ctl", peer) ∷ ("/srv/vm-b/ctl", peer) ∷ [])
        0 in
    ((path : String)
      → starts_with path "/run" ≡ false
      → lookup path after ≡ lookup path (("/run/gone/ctl", peer) ∷ ("/srv/vm-b/ctl", peer) ∷ []))
    × ((entries : List (IoResult Entry)) (instances : List SocketInstance)
        → (kernel.read_dir "/run" 0).0 ≡ some entries
        → answer ≡ ok instances
        → All (IsListed kernel "/run" instances) after)
discover_via_control_socket-IsPruned_example =
    discover_via_control_socket-IsPruned kernel "/run" "ctl" run_joined
      (("/run/gone/ctl", peer) ∷ ("/srv/vm-b/ctl", peer) ∷ []) 0
