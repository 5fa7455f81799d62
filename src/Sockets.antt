-- ===== src/Sockets.antt =====
-- src/backends/mod.rs: the discovery of VMs through control sockets, with the cache of the processes
-- behind them. The file system and the kernel are a `Kernel`; what a VM's client is stays open.
pub mod Peers
pub mod Cache
mod Examples
use io_thread_controller.Base.{
  ℕ, Bool, true, false, not, ◌&&◌, ◌||◌, Option, none, some, String, List, [], ◌∷◌, ◌++◌, ◌==◌,
  keep, if◌then◌else◌,
}
use io_thread_controller.Base.Table.{lookup, insert, contains_id}
use io_thread_controller.Qemu.{ℤ}

pub record CachedPeer : Type 0 where
  pub dev : ℕ
  pub ino : ℕ
  pub pid : ℤ
  pub start_time : ℕ

-- `io::Result`; the code treats all errors alike.
pub data IoResult (A : Type 0) : Type 0 where
  ok : A → IoResult A
  io_error : IoResult A

-- An entry of a directory: its name if it is text, and whether it is a directory, if that can be read.
pub record Entry : Type 0 where
  pub file_name : Option String
  pub is_dir : Option Bool

-- `sock_path` joins a directory, a name in it and a socket's name. A listing that fails on the way is
-- cut by an `io_error`.
pub record Kernel (W : Type 0) : Type 0 where
  pub sock_path : (dir id socket_name : String) → String
  pub starts_with : (path dir : String) → Bool
  pub read_dir : String → W → Option (List (IoResult Entry)) × W
  pub metadata : String → W → IoResult (ℕ × ℕ) × W
  pub process_start_time : ℤ → W → Option ℕ × W
  pub peer_cred : String → W → IoResult (Option ℤ) × W

-- What a discovery makes of a VM, before its client.
pub record SocketInstance : Type 0 where
  pub id : String
  pub sock_path : String
  pub pid : ℤ

-- The instances and the sockets seen so far, the cache, and the kernel.
pub record Pass (W : Type 0) : Type 0 where
  pub instances : List SocketInstance
  pub seen : List String
  pub cache : List (String × CachedPeer)
  pub outside : W

abbrev pub same_file : CachedPeer → ℕ × ℕ → Bool
same_file peer (dev, ino) = peer.dev == dev && peer.ino == ino

abbrev pub is_started_at : ℕ → Option ℕ → Bool
is_started_at at none = false
is_started_at at (some start_time) = start_time == at

module _ {W : Type 0} (kernel : Kernel W) where
  unfoldable pub control_socket_peer_pid : String → W → IoResult ℤ × W
  control_socket_peer_pid path w =
      let (cred, w') = kernel.peer_cred path w in
      elim cred [
        | io_error ↦ (io_error, w')
        | ok pid ↦ elim pid [ none ↦ (io_error, w') | some p ↦ (ok p, w') ]
      ]

  -- A peer identified is kept if it still runs.
  unfoldable pub keep_peer :
      String
      → ℕ × ℕ
      → IoResult ℤ × W
      → List (String × CachedPeer)
      → IoResult ℤ × List (String × CachedPeer) × W
  keep_peer path (dev, ino) (io_error, w) cache = (io_error, cache, w)
  keep_peer path (dev, ino) (ok pid, w) cache =
      let (started, w') = kernel.process_start_time pid w in
      elim started [
        | none ↦ (ok pid, cache, w')
        | some start_time ↦ (
          ok pid,
          insert path (record { dev = dev; ino = ino; pid = pid; start_time = start_time }) cache,
          w',
        )
      ]

  unfoldable pub identify_peer :
      String → ℕ × ℕ → List (String × CachedPeer) → W → IoResult ℤ × List (String × CachedPeer) × W
  identify_peer path file cache w = keep_peer path file (control_socket_peer_pid path w) cache

  -- The cached peer of the same socket file counts while its process runs.
  unfoldable pub check_peer :
      String
      → ℕ × ℕ
      → CachedPeer
      → List (String × CachedPeer)
      → Option ℕ × W
      → IoResult ℤ × List (String × CachedPeer) × W
  check_peer path file peer cache (started, w) =
      if is_started_at peer.start_time started
      then (ok peer.pid, cache, w)
      else identify_peer path file cache w

  unfoldable pub peer_of_file :
      String
      → ℕ × ℕ
      → Option CachedPeer
      → List (String × CachedPeer)
      → W
      → IoResult ℤ × List (String × CachedPeer) × W
  peer_of_file path file none cache w = identify_peer path file cache w
  peer_of_file path file (some peer) cache w =
      if same_file peer file
      then check_peer path file peer cache (kernel.process_start_time peer.pid w)
      else identify_peer path file cache w

  unfoldable pub cached_control_socket_peer_pid :
      String → List (String × CachedPeer) → W → IoResult ℤ × List (String × CachedPeer) × W
  cached_control_socket_peer_pid path cache w =
      let (metadata, w') = kernel.metadata path w in
      elim metadata [
        | io_error ↦ (io_error, cache, w')
        | ok file ↦ peer_of_file path file (lookup path cache) cache w'
      ]

  -- A socket whose peer is not identified is passed over.
  unfoldable pub add_instance :
      (id path : String) → IoResult ℤ × List (String × CachedPeer) × W → Pass W → Pass W
  add_instance id path (io_error, cache, w) pass = record pass { cache = cache; outside = w }
  add_instance id path (ok pid, cache, w) pass = record {
    instances = pass.instances ++ (record { id = id; sock_path = path; pid = pid } ∷ []);
    seen = path ∷ pass.seen;
    cache = cache;
    outside = w;
  }

  unfoldable pub visit_id : (dir socket_name id : String) → Pass W → Pass W
  visit_id dir socket_name id pass =
      let path = kernel.sock_path dir id socket_name in
      add_instance id path (cached_control_socket_peer_pid path pass.cache pass.outside) pass

  -- The guards on an entry.
  unfoldable pub visit_entry : (dir socket_name : String) → Entry → Pass W → Pass W
  visit_entry dir socket_name entry pass = elim entry.is_dir [
    | none ↦ pass
    | some is_dir ↦
        if not is_dir
        then pass
        else elim entry.file_name [ none ↦ pass | some id ↦ visit_id dir socket_name id pass ]
  ]

  -- The loop, with its `?`.
  unfoldable pub visit_entries :
      (dir socket_name : String) → List (IoResult Entry) → Pass W → Bool × Pass W
  visit_entries dir socket_name [] pass = (true, pass)
  visit_entries dir socket_name (io_error ∷ rest) pass = (false, pass)
  visit_entries dir socket_name (ok entry ∷ rest) pass =
      visit_entries dir socket_name rest (visit_entry dir socket_name entry pass)

  -- `retain`: an entry of the directory stays if its socket is seen.
  unfoldable pub retain_seen :
      String → List String → List (String × CachedPeer) → List (String × CachedPeer)
  retain_seen dir seen cache =
      keep (λ e. not (kernel.starts_with e.0 dir) || contains_id e.0 seen) cache

  -- After the loop: an error of the listing leaves the cache as it is.
  unfoldable pub finish_pass :
      String → Bool × Pass W → IoResult (List SocketInstance) × List (String × CachedPeer) × W
  finish_pass dir (false, pass) = (io_error, pass.cache, pass.outside)
  finish_pass dir (true, pass) =
      (ok pass.instances, retain_seen dir pass.seen pass.cache, pass.outside)

  unfoldable pub discover_via_control_socket :
      (dir socket_name : String)
      → List (String × CachedPeer)
      → W
      → IoResult (List SocketInstance) × List (String × CachedPeer) × W
  discover_via_control_socket dir socket_name cache w =
      let (entries, w') = kernel.read_dir dir w in
      elim entries [
        | none ↦ (ok [], cache, w')
        | some es ↦ finish_pass dir (
            visit_entries dir socket_name es
              (record { instances = []; seen = []; cache = cache; outside = w' }))
      ]
