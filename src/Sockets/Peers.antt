-- ===== src/Sockets/Peers.antt =====
-- src/backends/mod.rs: identifying one peer changes the cache at the path of its socket only.
use io_thread_controller.Base.{
  ℕ, ◌≡◌, refl, false, Option, none, some, String, List, if_keeps, elim_keeps, arith,
}
use io_thread_controller.Base.Table.{lookup, insert, same_id, lookup-insert}
use io_thread_controller.Qemu.{ℤ}
use io_thread_controller.Sockets.{
  CachedPeer, IoResult, ok, io_error, Kernel, is_started_at, same_file, keep_peer, identify_peer,
  check_peer, peer_of_file, cached_control_socket_peer_pid, control_socket_peer_pid,
}

abbrev pub Peers : Type 0
Peers = List (String × CachedPeer)

-- The cache has changed at one path at most.
unfoldable pub OnlyAt : String → Peers → Peers → Type 0
OnlyAt path before after =
    (other : String) → same_id path other ≡ false → lookup other after ≡ lookup other before

OnlyAt-refl : (path : String) (cache : Peers) → OnlyAt path cache cache
unfolding OnlyAt
OnlyAt-refl path cache other differ = refl

OnlyAt-insert :
    (path : String) (peer : CachedPeer) (cache : Peers) → OnlyAt path cache (insert path peer cache)
unfolding OnlyAt
OnlyAt-insert path peer cache other differ =
    ground (arith, differ, lookup-insert path other peer cache)

module _ {W : Type 0} (kernel : Kernel W) where
  keep_peer-OnlyAt :
      (path : String) (file : ℕ × ℕ) (answer : IoResult ℤ × W) (cache : Peers)
      → OnlyAt path cache (keep_peer kernel path file answer cache).1
  unfolding keep_peer
  keep_peer-OnlyAt path (dev, ino) (io_error, w) cache = OnlyAt-refl path cache
  keep_peer-OnlyAt path (dev, ino) (ok pid, w) cache =
      elim_keeps (λ (r : IoResult ℤ × Peers × W). OnlyAt path cache r.1)
        (kernel.process_start_time pid w).0 _ _ (λ _. OnlyAt-refl path cache)
        (λ start_time _. OnlyAt-insert path _ cache)

  identify_peer-OnlyAt :
      (path : String) (file : ℕ × ℕ) (cache : Peers) (w : W)
      → OnlyAt path cache (identify_peer kernel path file cache w).1
  unfolding identify_peer
  identify_peer-OnlyAt path file cache w =
      keep_peer-OnlyAt path file (control_socket_peer_pid kernel path w) cache

  check_peer-OnlyAt :
      (path : String) (file : ℕ × ℕ) (peer : CachedPeer) (cache : Peers) (started : Option ℕ × W)
      → OnlyAt path cache (check_peer kernel path file peer cache started).1
  unfolding check_peer
  check_peer-OnlyAt path file peer cache (started, w) =
      if_keeps (λ (r : IoResult ℤ × Peers × W). OnlyAt path cache r.1)
        (is_started_at peer.start_time started) _ _ (λ _. OnlyAt-refl path cache)
        (λ _. identify_peer-OnlyAt path file cache w)

  peer_of_file-OnlyAt :
      (path : String) (file : ℕ × ℕ) (known : Option CachedPeer) (cache : Peers) (w : W)
      → OnlyAt path cache (peer_of_file kernel path file known cache w).1
  unfolding peer_of_file
  peer_of_file-OnlyAt path file none cache w = identify_peer-OnlyAt path file cache w
  peer_of_file-OnlyAt path file (some peer) cache w =
      if_keeps (λ (r : IoResult ℤ × Peers × W). OnlyAt path cache r.1) (same_file peer file) _ _
        (λ _. check_peer-OnlyAt path file peer cache (kernel.process_start_time peer.pid w))
        (λ _. identify_peer-OnlyAt path file cache w)

  cached_peer_of :
      (path : String) (cache : Peers) (answer : IoResult (ℕ × ℕ)) (w : W)
      → OnlyAt path cache
          (elim answer as (λ _. IoResult ℤ × Peers × W) [
            | io_error ↦ (io_error, cache, w)
            | ok file ↦ peer_of_file kernel path file (lookup path cache) cache w
          ]).1
  cached_peer_of path cache io_error w = OnlyAt-refl path cache
  cached_peer_of path cache (ok file) w = peer_of_file-OnlyAt path file (lookup path cache) cache w

  pub cached_peer-OnlyAt :
      (path : String) (cache : Peers) (w : W)
      → OnlyAt path cache (cached_control_socket_peer_pid kernel path cache w).1
  unfolding cached_control_socket_peer_pid
  cached_peer-OnlyAt path cache w =
      cached_peer_of path cache (kernel.metadata path w).0 (kernel.metadata path w).1
