-- ===== src/Sockets/Cache.antt =====
-- src/backends/mod.rs: what a discovery through control sockets leaves in the cache of peers.
use io_thread_controller.Base.{
  ◌≡◌, refl, ap, ◌∙◌, Bool, true, false, not, ◌||◌, Option, none, some, String, List, [], ◌∷◌, ◌++◌,
  map, All, if_keeps, elim_keeps, arith, Bool-cases, inl, inr,
}
use io_thread_controller.Base.Table.{lookup, contains_id, same_id, same_id_iff}
use io_thread_controller.Qemu.{ℤ}
use io_thread_controller.Sockets.{
  CachedPeer, IoResult, ok, io_error, Entry, Kernel, SocketInstance, Pass, add_instance, visit_id,
  visit_entry, visit_entries, retain_seen, finish_pass, discover_via_control_socket,
}
use io_thread_controller.Sockets.Peers.{Peers, OnlyAt, cached_peer-OnlyAt}

abbrev pub paths : List SocketInstance → List String
paths = map λ i. i.sock_path

contains_id-paths :
    (path : String) (instances : List SocketInstance) (i : SocketInstance)
    → contains_id path (paths (instances ++ (i ∷ [])))
      ≡ (same_id i.sock_path path || contains_id path (paths instances))
unfolding contains_id
contains_id-paths path [] i = refl
contains_id-paths path (j ∷ rest) i = ground (arith, contains_id-paths path rest i)

-- The sockets seen are those of the instances.
Lists : List String → List SocketInstance → Type 0
Lists seen instances = (path : String) → contains_id path seen ≡ contains_id path (paths instances)

Lists-append :
    (seen : List String) (instances : List SocketInstance) (i : SocketInstance)
    → Lists seen instances
    → Lists (i.sock_path ∷ seen) (instances ++ (i ∷ []))
unfolding Lists contains_id
Lists-append seen instances i lists path =
    ground (arith, lists path, contains_id-paths path instances i)

module _ {W : Type 0} (kernel : Kernel W) where
  -- An entry of the directory is of a VM discovered.
  abbrev pub IsListed : String → List SocketInstance → String × CachedPeer → Type 0
  IsListed dir instances e =
      kernel.starts_with e.0 dir ≡ true → contains_id e.0 (paths instances) ≡ true

module _ {W : Type 0} (kernel : Kernel W) (dir socket_name : String)
    (joined : (id : String) → kernel.starts_with (kernel.sock_path dir id socket_name) dir ≡ true)
    (before : Peers) where
  abbrev IsOutside : String → Type 0
  IsOutside path = kernel.starts_with path dir ≡ false

  -- What holds during a pass: the sockets seen are listed, and nothing outside the directory changes.
  Sound : Pass W → Type 0
  Sound pass =
      Lists pass.seen pass.instances
      × ((path : String) → IsOutside path → lookup path pass.cache ≡ lookup path before)

  outside_differs :
      (id path : String)
      → IsOutside path
      → same_id (kernel.sock_path dir id socket_name) path ≡ false
  outside_differs id path outside =
      elim (Bool-cases (same_id (kernel.sock_path dir id socket_name) path)) [
        | inr differ ↦ differ
        | inl same ↦
            let at = (same_id_iff (kernel.sock_path dir id socket_name) path).0 same in
            absurd (ground (arith, outside, joined id, ap (λ p. kernel.starts_with p dir) at))
      ]

  add_instance-Sound :
      (id : String) (answer : IoResult ℤ × Peers × W) (pass : Pass W)
      → OnlyAt (kernel.sock_path dir id socket_name) pass.cache answer.1
      → Sound pass
      → Sound (add_instance kernel id (kernel.sock_path dir id socket_name) answer pass)
  unfolding add_instance Sound OnlyAt
  add_instance-Sound id (io_error, cache, w) pass only (lists, kept) =
      (lists, λ path outside. only path (outside_differs id path outside) ∙ kept path outside)
  add_instance-Sound id (ok pid, cache, w) pass only (lists, kept) = (
    Lists-append pass.seen pass.instances _ lists,
    λ path outside. only path (outside_differs id path outside) ∙ kept path outside,
  )

  visit_id-Sound :
      (id : String) (pass : Pass W) → Sound pass → Sound (visit_id kernel dir socket_name id pass)
  unfolding visit_id
  visit_id-Sound id pass sound =
      add_instance-Sound id _ pass
        (cached_peer-OnlyAt kernel (kernel.sock_path dir id socket_name) pass.cache pass.outside)
        sound

  visit_entry-Sound :
      (entry : Entry) (pass : Pass W)
      → Sound pass
      → Sound (visit_entry kernel dir socket_name entry pass)
  unfolding visit_entry
  visit_entry-Sound entry pass sound =
      elim_keeps Sound entry.is_dir _ _ (λ _. sound)
        (λ is_dir _.
          if_keeps Sound (not is_dir) _ _ (λ _. sound)
            (λ _.
              elim_keeps Sound entry.file_name _ _ (λ _. sound)
                (λ id _. visit_id-Sound id pass sound)))

  visit_entries-Sound :
      (entries : List (IoResult Entry)) (pass : Pass W)
      → Sound pass
      → Sound (visit_entries kernel dir socket_name entries pass).1
  unfolding visit_entries
  visit_entries-Sound [] pass sound = sound
  visit_entries-Sound (io_error ∷ rest) pass sound = sound
  visit_entries-Sound (ok entry ∷ rest) pass sound =
      visit_entries-Sound rest (visit_entry kernel dir socket_name entry pass)
        (visit_entry-Sound entry pass sound)

  lookup-retain_seen :
      (seen : List String) (cache : Peers) (path : String)
      → IsOutside path
      → lookup path (retain_seen kernel dir seen cache) ≡ lookup path cache
  unfolding retain_seen lookup
  lookup-retain_seen seen [] path outside = refl
  lookup-retain_seen seen (e ∷ rest) path outside =
      ground (arith, outside, lookup-retain_seen seen rest path outside, same_id_iff e.0 path)

  retain_seen-IsListed :
      (seen : List String) (instances : List SocketInstance) (cache : Peers)
      → Lists seen instances
      → All (IsListed kernel dir instances) (retain_seen kernel dir seen cache)
  unfolding retain_seen Lists
  retain_seen-IsListed seen instances [] lists = tt
  retain_seen-IsListed seen instances (e ∷ rest) lists =
      if_keeps (All (IsListed kernel dir instances))
        (not (kernel.starts_with e.0 dir) || contains_id e.0 seen) _ _
        (λ kept. (
          λ inside. ground (arith, kept, inside, lists e.0),
          retain_seen-IsListed seen instances rest lists,
        ))
        (λ _. retain_seen-IsListed seen instances rest lists)

  -- What a discovery leaves: another directory's entries, and in its own, once a listing has ended
  -- well, those of VMs discovered.
  unfoldable pub IsPruned :
      Option (List (IoResult Entry)) → IoResult (List SocketInstance) × Peers × W → Type 0
  IsPruned listing (answer, after, w) =
      ((path : String) → IsOutside path → lookup path after ≡ lookup path before)
      × ((entries : List (IoResult Entry)) (instances : List SocketInstance)
          → listing ≡ some entries
          → answer ≡ ok instances
          → All (IsListed kernel dir instances) after)

  unreadable-IsPruned : (w : W) → IsPruned none (ok [], before, w)
  unfolding IsPruned
  unreadable-IsPruned w =
      ((λ path outside. refl), λ entries instances listed answered. absurd (ground (arith, listed)))

  finish_pass-IsPruned :
      (listing : Option (List (IoResult Entry))) (ended : Bool) (pass : Pass W)
      → Sound pass
      → IsPruned listing (finish_pass kernel dir (ended, pass))
  unfolding finish_pass IsPruned Sound Lists
  finish_pass-IsPruned listing false pass (lists, kept) =
      (kept, λ entries instances listed answered. absurd (ground (arith, answered)))
  finish_pass-IsPruned listing true pass (lists, kept) = (
    λ path outside. lookup-retain_seen pass.seen pass.cache path outside ∙ kept path outside,
    λ entries instances listed answered.
        retain_seen-IsListed pass.seen instances pass.cache (λ path.
          lists path ∙ ap (λ found. contains_id path (paths found)) (ground (arith, answered))),
  )

  start-Sound : (w : W) → Sound (record { instances = []; seen = []; cache = before; outside = w })
  unfolding Sound Lists contains_id
  start-Sound w = ((λ path. refl), (λ path outside. refl))

  listed-IsPruned :
      (entries : List (IoResult Entry)) (w : W)
      → IsPruned (some entries) (
          finish_pass kernel dir (
            visit_entries kernel dir socket_name entries
              (record { instances = []; seen = []; cache = before; outside = w })))
  listed-IsPruned entries w =
      let r =
        visit_entries kernel dir socket_name entries
          (record { instances = []; seen = []; cache = before; outside = w }) in
      finish_pass-IsPruned (some entries) r.0 r.1 (visit_entries-Sound entries _ (start-Sound w))

  -- A discovery in one directory, whatever it finds and whatever fails, leaves what the cache of peers
  -- holds for the sockets of other directories; and when the directory is read to its end, every entry
  -- that stays for a socket in it is of a VM just discovered, so that no peer of a VM that is gone
  -- stays. The socket of a VM has a path in the directory.
  pub discover_via_control_socket-IsPruned :
      (w : W)
      → let (answer, after, w') = discover_via_control_socket kernel dir socket_name before w in
        ((path : String)
          → kernel.starts_with path dir ≡ false
          → lookup path after ≡ lookup path before)
        × ((entries : List (IoResult Entry)) (instances : List SocketInstance)
            → (kernel.read_dir dir w).0 ≡ some entries
            → answer ≡ ok instances
            → All (IsListed kernel dir instances) after)
  unfolding discover_via_control_socket IsPruned
  discover_via_control_socket-IsPruned w =
      elim_keeps (IsPruned (kernel.read_dir dir w).0) (kernel.read_dir dir w).0 _ _
        (λ none_read. rw none_read (unreadable-IsPruned (kernel.read_dir dir w).1))
        (λ entries read. rw read (listed-IsPruned entries (kernel.read_dir dir w).1))
