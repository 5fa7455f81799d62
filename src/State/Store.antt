-- ===== src/State/Store.antt =====
-- The registry file: what `save` and `load` of src/state.rs promise on a file system that keeps its
-- files apart and replaces a file by `rename` whole.
use io_thread_controller.Base.{◌≡◌, ◌≢◌, ◌⊎◌, Option, none, some, String, arith}
use io_thread_controller.State.{
  VmOwnership, ok, Codec, contents, ReadResult, decode_encoded, Disk, VmStateStore, validate, load,
  save, is_disjoint,
}
use io_thread_controller.State.Ownership.{IsApart, validate-IsApart}

-- The contents of a file that an encoding is written to.
abbrev pub written : Option String → Option ReadResult
written none = none
written (some bytes) = some (contents bytes)

abbrev bytes_of : Option String → String
bytes_of none = ""
bytes_of (some bytes) = bytes

-- What the code relies on, as documented of the calls: no call touches another file, a write that
-- succeeds is read back, and a rename that succeeds moves the contents; a rename that fails leaves
-- its target.
pub record IsDisk {D : Type 0} (fs : Disk D) : Type 0 where
  pub mkdir_keeps : (d : D) (dir p : String) → fs.read (fs.create_dir_all d dir).1 p ≡ fs.read d p
  pub write_keeps :
      (d : D) (p text q : String) → p ≢ q → fs.read (fs.write d p text).1 q ≡ fs.read d q
  pub write_reads :
      (d : D) (p text : String)
      → (fs.write d p text).0 ≡ none
      → fs.read (fs.write d p text).1 p ≡ contents text
  pub rename_moves :
      (d : D) (p q : String)
      → (fs.rename d p q).0 ≡ none
      → fs.read (fs.rename d p q).1 q ≡ fs.read d p
  pub rename_fails :
      (d : D) (p q : String)
      → (fs.rename d p q).0 ≢ none
      → fs.read (fs.rename d p q).1 q ≡ fs.read d q

module _ {D : Type 0} (fs : Disk D) (laws : IsDisk fs) (json : Codec) (store : VmStateStore)
    (own_tmp : store.tmp ≢ store.path) where
  -- `save` is all or nothing. If it succeeds, the registry file holds the whole encoded state; if it
  -- fails, at whatever call, the file reads as before.
  pub save_atomic :
      (state : VmOwnership) (d : D)
      → let (r, d') = save fs json store state d in
        ((r ≡ ok tt) × (written (json.encode state) ≡ some (fs.read d' store.path)))
        ⊎ ((r ≢ ok tt) × (fs.read d' store.path ≡ fs.read d store.path))
  unfolding save
  save_atomic state d =
      let d1 = (fs.create_dir_all d store.parent).1 in
      let bytes = bytes_of (json.encode state) in
      let d2 = (fs.write d1 store.tmp bytes).1 in
      ground (
        arith,
        laws.mkdir_keeps d store.parent store.path,
        laws.write_keeps d1 store.tmp bytes store.path own_tmp,
        laws.write_reads d1 store.tmp bytes,
        laws.rename_moves d2 store.tmp store.path,
        laws.rename_fails d2 store.tmp store.path,
      )

  saved_valid :
      (state : VmOwnership) (d : D)
      → (save fs json store state d).0 ≡ ok tt
      → validate state ≡ ok tt
  unfolding save
  saved_valid state d h = ground arith

  -- What a successful `save` wrote, a `load` gives back, where the codec decodes its own encoding of
  -- the state.
  pub load-save :
      (state : VmOwnership) (d : D)
      → decode_encoded json state ≡ some state
      → (save fs json store state d).0 ≡ ok tt
      → load fs json store (save fs json store state d).1 ≡ ok state
  unfolding load
  load-save state d decodes h = ground (arith, save_atomic state d, decodes, saved_valid state d h)

module _ {D : Type 0} (fs : Disk D) (json : Codec) (store : VmStateStore) where
  pub load-validate :
      (d : D) (state : VmOwnership) → load fs json store d ≡ ok state → validate state ≡ ok tt
  unfolding load validate is_disjoint
  load-validate d state h = ground arith

  -- No registry that `load` accepts has a VM among its managed and among its unmanaged ones, whatever
  -- the file holds.
  pub load-IsApart : (d : D) (state : VmOwnership) → load fs json store d ≡ ok state → IsApart state
  load-IsApart d state h = validate-IsApart state (load-validate d state h)
