-- ===== src/State/Memory.antt =====
-- A file system in memory, and a codec for small registries, on which the theorems about src/state.rs
-- and src/controller.rs are tried.
use text.Mathlib.TextEquality.{eq_iff}
use io_thread_controller.Base.{
  ◌≡◌, refl, ◌≢◌, Option, none, some, List, [], ◌∷◌, String, arith, if◌then◌else◌,
}
use io_thread_controller.Base.Table.{lookup, insert, remove, same_id, same_id_iff, lookup-insert}
use io_thread_controller.State.{
  VmOwnership, Codec, ReadResult, contents, not_found, Disk, VmStateStore, default_ownership,
}
use io_thread_controller.State.Store.{IsDisk}

abbrev pub Files : Type 0
Files = List (String × String)

abbrev pub read_of : Option String → ReadResult
read_of none = not_found
read_of (some text) = contents text

unfoldable pub move : Files → String → String → Option String → Option String × Files
move d p q none = (some "no such file", d)
move d p q (some text) = (none, insert q text (remove p d))

abbrev pub memory : Disk Files
memory = record {
  read = λ d p. read_of (lookup p d);
  create_dir_all = λ d dir. (none, d);
  write = λ d p text. (none, insert p text d);
  rename = λ d p q. move d p q (lookup p d);
}

write_keeps_memory :
    (d : Files) (p text q : String)
    → p ≢ q
    → read_of (lookup q (insert p text d)) ≡ read_of (lookup q d)
write_keeps_memory d p text q ne = ground (arith, lookup-insert p q text d, same_id_iff p q)

write_reads_memory :
    (d : Files) (p text : String) → read_of (lookup p (insert p text d)) ≡ contents text
write_reads_memory d p text = ground (arith, lookup-insert p p text d, same_id_iff p p)

move_moves :
    (d : Files) (p q : String) (o : Option String)
    → (move d p q o).0 ≡ none
    → read_of (lookup q (move d p q o).1) ≡ read_of o
unfolding move
move_moves d p q none h = absurd (cc)
move_moves d p q (some text) h = write_reads_memory (remove p d) q text

move_fails :
    (d : Files) (p q : String) (o : Option String)
    → (move d p q o).0 ≢ none
    → read_of (lookup q (move d p q o).1) ≡ read_of (lookup q d)
unfolding move
move_fails d p q none h = refl
move_fails d p q (some text) h = absurd (h refl)

pub memory-IsDisk : IsDisk memory
memory-IsDisk = record {
  mkdir_keeps = λ d dir p. refl;
  write_keeps = write_keeps_memory;
  write_reads = λ d p text _. write_reads_memory d p text;
  rename_moves = λ d p q. move_moves d p q (lookup p d);
  rename_fails = λ d p q. move_fails d p q (lookup p d);
}

abbrev pub one_managed : VmOwnership
one_managed = record { managed_vms = "vm-1" ∷ []; unmanaged_vms = [] }

abbrev pub first_or : String → List String → String
first_or d [] = d
first_or d (x ∷ xs) = x

-- Enough of a codec for registries with at most one managed VM and no other.
abbrev pub json : Codec
json = record {
  encode = λ o. some (first_or "{}" o.managed_vms);
  decode = λ text. some (
      if same_id text "{}"
      then default_ownership
      else record { managed_vms = text ∷ []; unmanaged_vms = [] });
}

abbrev pub store : VmStateStore
store = record {
  path = "/run/io-thread-controller/vm-ownership.json";
  parent = "/run/io-thread-controller";
  tmp = "/run/io-thread-controller/vm-ownership.json.tmp-7";
}

pub tmp_differs : ◌≢◌ {A = String} store.tmp store.path
tmp_differs = ground (arith, eq_iff store.tmp store.path)
