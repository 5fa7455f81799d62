-- ===== src/State.antt =====
-- src/state.rs: which VMs the controller manages, and the file that keeps it. A `BTreeSet<String>` is
-- a list of identifiers, of which only membership is read. The file system and the JSON codec are
-- arguments (`Disk`, `Codec`).
pub mod Ownership
pub mod Store
pub mod Memory
mod Examples
use io_thread_controller.Base.{
  Bool, true, false, ◌&&◌, not, Option, none, some, List, [], ◌∷◌, String, if◌then◌else◌,
}
use io_thread_controller.Base.Table.{contains_id}

pub data StateError : Type 0 where
  io : String → StateError
  serde_json : StateError
  -- "VM {id} already has an ownership classification"
  already_classified : String → StateError
  -- "managed_vms and unmanaged_vms overlap"
  overlap : StateError

pub data Result {ℓ} (A : Type ℓ) : Type ℓ where
  ok : A → Result A
  err : StateError → Result A

pub record VmOwnership : Type 0 where
  pub managed_vms : List String
  pub unmanaged_vms : List String

abbrev pub default_ownership : VmOwnership
default_ownership = record { managed_vms = []; unmanaged_vms = [] }

unfoldable pub classification : VmOwnership → String → Option Bool
classification o vm_id =
    if contains_id vm_id o.managed_vms
    then some true
    else if contains_id vm_id o.unmanaged_vms
    then some false
    else none

unfoldable pub record_vm : VmOwnership → String → Bool → Result VmOwnership
record_vm o vm_id managed = elim (classification o vm_id) [
  | some known ↦ err (already_classified vm_id)
  | none ↦ ok (
      if managed
      then record o { managed_vms = vm_id ∷ o.managed_vms }
      else record o { unmanaged_vms = vm_id ∷ o.unmanaged_vms })
]

unfoldable pub is_disjoint : List String → List String → Bool
is_disjoint [] ys = true
is_disjoint (x ∷ xs) ys = not (contains_id x ys) && is_disjoint xs ys

unfoldable pub validate : VmOwnership → Result (Unit {0})
validate o = if is_disjoint o.managed_vms o.unmanaged_vms then ok tt else err overlap

-- `serde_json` for `VmOwnership`: nothing where it answers with an error.
pub record Codec : Type 0 where
  pub encode : VmOwnership → Option String
  pub decode : String → Option VmOwnership

-- What the codec makes of its own encoding.
abbrev pub decode_encoded : Codec → VmOwnership → Option VmOwnership
decode_encoded json state = elim (json.encode state) [
  | none ↦ none
  | some bytes ↦ json.decode bytes
]

-- What a call on the file system can answer.
pub data ReadResult : Type 0 where
  contents : String → ReadResult
  not_found : ReadResult
  read_error : String → ReadResult

-- The calls of `std::fs`; a writing call that fails answers with its message.
pub record Disk (D : Type 0) : Type 0 where
  pub read : D → String → ReadResult
  pub create_dir_all : D → String → Option String × D
  pub write : D → String → String → Option String × D
  pub rename : D → String → String → Option String × D

-- `VmStateStore`, with the parent directory and the temporary name that `save` derives.
pub record VmStateStore : Type 0 where
  pub path : String
  pub parent : String
  pub tmp : String

module _ {D : Type 0} (fs : Disk D) (json : Codec) (store : VmStateStore) where
  unfoldable pub load : D → Result VmOwnership
  load d = elim (fs.read d store.path) [
    | not_found ↦ ok default_ownership
    | read_error message ↦ err (io message)
    | contents text ↦ elim (json.decode text) [
      | none ↦ err serde_json
      | some state ↦ elim (validate state) [ err e ↦ err e | ok _ ↦ ok state ]
    ]
  ]

  -- The `?` after each call of the file system.
  abbrev check : Option String × D → (D → Result (Unit {0}) × D) → Result (Unit {0}) × D
  check (some message, d) rest = (err (io message), d)
  check (none, d) rest = rest d

  unfoldable pub save : VmOwnership → D → Result (Unit {0}) × D
  save state d = elim (validate state) [
    | err e ↦ (err e, d)
    | ok _ ↦ check (fs.create_dir_all d store.parent) λ d1. elim (json.encode state) [
      | none ↦ (err serde_json, d1)
      | some bytes ↦
          check (fs.write d1 store.tmp bytes)
            λ d2. check (fs.rename d2 store.tmp store.path) λ d3. (ok tt, d3)
    ]
  ]
