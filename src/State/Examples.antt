-- ===== src/State/Examples.antt =====
-- The theorems about src/state.rs at these inputs.

use io_thread_controller.Base.{◌≡◌, refl, ◌≢◌, ◌⊎◌, true, false, none, some, [], ◌∷◌, if◌then◌else◌}
use io_thread_controller.Base.Table.{lookup, insert, remove, same_id, contains_id}
use io_thread_controller.State.{
  VmOwnership, Codec, ok, err, overlap, contents, default_ownership, classification, record_vm,
  is_disjoint, validate, load, save,
}
use io_thread_controller.State.Ownership.{
  record_vm-classification, record_all, record_all_keeps, IsApart,
}
use io_thread_controller.State.Store.{save_atomic, load-save, load-IsApart}
use io_thread_controller.State.Memory.{
  read_of, move, memory, memory-IsDisk, one_managed, json, store, tmp_differs,
}

save_atomic_example :
    let (r, d') = save memory json store one_managed [] in
    ((r ≡ ok tt) × (some (contents "vm-1") ≡ some (read_of (lookup store.path d'))))
    ⊎ ((r ≢ ok tt) × (read_of (lookup store.path d') ≡ read_of (lookup store.path [])))
save_atomic_example = save_atomic memory memory-IsDisk json store tmp_differs one_managed []

saved : (save memory json store one_managed []).0 ≡ ok tt
unfolding save validate is_disjoint contains_id insert lookup move remove
saved = refl

load-save_example :
    load memory json store (save memory json store one_managed []).1 ≡ ok one_managed
load-save_example = load-save memory memory-IsDisk json store tmp_differs one_managed [] refl saved

load_missing : load memory json store [] ≡ ok default_ownership
unfolding load lookup
load_missing = refl

-- A codec of two registries, of which one has a VM on both sides.
abbrev split : VmOwnership
split = record { managed_vms = "vm-1" ∷ "vm-3" ∷ []; unmanaged_vms = "vm-2" ∷ [] }

abbrev both_ways : VmOwnership
both_ways = record { managed_vms = "vm-1" ∷ []; unmanaged_vms = "vm-2" ∷ "vm-1" ∷ [] }

abbrev two_texts : Codec
two_texts = record {
  encode = λ o. some "split";
  decode = λ text. some (if same_id text "split" then split else both_ways);
}

loads_split : load memory two_texts store ((store.path, "split") ∷ []) ≡ ok split
unfolding load lookup validate is_disjoint contains_id
loads_split = refl

refuses_both_ways : load memory two_texts store ((store.path, "both") ∷ []) ≡ err overlap
unfolding load lookup validate is_disjoint contains_id
refuses_both_ways = refl

load-IsApart_example : IsApart split
load-IsApart_example =
    load-IsApart memory two_texts store ((store.path, "split") ∷ []) split loads_split

record_vm-classification_example :
    (classification default_ownership "vm-1" ≡ none)
    × (classification one_managed "vm-2"
        ≡ (if same_id "vm-1" "vm-2" then some true else classification default_ownership "vm-2"))
    × (validate one_managed ≡ validate default_ownership)
unfolding record_vm classification contains_id
record_vm-classification_example =
    record_vm-classification default_ownership one_managed "vm-1" "vm-2" true refl

managed_once : classification one_managed "vm-1" ≡ some true
unfolding classification contains_id
managed_once = refl

record_all_keeps_example :
    (classification (record_all one_managed (("vm-1", false) ∷ ("vm-2", false) ∷ [])) "vm-1"
      ≡ some true)
    × (validate (record_all one_managed (("vm-1", false) ∷ ("vm-2", false) ∷ []))
        ≡ validate one_managed)
record_all_keeps_example =
    record_all_keeps (("vm-1", false) ∷ ("vm-2", false) ∷ []) one_managed "vm-1" true managed_once
