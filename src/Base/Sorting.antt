-- ===== src/Base/Sorting.antt =====
-- `Vec<String>::sort`, by insertion, and what it keeps.
use Prim.Native.Nat.{suc}
use Prim.Native.String.{String, compare}
use mathlib.Core.Path.{◌≡◌, refl, ap, ◌∙◌}
use mathlib.Core.Bool.{false, ◌||◌}
use mathlib.Core.List.{List, [], ◌∷◌}
use native.Mathlib.Omega.{arith}
use text.Mathlib.Text.{is_le}
use io_thread_controller.Base.Tests.{if◌then◌else◌}
use io_thread_controller.Base.Lists.{length}
use io_thread_controller.Base.Table.{same_id, same_id_iff, contains_id}

unfoldable pub insert_name : String → List String → List String
insert_name id [] = id ∷ []
insert_name id (j ∷ js) =
    let rest = insert_name id js in if is_le (compare id j) then id ∷ j ∷ js else j ∷ rest

unfoldable pub sort_names : List String → List String
sort_names [] = []
sort_names (id ∷ ids) = insert_name id (sort_names ids)

-- No name twice.
unfoldable pub Distinct : List String → Type 0
Distinct [] = Unit
Distinct (id ∷ ids) = (contains_id id ids ≡ false) × Distinct ids

contains_id-insert_name :
    (j id : String) (ids : List String)
    → contains_id j (insert_name id ids) ≡ (same_id id j || contains_id j ids)
unfolding contains_id insert_name
contains_id-insert_name j id [] = refl
contains_id-insert_name j id (k ∷ ks) = ground (arith, contains_id-insert_name j id ks)

pub contains_id-sort_names :
    (j : String) (ids : List String) → contains_id j (sort_names ids) ≡ contains_id j ids
unfolding contains_id sort_names
contains_id-sort_names j [] = refl
contains_id-sort_names j (id ∷ ids) =
    ground (arith, contains_id-insert_name j id (sort_names ids), contains_id-sort_names j ids)

insert_name-Distinct :
    (id : String) (ids : List String)
    → contains_id id ids ≡ false
    → Distinct ids
    → Distinct (insert_name id ids)
unfolding Distinct contains_id insert_name
insert_name-Distinct id [] fresh distinct = (refl, tt)
insert_name-Distinct id (k ∷ ks) fresh (head, tail) = ground (
  arith,
  fresh,
  head,
  tail,
  contains_id-insert_name k id ks,
  insert_name-Distinct id ks,
  same_id_iff k id,
  same_id_iff id k,
)

pub sort_names-Distinct : (ids : List String) → Distinct ids → Distinct (sort_names ids)
unfolding Distinct sort_names
sort_names-Distinct [] distinct = tt
sort_names-Distinct (id ∷ ids) (head, tail) =
    insert_name-Distinct id (sort_names ids) (contains_id-sort_names id ids ∙ head)
      (sort_names-Distinct ids tail)

length-insert_name :
    (id : String) (ids : List String) → length (insert_name id ids) ≡ suc (length ids)
unfolding insert_name
length-insert_name id [] = refl
length-insert_name id (j ∷ js) = ground (arith, length-insert_name id js)

pub length-sort_names : (ids : List String) → length (sort_names ids) ≡ length ids
unfolding sort_names
length-sort_names [] = refl
length-sort_names (id ∷ ids) =
    length-insert_name id (sort_names ids) ∙ ap suc (length-sort_names ids)
