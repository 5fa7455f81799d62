-- ===== src/Base/Table.antt =====
-- `HashMap<String, V>` as an association list: the list order stands for the map's unspecified
-- iteration order.
use Prim.Native.String.{String}
use mathlib.Core.Path.{◌≡◌, refl}
use mathlib.Core.Logic.{◌↔◌, ◌⊎◌}
use mathlib.Core.Bool.{Bool, true, false, ◌||◌}
use mathlib.Core.Option.{Option, none, some}
use mathlib.Core.List.{List, [], ◌∷◌, map}
use native.Mathlib.Omega.{arith}
use text.Mathlib.Text.{◌==◌ as str_eq}
use text.Mathlib.TextEquality.{eq_iff}
use io_thread_controller.Base.Tests.{if◌then◌else◌}

-- `==` on identifiers.
abbrev pub same_id : String → String → Bool
same_id a b = str_eq a b

pub same_id_iff : (a b : String) → (same_id a b ≡ true) ↔ (a ≡ b)
same_id_iff a b = eq_iff a b

-- `HashSet<String>::contains`.
unfoldable pub contains_id : String → List String → Bool
contains_id k [] = false
contains_id k (j ∷ js) = same_id j k || contains_id k js

-- What the map holds for a key, an insertion that replaces in place, and a removal.
module _ {ℓ} {V : Type ℓ} where
  unfoldable pub lookup : String → List (String × V) → Option V
  lookup id [] = none
  lookup id (e ∷ rest) = if same_id e.0 id then some e.1 else lookup id rest

  unfoldable pub insert : String → V → List (String × V) → List (String × V)
  insert id new [] = (id, new) ∷ []
  insert id new (e ∷ rest) = if same_id e.0 id then (id, new) ∷ rest else e ∷ insert id new rest

  unfoldable pub remove : String → List (String × V) → List (String × V)
  remove id [] = []
  remove id (e ∷ rest) = let kept = remove id rest in if same_id e.0 id then kept else e ∷ kept

  abbrev pub keys : List (String × V) → List String
  keys = map λ e. e.0

  pub lookup-insert :
      (at other : String) (new : V) (table : List (String × V))
      → lookup other (insert at new table)
        ≡ (if same_id at other then some new else lookup other table)
  unfolding lookup insert
  lookup-insert at other new [] = refl
  lookup-insert at other new (e ∷ rest) = ground (
    arith,
    lookup-insert at other new rest,
    same_id_iff e.0 at,
    same_id_iff e.0 other,
    same_id_iff at other,
  )

  -- Where a value that is found after an insertion comes from.
  pub lookup-insert_cases :
      (at other : String) (new found : V) (table : List (String × V))
      → lookup other (insert at new table) ≡ some found
      → ((at ≡ other) × (new ≡ found)) ⊎ (lookup other table ≡ some found)
  lookup-insert_cases at other new found table held =
      ground (arith, held, lookup-insert at other new table, same_id_iff at other)

  pub lookup-insert_same :
      (at : String) (new : V) (table : List (String × V))
      → lookup at (insert at new table) ≡ some new
  lookup-insert_same at new table =
      ground (arith, lookup-insert at at new table, (same_id_iff at at).1 refl)

  pub lookup-remove :
      (at other : String) (table : List (String × V))
      → lookup other (remove at table) ≡ (if same_id at other then none else lookup other table)
  unfolding lookup remove
  lookup-remove at other [] = ground arith
  lookup-remove at other (e ∷ rest) = ground (
    arith,
    lookup-remove at other rest,
    same_id_iff e.0 at,
    same_id_iff e.0 other,
    same_id_iff at other,
  )
