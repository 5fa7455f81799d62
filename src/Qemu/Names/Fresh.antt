-- ===== src/Qemu/Names/Fresh.antt =====
-- The name of a new IOThread is the lowest one that no other has.
use io_thread_controller.Base.{
  ℕ, zero, suc, ◌+◌, ◌%◌, ◌≤◌, ◌<◌, ◌≡◌, refl, sym, ap, ◌∙◌, inl, inr, true, false, not, Option,
  none, some, String, List, [], ◌∷◌, if_keeps, keep, length, Bool-cases, arith,
}
use io_thread_controller.Base.Table.{same_id, same_id_iff, contains_id}
use io_thread_controller.Qemu.Names.{iothread_name, extra_name, first_free, next_qemu_iothread_id}
use io_thread_controller.Qemu.Names.Decimal.{iothread_name-inj}

-- The names other than one.
unfoldable except : String → List String → List String
except id = keep λ j. not (same_id j id)

length-except_le : (id : String) (seen : List String) → length (except id seen) ≤ length seen
unfolding except
length-except_le id [] = omega arith
length-except_le id (j ∷ js) = ground (arith, length-except_le id js)

length-except :
    (id : String) (seen : List String)
    → contains_id id seen ≡ true
    → length (except id seen) < length seen
unfolding except contains_id
length-except id [] held = absurd (ground (arith, held))
length-except id (j ∷ js) held = ground (arith, held, length-except_le id js, length-except id js)

contains_id-except :
    (id other : String) (seen : List String)
    → same_id other id ≡ false
    → contains_id other seen ≡ true
    → contains_id other (except id seen) ≡ true
unfolding except contains_id
contains_id-except id other [] differ held = absurd (ground (arith, held))
contains_id-except id other (j ∷ js) differ held = ground (
  arith,
  held,
  differ,
  contains_id-except id other js differ,
  same_id_iff j id,
  same_id_iff j other,
  same_id_iff other id,
)

-- The candidates below a number, from a first one on, are all taken.
unfoldable Taken : ℕ → ℕ → List String → Type 0
Taken tries n seen = (i : ℕ) → i < tries → contains_id (iothread_name (n + i)) seen ≡ true

names_differ : (n i j : ℕ) → i < j → same_id (iothread_name (n + i)) (iothread_name (n + j)) ≡ false
names_differ n i j before =
    elim (Bool-cases (same_id (iothread_name (n + i)) (iothread_name (n + j)))) [
      | inl same ↦
          absurd (omega (arith, iothread_name-inj (n + i) (n + j) ((same_id_iff _ _).0 same)))
      | inr differ ↦ differ
    ]

Taken-le : (tries n : ℕ) (seen : List String) → Taken tries n seen → tries ≤ length seen
unfolding Taken
Taken-le zero n seen taken = omega arith
Taken-le (suc tries) n seen taken =
    let last = iothread_name (n + tries) in
    let fewer = Taken-le tries n (except last seen) λ i before.
      contains_id-except last (iothread_name (n + i)) seen (names_differ n i tries before)
        (taken i (omega arith)) in
    omega (arith, fewer, length-except last seen (taken tries (omega arith)))

-- The search finds the lowest candidate that is not taken, or all are.
unfoldable LowestFree : ℕ → ℕ → List String → Option String → Type 0
LowestFree tries n seen none = Taken tries n seen
LowestFree tries n seen (some found) =
    (m : ℕ) × (m < tries)
    × (found ≡ iothread_name (n + m))
    × (contains_id (iothread_name (n + m)) seen ≡ false)
    × Taken m n seen

name_next : (n m : ℕ) → iothread_name (suc n + m) ≡ iothread_name (n + suc m)
name_next n m = ap iothread_name (omega arith)

name_first : (n : ℕ) → iothread_name n ≡ iothread_name (n + 0)
name_first n = ap iothread_name (omega arith)

Taken-suc :
    (tries n : ℕ) (seen : List String)
    → contains_id (iothread_name n) seen ≡ true
    → Taken tries (suc n) seen
    → Taken (suc tries) n seen
unfolding Taken
Taken-suc tries n seen first taken zero before = rw (sym (name_first n)) first
Taken-suc tries n seen first taken (suc i) before = rw (sym (name_next n i)) (taken i (omega arith))

LowestFree-suc :
    (tries n : ℕ) (seen : List String) (rest : Option String)
    → contains_id (iothread_name n) seen ≡ true
    → LowestFree tries (suc n) seen rest
    → LowestFree (suc tries) n seen rest
unfolding LowestFree
LowestFree-suc tries n seen none first taken = Taken-suc tries n seen first taken
LowestFree-suc tries n seen (some found) first (m, inside, named, free, taken) = (
  suc m,
  omega arith,
  named ∙ name_next n m,
  rw (sym (name_next n m)) free,
  Taken-suc m n seen first taken,
)

none-Taken : (n : ℕ) (seen : List String) → Taken 0 n seen
unfolding Taken
none-Taken n seen i before = absurd (omega arith)

first_free-LowestFree :
    (tries n : ℕ) (seen : List String) → LowestFree tries n seen (first_free tries n seen)
unfolding first_free LowestFree
first_free-LowestFree zero n seen = none-Taken n seen
first_free-LowestFree (suc tries) n seen =
    if_keeps (LowestFree (suc tries) n seen) (contains_id (iothread_name n) seen) _ _
      (λ first. LowestFree-suc tries n seen _ first (first_free-LowestFree tries (suc n) seen))
      (λ free. (0, omega arith, name_first n, rw (sym (name_first n)) free, none-Taken n seen))

-- What a name and the counter after it are, for a pool below the limit.
unfoldable pub IsLowest : List String → ℕ → String × ℕ → Type 0
IsLowest existing extra (id, extra') =
    (m : ℕ) × (m ≤ length existing)
    × (id ≡ iothread_name m)
    × (extra' ≡ extra)
    × (contains_id id existing ≡ false)
    × ((i : ℕ) → i < m → contains_id (iothread_name i) existing ≡ true)

from_zero : (m : ℕ) → iothread_name (0 + m) ≡ iothread_name m
from_zero m = ap iothread_name (omega arith)

search-IsLowest :
    (existing : List String) (extra : ℕ) (search : Option String)
    → length existing < 1024
    → LowestFree 1024 0 existing search
    → IsLowest existing extra (elim search [
      | none ↦ (extra_name extra, (extra + 1) % 18446744073709551616)
      | some candidate ↦ (candidate, extra)
    ])
unfolding LowestFree IsLowest Taken
search-IsLowest existing extra none room taken =
    absurd (omega (arith, Taken-le 1024 0 existing taken))
search-IsLowest existing extra (some found) room (m, inside, named, free, taken) = (
  m,
  Taken-le m 0 existing taken,
  named ∙ from_zero m,
  refl,
  rw named free,
  λ i before. rw (sym (from_zero i)) (taken i before),
)

-- In a pool of fewer than 1024 IOThreads, the name of the next one is `iot` with the lowest number that
-- no IOThread of the pool has, which is not above the size of the pool; so no IOThread of the pool has
-- that name. The counter of the fallback names does not change.
pub next_qemu_iothread_id-IsLowest :
    (existing : List String) (extra : ℕ)
    → length existing < 1024
    → IsLowest existing extra (next_qemu_iothread_id existing extra)
unfolding next_qemu_iothread_id
next_qemu_iothread_id-IsLowest existing extra room =
    search-IsLowest existing extra (first_free 1024 0 existing) room
      (first_free-LowestFree 1024 0 existing)
