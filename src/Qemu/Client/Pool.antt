-- ===== src/Qemu/Client/Pool.antt =====
-- The names of a pool: what sorting, removing the last and mapping queues do to them.
use io_thread_controller.Base.{
  ℕ, zero, suc, ◌%◌, ◌≡◌, refl, sym, ap, ◌∙◌, true, false, ◌||◌, String, List, [], ◌∷◌, ◌++◌, map,
  arith,
}
use io_thread_controller.Base.Table.{same_id, same_id_iff, contains_id}
use io_thread_controller.Qemu.{VqMapping}
use io_thread_controller.Qemu.Mapping.{push_at, assign, unassigned, round_robin_vq_mapping}
use io_thread_controller.Qemu.Client.{split_last}
use io_thread_controller.Base.Sorting.{
  Distinct, sort_names, contains_id-sort_names, sort_names-Distinct,
}

pub contains_id-append :
    (j id : String) (ids : List String)
    → contains_id j (ids ++ id ∷ []) ≡ (same_id id j || contains_id j ids)
unfolding contains_id
contains_id-append j id [] = refl
contains_id-append j id (k ∷ ks) = ground (arith, contains_id-append j id ks)

append-Distinct :
    (id : String) (ids : List String)
    → contains_id id ids ≡ false
    → Distinct ids
    → Distinct (ids ++ id ∷ [])
unfolding Distinct contains_id
append-Distinct id [] fresh distinct = (refl, tt)
append-Distinct id (k ∷ ks) fresh (head, tail) = ground (
  arith,
  fresh,
  head,
  tail,
  contains_id-append k id ks,
  append-Distinct id ks,
  same_id_iff k id,
  same_id_iff id k,
)

-- A pool with a new name.
pub grown-Distinct :
    (id : String) (ids : List String)
    → contains_id id ids ≡ false
    → Distinct ids
    → Distinct (sort_names (ids ++ id ∷ []))
grown-Distinct id ids fresh distinct =
    sort_names-Distinct (ids ++ id ∷ []) (append-Distinct id ids fresh distinct)

pub contains_id-grown :
    (j id : String) (ids : List String)
    → contains_id j (sort_names (ids ++ id ∷ [])) ≡ (same_id id j || contains_id j ids)
contains_id-grown j id ids = contains_id-sort_names j (ids ++ id ∷ []) ∙ contains_id-append j id ids

pub contains_id-split_last :
    (j id : String) (ids : List String)
    → contains_id j (id ∷ ids)
      ≡ (same_id (split_last id ids).0 j || contains_id j (split_last id ids).1)
unfolding contains_id split_last
contains_id-split_last j id [] = refl
contains_id-split_last j id (k ∷ ks) = ground (arith, contains_id-split_last j k ks)

pub split_last-Distinct :
    (id : String) (ids : List String)
    → Distinct (id ∷ ids)
    → (contains_id (split_last id ids).0 (split_last id ids).1 ≡ false)
      × Distinct (split_last id ids).1
unfolding Distinct contains_id split_last
split_last-Distinct id [] distinct = (refl, tt)
split_last-Distinct id (k ∷ ks) (head, tail) =
    let (fresh, rest) = split_last-Distinct k ks tail in
    ground (
      arith,
      fresh,
      rest,
      head,
      contains_id-split_last id k ks,
      same_id_iff id (split_last k ks).0,
      same_id_iff (split_last k ks).0 id,
    )

-- The IOThreads that a mapping names.
abbrev pub mapped_names : List VqMapping → List String
mapped_names = map λ m. m.iothread

mapped_names-push_at :
    (idx vq : ℕ) (mapping : List VqMapping)
    → mapped_names (push_at idx vq mapping) ≡ mapped_names mapping
unfolding push_at
mapped_names-push_at idx vq [] = refl
mapped_names-push_at zero vq (m ∷ rest) = refl
mapped_names-push_at (suc idx) vq (m ∷ rest) =
    ap (λ names. m.iothread ∷ names) (mapped_names-push_at idx vq rest)

mapped_names-assign :
    (threads vq_count : ℕ) (mapping : List VqMapping)
    → mapped_names (assign threads vq_count mapping) ≡ mapped_names mapping
unfolding assign
mapped_names-assign threads zero mapping = refl
mapped_names-assign threads (suc vq) mapping =
    mapped_names-push_at (vq % threads) vq (assign threads vq mapping)
    ∙ mapped_names-assign threads vq mapping

mapped_names-unassigned : (ids : List String) → mapped_names (map unassigned ids) ≡ ids
mapped_names-unassigned [] = refl
mapped_names-unassigned (id ∷ ids) = ap (λ names. id ∷ names) (mapped_names-unassigned ids)

none_named : (j : String) → contains_id j [] ≡ true → ⊥
unfolding contains_id
none_named j named = ground (arith, named)

-- A round-robin mapping names IOThreads of its pool only.
pub round_robin-names :
    (j : String) (ids : List String) (vq_count : ℕ)
    → contains_id j (mapped_names (round_robin_vq_mapping ids vq_count)) ≡ true
    → contains_id j ids ≡ true
unfolding round_robin_vq_mapping
round_robin-names j [] vq_count named = named
round_robin-names j (id ∷ ids) zero named = absurd (none_named j named)
round_robin-names j (id ∷ ids) (suc last) named =
    sym (
      ap (contains_id j) (
        mapped_names-assign _ (suc last) (map unassigned (id ∷ ids))
        ∙ mapped_names-unassigned (id ∷ ids)))
    ∙ named
