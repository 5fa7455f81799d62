-- ===== src/Qemu/Mapping.antt =====
-- src/backends/qemu/helpers.rs: `round_robin_vq_mapping`.
pub mod Balance
use io_thread_controller.Base.{
  ℕ, zero, suc, ◌+◌, ◌%◌, ◌<◌, ◌≡◌, refl, ap, sym, ◌∙◌, Bool, true, false, ◌||◌, Option, none, some,
  String, List, [], ◌∷◌, ◌++◌, map, ◌==◌, if◌then◌else◌, keep, length, arith,
}
use native.Mathlib.Nat.{mod-lt}
use io_thread_controller.Qemu.{VqMapping}

-- `mapping[idx].vqs.push(vq)`; the index is in range, where Rust would panic.
unfoldable pub push_at : ℕ → ℕ → List VqMapping → List VqMapping
push_at idx vq [] = []
push_at zero vq (m ∷ rest) = record m { vqs = m.vqs ++ vq ∷ [] } ∷ rest
push_at (suc idx) vq (m ∷ rest) = m ∷ push_at idx vq rest

-- The loop over the queues below a number.
unfoldable pub assign : ℕ → ℕ → List VqMapping → List VqMapping
assign threads zero mapping = mapping
assign threads (suc vq) mapping = push_at (vq % threads) vq (assign threads vq mapping)

-- An IOThread with no queue.
abbrev pub unassigned : String → VqMapping
unassigned id = record { iothread = id; vqs = [] }

unfoldable pub round_robin_vq_mapping : List String → ℕ → List VqMapping
round_robin_vq_mapping [] vq_count = []
round_robin_vq_mapping ids zero = []
round_robin_vq_mapping (id ∷ ids) (suc last) =
    assign (length (id ∷ ids)) (suc last) (map unassigned (id ∷ ids))

-- The numbers below one, in order.
unfoldable pub below : ℕ → List ℕ
below zero = []
below (suc n) = below n ++ n ∷ []

-- The queues of the thread at an index.
unfoldable pub share : ℕ → ℕ → ℕ → List ℕ
share threads vq_count idx = keep (λ vq. vq % threads == idx) (below vq_count)

-- The reference: each thread, from an index on, with its share.
unfoldable pub shares : ℕ → ℕ → ℕ → List String → List VqMapping
shares threads vq_count idx [] = []
shares threads vq_count idx (id ∷ ids) =
    record { iothread = id; vqs = share threads vq_count idx }
    ∷ shares threads vq_count (suc idx) ids

keep-append : (p : ℕ → Bool) (xs ys : List ℕ) → keep p (xs ++ ys) ≡ keep p xs ++ keep p ys
keep-append p [] ys = refl
keep-append p (x ∷ xs) ys = ground (arith, keep-append p xs ys)

append-nil : (xs : List ℕ) → xs ++ [] ≡ xs
append-nil [] = refl
append-nil (x ∷ xs) = ap (λ rest. x ∷ rest) (append-nil xs)

pub share-suc :
    (threads vq idx : ℕ)
    → share threads (suc vq) idx
      ≡ (if vq % threads == idx then share threads vq idx ++ vq ∷ [] else share threads vq idx)
unfolding share below
share-suc threads vq idx = ground (
  arith,
  keep-append (λ q. q % threads == idx) (below vq) (vq ∷ []),
  append-nil (keep (λ q. q % threads == idx) (below vq)),
)

-- Threads past the one that takes the queue keep their shares.
shares_past :
    (threads vq idx : ℕ) (ids : List String)
    → vq % threads < idx
    → shares threads (suc vq) idx ids ≡ shares threads vq idx ids
unfolding shares
shares_past threads vq idx [] past = refl
shares_past threads vq idx (id ∷ ids) past =
    ground (arith, share-suc threads vq idx, shares_past threads vq (suc idx) ids (omega arith))

push_at-shares :
    (threads vq idx k : ℕ) (ids : List String)
    → vq % threads ≡ idx + k
    → k < length ids
    → push_at k vq (shares threads vq idx ids) ≡ shares threads (suc vq) idx ids
unfolding shares push_at
push_at-shares threads vq idx zero [] at inside = absurd (omega arith)
push_at-shares threads vq idx (suc k) [] at inside = absurd (omega arith)
push_at-shares threads vq idx zero (id ∷ ids) at inside =
    ground (arith, share-suc threads vq idx, shares_past threads vq (suc idx) ids (omega arith))
push_at-shares threads vq idx (suc k) (id ∷ ids) at inside = ground (
  arith,
  share-suc threads vq idx,
  push_at-shares threads vq (suc idx) k ids (omega arith) (omega arith),
)

shares_none :
    (threads idx : ℕ) (ids : List String) → map unassigned ids ≡ shares threads zero idx ids
unfolding shares share below
shares_none threads idx [] = refl
shares_none threads idx (id ∷ ids) =
    ap (λ rest. unassigned id ∷ rest) (shares_none threads (suc idx) ids)

assign-shares :
    (vq : ℕ) (id : String) (ids : List String)
    → assign (length (id ∷ ids)) vq (map unassigned (id ∷ ids))
      ≡ shares (length (id ∷ ids)) vq 0 (id ∷ ids)
unfolding assign
assign-shares zero id ids = shares_none (length (id ∷ ids)) 0 (id ∷ ids)
assign-shares (suc vq) id ids =
    ap (push_at (vq % length (id ∷ ids)) vq) (assign-shares vq id ids)
    ∙ push_at-shares (length (id ∷ ids)) vq 0 (vq % length (id ∷ ids)) (id ∷ ids) (omega arith)
        (mod-lt vq (omega arith))

pub round_robin_vq_mapping-shares :
    (id : String) (ids : List String) (vq_count : ℕ)
    → 0 < vq_count
    → round_robin_vq_mapping (id ∷ ids) vq_count ≡ shares (length (id ∷ ids)) vq_count 0 (id ∷ ids)
unfolding round_robin_vq_mapping
round_robin_vq_mapping-shares id ids zero some_queue = absurd (ground (arith, some_queue))
round_robin_vq_mapping-shares id ids (suc last) some_queue = assign-shares (suc last) id ids
