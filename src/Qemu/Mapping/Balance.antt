-- ===== src/Qemu/Mapping/Balance.antt =====
-- How even the round-robin mapping is.
use io_thread_controller.Base.{
  ℕ, zero, suc, ◌+◌, ◌/◌, ◌%◌, ◌≤◌, ◌<◌, ◌≡◌, String, List, [], ◌∷◌, ◌==◌, ltb, if◌then◌else◌,
  length, length-append, Bool-cases, ltb→lt, inl, inr, arith,
}
use io_thread_controller.Base.Division.{div_parts}
use native.Mathlib.Nat.{mod-lt, suc-mod, mod-eq_of_lt, mod_self, div-eq_of_lt-le}
use io_thread_controller.Qemu.{VqMapping}
use io_thread_controller.Qemu.Mapping.{
  round_robin_vq_mapping, round_robin_vq_mapping-shares, share, shares, share-suc, below,
}

-- The next number within a block of `n`, and the first of the next block.
next_within : (n vq : ℕ) → suc (vq % n) < n → (suc vq / n ≡ vq / n) × (suc vq % n ≡ suc (vq % n))
next_within n vq within =
    let parts = div_parts vq n (omega (arith, within)) in
    (
      div-eq_of_lt-le n (grind (arith, parts)) (grind (arith, parts)),
      rw (suc-mod vq n) (mod-eq_of_lt within),
    )

next_block : (n vq : ℕ) → suc (vq % n) ≡ n → (suc vq / n ≡ suc (vq / n)) × (suc vq % n ≡ 0)
next_block n vq full =
    let parts = div_parts vq n (omega (arith, full)) in
    (
      div-eq_of_lt-le n (grind (arith, parts)) (grind (arith, parts)),
      rw (suc-mod vq n) (rw full (mod_self n)),
    )

-- How many queues the thread at an index has: one more for the first `vq_count % threads` threads.
unfoldable pub even_share : ℕ → ℕ → ℕ → ℕ
even_share threads vq_count idx =
    if ltb idx (vq_count % threads) then suc (vq_count / threads) else vq_count / threads

zero_share : (n : ℕ) → 0 < n → (0 / n ≡ 0) × (0 % n ≡ 0)
zero_share n positive =
    (div-eq_of_lt-le n (omega arith) (omega (arith, positive)), mod-eq_of_lt positive)

even_share-suc :
    (n vq idx : ℕ)
    → idx < n
    → even_share n (suc vq) idx
      ≡ (if vq % n == idx then suc (even_share n vq idx) else even_share n vq idx)
unfolding even_share
even_share-suc n vq idx inside = elim (Bool-cases (ltb (suc (vq % n)) n)) [
  | inl within ↦ ground (arith, next_within n vq (ltb→lt _ _ within))
  | inr full ↦ ground (
    arith,
    next_block n vq (ground (arith, mod-lt vq {m = n} (omega arith), full)),
    mod-lt vq {m = n} (omega arith),
  )
]

zero_case :
    (threads idx : ℕ) → idx < threads → length (share threads 0 idx) ≡ even_share threads 0 idx
unfolding share below even_share
zero_case threads idx inside = ground (arith, zero_share threads (omega (arith, inside)))

length-share :
    (threads vq_count idx : ℕ)
    → idx < threads
    → length (share threads vq_count idx) ≡ even_share threads vq_count idx
length-share threads zero idx inside = zero_case threads idx inside
length-share threads (suc vq) idx inside = ground (
  arith,
  share-suc threads vq idx,
  even_share-suc threads vq idx inside,
  length-share threads vq idx inside,
  length-append (share threads vq idx) (vq ∷ []),
)

-- Each thread, from an index on, has its even share of the queues.
unfoldable pub Balanced : ℕ → ℕ → ℕ → List VqMapping → Type 0
Balanced threads vq_count idx [] = Unit
Balanced threads vq_count idx (m ∷ rest) =
    (length m.vqs ≡ even_share threads vq_count idx) × Balanced threads vq_count (suc idx) rest

shares-Balanced :
    (threads vq_count idx : ℕ) (ids : List String)
    → idx + length ids ≤ threads
    → Balanced threads vq_count idx (shares threads vq_count idx ids)
unfolding shares Balanced
shares-Balanced threads vq_count idx [] inside = tt
shares-Balanced threads vq_count idx (id ∷ ids) inside = (
  length-share threads vq_count idx (omega (arith, inside)),
  shares-Balanced threads vq_count (suc idx) ids (omega (arith, inside)),
)

-- For a device with queues and a pool with threads, the mapping lists every thread in the order of the
-- pool, each with exactly the queues whose number leaves its index as the remainder, in ascending order,
-- so no queue has two threads or none; and no thread has over one queue more than another.
pub round_robin_vq_mapping-Balanced :
    (id : String) (ids : List String) (vq_count : ℕ)
    → 0 < vq_count
    → let threads = length (id ∷ ids) in
      let mapping = round_robin_vq_mapping (id ∷ ids) vq_count in
      (mapping ≡ shares threads vq_count 0 (id ∷ ids)) × Balanced threads vq_count 0 mapping
round_robin_vq_mapping-Balanced id ids vq_count some_queue =
    let even = round_robin_vq_mapping-shares id ids vq_count some_queue in
    (even, rw even (shares-Balanced (length (id ∷ ids)) vq_count 0 (id ∷ ids) (omega arith)))
