-- ===== src/Controller/Plan/Sorting.antt =====
-- src/controller.rs: the sort of a plan puts the shrinking entries first.
use io_thread_controller.Base.{
  ℕ, ◌+◌, ◌≤◌, Bool, true, false, not, ◌≡◌, refl, List, [], ◌∷◌, ◌++◌, String, arith, ◌==◌, All,
  All-imp, All-keep, Bool-cases, sym, ap, ◌∙◌, if_keeps, elim_keeps, inl, inr, keep,
}
use io_thread_controller.Base.Table.{lookup, contains_id}
use io_thread_controller.Engines.{target, InstanceDecision}
use io_thread_controller.Instance.{InstanceStatus}
use io_thread_controller.Controller.Plan.{
  Planned, plan_one, plan_from, key_le, insert_sorted, sort_plan, plan,
}

abbrev pub is_shrink : Planned → Bool
is_shrink a = not a.is_growth

-- The shrinking actions in the order of the decisions, then the growing ones in theirs.
unfoldable pub shrink_first : List Planned → List Planned
shrink_first items = keep is_shrink items ++ keep (λ a. a.is_growth) items

-- Every entry was numbered at or after `n`, in increasing order.
unfoldable IsNumbered : ℕ → List Planned → Type 0
IsNumbered n [] = Unit
IsNumbered n (a ∷ rest) = (n ≤ a.sequence) × IsNumbered (a.sequence + 1) rest

IsNumbered-weaken :
    (m n : ℕ) (items : List Planned) → m ≤ n → IsNumbered n items → IsNumbered m items
unfolding IsNumbered
IsNumbered-weaken m n [] le numbered = tt
IsNumbered-weaken m n (a ∷ rest) le (at, later) = (omega arith, later)

IsNumbered-nil : (n : ℕ) → IsNumbered n []
unfolding IsNumbered
IsNumbered-nil n = tt

IsNumbered-append :
    (n : ℕ) (a : Planned) (items : List Planned)
    → n ≤ a.sequence
    → IsNumbered (a.sequence + 1) items
    → IsNumbered n (a ∷ items)
unfolding IsNumbered
IsNumbered-append n a items le numbered = (le, numbered)

-- Numbered at or after `n`, and growing or not.
IsAfter : ℕ → Bool → Planned → Type 0
IsAfter n growth b = (n ≤ b.sequence) × (b.is_growth ≡ growth)

IsNumbered-All :
    (n : ℕ) (items : List Planned) → IsNumbered n items → All (λ b. n ≤ b.sequence) items
unfolding IsNumbered
IsNumbered-All n [] numbered = tt
IsNumbered-All n (a ∷ rest) (le, later) =
    (le, All-imp rest (λ b after. omega arith) (IsNumbered-All (a.sequence + 1) rest later))

keep_shrinks-All :
    (n : ℕ) (items : List Planned)
    → IsNumbered n items
    → All (IsAfter n false) (keep is_shrink items)
unfolding IsAfter
keep_shrinks-All n items numbered =
    All-keep is_shrink items (λ b holds after. (after, ground (arith, holds)))
      (IsNumbered-All n items numbered)

keep_growths-All :
    (n : ℕ) (items : List Planned)
    → IsNumbered n items
    → All (IsAfter n true) (keep (λ b. b.is_growth) items)
unfolding IsAfter
keep_growths-All n items numbered =
    All-keep (λ b. b.is_growth) items (λ b holds after. (after, holds))
      (IsNumbered-All n items numbered)

insert_sorted-front :
    (a : Planned) (items : List Planned)
    → All (λ b. key_le a b ≡ true) items
    → insert_sorted a items ≡ a ∷ items
unfolding insert_sorted
insert_sorted-front a [] all = refl
insert_sorted-front a (b ∷ rest) (le, all) = ground (arith, le)

insert_sorted-skip :
    (a : Planned) (xs ys : List Planned)
    → All (λ b. key_le a b ≡ false) xs
    → insert_sorted a (xs ++ ys) ≡ xs ++ insert_sorted a ys
unfolding insert_sorted
insert_sorted-skip a [] ys all = refl
insert_sorted-skip a (b ∷ rest) ys (gt, all) = ground (arith, gt, insert_sorted-skip a rest ys all)

All-append {ℓ κ} :
    {A : Type ℓ} (P : A → Type κ) (xs ys : List A) → All P xs → All P ys → All P (xs ++ ys)
All-append P [] ys all_xs all_ys = all_ys
All-append P (x ∷ xs) ys (p, all_xs) all_ys = (p, All-append P xs ys all_xs all_ys)

key_le-growth :
    (a b : Planned) → a.is_growth ≡ true → IsAfter (a.sequence + 1) true b → key_le a b ≡ true
unfolding key_le IsAfter
key_le-growth a b growing (after, growth) = ground (arith, growing, growth)

key_le-shrink :
    (a b : Planned) (growth : Bool)
    → a.is_growth ≡ false
    → IsAfter (a.sequence + 1) growth b
    → key_le a b ≡ true
unfolding key_le IsAfter
key_le-shrink a b growth shrinking (after, e) = ground (arith, shrinking)

key_le-growth_shrink :
    (a b : Planned) → a.is_growth ≡ true → IsAfter (a.sequence + 1) false b → key_le a b ≡ false
unfolding key_le IsAfter
key_le-growth_shrink a b growing (after, shrink) = ground (arith, growing, shrink)

abbrev pub is_growing : Planned → Bool
is_growing b = b.is_growth

shrink_first-growth :
    (a : Planned) (items : List Planned)
    → a.is_growth ≡ true
    → shrink_first (a ∷ items) ≡ keep is_shrink items ++ a ∷ keep is_growing items
unfolding shrink_first
shrink_first-growth a items growing = ground (arith, growing)

shrink_first-shrink :
    (a : Planned) (items : List Planned)
    → a.is_growth ≡ false
    → shrink_first (a ∷ items) ≡ a ∷ shrink_first items
unfolding shrink_first
shrink_first-shrink a items shrinking = ground (arith, shrinking)

insert_sorted-growth :
    (a : Planned) (items : List Planned)
    → IsNumbered (a.sequence + 1) items
    → a.is_growth ≡ true
    → insert_sorted a (keep is_shrink items ++ keep is_growing items)
      ≡ keep is_shrink items ++ a ∷ keep is_growing items
insert_sorted-growth a items numbered growing =
    insert_sorted-skip a (keep is_shrink items) (keep is_growing items)
      (All-imp _ (λ b. key_le-growth_shrink a b growing) (keep_shrinks-All _ items numbered))
    ∙ ap (λ later. keep is_shrink items ++ later)
        (insert_sorted-front a (keep is_growing items)
          (All-imp _ (λ b. key_le-growth a b growing) (keep_growths-All _ items numbered)))

insert_sorted-shrink :
    (a : Planned) (items : List Planned)
    → IsNumbered (a.sequence + 1) items
    → a.is_growth ≡ false
    → insert_sorted a (keep is_shrink items ++ keep is_growing items)
      ≡ a ∷ (keep is_shrink items ++ keep is_growing items)
insert_sorted-shrink a items numbered shrinking = insert_sorted-front a _ (
    All-append (λ b. key_le a b ≡ true) (keep is_shrink items) (keep is_growing items)
      (All-imp _ (λ b. key_le-shrink a b false shrinking) (keep_shrinks-All _ items numbered))
      (All-imp _ (λ b. key_le-shrink a b true shrinking) (keep_growths-All _ items numbered)))

insert_sorted-shrink_first :
    (a : Planned) (items : List Planned)
    → IsNumbered (a.sequence + 1) items
    → insert_sorted a (shrink_first items) ≡ shrink_first (a ∷ items)
unfolding shrink_first
insert_sorted-shrink_first a items numbered = elim (Bool-cases a.is_growth) [
  | inl growing ↦
      insert_sorted-growth a items numbered growing ∙ sym (shrink_first-growth a items growing)
  | inr shrinking ↦
      insert_sorted-shrink a items numbered shrinking ∙ sym (shrink_first-shrink a items shrinking)
]

sort_plan-shrink_first :
    (n : ℕ) (items : List Planned) → IsNumbered n items → sort_plan items ≡ shrink_first items
unfolding sort_plan IsNumbered shrink_first
sort_plan-shrink_first n [] numbered = refl
sort_plan-shrink_first n (a ∷ rest) (le, later) =
    ap (insert_sorted a) (sort_plan-shrink_first (a.sequence + 1) rest later)
    ∙ insert_sorted-shrink_first a rest later

-- What `plan_one` adds is numbered `sequence`.
plan_one-IsNumbered :
    {F : Type 0} (vms : List (String × InstanceStatus F)) (sequence : ℕ) (d : InstanceDecision)
    (rest : List Planned)
    → IsNumbered (sequence + 1) rest
    → IsNumbered sequence (plan_one vms sequence d ++ rest)
unfolding plan_one
plan_one-IsNumbered vms sequence d rest numbered =
    elim_keeps Q (lookup d.instance_id vms) _ _ (λ _. weaker)
      (λ status _.
        elim_keeps Q (target d.decision) _ _ (λ _. weaker)
          (λ t _.
            if_keeps Q (t == status.thread_count) _ _ (λ _. weaker)
              (λ _. IsNumbered-append sequence _ rest (omega arith) numbered)))
  where
    Q : List Planned → Type 0
    Q items = IsNumbered sequence (items ++ rest)

    weaker : IsNumbered sequence rest
    weaker = IsNumbered-weaken sequence (sequence + 1) rest (omega arith) numbered

plan_from-IsNumbered :
    {F : Type 0} (vms : List (String × InstanceStatus F)) (planned_ids : List String) (sequence : ℕ)
    (ds : List InstanceDecision)
    → IsNumbered sequence (plan_from vms planned_ids sequence ds)
unfolding plan_from
plan_from-IsNumbered vms planned_ids sequence [] = IsNumbered-nil sequence
plan_from-IsNumbered vms planned_ids sequence (d ∷ ds) =
    let later = plan_from-IsNumbered vms (d.instance_id ∷ planned_ids) (sequence + 1) ds in
    if_keeps (IsNumbered sequence) (contains_id d.instance_id planned_ids) _ _
      (λ _. IsNumbered-weaken sequence (sequence + 1) _ (omega arith) later)
      (λ _. plan_one-IsNumbered vms sequence d _ later)

pub plan-sorted :
    {F : Type 0} (vms : List (String × InstanceStatus F)) (decisions : List InstanceDecision)
    → plan vms decisions ≡ shrink_first (plan_from vms [] 0 decisions)
unfolding plan
plan-sorted vms decisions = sort_plan-shrink_first 0 _ (plan_from-IsNumbered vms [] 0 decisions)
