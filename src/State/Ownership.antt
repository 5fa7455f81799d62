-- ===== src/State/Ownership.antt =====
-- A classification is recorded once, and both sets stay apart (src/state.rs).
use io_thread_controller.Base.{
  ◌≡◌, refl, ◌∙◌, Bool, true, false, none, some, List, [], ◌∷◌, String, arith, ◌&&◌, not,
  if◌then◌else◌,
}
use io_thread_controller.Base.Table.{contains_id, same_id, same_id_iff}
use io_thread_controller.State.{
  VmOwnership, Result, ok, err, classification, record_vm, is_disjoint, validate,
}

is_disjoint-cons :
    (x : String) (xs ys : List String)
    → is_disjoint xs (x ∷ ys) ≡ (not (contains_id x xs) && is_disjoint xs ys)
unfolding is_disjoint contains_id
is_disjoint-cons x [] ys = refl
is_disjoint-cons x (z ∷ xs) ys =
    ground (arith, is_disjoint-cons x xs ys, same_id_iff x z, same_id_iff z x)

-- No VM is both managed and unmanaged.
pub IsApart : VmOwnership → Type 0
IsApart o =
    (vm : String) → contains_id vm o.managed_vms ≡ true → contains_id vm o.unmanaged_vms ≡ false

is_disjoint-apart :
    (xs ys : List String) (vm : String)
    → is_disjoint xs ys ≡ true
    → contains_id vm xs ≡ true
    → contains_id vm ys ≡ false
unfolding is_disjoint contains_id
is_disjoint-apart [] ys vm disjoint held = ground (arith, held)
is_disjoint-apart (x ∷ xs) ys vm disjoint held =
    ground (arith, disjoint, held, same_id_iff x vm, is_disjoint-apart xs ys vm)

pub validate-IsApart : (o : VmOwnership) → validate o ≡ ok tt → IsApart o
unfolding validate IsApart
validate-IsApart o valid vm =
    is_disjoint-apart o.managed_vms o.unmanaged_vms vm (ground (arith, valid))

recorded : VmOwnership → String → Bool → VmOwnership
recorded o vm managed =
    if managed
    then record o { managed_vms = vm ∷ o.managed_vms }
    else record o { unmanaged_vms = vm ∷ o.unmanaged_vms }

recorded_lem :
    (o : VmOwnership) (vm : String) (managed : Bool)
    → recorded o vm managed ≡ (
        if managed
        then record o { managed_vms = vm ∷ o.managed_vms }
        else record o { unmanaged_vms = vm ∷ o.unmanaged_vms })
unfolding recorded
recorded_lem o vm managed = refl

classification-recorded :
    (o : VmOwnership) (vm j : String) (managed : Bool)
    → classification o vm ≡ none
    → classification (recorded o vm managed) j
      ≡ (if same_id vm j then some managed else classification o j)
unfolding recorded classification contains_id
classification-recorded o vm j managed h = ground (arith, same_id_iff vm j)

disjoint-recorded :
    (o : VmOwnership) (vm : String) (managed : Bool)
    → classification o vm ≡ none
    → let o' = recorded o vm managed in
      is_disjoint o'.managed_vms o'.unmanaged_vms ≡ is_disjoint o.managed_vms o.unmanaged_vms
unfolding recorded classification is_disjoint
disjoint-recorded o vm managed h = ground (arith, is_disjoint-cons vm o.managed_vms o.unmanaged_vms)

-- Recording succeeds for a VM that has no classification yet, and for no other. It gives the VM the
-- recorded classification, leaves every other VM its own, and keeps disjoint sets disjoint and
-- overlapping ones overlapping.
pub record_vm-classification :
    (o o' : VmOwnership) (vm j : String) (managed : Bool)
    → record_vm o vm managed ≡ ok o'
    → (classification o vm ≡ none)
      × (classification o' j ≡ (if same_id vm j then some managed else classification o j))
      × (validate o' ≡ validate o)
unfolding record_vm validate
record_vm-classification o o' vm j managed h = ground (
  arith,
  classification-recorded o vm j managed,
  disjoint-recorded o vm managed,
  recorded_lem o vm managed,
)

-- A refused recording leaves the registry as it is.
abbrev pub after : VmOwnership → Result VmOwnership → VmOwnership
after o (ok o') = o'
after o (err e) = o

-- `record` for each of a list of VMs.
pub record_all : VmOwnership → List (String × Bool) → VmOwnership
record_all o [] = o
record_all o ((vm, managed) ∷ rest) = record_all (after o (record_vm o vm managed)) rest

step_keeps :
    (o : VmOwnership) (r : Result VmOwnership) (vm j : String) (managed known : Bool)
    → record_vm o vm managed ≡ r
    → classification o j ≡ some known
    → (classification (after o r) j ≡ some known) × (validate (after o r) ≡ validate o)
step_keeps o (err e) vm j managed known h c = (c, refl)
step_keeps o (ok o') vm j managed known h c =
    let step = record_vm-classification o o' vm j managed h in
    (ground (arith, step, same_id_iff vm j), step.2)

-- A classification never changes: whatever is recorded later, a VM that has one keeps it, and a
-- registry that is valid stays valid.
pub record_all_keeps :
    (attempts : List (String × Bool)) (o : VmOwnership) (j : String) (known : Bool)
    → classification o j ≡ some known
    → (classification (record_all o attempts) j ≡ some known)
      × (validate (record_all o attempts) ≡ validate o)
unfolding record_all
record_all_keeps [] o j known c = (c, refl)
record_all_keeps ((vm, managed) ∷ rest) o j known c =
    let step = step_keeps o (record_vm o vm managed) vm j managed known refl c in
    let later = record_all_keeps rest (after o (record_vm o vm managed)) j known step.0 in
    (later.0, later.1 ∙ step.1)
