-- ===== src/Qemu/Names/Decimal.antt =====
-- Different numbers are printed differently, since reading a number back gives it.
use io_thread_controller.Base.{
  ℕ, zero, suc, ◌+◌, ◌-◌, ◌*◌, ◌/◌, ◌%◌, ◌<◌, ◌≡◌, sym, ap, ◌∙◌, String, inl, inr, ltb, ltb→lt,
  Bool-cases, arith,
}
use Prim.Native.Char.{code}
use Prim.Native.String.{[], ◌∷◌, ◌++◌}
use text.Mathlib.TextLemmas.{nil-append, cons-append, append_cancel_left}
use io_thread_controller.Base.Division.{div_parts}
use io_thread_controller.Qemu.Names.{digit, decimal_within, decimal, iothread_name}

-- The number that a text of digits stands for, after those already read.
unfoldable read_on : ℕ → String → ℕ
read_on read [] = read
read_on read (c ∷ s) = read_on (read * 10 + (code c - 48)) s

read_on-append : (read : ℕ) (s t : String) → read_on read (s ++ t) ≡ read_on (read_on read s) t
unfolding read_on
read_on-append read [] t = ap (read_on read) (nil-append t)
read_on-append read (c ∷ s) t =
    ap (read_on read) (cons-append c s t) ∙ read_on-append (read * 10 + (code c - 48)) s t

read_on-digit : (read n : ℕ) → n < 10 → read_on read (digit n) ≡ read * 10 + n
unfolding read_on digit
read_on-digit read zero small = omega arith
read_on-digit read (suc zero) small = omega arith
read_on-digit read (suc (suc zero)) small = omega arith
read_on-digit read (suc (suc (suc zero))) small = omega arith
read_on-digit read (suc (suc (suc (suc zero)))) small = omega arith
read_on-digit read (suc (suc (suc (suc (suc zero))))) small = omega arith
read_on-digit read (suc (suc (suc (suc (suc (suc zero)))))) small = omega arith
read_on-digit read (suc (suc (suc (suc (suc (suc (suc zero))))))) small = omega arith
read_on-digit read (suc (suc (suc (suc (suc (suc (suc (suc zero)))))))) small = omega arith
read_on-digit read (suc (suc (suc (suc (suc (suc (suc (suc (suc zero))))))))) small = omega arith
read_on-digit read (suc (suc (suc (suc (suc (suc (suc (suc (suc (suc n)))))))))) small =
    absurd (omega arith)

read_on-decimal_within : (fuel n : ℕ) → n < fuel → read_on 0 (decimal_within fuel n) ≡ n
unfolding decimal_within
read_on-decimal_within zero n enough = absurd (omega arith)
read_on-decimal_within (suc fuel) n enough = elim (Bool-cases (ltb n 10)) [
  | inl one_digit ↦ ground (arith, one_digit, read_on-digit 0 n (ltb→lt n 10 one_digit))
  | inr more ↦ ground (
    arith,
    more,
    div_parts n 10 (omega arith),
    read_on-append 0 (decimal_within fuel (n / 10)) (digit (n % 10)),
    read_on-decimal_within fuel (n / 10) (ground (arith, more)),
    read_on-digit (n / 10) (n % 10) (omega arith),
  )
]

decimal-inj : (n m : ℕ) → decimal n ≡ decimal m → n ≡ m
unfolding decimal
decimal-inj n m same =
    sym (read_on-decimal_within (suc n) n (omega arith))
    ∙ ap (read_on 0) same
    ∙ read_on-decimal_within (suc m) m (omega arith)

pub iothread_name-inj : (n m : ℕ) → iothread_name n ≡ iothread_name m → n ≡ m
unfolding iothread_name
iothread_name-inj n m same = decimal-inj n m (append_cancel_left "iot" _ _ same)
