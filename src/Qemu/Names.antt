-- ===== src/Qemu/Names.antt =====
-- src/backends/qemu/helpers.rs: `next_qemu_iothread_id`, and the decimal numbers of `format!`.
mod Decimal
pub mod Fresh
use io_thread_controller.Base.{
  ℕ, zero, suc, ◌+◌, ◌/◌, ◌%◌, Bool, Option, none, some, String, List, ltb, if◌then◌else◌,
}
use Prim.Native.String.{◌++◌, slice}
use io_thread_controller.Base.Table.{contains_id}

-- A digit, for a number below ten.
unfoldable pub digit : ℕ → String
digit n = slice "0123456789" n (n + 1)

-- `{n}` in a format string; the fuel is the number of digits that it may write.
unfoldable pub decimal_within : ℕ → ℕ → String
decimal_within zero n = ""
decimal_within (suc fuel) n =
    let front = decimal_within fuel (n / 10) in
    if ltb n 10 then digit n else front ++ digit (n % 10)

unfoldable pub decimal : ℕ → String
decimal n = decimal_within (suc n) n

unfoldable pub iothread_name : ℕ → String
iothread_name n = "iot" ++ decimal n

-- The loop, from a number on, over the given number of candidates.
unfoldable pub first_free : ℕ → ℕ → List String → Option String
first_free zero n seen = none
first_free (suc tries) n seen =
    let rest = first_free tries (suc n) seen in
    let candidate = iothread_name n in if contains_id candidate seen then rest else some candidate

-- The static counter `EXTRA`, after its last value.
unfoldable pub extra_name : ℕ → String
extra_name extra = "iot-extra-" ++ decimal extra

-- The name, and the counter after it.
unfoldable pub next_qemu_iothread_id : List String → ℕ → String × ℕ
next_qemu_iothread_id existing extra = elim (first_free 1024 0 existing) [
  | none ↦ (extra_name extra, (extra + 1) % 18446744073709551616)
  | some candidate ↦ (candidate, extra)
]
