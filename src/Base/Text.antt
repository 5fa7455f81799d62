-- ===== src/Base/Text.antt =====
-- What the code uses of `str`: `lines`, `split`, `trim`, `trim_matches`, `split_once` and the parsing of
-- integers.
use Prim.Native.Nat.{ℕ, ◌+◌, ◌-◌, ◌*◌}
use Prim.Native.Char.{Char, code}
use Prim.Native.String.{String, [] as empty, ◌∷◌ as cons, ◌++◌}
use mathlib.Core.Bool.{Bool, true, false, ◌&&◌, ◌||◌}
use mathlib.Core.Option.{Option, none, some}
use mathlib.Core.List.{List, [], ◌∷◌}
use text.Mathlib.Text.{starts_with}
use io_thread_controller.Base.Tests.{if◌then◌else◌, leb, ◌==◌}

-- `char::is_whitespace`.
unfoldable pub is_whitespace : ℕ → Bool
is_whitespace c =
    (leb 9 c && leb c 13)
    || c == 32
    || c == 133
    || c == 160
    || c == 5760
    || (leb 8192 c && leb c 8202)
    || c == 8232
    || c == 8233
    || c == 8239
    || c == 8287
    || c == 12288

-- `is_empty()`.
unfoldable pub is_empty : String → Bool
is_empty empty = true
is_empty (cons c s) = false

-- `trim().is_empty()`.
unfoldable pub is_blank : String → Bool
is_blank empty = true
is_blank (cons c s) = is_whitespace (code c) && is_blank s

-- The text without the characters at its start, and at its end, that pass a test.
unfoldable pub trim_start : (ℕ → Bool) → String → String
trim_start drops empty = empty
trim_start drops (cons c s) =
    let rest = trim_start drops s in if drops (code c) then rest else cons c s

unfoldable pub trim_end : (ℕ → Bool) → String → String
trim_end drops empty = empty
trim_end drops (cons c s) =
    let rest = trim_end drops s in if drops (code c) && is_empty rest then empty else cons c rest

unfoldable pub trim_both : (ℕ → Bool) → String → String
trim_both drops s = trim_end drops (trim_start drops s)

abbrev pub trim : String → String
trim = trim_both is_whitespace

-- A character as a text.
abbrev pub one_char : Char → String
one_char c = cons c empty

-- `contains`, with the text sought first.
unfoldable pub contains : String → String → Bool
contains sought empty = starts_with empty sought
contains sought (cons c s) = starts_with (cons c s) sought || contains sought s

-- `split(c)`, with the part read so far.
unfoldable pub split_from : ℕ → String → String → List String
split_from sep part empty = part ∷ []
split_from sep part (cons c s) =
    let next = split_from sep "" s in
    let more = split_from sep (part ++ one_char c) s in if code c == sep then part ∷ next else more

abbrev pub split : ℕ → String → List String
split sep s = split_from sep "" s

-- `strip_suffix('\r')`, where there is one.
unfoldable pub strip_cr : String → String
strip_cr empty = empty
strip_cr (cons c s) =
    let rest = strip_cr s in if code c == 13 && is_empty s then empty else cons c rest

-- `lines()`: a last part that is empty is no line, and a carriage return goes with its line feed.
unfoldable pub lines_from : String → String → List String
lines_from part empty = if is_empty part then [] else part ∷ []
lines_from part (cons c s) =
    let next = lines_from "" s in
    let more = lines_from (part ++ one_char c) s in
    if code c == 10 then strip_cr part ∷ next else more

abbrev pub lines : String → List String
lines s = lines_from "" s

-- `find(c)`, and the texts before and after it.
unfoldable pub split_once_from : ℕ → String → String → Option (String × String)
split_once_from sep part empty = none
split_once_from sep part (cons c s) =
    let more = split_once_from sep (part ++ one_char c) s in
    if code c == sep then some (part, s) else more

abbrev pub split_once : ℕ → String → Option (String × String)
split_once sep s = split_once_from sep "" s

-- The number of a text of digits after those read, if all are digits and it is not above a bound.
unfoldable pub digits_from : ℕ → ℕ → String → Option ℕ
digits_from bound read empty = if leb read bound then some read else none
digits_from bound read (cons c s) =
    let more = digits_from bound (read * 10 + (code c - 48)) s in
    if leb 48 (code c) && leb (code c) 57 then more else none

-- Digits, of which there is one at least.
unfoldable pub parse_digits : ℕ → String → Option ℕ
parse_digits bound s = if is_empty s then none else digits_from bound 0 s

-- `parse()` of an unsigned integer with its largest value: a `+` may stand in front.
unfoldable pub parse_unsigned : ℕ → String → Option ℕ
parse_unsigned bound empty = none
parse_unsigned bound (cons c s) =
    if code c == 43 then parse_digits bound s else parse_digits bound (cons c s)
