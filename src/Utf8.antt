-- ===== src/Utf8.antt =====
-- utf8.cpp: the scan for the first byte at which no character starts, escaping, and validation by line.
-- A text is the list of its bytes. An iterator position is the number of bytes before it.
pub mod Grammar
pub mod Scan
pub mod Escape
use chucho.Base.{
  ℕ, zero, suc, ◌+◌, ◌-◌, ◌/◌, ◌%◌, Bool, true, ◌&&◌, List, [], ◌∷◌, ◌++◌, Option, none, some, Text,
  if◌then◌else◌, ltb, leb, length, take, drop, get_or,
}

-- find_invalid, the number of bytes that must follow a byte above 0x7f
trailing : ℕ → Option ℕ
trailing ch =
    if leb 0xc0 ch && leb ch 0xdf
    then some 1
    else if leb 0xe0 ch && leb ch 0xef
    then some 2
    else if leb 0xf0 ch && leb ch 0xf4
    then some 3
    else none

-- find_invalid, the inner loop over the bytes i + 1 to end
all_follow : Text → Bool
all_follow [] = true
all_follow (ch ∷ rest) = leb 0x80 ch && leb ch 0xbf && all_follow rest

checked : ℕ → Text → Option ℕ
unfolding all_follow
checked t rest =
    if ltb (length rest) t then none else if all_follow (take t rest) then some (suc t) else none

-- One round of find_invalid at a byte and what follows it: how far `i` advances, or `none` where
-- the round returns `i`.
pub advance : ℕ → Text → Option ℕ
unfolding trailing checked
advance ch rest =
    if leb ch 0x7f then some 1 else elim (trailing ch) [ none ↦ none | some t ↦ checked t rest ]

-- The loop of find_invalid, from position `i` with the bytes that are left. `none` is npos.
pub scan : ℕ → ℕ → Text → Option ℕ
scan zero i s = none
scan (suc fuel) i [] = none
scan (suc fuel) i (ch ∷ rest) = elim (advance ch rest) [
  | none ↦ some i
  | some n ↦ scan fuel (i + n) (drop n (ch ∷ rest))
]

-- Each round consumes a byte, so the length is enough fuel.
unfoldable pub find_invalid : Text → ℕ → Option ℕ
unfolding scan advance
find_invalid utf8 pos = scan (length utf8) pos (drop pos utf8)

hex_digit : ℕ → ℕ
hex_digit d = if ltb d 10 then b'0' + d else b'a' + (d - 10)

-- "\x" and two hexadecimal digits
pub escape : ℕ → Text
unfolding hex_digit
escape c = 92 ∷ 120 ∷ hex_digit (c % 256 / 16) ∷ hex_digit (c % 256 % 16) ∷ []

-- The loop of escape_invalid, with `prev`, `result` and `invalid`, and the append after it.
pub escape_loop : ℕ → Text → ℕ → Text → Option ℕ → Text
escape_loop fuel text prev result none =
    if ltb prev (length text) then result ++ drop prev text else result
escape_loop zero text prev result (some invalid) = result
escape_loop (suc fuel) text prev result (some invalid) =
    escape_loop fuel text (suc invalid)
      (result ++ (take (invalid - prev) (drop prev text) ++ escape (get_or text invalid 0)))
      (find_invalid text (suc invalid))

unfoldable pub escape_invalid : Text → Text
unfolding escape_loop find_invalid escape
escape_invalid text = elim (find_invalid text 0) [
  | none ↦ text
  | some invalid ↦ escape_loop (length text) text 0 [] (some invalid)
]

-- validate: the lines are what std::getline reads. The exception names a line and a column.
pub data Validation : Type 0 where
  valid : Validation
  invalid_at : ℕ → ℕ → Validation

pub validate_from : ℕ → List Text → Validation
validate_from cur [] = valid
validate_from cur (line ∷ lines) = elim (find_invalid line 0) [
  | none ↦ validate_from (suc cur) lines
  | some invalid ↦ invalid_at (suc cur) (suc invalid)
]

pub validate : List Text → Validation
unfolding validate_from find_invalid
validate lines = validate_from 0 lines
