-- ===== src/TextUtil.antt =====
-- text_util.cpp. A text is the list of its bytes. Where the source keeps a position in a text, the
-- model keeps the bytes from that position on; the position npos is the empty list.
pub mod Tokens
pub mod Decimal
pub mod Sizes
use chucho.Base.{
  ◌≡◌, refl, ℕ, zero, suc, ◌+◌, ◌-◌, ◌*◌, ◌/◌, ◌%◌, ◌^◌, Bool, true, false, not, ◌&&◌, ◌||◌, List,
  [], ◌∷◌, ◌++◌, map, Option, none, some, Text, codes, if◌then◌else◌, ltb, leb, ◌==◌, length,
  get_or,
}
use mathlib.Core.List.{reverse}

-- std::tolower of the "C" locale
unfoldable pub lower : ℕ → ℕ
lower c = if leb b'A' c && leb c b'Z' then c + 32 else c

unfoldable pub to_lower : Text → Text
unfolding lower
to_lower text = map lower text

-- text.find_first_not_of(delim, pos)
pub find_first_not_of : ℕ → Text → Text
find_first_not_of delim [] = []
find_first_not_of delim (c ∷ s) = if c == delim then find_first_not_of delim s else c ∷ s

-- text.find_first_of(delim, start): what stands before it, and the text from it on
unfoldable pub before_first_of : ℕ → Text → Text
before_first_of delim [] = []
before_first_of delim (c ∷ s) = if c == delim then [] else c ∷ before_first_of delim s

unfoldable pub from_first_of : ℕ → Text → Text
from_first_of delim [] = []
from_first_of delim (c ∷ s) = if c == delim then c ∷ s else from_first_of delim s

-- The loop of `tokenize` from `start` on; each round consumes a byte.
pub tokens : ℕ → ℕ → Text → List Text
tokens zero delim start = []
tokens (suc fuel) delim [] = []
tokens (suc fuel) delim (c ∷ s) =
    before_first_of delim (c ∷ s)
    ∷ tokens fuel delim (find_first_not_of delim (from_first_of delim (c ∷ s)))

unfoldable pub tokenize : Text → ℕ → List Text
unfolding tokens find_first_not_of before_first_of from_first_of
tokenize text delim = tokens (length text) delim (find_first_not_of delim text)

-- std::isblank
is_blank : ℕ → Bool
is_blank c = c == 32 || c == 9

skip_blank : Text → Text
unfolding is_blank
skip_blank [] = []
skip_blank (c ∷ s) = if is_blank c then skip_blank s else c ∷ s

pub trim : Text → Text
unfolding skip_blank
trim text = reverse (skip_blank (reverse (skip_blank text)))

-- std::isdigit and std::isspace of the "C" locale
unfoldable pub is_digit : ℕ → Bool
is_digit c = leb b'0' c && leb c b'9'

unfoldable pub is_space : ℕ → Bool
is_space c = c == 32 || (leb 9 c && leb c 13)

abbrev pub uintmax_mod : ℕ
uintmax_mod = 2 ^ 64

-- The digits at the front of a stream, read as a number after `acc`, and what follows them.
unfoldable pub read_digits : ℕ → Text → ℕ × Text
unfolding is_digit
read_digits acc [] = (acc, [])
read_digits acc (c ∷ s) =
    let rest = read_digits (acc * 10 + (c - b'0')) s in if is_digit c then rest else (acc, c ∷ s)

-- `stream >> suffix`: white space is skipped and a word is read.
unfoldable pub skip_space : Text → Text
unfolding is_space
skip_space [] = []
skip_space (c ∷ s) = if is_space c then skip_space s else c ∷ s

unfoldable pub word : Text → Text
unfolding is_space
word [] = []
word (c ∷ s) = let rest = word s in if is_space c then [] else c ∷ rest

pub data ByteSize : Type 0 where
  size : ℕ → ByteSize
  not_a_digit : ByteSize
  invalid_suffix : Text → ByteSize

-- The test of a suffix that is not empty, in lower case.
suffix_rejected : Text → Bool
suffix_rejected lower =
    ltb 2 (length lower)
    || (length lower == 2 && not (get_or lower 1 0 == b'b'))
    || (length lower == 2 && get_or lower 0 0 == b'b')
    || not (is_unit (get_or lower 0 0))
  where
    is_unit : ℕ → Bool
    is_unit c = c == b'b' || c == b'k' || c == b'm' || c == b'g'

-- The switch on the first letter; multiplication is that of std::uintmax_t.
multiplied : ℕ → ℕ → ℕ
multiplied unit tmp =
    if unit == b'k'
    then tmp * 1024 % uintmax_mod
    else if unit == b'm'
    then tmp * (1024 * 1024) % uintmax_mod
    else if unit == b'g'
    then tmp * (1024 * 1024 * 1024) % uintmax_mod
    else tmp

apply_suffix : ℕ → Text → ByteSize
unfolding suffix_rejected multiplied to_lower
apply_suffix tmp [] = size tmp
apply_suffix tmp (c ∷ s) =
    if suffix_rejected (to_lower (c ∷ s))
    then invalid_suffix (c ∷ s)
    else size (multiplied (lower c) tmp)

-- `stream >> tmp` gives the greatest value and fails if the number does not fit, and then the
-- suffix is not read either.
read_size : ℕ × Text → ByteSize
unfolding apply_suffix skip_space word
read_size (n, rest) =
    if ltb n uintmax_mod then apply_suffix n (word (skip_space rest)) else size (uintmax_mod - 1)

pub parse_byte_size : Text → ByteSize
unfolding read_size read_digits
parse_byte_size [] = not_a_digit
parse_byte_size (c ∷ s) = if is_digit c then read_size (read_digits 0 (c ∷ s)) else not_a_digit

parse_2k : parse_byte_size (codes "2 Kb") ≡ size 2048
unfolding parse_byte_size
parse_2k = refl
