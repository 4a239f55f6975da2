-- ===== src/TextUtil/Sizes.antt =====
-- parse_byte_size on what a user writes: a number and a unit.
use chucho.Base.{
  ℕ, ◌*◌, ◌%◌, ◌≡◌, sym, ap, ◌∙◌, true, [], ◌∷◌, ◌++◌, Text, arith, ltb, if◌then◌else◌, ◌||◌, ◌&&◌,
  not, ◌==◌, Option, some, none, ◌-◌,
}
use chucho.TextUtil.{size, is_digit, read_digits, read_size, parse_byte_size, uintmax_mod}
use chucho.TextUtil.Decimal.{decimal, NoDigit, read_digits-decimal, decimal_first}

-- What a unit letter stands for, in either case.
abbrev pub unit_size : ℕ → Option ℕ
unit_size c =
    if c == b'b' || c == b'B'
    then some 1
    else if c == b'k' || c == b'K'
    then some 1024
    else if c == b'm' || c == b'M'
    then some 1_048_576
    else if c == b'g' || c == b'G'
    then some 1_073_741_824
    else none

-- The suffixes that the error message of parse_byte_size allows: b, k[b], m[b] and g[b].
abbrev pub suffix_size : Text → Option ℕ
suffix_size [] = some 1
suffix_size (c ∷ []) = unit_size c
suffix_size (c ∷ d ∷ []) =
    if (d == b'b' || d == b'B') && not (c == b'b' || c == b'B') then unit_size c else none
suffix_size (c ∷ d ∷ e ∷ s) = none

suffix_size-NoDigit : (s : Text) (f : ℕ) → suffix_size s ≡ some f → NoDigit s
suffix_size-NoDigit [] f h = tt
suffix_size-NoDigit (c ∷ []) f h = unfold is_digit in ground arith
suffix_size-NoDigit (c ∷ d ∷ []) f h = unfold is_digit in ground arith
suffix_size-NoDigit (c ∷ d ∷ e ∷ s) f h = cc

read_size_lem :
    (n : ℕ) (s : Text) (f : ℕ)
    → suffix_size s ≡ some f
    → read_size (n, s) ≡ size (if ltb n uintmax_mod then n * f % uintmax_mod else uintmax_mod - 1)
unfolding read_size
read_size_lem n [] f h = ground arith
read_size_lem n (c ∷ []) f h = ground arith
read_size_lem n (c ∷ d ∷ []) f h = ground arith
read_size_lem n (c ∷ d ∷ e ∷ s) f h = cc

parse_byte_size-digit :
    (c : ℕ) (s : Text)
    → is_digit c ≡ true
    → parse_byte_size (c ∷ s) ≡ read_size (read_digits 0 (c ∷ s))
unfolding parse_byte_size
parse_byte_size-digit c s h = rw h

-- A decimal number with an allowed suffix is read as the number times the unit, modulo 2 ^ 64;
-- a number that does not fit in 64 bits is read as 2 ^ 64 - 1, whatever the suffix.
pub parse_byte_size-decimal :
    (n : ℕ) (s : Text) (f : ℕ)
    → suffix_size s ≡ some f
    → parse_byte_size (decimal n ++ s)
      ≡ size (if ltb n uintmax_mod then n * f % uintmax_mod else uintmax_mod - 1)
parse_byte_size-decimal n s f h =
    let (c, t, e, digit) = decimal_first n in
    ap (λ l. parse_byte_size (l ++ s)) e
    ∙ parse_byte_size-digit c (t ++ s) digit
    ∙ ap (λ l. read_size (read_digits 0 (l ++ s))) (sym e)
    ∙ ap read_size (read_digits-decimal n s (suffix_size-NoDigit s f h))
    ∙ read_size_lem n s f h
