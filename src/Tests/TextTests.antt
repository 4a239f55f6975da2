-- ===== src/Tests/TextTests.antt =====
-- utf8.cpp, text_util.cpp and level.cpp.
use chucho.Base.{
  ◌≡◌, refl, List, [], ◌∷◌, ◌++◌, some, Text, codes, ◌-◌, ◌*◌, ◌%◌, if◌then◌else◌, ltb, text_lt,
}
use chucho.Utf8.{find_invalid, escape_invalid, validate}
use chucho.Utf8.Grammar.{IsUtf8Shaped}
use chucho.Utf8.Escape.{Escaped, escape_invalid-Escaped, FirstBad, validate-FirstBad}
use chucho.TextUtil.{tokenize, parse_byte_size, size, uintmax_mod, to_lower}
use chucho.TextUtil.Decimal.{decimal}
use chucho.TextUtil.Sizes.{parse_byte_size-decimal}
use chucho.Level.{Level, trace_level, error_level}
use chucho.Level.Registry.{IsSorted}

-- "a", a character of two bytes, a byte that stands alone, "b"
abbrev broken : Text
broken = b'a' ∷ 0xc3 ∷ 0xa9 ∷ 0xff ∷ b'b' ∷ []

find_invalid-broken : find_invalid broken 0 ≡ some 3
unfolding find_invalid
find_invalid-broken = refl

escape_invalid-broken : escape_invalid broken ≡ b'a' ∷ 0xc3 ∷ 0xa9 ∷ codes "\\xffb"
unfolding escape_invalid
escape_invalid-broken = refl

escape_invalid-Escaped_example :
    Escaped broken (escape_invalid broken) × IsUtf8Shaped (escape_invalid broken)
escape_invalid-Escaped_example = escape_invalid-Escaped broken

validate-FirstBad_example :
    FirstBad 0 (codes "fine" ∷ broken ∷ []) (validate (codes "fine" ∷ broken ∷ []))
validate-FirstBad_example = validate-FirstBad (codes "fine" ∷ broken ∷ [])

tokenize_two : tokenize (codes ",a,,bc,") b',' ≡ codes "a" ∷ codes "bc" ∷ []
unfolding tokenize
tokenize_two = refl

parse_byte_size-decimal_example :
    parse_byte_size (decimal 20 ++ codes "Mb")
    ≡ size (if ltb 20 uintmax_mod then 20 * 1_048_576 % uintmax_mod else uintmax_mod - 1)
parse_byte_size-decimal_example = parse_byte_size-decimal 20 (codes "Mb") 1_048_576 refl

abbrev two_levels : List Level
two_levels = error_level ∷ trace_level ∷ []

two_levels-IsSorted : IsSorted two_levels
unfolding to_lower text_lt
two_levels-IsSorted = ((refl, tt), (tt, tt))
