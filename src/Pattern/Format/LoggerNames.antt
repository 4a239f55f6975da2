-- ===== src/Pattern/Format/LoggerNames.antt =====
-- logger_piece keeps the last components of a logger's name.
use chucho.Base.{
  suc, ◌+◌, ◌-◌, ◌≡◌, refl, true, [], ◌∷◌, ◌++◌, Text, arith, length, length-append, ltb, leb, ◌==◌,
  Bool-cases, inl, inr, if◌then◌else◌,
}
use chucho.TextUtil.{from_first_of}
use chucho.Pattern.Format.{dots, after_dots, logger_text}

dots-append : (a b : Text) → dots (a ++ b) ≡ dots a + dots b
unfolding dots
dots-append [] b = omega arith
dots-append (c ∷ a) b = elim (Bool-cases (c == b'.')) [
  | inl e ↦ rw e (omega (arith, dots-append a b))
  | inr e ↦ rw e (dots-append a b)
]

after_dots-append : (a b : Text) → after_dots (suc (dots a)) (a ++ b'.' ∷ b) ≡ b
unfolding dots after_dots from_first_of
after_dots-append [] b = refl
after_dots-append (c ∷ a) b = elim (Bool-cases (c == b'.')) [
  | inl e ↦ rw (e, after_dots) (after_dots-append a b)
  | inr e ↦ rw (e, after_dots) (after_dots-append a b)
]

-- A name is cut to as many components at the end as are asked for, if it has more of them and if
-- more than one byte is left.
pub logger_text-components :
    (a b : Text)
    → logger_text (dots b + 1) (a ++ b'.' ∷ b) ≡ (if ltb 1 (length b) then b else a ++ b'.' ∷ b)
unfolding logger_text dots
logger_text-components a b =
    let count : dots (a ++ b'.' ∷ b) ≡ dots a + suc (dots b) = dots-append a (b'.' ∷ b) in
    let gap : dots a + suc (dots b) + 1 - (dots b + 1) ≡ suc (dots a) = omega arith in
    let longer : length (a ++ b'.' ∷ b) ≡ length a + suc (length b) = length-append a (b'.' ∷ b) in
    let less : ltb (length b) (length a + suc (length b)) ≡ true = ground arith in
    let some_dots : ltb 1 (dots a + suc (dots b) + 1) ≡ true = ground arith in
    let enough : leb (dots b + 1) (dots a + suc (dots b) + 1) ≡ true = ground arith in
    rw (count, gap, some_dots, enough, after_dots-append a b, longer, less) refl
