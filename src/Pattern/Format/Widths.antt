-- ===== src/Pattern/Format/Widths.antt =====
-- piece::get_text fits a text between the least and the greatest width.
use chucho.Base.{
  ◌+◌, ◌-◌, ◌<◌, ◌≡◌, refl, ◌++◌, Text, arith, length, ltb, Bool-cases, inl, inr, if◌then◌else◌,
  length-drop, length-append, replicate, length-replicate,
}
use chucho.Pattern.{FormatParams, Justification, unset, left, right}
use chucho.Pattern.Format.{fit, space}

length-padded :
    (j : Justification) (result pad : Text)
    → length (elim j [ left ↦ result ++ pad | right ↦ pad ++ result | unset ↦ pad ++ result ])
      ≡ length result + length pad
length-padded left result pad = length-append result pad
length-padded right result pad = omega (arith, length-append pad result)
length-padded unset result pad = omega (arith, length-append pad result)

-- The length of a piece's text: at least the least width and at most the greatest one, with the
-- greatest one winning where the text is longer, and the text's own length between them.
length-fit :
    (params : FormatParams) (result : Text)
    → length (fit params result) ≡ (
        if ltb params.max_width (length result)
        then params.max_width
        else if ltb (length result) params.min_width
        then params.min_width
        else length result)
unfolding fit
length-fit params result = elim (Bool-cases (ltb params.max_width (length result))) [
  | inl e ↦
      (let less : params.max_width < length result = ground arith in
        rw e (omega (arith, length-drop (length result - params.max_width) result)))
  | inr e ↦ elim (Bool-cases (ltb (length result) params.min_width)) [
    | inl f ↦
        (let less : length result < params.min_width = ground arith in
          let n = params.min_width - length result in
          rw (e, f)
            (omega (
              arith,
              length-padded params.just result (replicate n space),
              length-replicate n space,
            )))
    | inr f ↦ rw (e, f) refl
  ]
]
