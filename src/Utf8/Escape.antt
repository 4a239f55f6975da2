-- ===== src/Utf8/Escape.antt =====
-- escape_invalid and validate.
use chucho.Base.{
  ℕ, zero, suc, ◌+◌, ◌-◌, ◌/◌, ◌%◌, ◌≤◌, ◌<◌, ◌≡◌, refl, sym, ◌⊎◌, inl, inr, List, [], ◌∷◌, Option,
  none, some, Text, arith, length, take, drop, get_or, drop-drop, take-append-drop, drop_all,
  append-nil, append_assoc, ap, ◌∙◌, ◌++◌, leb, ◌&&◌, if◌then◌else◌, Option-cases, Bool-cases, ◌↔◌,
  ltb, subst,
}
use chucho.Utf8.{
  find_invalid, hex_digit, escape, escape_loop, escape_invalid, Validation, valid, invalid_at,
  validate, validate_from,
}
use chucho.Utf8.Grammar.{IsChar, NoChar, IsUtf8Shaped, end, char}
use chucho.Utf8.Scan.{find_invalid-none, find_invalid-some}

-- The value of a hexadecimal digit
abbrev pub hex_value : ℕ → Option ℕ
hex_value h =
    if leb b'0' h && leb h b'9'
    then some (h - b'0')
    else if leb b'a' h && leb h b'f'
    then some (h - b'a' + 10)
    else none

-- A text with its characters kept, and "\x" and two hexadecimal digits of its value for each byte at
-- which no character starts, in order
pub data Escaped : Text → Text → Type 0 where
  done : Escaped [] []
  kept : (u s t w r : Text) → IsChar u → w ≡ u ++ s → r ≡ u ++ t → Escaped s t → Escaped w r
  escaped :
      (c hi lo : ℕ) (s t : Text)
      → NoChar (c ∷ s)
      → hex_value hi ≡ some (c % 256 / 16)
      → hex_value lo ≡ some (c % 256 % 16)
      → Escaped s t
      → Escaped (c ∷ s) (92 ∷ 120 ∷ hi ∷ lo ∷ t)

hex_value-hex_digit : (d : ℕ) → d < 16 → hex_value (hex_digit d) ≡ some d
unfolding hex_digit
hex_value-hex_digit d h = ground arith

hex_value_ascii : (h d : ℕ) → hex_value h ≡ some d → h ≤ 0x7f
hex_value_ascii h d e = ground arith

ascii : (c : ℕ) {s : Text} → c ≤ 0x7f → IsUtf8Shaped s → IsUtf8Shaped (c ∷ s)
ascii c {s} h u = char (c ∷ []) s _ h refl u

Escaped-IsUtf8Shaped : {s t : Text} → Escaped s t → IsUtf8Shaped t
Escaped-IsUtf8Shaped done = end
Escaped-IsUtf8Shaped (kept u s t w r is_char e f rest) =
    char u t r is_char f (Escaped-IsUtf8Shaped rest)
Escaped-IsUtf8Shaped (escaped c hi lo s t stops h l rest) = ascii 92 (omega arith) (
    ascii 120 (omega arith) (
      ascii hi (hex_value_ascii hi (c % 256 / 16) h)
        (ascii lo (hex_value_ascii lo (c % 256 % 16) l) (Escaped-IsUtf8Shaped rest))))

-- Characters in front are kept.
kept_front : {p s t : Text} → IsUtf8Shaped p → Escaped s t → Escaped (p ++ s) (p ++ t)
kept_front end k = k
kept_front {s = s} {t = t} (char u p w is_char e rest) k =
    kept u (p ++ s) (p ++ t) _ _ is_char (ap (λ x. x ++ s) e ∙ append_assoc u p s)
      (ap (λ x. x ++ t) e ∙ append_assoc u p t) (kept_front rest k)

kept_all : {s : Text} → IsUtf8Shaped s → Escaped s s
kept_all end = done
kept_all (char u s w is_char e rest) = kept u s s _ _ is_char e e (kept_all rest)

drop-get_or :
    (k : ℕ) (text : Text) → k < length text → drop k text ≡ get_or text k 0 ∷ drop (suc k) text
drop-get_or k [] h = absurd (omega arith)
drop-get_or zero (c ∷ text) h = refl
drop-get_or (suc k) (c ∷ text) h = drop-get_or k text (omega arith)

-- What stands behind a position, where the scan from there stops at another
drop_at :
    (text : Text) (prev k : ℕ)
    → prev ≤ k
    → k < length text
    → drop prev text ≡ take (k - prev) (drop prev text) ++ (get_or text k 0 ∷ drop (suc k) text)
drop_at text prev k le lt =
    let same : prev + (k - prev) ≡ k = omega arith in
    sym (take-append-drop (k - prev) (drop prev text))
    ∙ ap (λ r. take (k - prev) (drop prev text) ++ r)
        (drop-drop (k - prev) prev text ∙ (ap (λ n. drop n text) same ∙ drop-get_or k text lt))

-- What the loop appends to its result is the text behind `prev`, escaped. The fuel covers its bytes.
escape_loop-Escaped :
    (fuel : ℕ) (text : Text) (prev : ℕ) (result : Text) (found : Option ℕ)
    → length text ≤ prev + fuel
    → found ≡ find_invalid text prev
    → (r : Text) × (escape_loop fuel text prev result found ≡ result ++ r)
      × Escaped (drop prev text) r
unfolding escape_loop
escape_loop-Escaped fuel text prev result none le e = elim (Bool-cases (ltb prev (length text))) [
  | inl more ↦ (
    drop prev text,
    rw (escape_loop, more) refl,
    kept_all ((find_invalid-none text prev).0 (sym e)),
  )
  | inr over ↦ (
    [],
    rw (escape_loop, over) (sym (append-nil result)),
    rw (drop_all prev text (ground arith)) done,
  )
]
escape_loop-Escaped zero text prev result (some k) le e = absurd (
    omega
      (arith, (find_invalid-some text prev k (sym e)).0, (find_invalid-some text prev k (sym e)).1))
escape_loop-Escaped (suc fuel) text prev result (some k) le e =
    let found = find_invalid-some text prev k (sym e) in
    let c : ℕ = get_or text k 0 in
    let front : Text = take (k - prev) (drop prev text) in
    let (r, same, rest) =
      escape_loop-Escaped fuel text (suc k) (result ++ (front ++ escape c))
        (find_invalid text (suc k)) (omega (arith, found.0)) refl in
    (
      front ++ (escape c ++ r),
      same
          ∙ (append_assoc result (front ++ escape c) r
              ∙ ap (λ x. result ++ x) (append_assoc front (escape c) r)),
      subst (λ x. Escaped x (front ++ (escape c ++ r))) (sym (drop_at text prev k found.0 found.1))
          (kept_front found.2 (
            byte c (drop (suc k) text) r (subst NoChar (drop-get_or k text found.1) found.4) rest)),
    )
  where
    byte : (c : ℕ) (s r : Text) → NoChar (c ∷ s) → Escaped s r → Escaped (c ∷ s) (escape c ++ r)
    byte c s r stops rest =
        unfold escape in
        escaped c (hex_digit (c % 256 / 16)) (hex_digit (c % 256 % 16)) s r stops
          (hex_value-hex_digit (c % 256 / 16) (omega arith))
          (hex_value-hex_digit (c % 256 % 16) (omega arith)) rest

-- Whatever the bytes, escape_invalid keeps the characters of a text and writes each byte at which none
-- starts as "\x" and its two hexadecimal digits, in order, so that the result consists of characters.
-- What is a character goes by its shape, a first byte and as many bytes behind it as that announces:
-- overlong forms, surrogates and what is above U+10FFFF are kept.
pub escape_invalid-Escaped :
    (text : Text) → Escaped text (escape_invalid text) × IsUtf8Shaped (escape_invalid text)
unfolding escape_invalid
escape_invalid-Escaped text = (whole, Escaped-IsUtf8Shaped whole)
  where
    whole : Escaped text (escape_invalid text)
    whole = elim (Option-cases (find_invalid text 0)) [
      | inl e ↦ rw (e, escape_invalid) (kept_all ((find_invalid-none text 0).0 e))
      | inr (k, e) ↦
          let (r, same, all) =
            escape_loop-Escaped (length text) text 0 [] (some k) (omega arith) (sym e) in
          rw (e, escape_invalid) (subst (Escaped text) (sym same) all)
    ]

-- A text that consists of characters is left as it is, and only such a text is.
escape_invalid_fixes : (text : Text) → (escape_invalid text ≡ text) ↔ IsUtf8Shaped text
unfolding escape_invalid
escape_invalid_fixes text = (
  λ e. subst IsUtf8Shaped e (escape_invalid-Escaped text).1,
  λ u. let e = (find_invalid-none text 0).1 u in rw (e, escape_invalid) refl,
)

-- The result of `validate` is the first line that does not consist of characters, if there is one, and
-- the column at which the characters from its beginning end and none starts.
abbrev pub FirstBad : ℕ → List Text → Validation → Type 0
FirstBad cur [] valid = Unit
FirstBad cur [] (invalid_at line column) = ⊥
FirstBad cur (l ∷ ls) valid = IsUtf8Shaped l × FirstBad (suc cur) ls valid
FirstBad cur (l ∷ ls) (invalid_at line column) =
    ((line ≡ suc cur)
      × (¬ IsUtf8Shaped l)
      × (1 ≤ column)
      × (column ≤ length l)
      × IsUtf8Shaped (take (column - 1) l)
      × NoChar (drop (column - 1) l))
    ⊎ (IsUtf8Shaped l × FirstBad (suc cur) ls (invalid_at line column))

validate_from-FirstBad :
    (cur : ℕ) (lines : List Text) → FirstBad cur lines (validate_from cur lines)
unfolding validate_from
validate_from-FirstBad cur [] = tt
validate_from-FirstBad cur (l ∷ ls) = elim (Option-cases (find_invalid l 0)) [
  | inl e ↦
      rw (e, validate_from)
        (FirstBad-cons cur l ls _ ((find_invalid-none l 0).0 e)
          (validate_from-FirstBad (suc cur) ls))
  | inr (k, e) ↦
      let found = find_invalid-some l 0 k e in
      let same_column : k ≡ suc k - 1 = omega arith in
      let same_prefix : k - 0 ≡ suc k - 1 = omega arith in
      rw (e, validate_from)
        (inl (
          refl,
          found.3,
          omega arith,
          found.1,
          subst (λ m. IsUtf8Shaped (take m l)) same_prefix found.2,
          subst (λ m. NoChar (drop m l)) same_column found.4,
        ))
]
  where
    FirstBad-cons :
        (cur : ℕ) (l : Text) (ls : List Text) (v : Validation)
        → IsUtf8Shaped l
        → FirstBad (suc cur) ls v
        → FirstBad cur (l ∷ ls) v
    FirstBad-cons cur l ls valid u h = (u, h)
    FirstBad-cons cur l ls (invalid_at line column) u h = inr (u, h)

-- validate accepts if every line consists of characters by their shape, overlong forms, surrogates and
-- what is above U+10FFFF among them, and only then. Otherwise it names the first line that does not, and
-- the column at which no character starts, behind the characters that the line begins with, both
-- counted from 1.
pub validate-FirstBad : (lines : List Text) → FirstBad 0 lines (validate lines)
unfolding validate
validate-FirstBad lines = validate_from-FirstBad 0 lines
