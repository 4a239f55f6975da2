-- ===== src/Interval/Every.antt =====
-- What interval_file_roll_trigger_factory.cpp makes of the value of `every`.
use chucho.Base.{
  ℕ, ◌≡◌, refl, sym, ap, ◌∙◌, ◌^◌, ◌<◌, Bool, true, false, not, ◌&&◌, [], ◌∷◌, ◌++◌, none, some,
  Text, codes, if◌then◌else◌, ltb, length, pos, arith, subst,
}
use chucho.TextUtil.{
  lower, to_lower, is_digit, is_space, read_digits, skip_space, word, uintmax_mod,
}
use chucho.TextUtil.Decimal.{decimal, read_digits-decimal, decimal_first}
use chucho.Policy.{SecurityPolicy, valid, validate_integer, validate_text}
use chucho.Interval.{
  Period, minute, hour, day, week, month, IntervalMemento, count_key, period_key, period_named,
  singular, set_period, read_period, read_word, parse_period, no_value, create_trigger,
}

abbrev pub unit_name : Period → Bool → Text
unit_name u plural =
    (elim u [
      | minute ↦ codes "minute"
      | hour ↦ codes "hour"
      | day ↦ codes "day"
      | week ↦ codes "week"
      | month ↦ codes "month"
    ])
    ++ (if plural then codes "s" else [])

period_named-unit_name :
    (u : Period) (plural : Bool) → period_named (singular (unit_name u plural)) ≡ some u
unfolding period_named singular
period_named-unit_name minute true = refl
period_named-unit_name minute false = refl
period_named-unit_name hour true = refl
period_named-unit_name hour false = refl
period_named-unit_name day true = refl
period_named-unit_name day false = refl
period_named-unit_name week true = refl
period_named-unit_name week false = refl
period_named-unit_name month true = refl
period_named-unit_name month false = refl

-- No white space
abbrev solid : Text → Bool
solid [] = true
solid (c ∷ s) = not (is_space c) && solid s

unit_name-solid :
    (u : Period) (plural : Bool)
    → (solid (unit_name u plural) ≡ true) × (ltb (length (unit_name u plural)) 3 ≡ false)
unfolding is_space
unit_name-solid minute true = (refl, refl)
unit_name-solid minute false = (refl, refl)
unit_name-solid hour true = (refl, refl)
unit_name-solid hour false = (refl, refl)
unit_name-solid day true = (refl, refl)
unit_name-solid day false = (refl, refl)
unit_name-solid week true = (refl, refl)
unit_name-solid week false = (refl, refl)
unit_name-solid month true = (refl, refl)
unit_name-solid month false = (refl, refl)

solid-to_lower : (s : Text) → solid (to_lower s) ≡ solid s
unfolding to_lower lower is_space
solid-to_lower [] = refl
solid-to_lower (c ∷ s) = ground (arith, solid-to_lower s)

word-solid : (s : Text) → solid s ≡ true → word s ≡ s
unfolding word
word-solid [] h = refl
word-solid (c ∷ s) h = ground (arith, word-solid s)

skip_space-solid : (s : Text) → solid s ≡ true → skip_space s ≡ s
unfolding skip_space
skip_space-solid [] h = refl
skip_space-solid (c ∷ s) h = ground arith

parse_period_digit :
    (p : SecurityPolicy) (c : ℕ) (s : Text) (m : IntervalMemento)
    → is_digit c ≡ true
    → validate_text period_key (c ∷ s) p ≡ valid (c ∷ s)
    → parse_period p (c ∷ s) m ≡ read_period p (read_digits 0 (c ∷ s)) m
unfolding parse_period
parse_period_digit p c s m d h = rw (parse_period, h, d) refl

parse_period-decimal :
    (p : SecurityPolicy) (n : ℕ) (s : Text) (m : IntervalMemento)
    → validate_text period_key (decimal n ++ s) p ≡ valid (decimal n ++ s)
    → parse_period p (decimal n ++ s) m ≡ read_period p (read_digits 0 (decimal n ++ s)) m
parse_period-decimal p n s m =
    let (c, t, e, digit) = decimal_first n in
    subst
      (λ l.
        validate_text period_key (l ++ s) p ≡ valid (l ++ s)
        → parse_period p (l ++ s) m ≡ read_period p (read_digits 0 (l ++ s)) m)
      (sym e) (parse_period_digit p c (t ++ s) m digit)

read_period-unit_name :
    (p : SecurityPolicy) (n : ℕ) (raw : Text) (m : IntervalMemento)
    → n < 2 ^ 63
    → validate_integer count_key (pos n) p ≡ valid (pos n)
    → solid raw ≡ true
    → read_period p (n, b' ' ∷ raw) m ≡ set_period raw m
unfolding read_period read_word skip_space is_space
read_period-unit_name p n raw m small integer h =
    let narrow : ltb n (2 ^ 63) ≡ true = ground arith in
    let fits : ltb n uintmax_mod ≡ true = ground arith in
    let read : read_word true (b' ' ∷ raw) ≡ raw =
      ap word {x = skip_space (b' ' ∷ raw)} {y = raw} (skip_space-solid raw h) ∙ word-solid raw h in
    rw (read_period, fits, narrow, integer)
      (ap (λ b. set_period (read_word b (b' ' ∷ raw)) m) fits ∙ ap (λ r. set_period r m) read)

set_period-unit_name :
    (raw : Text) (u : Period) (plural : Bool) (m : IntervalMemento)
    → to_lower raw ≡ unit_name u plural
    → set_period raw m ≡ some (record m { period = some u })
unfolding set_period
set_period-unit_name raw u plural m h =
    rw (h, (unit_name-solid u plural).1, period_named-unit_name u plural) refl

-- A number, a space, and the name of a unit in any case, with an s or without, which the security
-- policy lets pass, gives a memento the unit but no count. interval_file_roll_trigger_factory then takes
-- the value of the count that is not there.
pub parse_period-unit_name :
    (p : SecurityPolicy) (n : ℕ) (raw : Text) (u : Period) (plural : Bool) (m : IntervalMemento)
    → to_lower raw ≡ unit_name u plural
    → n < 2 ^ 63
    → validate_text period_key (decimal n ++ (b' ' ∷ raw)) p ≡ valid (decimal n ++ (b' ' ∷ raw))
    → validate_integer count_key (pos n) p ≡ valid (pos n)
    → m.count ≡ none
    → (parse_period p (decimal n ++ (b' ' ∷ raw)) m ≡ some (record m { period = some u }))
      × (create_trigger (record m { period = some u }) ≡ no_value)
unfolding read_period create_trigger
parse_period-unit_name p n raw u plural m name small text integer no_count =
    let plain : solid raw ≡ true =
      sym (solid-to_lower raw) ∙ ap solid name ∙ (unit_name-solid u plural).0 in
    (
      parse_period-decimal p n (b' ' ∷ raw) m text
          ∙ ap (λ r. read_period p r m)
              (read_digits-decimal n (b' ' ∷ raw) (unfold is_digit in refl))
          ∙ read_period-unit_name p n raw m small integer plain
          ∙ set_period-unit_name raw u plural m name,
      rw no_count refl,
    )
