-- ===== src/Interval.antt =====
-- interval_file_roll_trigger_memento.cpp and interval_file_roll_trigger_factory.cpp: how the
-- configuration makes an interval_file_roll_trigger. Reports are left out.
pub mod Every
use chucho.Base.{
  ℕ, ◌-◌, ◌^◌, Bool, true, false, List, [], ◌∷◌, Option, none, some, Text, codes, text_eq,
  if◌then◌else◌, ltb, leb, ◌==◌, length, ℤ, pos, negsuc,
}
use chucho.TextUtil.{to_lower, is_digit, read_digits, skip_space, word, uintmax_mod}
use chucho.Policy.{
  SecurityPolicy, Validated, valid, unknown_key, outside, too_long, set_integer, set_text,
  validate_integer, validate_text,
}

-- interval_file_roll_trigger::period
pub data Period : Type 0 where
  minute hour day week month : Period

pub record IntervalMemento : Type 0 where
  pub period : Option Period
  pub count : Option ℕ

abbrev pub count_key : Text
count_key = codes "interval_file_roll_trigger::count"

abbrev pub period_key : Text
period_key = codes "interval_file_roll_trigger::period(text)"

-- The constructor, which sets limits if they are not set
unfoldable pub new_interval_memento : SecurityPolicy → IntervalMemento × SecurityPolicy
new_interval_memento p = (
  record { period = none; count = none },
  set_text period_key 12 (set_integer count_key (pos 1) (pos 5000) p),
)

-- The conversion of std::size_t to std::intmax_t
abbrev pub as_intmax : ℕ → ℤ
as_intmax n = if ltb n (2 ^ 63) then pos n else negsuc (2 ^ 64 - 1 - n)

-- `if (period.back() == 's') period.pop_back();`
unfoldable pub singular : Text → Text
singular [] = []
singular (c ∷ []) = if c == b's' then [] else c ∷ []
singular (c ∷ d ∷ s) = c ∷ singular (d ∷ s)

unfoldable pub period_named : Text → Option Period
unfolding text_eq
period_named s =
    if text_eq s (codes "minute")
    then some minute
    else if text_eq s (codes "hour")
    then some hour
    else if text_eq s (codes "day")
    then some day
    else if text_eq s (codes "week")
    then some week
    else if text_eq s (codes "month")
    then some month
    else none

-- `in >> raw` on, after the count has been read; `none` is an exception
unfoldable pub set_period : Text → IntervalMemento → Option IntervalMemento
unfolding period_named singular to_lower
set_period raw m =
    if ltb (length (to_lower raw)) 3 then none else elim (period_named (singular (to_lower raw))) [
      | none ↦ none
      | some u ↦ some (record m { period = some u })
    ]

-- A count that does not fit is read as the greatest one, and then the stream gives no word.
unfoldable pub read_word : Bool → Text → Text
unfolding skip_space word
read_word true rest = word (skip_space rest)
read_word false rest = []

abbrev pub read_count : Bool → ℕ → ℕ
read_count true n = n
read_count false n = uintmax_mod - 1

unfoldable pub read_period : SecurityPolicy → ℕ × Text → IntervalMemento → Option IntervalMemento
read_period p (n, rest) m =
    let fits = ltb n uintmax_mod in
    elim (validate_integer count_key (as_intmax (read_count fits n)) p) [
      | valid v ↦ set_period (read_word fits rest) m
      | unknown_key ↦ none
      | outside r ↦ none
      | too_long s ↦ none
    ]

unfoldable pub parse_period : SecurityPolicy → Text → IntervalMemento → Option IntervalMemento
unfolding read_period read_digits is_digit
parse_period p spec m = elim (validate_text period_key spec p) [
  | valid v ↦ (elim spec [
    | [] ↦ none
    | c ∷ s ↦ if is_digit c then read_period p (read_digits 0 (c ∷ s)) m else none
  ])
  | unknown_key ↦ none
  | outside r ↦ none
  | too_long s ↦ none
]

-- create_configurable: an exception, or the value of an optional without one, which is undefined. It
-- throws where there is a count, so there is no third outcome.
pub data Creation : Type 0 where
  refused no_value : Creation

unfoldable pub create_trigger : IntervalMemento → Creation
create_trigger m = elim m.period [
  | none ↦ refused
  | some u ↦ elim m.count [ none ↦ no_value | some n ↦ refused ]
]
