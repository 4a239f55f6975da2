-- ===== src/Policy.antt =====
-- security_policy.hpp and security_policy.cpp: limits on the values that come from configuration.
-- A std::map is the list of its assignments, the newest first. A validation returns the value, or
-- throws an exception with a message; the messages about integers are told apart by constructors.
pub mod Limits
use chucho.Base.{
  ℕ, Bool, true, false, ◌&&◌, List, [], ◌∷◌, ◌++◌, Option, none, some, Text, codes, text_eq,
  if◌then◌else◌, ltb, length, take, ℤ, le_int,
}
use chucho.TextUtil.Decimal.{decimal}

-- security_policy::range
pub record Range : Type 0 where
  pub low : ℤ
  pub high : ℤ

pub in_range : Range → ℤ → Bool
in_range r val = le_int r.low val && le_int val r.high

pub record SecurityPolicy : Type 0 where
  pub int_ranges : List (Text × Range)
  pub text_maxes : List (Text × ℕ)
  pub default_text_max : ℕ

-- std::map::find
pub find {ℓ} : {A : Type ℓ} → Text → List (Text × A) → Option A
find key [] = none
find key ((k, a) ∷ rest) = if text_eq k key then some a else find key rest

-- `map[key] = value`
abbrev pub overridden {ℓ} : {A : Type ℓ} → Text → A → List (Text × A) → List (Text × A)
overridden key a entries = (key, a) ∷ entries

-- `if (map.count(key) == 0)` before the same
pub set_new {ℓ} : {A : Type ℓ} → Text → A → List (Text × A) → List (Text × A)
unfolding find
set_new key a entries = elim (find key entries) [
  | none ↦ overridden key a entries
  | some old ↦ entries
]

-- The constructor
abbrev pub new_policy : SecurityPolicy
new_policy = record { int_ranges = []; text_maxes = []; default_text_max = 2048 }

pub override_integer : Text → ℤ → ℤ → SecurityPolicy → SecurityPolicy
override_integer key low high p = record p {
  int_ranges = overridden key (record { low = low; high = high }) p.int_ranges;
}

pub override_text : Text → ℕ → SecurityPolicy → SecurityPolicy
override_text key max_len p = record p { text_maxes = overridden key max_len p.text_maxes }

pub set_default_text_max : ℕ → SecurityPolicy → SecurityPolicy
set_default_text_max dflt p = record p { default_text_max = dflt }

unfoldable pub set_integer : Text → ℤ → ℤ → SecurityPolicy → SecurityPolicy
unfolding set_new
set_integer key low high p = record p {
  int_ranges = set_new key (record { low = low; high = high }) p.int_ranges;
}

unfoldable pub set_text : Text → ℕ → SecurityPolicy → SecurityPolicy
unfolding set_new
set_text key max_len p = record p { text_maxes = set_new key max_len p.text_maxes }

pub get_integer_range : Text → SecurityPolicy → Option Range
unfolding find
get_integer_range key p = find key p.int_ranges

pub get_text_max : Text → SecurityPolicy → ℕ
unfolding find
get_text_max key p = elim (find key p.text_maxes) [ none ↦ p.default_text_max | some n ↦ n ]

pub data Validated (A : Type 0) : Type 0 where
  valid : A → Validated A
  unknown_key : Validated A
  outside : Range → Validated A
  too_long : Text → Validated A

-- validate of an integer
unfoldable pub validate_integer : Text → ℤ → SecurityPolicy → Validated ℤ
unfolding find in_range
validate_integer key val p = elim (find key p.int_ranges) [
  | none ↦ unknown_key
  | some r ↦ if in_range r val then valid val else outside r
]

-- The message about a text that is too long
pub length_message : Text → ℕ → Text
length_message val max_len =
    let behind =
      codes ", is longer than the maximum length, "
      ++ (decimal max_len ++ codes ", allowed by the security policy") in
    if ltb 50 (length val)
    then codes "The value, beginning " ++ ((take 50 val ++ codes "...") ++ behind)
    else codes "The value, " ++ (val ++ behind)

-- validate of a text
unfoldable pub validate_text : Text → Text → SecurityPolicy → Validated Text
unfolding find length_message
validate_text key val p =
    let max_len : ℕ = elim (find key p.text_maxes) [ none ↦ p.default_text_max | some n ↦ n ] in
    if ltb max_len (length val) then too_long (length_message val max_len) else valid val
