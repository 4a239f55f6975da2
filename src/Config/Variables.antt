-- ===== src/Config/Variables.antt =====
-- configurator::resolve_variables. The matches of the regular expression in a text are a parameter,
-- as are the environment and the variables. Positions are std::size_t.
pub mod Substituted
use chucho.Base.{
  ℕ, ◌+◌, ◌-◌, ◌%◌, ◌^◌, Bool, true, false, List, [], ◌∷◌, ◌++◌, Option, none, some, Text,
  if◌then◌else◌, ltb, length, take, drop,
}

-- A match: where it begins, its length, where its first group begins (`none` for -1), and the text of
-- its second.
pub record Match : Type 0 where
  pub begin : ℕ
  pub size : ℕ
  pub first_group : Option ℕ
  pub name : Text

pub record Lookup : Type 0 where
  pub environment : Text → Option Text
  pub variables : Text → Option Text

unfoldable pub value_of : Lookup → Match → Option Text
value_of look m =
    if (elim m.first_group [ none ↦ false | some b ↦ ltb 0 b ])
    then look.environment m.name
    else look.variables m.name

-- std::string::replace; `none` is its exception.
unfoldable pub replace_text : ℕ → ℕ → Text → Text → Option Text
replace_text pos n value text =
    if ltb (length text) pos then none else some (take pos text ++ (value ++ drop (pos + n) text))

unfoldable pub resolve_loop : Lookup → List Match → Text → ℕ → Option Text
unfolding value_of replace_text
resolve_loop look [] result pos_offset = some result
resolve_loop look (m ∷ ms) result pos_offset = elim (value_of look m) [
  | none ↦ resolve_loop look ms result pos_offset
  | some value ↦ elim (replace_text ((m.begin + pos_offset) % 2 ^ 64) m.size value result) [
    | none ↦ none
    | some replaced ↦
        resolve_loop look ms replaced
          ((pos_offset + (length value + (2 ^ 64 - m.size)) % 2 ^ 64) % 2 ^ 64)
  ]
]

unfoldable pub resolve_variables : (Text → List Match) → Lookup → Text → Option Text
unfolding resolve_loop
resolve_variables matches look val = resolve_loop look (matches val) val 0
