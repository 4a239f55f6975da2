-- ===== src/Config/Properties.antt =====
-- properties.cpp: a std::multimap, as the list of its entries in the order of their keys, entries of
-- one key in the order in which they came. What the regular expression finds in a line is a parameter:
-- its two groups, if it matches.
pub mod Subsets
use chucho.Base.{
  ℕ, Bool, true, false, not, ◌&&◌, List, [], ◌∷◌, ◌++◌, Option, none, some, Text, text_eq, text_lt,
  if◌then◌else◌, ◌==◌,
}

abbrev pub Properties : Type 0
Properties = List (Text × Text)

-- std::multimap::insert
unfoldable pub insert_property : Text → Text → Properties → Properties
insert_property k v [] = (k, v) ∷ []
insert_property k v ((j, u) ∷ rest) =
    let others = insert_property k v rest in
    if text_lt k j then (k, v) ∷ (j, u) ∷ rest else (j, u) ∷ others

-- What follows a prefix, if the text has it
unfoldable pub after_prefix : Text → Text → Option Text
after_prefix [] s = some s
after_prefix (p ∷ ps) [] = none
after_prefix (p ∷ ps) (c ∷ s) = let rest = after_prefix ps s in if p == c then rest else none

unfoldable pub subset_from : Text → Properties → Properties → Properties
unfolding after_prefix insert_property
subset_from prefix [] result = result
subset_from prefix ((k, v) ∷ rest) result = elim (after_prefix prefix k) [
  | none ↦ subset_from prefix rest result
  | some k' ↦ subset_from prefix rest (insert_property k' v result)
]

unfoldable pub get_subset : Text → Properties → Properties
unfolding subset_from
get_subset prefix props = subset_from prefix props []

-- The values of a key, and the first of them
unfoldable pub get : Text → Properties → List Text
get key [] = []
get key ((k, v) ∷ rest) = let others = get key rest in if text_eq k key then v ∷ others else others

unfoldable pub get_one : Text → Properties → Option Text
unfolding get
get_one key props = elim (get key props) [ [] ↦ none | v ∷ vs ↦ some v ]

-- The constructor from a stream of lines
unfoldable pub pop_return : Text → Text
pop_return [] = []
pop_return (c ∷ []) = if c == b'\r' then [] else c ∷ []
pop_return (c ∷ d ∷ s) = c ∷ pop_return (d ∷ s)

unfoldable pub read_line : (Text → Option (Text × Text)) → Text → Properties → Properties
unfolding pop_return insert_property
read_line matched line props = elim (matched (pop_return line)) [
  | none ↦ props
  | some (k, v) ↦ elim k [
    | [] ↦ props
    | c ∷ cs ↦ if c == b'#' then props else insert_property (c ∷ cs) v props
  ]
]

unfoldable pub read_lines : (Text → Option (Text × Text)) → List Text → Properties → Properties
unfolding read_line
read_lines matched [] props = props
read_lines matched (line ∷ lines) props = read_lines matched lines (read_line matched line props)
