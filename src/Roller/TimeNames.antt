-- ===== src/Roller/TimeNames.antt =====
-- time_file_roller.cpp: the names of files that hold a date. Regular expressions and calendar::format
-- are parameters: what stands in place of a specification, for one time. A position that is npos is
-- `none`. Reports are left out.
pub mod Percents
pub mod Resolved
use chucho.Base.{
  ℕ, zero, suc, ◌+◌, ◌-◌, Bool, true, false, not, ◌&&◌, ◌||◌, List, [], ◌∷◌, ◌++◌, Option, none,
  some, Text, codes, if◌then◌else◌, leb, ◌==◌, length, take, drop, get_or,
}

-- A loop that has ended, or fuel that has run out
pub data Search (A : Type 0) : Type 0 where
  unfinished : Search A
  ended : A → Search A

-- std::string::find of a percent sign and a byte
unfoldable pub find_first : ℕ → Text → Option ℕ
find_first tok [] = none
find_first tok (c ∷ []) = none
find_first tok (c ∷ d ∷ s) =
    let later = find_first tok (d ∷ s) in
    if c == b'%' && d == tok then some 0 else elim later [ none ↦ none | some i ↦ some (suc i) ]

unfoldable pub find_from : ℕ → Text → ℕ → Option ℕ
unfolding find_first
find_from tok str pos = elim (find_first tok (drop pos str)) [
  | none ↦ none
  | some i ↦ some (pos + i)
]

-- `pos != 0 && str[pos - 1] == '%'`
abbrev pub is_doubled : Text → ℕ → Bool
is_doubled str zero = false
is_doubled str (suc p) = get_or str p 0 == b'%'

unfoldable pub find_time_token : ℕ → Text → ℕ → ℕ → Search (Option ℕ)
unfolding find_from
find_time_token zero str tok pos = unfinished
find_time_token (suc fuel) str tok pos = elim (find_from tok str pos) [
  | none ↦ ended none
  | some p ↦
      let again = find_time_token fuel str tok p in
      if is_doubled str p then again else ended (some p)
]

-- std::string::find of one byte
unfoldable pub find_byte : ℕ → Text → Option ℕ
find_byte b [] = none
find_byte b (c ∷ s) =
    let later = find_byte b s in
    if c == b then some 0 else elim later [ none ↦ none | some i ↦ some (suc i) ]

abbrev pub default_spec : Text
default_spec = codes "%Y-%m-%d"

-- The specification at a token, and where it ends
unfoldable pub spec_at : Text → ℕ → Text × Option ℕ
unfolding find_byte
spec_at str start =
    let found = start + 2 in
    if found == length str || not (get_or str found 0 == b'{')
    then (default_spec, some found)
    else elim (find_byte b'}' (drop (found + 1) str)) [
      | none ↦ (default_spec, some (found + 1))
      | some i ↦ (
        take i (drop (found + 1) str),
        if leb (length str) (found + 1 + i + 1) then none else some (found + 1 + i + 1),
      )
    ]

-- find_time_spec: the specification, where it starts, and where it ends, if there is one
unfoldable pub find_time_spec : ℕ → Text → ℕ → Search (Option (Text × ℕ × Option ℕ))
unfolding find_time_token spec_at
find_time_spec fuel str start = elim (find_time_token fuel str b'd' start) [
  | unfinished ↦ unfinished
  | ended none ↦ ended none
  | ended (some p) ↦ let (spec, last) = spec_at str p in ended (some (spec, p, last))
]

-- `result.replace(start, end - start, fmt)`
abbrev pub spliced : Text → ℕ → Option ℕ → Text → Text
spliced str start none fmt = take start str ++ fmt
spliced str start (some last) fmt = take start str ++ (fmt ++ drop last str)

unfoldable pub replace_spec : Text → ℕ → Option ℕ → Text → Text
replace_spec str start last [] = str
replace_spec str start last (c ∷ fmt) = spliced str start last (c ∷ fmt)

-- The loop of resolve_file_name, without the exchange of separators behind it
unfoldable pub resolve_specs : ℕ → (Text → Text) → Text → Search Text
unfolding find_time_spec replace_spec
resolve_specs zero formatted result = unfinished
resolve_specs (suc fuel) formatted result = elim (find_time_spec (suc fuel) result 0) [
  | unfinished ↦ unfinished
  | ended none ↦ ended result
  | ended (some (spec, start, last)) ↦
      resolve_specs fuel formatted (replace_spec result start last (formatted spec))
]

-- std::replace of the other separator, where the directory separator is the slash
unfoldable pub to_slashes : Text → Text
to_slashes [] = []
to_slashes (c ∷ s) = (if c == 92 then b'/' else c) ∷ to_slashes s

unfoldable pub resolve_file_name : ℕ → (Text → Text) → Text → Search Text
unfolding resolve_specs to_slashes
resolve_file_name fuel formatted pattern = elim (resolve_specs fuel formatted pattern) [
  | unfinished ↦ unfinished
  | ended result ↦ ended (to_slashes result)
]
