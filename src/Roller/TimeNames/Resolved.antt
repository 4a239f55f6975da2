-- ===== src/Roller/TimeNames/Resolved.antt =====
-- When resolve_file_name of time_file_roller.cpp ends.
use chucho.Base.{
  ℕ, zero, suc, ◌+◌, ◌<◌, ◌≡◌, refl, ap, subst, true, List, [], ◌∷◌, none, some, Text, arith,
  length, Option-cases, inl, inr,
}
use chucho.Roller.TimeNames.{
  unfinished, ended, find_first, find_from, is_doubled, find_time_token, spec_at, find_time_spec,
  replace_spec, resolve_specs, to_slashes, resolve_file_name,
}
use chucho.Roller.TimeNames.Percents.{
  percents, no_double, find_first-percent, find_time_token-find_first, replaced_lem,
}

find_time_spec-find_first :
    (fuel : ℕ) (str : Text)
    → no_double str ≡ true
    → find_time_spec (suc fuel) str 0
      ≡ ended (elim (find_first b'd' str) [
        | none ↦ none
        | some p ↦ some ((spec_at str p).0, p, (spec_at str p).1)
      ])
unfolding find_time_spec
find_time_spec-find_first fuel str h = elim (Option-cases (find_first b'd' str)) [
  | inl e ↦ rw (find_time_spec, find_time_token-find_first fuel str b'd' h, e) refl
  | inr (p, e) ↦ rw (find_time_spec, find_time_token-find_first fuel str b'd' h, e) refl
]

-- The specifications that the loop meets in a text, one in each round, on fuel
abbrev pub specs_met : ℕ → (Text → Text) → Text → List Text
specs_met zero formatted str = []
specs_met (suc fuel) formatted str = elim (find_first b'd' str) [
  | none ↦ []
  | some p ↦
      (spec_at str p).0
      ∷ specs_met fuel formatted
          (replace_spec str p (spec_at str p).1 (formatted (spec_at str p).0))
]

-- Each is formatted as a text that has bytes, but no percent sign.
abbrev pub AllFill : (Text → Text) → List Text → Type 0
AllFill formatted [] = Unit
AllFill formatted (spec ∷ specs) =
    (0 < length (formatted spec)) × (percents (formatted spec) ≡ 0) × AllFill formatted specs

resolve_specs_ends :
    (fuel : ℕ) (formatted : Text → Text) (str : Text)
    → AllFill formatted (specs_met fuel formatted str)
    → no_double str ≡ true
    → percents str < fuel
    → (result : Text) × (resolve_specs fuel formatted str ≡ ended result)
      × (find_first b'd' result ≡ none)
unfolding resolve_specs
resolve_specs_ends zero formatted str fmt h few = absurd (omega arith)
resolve_specs_ends (suc fuel) formatted str fmt h few = elim (Option-cases (find_first b'd' str)) [
  | inl e ↦ (str, rw (resolve_specs, find_time_spec-find_first fuel str h, e) refl, e)
  | inr (p, e) ↦
      let t : Text = formatted (spec_at str p).0 in
      let met : specs_met (suc fuel) formatted str
          ≡ (spec_at str p).0 ∷ specs_met fuel formatted (replace_spec str p (spec_at str p).1 t) =
        rw (specs_met, e) refl in
      let each = subst (AllFill formatted) met fmt in
      let (fewer, single) = replaced_lem str p t h e each.0 each.1 in
      let (result, done, clean) =
        resolve_specs_ends fuel formatted (replace_spec str p (spec_at str p).1 t) each.2 single
          (omega (arith, few, fewer)) in
      (result, rw (resolve_specs, find_time_spec-find_first fuel str h, e) done, clean)
]

-- resolve_file_name ends with a text without a time token, if no percent sign of the pattern follows
-- another and each specification that the loop meets is formatted as a text that has bytes, but no
-- percent sign. Fuel for one round more than there are percent signs is enough.
pub resolve_file_name_ends :
    (formatted : Text → Text) (pattern : Text)
    → AllFill formatted (specs_met (suc (percents pattern)) formatted pattern)
    → no_double pattern ≡ true
    → (result : Text) × (resolve_file_name (suc (percents pattern)) formatted pattern
        ≡ ended (to_slashes result))
      × (find_first b'd' result ≡ none)
unfolding resolve_file_name
resolve_file_name_ends formatted pattern fmt h =
    let (result, done, clean) =
      resolve_specs_ends (suc (percents pattern)) formatted pattern fmt h (omega arith) in
    (result, rw (resolve_file_name, done) refl, clean)

find_time_token_stuck :
    (fuel : ℕ) (str : Text) (tok p : ℕ)
    → find_from tok str p ≡ some p
    → is_doubled str p ≡ true
    → find_time_token fuel str tok p ≡ unfinished
unfolding find_time_token
find_time_token_stuck zero str tok p e d = refl
find_time_token_stuck (suc fuel) str tok p e d =
    rw (find_time_token, e, d) (find_time_token_stuck fuel str tok p e d)

find_time_token_doubled :
    (fuel : ℕ) (str : Text) (tok p : ℕ)
    → find_first tok str ≡ some p
    → is_doubled str p ≡ true
    → find_time_token fuel str tok 0 ≡ unfinished
unfolding find_time_token find_from
find_time_token_doubled zero str tok p e d = refl
find_time_token_doubled (suc fuel) str tok p e d =
    let (rest, f, again) = find_first-percent tok str p e in
    let z : 0 + p ≡ p = omega arith in
    let w : p + 0 ≡ p = omega arith in
    let here : find_from tok str p ≡ some p = rw (find_from, again) (ap some w) in
    rw (find_time_token, find_from, e, z, d) (find_time_token_stuck fuel str tok p here d)

-- Where a percent sign stands before the first time token of the pattern, resolve_file_name never ends,
-- whatever the dates are formatted as.
pub resolve_file_name_doubled :
    (formatted : Text → Text) (pattern : Text) (p : ℕ)
    → find_first b'd' pattern ≡ some p
    → is_doubled pattern p ≡ true
    → (fuel : ℕ) → resolve_file_name fuel formatted pattern ≡ unfinished
unfolding resolve_file_name resolve_specs find_time_spec
resolve_file_name_doubled formatted pattern p e d zero = refl
resolve_file_name_doubled formatted pattern p e d (suc fuel) =
    rw
      (
        resolve_file_name,
        resolve_specs,
        find_time_spec,
        find_time_token_doubled (suc fuel) pattern b'd' p e d,
      )
      refl
