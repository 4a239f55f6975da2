-- ===== src/Policy/Limits.antt =====
-- Which limit holds after the calls that set and override limits.
use chucho.Base.{
  ℕ, ◌≡◌, refl, sym, ap, ◌∙◌, subst, Bool, true, false, List, [], ◌∷◌, Option, none, some, Text,
  text_eq, text_eq_iff, if◌then◌else◌, ltb, length, Bool-cases, Option-cases, inl, inr, ℤ,
}
use chucho.Policy.{
  Range, in_range, SecurityPolicy, find, overridden, set_new, override_integer, override_text,
  set_integer, set_text, Validated, valid, unknown_key, outside, too_long, validate_integer,
  length_message, validate_text,
}

module _ {ℓ} {A : Type ℓ} where
  abbrev pub first_of : Option A → Option A → Option A
  first_of none o = o
  first_of (some a) o = some a

  first_of-none : (o : Option A) → first_of o none ≡ o
  first_of-none none = refl
  first_of-none (some a) = refl

  after_override :
      (b : Bool) (a : A) (l f s : Option A)
      → first_of l (first_of (if b then some a else f) s)
        ≡ first_of (first_of l (if b then some a else none)) (first_of f s)
  after_override b a (some x) f s = refl
  after_override true a none f s = refl
  after_override false a none f s = refl

  after_set :
      (t l f s : Option A)
      → first_of l (first_of (first_of f t) s)
        ≡ first_of (first_of l none) (first_of f (first_of t s))
  after_set t (some x) f s = refl
  after_set t none none s = refl
  after_set t none (some x) s = refl

-- A call for a key: with true, one that overrides what is there.
abbrev pub Call : Type 0 → Type 0
Call A = Bool × Text × A

module _ {A : Type 0} where
  abbrev pub called : Call A → List (Text × A) → List (Text × A)
  called (true, key, a) entries = overridden key a entries
  called (false, key, a) entries = set_new key a entries

  abbrev pub called_all : List (Call A) → List (Text × A) → List (Text × A)
  called_all [] entries = entries
  called_all (c ∷ cs) entries = called_all cs (called c entries)

  -- The value of the last call for a key that overrides
  abbrev pub last_override : Text → List (Call A) → Option A
  last_override key [] = none
  last_override key ((o, k, a) ∷ cs) =
      let later = last_override key cs in
      first_of later (if o then (if text_eq k key then some a else none) else none)

  -- The value of the first call for a key that does not
  abbrev pub first_set : Text → List (Call A) → Option A
  first_set key [] = none
  first_set key ((o, k, a) ∷ cs) =
      let later = first_set key cs in
      first_of (if o then none else (if text_eq k key then some a else none)) later

  -- What holds: the last override, or else what was there, or else what was first set.
  abbrev pub chosen : Text → Option A → List (Call A) → Option A
  chosen key start cs = first_of (last_override key cs) (first_of start (first_set key cs))

  find-set_new :
      (key k : Text) (a : A) (entries : List (Text × A))
      → find key (set_new k a entries)
        ≡ first_of (find key entries) (if text_eq k key then some a else none)
  unfolding find set_new
  find-set_new key k a entries = elim (Option-cases (find k entries)) [
    | inl e ↦ elim (Bool-cases (text_eq k key)) [
      | inl g ↦
          rw (set_new, e, g, subst (λ j. find j entries ≡ none) ((text_eq_iff k key).0 g) e) refl
      | inr g ↦ rw (set_new, e, g) (sym (first_of-none (find key entries)))
    ]
    | inr (old, e) ↦ elim (Bool-cases (text_eq k key)) [
      | inl g ↦
          rw (set_new, e, g, subst (λ j. find j entries ≡ some old) ((text_eq_iff k key).0 g) e)
            refl
      | inr g ↦ rw (set_new, e, g) (sym (first_of-none (find key entries)))
    ]
  ]

  find-called_all :
      (key : Text) (cs : List (Call A)) (entries : List (Text × A))
      → find key (called_all cs entries) ≡ chosen key (find key entries) cs
  unfolding find
  find-called_all key [] entries = sym (first_of-none (find key entries))
  find-called_all key ((true, k, a) ∷ cs) entries =
      find-called_all key cs (overridden k a entries)
      ∙ after_override (text_eq k key) a (last_override key cs) (find key entries)
          (first_set key cs)
  find-called_all key ((false, k, a) ∷ cs) entries =
      find-called_all key cs (set_new k a entries)
      ∙ (ap (λ f. first_of (last_override key cs) (first_of f (first_set key cs)))
            (find-set_new key k a entries)
          ∙ after_set (if text_eq k key then some a else none) (last_override key cs)
              (find key entries) (first_set key cs))

-- The calls on a policy
abbrev pub text_call : Call ℕ → SecurityPolicy → SecurityPolicy
text_call (true, key, n) p = override_text key n p
text_call (false, key, n) p = set_text key n p

abbrev pub text_calls : List (Call ℕ) → SecurityPolicy → SecurityPolicy
text_calls [] p = p
text_calls (c ∷ cs) p = text_calls cs (text_call c p)

abbrev pub integer_call : Call Range → SecurityPolicy → SecurityPolicy
integer_call (true, key, r) p = override_integer key r.low r.high p
integer_call (false, key, r) p = set_integer key r.low r.high p

abbrev pub integer_calls : List (Call Range) → SecurityPolicy → SecurityPolicy
integer_calls [] p = p
integer_calls (c ∷ cs) p = integer_calls cs (integer_call c p)

text_calls-called_all :
    (cs : List (Call ℕ)) (p : SecurityPolicy)
    → text_calls cs p ≡ record p { text_maxes = called_all cs p.text_maxes }
unfolding override_text set_text
text_calls-called_all [] p = refl
text_calls-called_all ((true, key, n) ∷ cs) p = text_calls-called_all cs (override_text key n p)
text_calls-called_all ((false, key, n) ∷ cs) p = text_calls-called_all cs (set_text key n p)

integer_calls-called_all :
    (cs : List (Call Range)) (p : SecurityPolicy)
    → integer_calls cs p ≡ record p { int_ranges = called_all cs p.int_ranges }
unfolding override_integer set_integer
integer_calls-called_all [] p = refl
integer_calls-called_all ((true, key, r) ∷ cs) p =
    integer_calls-called_all cs (override_integer key r.low r.high p)
integer_calls-called_all ((false, key, r) ∷ cs) p =
    integer_calls-called_all cs (set_integer key r.low r.high p)

abbrev pub or_default : ℕ → Option ℕ → ℕ
or_default d none = d
or_default d (some n) = n

-- After any calls that set and override limits of texts, a text is valid exactly if its length is
-- at most the last override of its key, or else the limit there was, or else the first one set, or
-- else the default.
pub validate_text-text_calls :
    (key val : Text) (cs : List (Call ℕ)) (p : SecurityPolicy)
    → validate_text key val (text_calls cs p) ≡ (
        let max_len = or_default p.default_text_max (chosen key (find key p.text_maxes) cs) in
        if ltb max_len (length val) then too_long (length_message val max_len) else valid val)
unfolding validate_text
validate_text-text_calls key val cs p =
    ap (validate_text key val) (text_calls-called_all cs p)
    ∙ ap
        (λ o.
          let max_len = or_default p.default_text_max o in
          if ltb max_len (length val) then too_long (length_message val max_len) else valid val)
        (find-called_all key cs p.text_maxes)

abbrev pub within : ℤ → Option Range → Validated ℤ
within val none = unknown_key
within val (some r) = if in_range r val then valid val else outside r

-- After any calls that set and override ranges, an integer is valid exactly if it lies in the last
-- override of its key, or else in the range there was, or else in the first one set; without any of
-- them the key is unknown.
validate_integer-integer_calls :
    (key : Text) (val : ℤ) (cs : List (Call Range)) (p : SecurityPolicy)
    → validate_integer key val (integer_calls cs p)
      ≡ within val (chosen key (find key p.int_ranges) cs)
unfolding validate_integer
validate_integer-integer_calls key val cs p =
    ap (validate_integer key val) (integer_calls-called_all cs p)
    ∙ ap (within val) (find-called_all key cs p.int_ranges)
