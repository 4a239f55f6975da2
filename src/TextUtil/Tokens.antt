-- ===== src/TextUtil/Tokens.antt =====
-- tokenize against the plain reading: the fields between delimiters, without the empty ones.
use chucho.Base.{
  ℕ, zero, suc, ◌≤◌, ◌≡◌, refl, ap, ◌∙◌, false, List, [], ◌∷◌, Text, arith, ◌==◌, if◌then◌else◌,
  length, Bool-cases, inl, inr,
}
use chucho.TextUtil.{find_first_not_of, before_first_of, from_first_of, tokens, tokenize}

cons_first : ℕ → List Text → List Text
cons_first c [] = (c ∷ []) ∷ []
cons_first c (f ∷ fs) = (c ∷ f) ∷ fs

-- The fields of a text; there is one more than there are delimiters.
unfoldable pub fields : ℕ → Text → List Text
unfolding cons_first
fields delim [] = [] ∷ []
fields delim (c ∷ s) =
    let rest = fields delim s in if c == delim then [] ∷ rest else cons_first c rest

unfoldable pub nonempty : List Text → List Text
nonempty [] = []
nonempty ([] ∷ fs) = nonempty fs
nonempty ((c ∷ f) ∷ fs) = (c ∷ f) ∷ nonempty fs

-- The fields behind the delimiter at the front.
behind : ℕ → Text → List Text
unfolding fields
behind delim [] = []
behind delim (c ∷ s) = fields delim s

fields-before :
    (delim : ℕ) (s : Text)
    → fields delim s ≡ before_first_of delim s ∷ behind delim (from_first_of delim s)
unfolding fields before_first_of from_first_of behind
fields-before delim [] = refl
fields-before delim (c ∷ s) = elim (Bool-cases (c == delim)) [
  | inl e ↦ rw e
  | inr e ↦ rw (e, fields-before delim s)
]

-- Delimiters at the front make empty fields only.
nonempty-skip :
    (delim : ℕ) (s : Text)
    → nonempty (fields delim (find_first_not_of delim s)) ≡ nonempty (fields delim s)
unfolding find_first_not_of
nonempty-skip delim [] = refl
nonempty-skip delim (c ∷ s) = elim (Bool-cases (c == delim)) [
  | inl e ↦ rw (e, find_first_not_of) (nonempty-skip delim s ∙ unfold fields nonempty in rw e)
  | inr e ↦ rw (e, find_first_not_of)
]

nonempty-behind :
    (delim : ℕ) (s : Text)
    → nonempty (fields delim (from_first_of delim s))
      ≡ nonempty (behind delim (from_first_of delim s))
unfolding from_first_of
nonempty-behind delim [] = unfold fields nonempty behind in refl
nonempty-behind delim (c ∷ s) = elim (Bool-cases (c == delim)) [
  | inl e ↦ rw (e, from_first_of) (unfold fields nonempty behind in rw e)
  | inr e ↦ rw (e, from_first_of) (nonempty-behind delim s)
]

length-find_first_not_of : (delim : ℕ) (s : Text) → length (find_first_not_of delim s) ≤ length s
unfolding find_first_not_of
length-find_first_not_of delim [] = omega arith
length-find_first_not_of delim (c ∷ s) = ground (arith, length-find_first_not_of delim s)

pub length-from_first_of : (delim : ℕ) (s : Text) → length (from_first_of delim s) ≤ length s
unfolding from_first_of
length-from_first_of delim [] = omega arith
length-from_first_of delim (c ∷ s) = ground (arith, length-from_first_of delim s)

-- The loop is entered where no delimiter stands.
abbrev Started : ℕ → Text → Type 0
Started delim [] = Unit
Started delim (c ∷ s) = (c == delim) ≡ false

find_first_not_of-Started : (delim : ℕ) (s : Text) → Started delim (find_first_not_of delim s)
unfolding find_first_not_of
find_first_not_of-Started delim [] = tt
find_first_not_of-Started delim (c ∷ s) = elim (Bool-cases (c == delim)) [
  | inl e ↦ rw (e, find_first_not_of) (find_first_not_of-Started delim s)
  | inr e ↦ rw (e, find_first_not_of) e
]

tokens-nonempty :
    (fuel delim : ℕ) (s : Text)
    → length s ≤ fuel
    → Started delim s
    → tokens fuel delim s ≡ nonempty (fields delim s)
unfolding tokens before_first_of from_first_of nonempty
tokens-nonempty zero delim [] le h = unfold fields nonempty in refl
tokens-nonempty zero delim (c ∷ s) le h = absurd (omega arith)
tokens-nonempty (suc fuel) delim [] le h = unfold fields nonempty in refl
tokens-nonempty (suc fuel) delim (c ∷ s) le h =
    let next = from_first_of delim s in
    let rest =
      tokens-nonempty fuel delim (find_first_not_of delim next)
        (omega (arith, length-find_first_not_of delim next, length-from_first_of delim s))
        (find_first_not_of-Started delim next) in
    rw (fields-before delim (c ∷ s)) (
      rw h (
        ap (◌∷◌ (c ∷ before_first_of delim s))
          (rest ∙ nonempty-skip delim next ∙ nonempty-behind delim s)))

-- The tokens are the fields between the delimiters, in order, without the empty ones.
tokenize-nonempty : (text : Text) (delim : ℕ) → tokenize text delim ≡ nonempty (fields delim text)
unfolding tokenize
tokenize-nonempty text delim =
    tokens-nonempty (length text) delim (find_first_not_of delim text)
      (length-find_first_not_of delim text) (find_first_not_of-Started delim text)
    ∙ nonempty-skip delim text
