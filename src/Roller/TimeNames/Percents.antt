-- ===== src/Roller/TimeNames/Percents.antt =====
-- The percent signs of a file name while its dates are put in.
use chucho.Base.{
  ℕ, zero, suc, ◌+◌, ◌-◌, ◌≤◌, ◌<◌, ◌≡◌, refl, sym, ap, subst, ◌∙◌, Bool, true, false, not, ◌&&◌,
  ◌||◌, [], ◌∷◌, ◌++◌, append-nil, Option, none, some, Text, arith, if◌then◌else◌, leb, ◌==◌,
  length, take, drop, get_or, drop-drop, take-append-drop, Bool-cases, Option-cases, inl, inr,
}
use chucho.Roller.TimeNames.{
  ended, find_first, find_from, is_doubled, find_time_token, find_byte, default_spec, spec_at,
  spliced, replace_spec,
}

abbrev pub percents : Text → ℕ
percents [] = 0
percents (c ∷ s) = if c == b'%' then suc (percents s) else percents s

-- No percent sign follows another.
abbrev pub no_double : Text → Bool
no_double [] = true
no_double (c ∷ []) = true
no_double (c ∷ d ∷ s) = not (c == b'%' && d == b'%') && no_double (d ∷ s)

percents-append : (s t : Text) → percents (s ++ t) ≡ percents s + percents t
percents-append [] t = omega arith
percents-append (c ∷ s) t = ground (arith, percents-append s t)

percents-drop : (n : ℕ) (s : Text) → percents (drop n s) ≤ percents s
percents-drop zero s = omega arith
percents-drop (suc n) [] = omega arith
percents-drop (suc n) (c ∷ s) = ground (arith, percents-drop n s)

tail_no_double : (c : ℕ) (s : Text) → no_double (c ∷ s) ≡ true → no_double s ≡ true
tail_no_double c [] h = refl
tail_no_double c (d ∷ s) h = ground arith

no_double-drop : (n : ℕ) (s : Text) → no_double s ≡ true → no_double (drop n s) ≡ true
no_double-drop zero s h = h
no_double-drop (suc n) [] h = h
no_double-drop (suc n) (c ∷ s) h = no_double-drop n s (tail_no_double c s h)

no_double-take : (n : ℕ) (s : Text) → no_double s ≡ true → no_double (take n s) ≡ true
no_double-take zero s h = refl
no_double-take (suc n) [] h = refl
no_double-take (suc zero) (c ∷ s) h = refl
no_double-take (suc (suc n)) (c ∷ []) h = refl
no_double-take (suc (suc n)) (c ∷ d ∷ s) h = ground (arith, no_double-take (suc n) (d ∷ s))

no_double-plain : (s t : Text) → percents s ≡ 0 → no_double t ≡ true → no_double (s ++ t) ≡ true
no_double-plain [] t p h = h
no_double-plain (c ∷ []) [] p h = refl
no_double-plain (c ∷ []) (d ∷ t) p h = ground arith
no_double-plain (c ∷ d ∷ s) t p h = ground (arith, no_double-plain (d ∷ s) t)

no_double-before :
    (s : Text) (c : ℕ) (t : Text)
    → no_double s ≡ true
    → (c == b'%') ≡ false
    → no_double (c ∷ t) ≡ true
    → no_double (s ++ (c ∷ t)) ≡ true
no_double-before [] c t h p k = k
no_double-before (a ∷ []) c t h p k = ground arith
no_double-before (a ∷ b ∷ s) c t h p k = ground (arith, no_double-before (b ∷ s) c t)

-- What stands at the first token
pub find_first-percent :
    (tok : ℕ) (s : Text) (i : ℕ)
    → find_first tok s ≡ some i
    → (rest : Text) × (drop i s ≡ b'%' ∷ (tok ∷ rest)) × (find_first tok (drop i s) ≡ some 0)
unfolding find_first
find_first-percent tok [] i h = absurd (ground arith)
find_first-percent tok (c ∷ []) i h = absurd (ground arith)
find_first-percent tok (c ∷ d ∷ s) i h = elim (Bool-cases (c == b'%' && d == tok)) [
  | inl e ↦
      let z : 0 ≡ i = ground arith in
      let here : (c ≡ b'%') × (d ≡ tok) = (ground arith, ground arith) in
      subst
        (λ i.
          (rest : Text) × (drop i (c ∷ (d ∷ s)) ≡ b'%' ∷ (tok ∷ rest))
          × (find_first tok (drop i (c ∷ (d ∷ s))) ≡ some 0))
        z (s, rw (here.0, here.1) refl, rw e refl)
  | inr e ↦ elim (Option-cases (find_first tok (d ∷ s))) [
    | inl f ↦ absurd (ground arith)
    | inr (j, f) ↦
        let z : suc j ≡ i = ground arith in
        subst
          (λ i.
            (rest : Text) × (drop i (c ∷ (d ∷ s)) ≡ b'%' ∷ (tok ∷ rest))
            × (find_first tok (drop i (c ∷ (d ∷ s))) ≡ some 0))
          z (find_first-percent tok (d ∷ s) j f)
  ]
]

before_percent :
    (q : ℕ) (str rest : Text)
    → no_double str ≡ true
    → drop (suc q) str ≡ b'%' ∷ rest
    → (get_or str q 0 == b'%') ≡ false
before_percent q [] rest h e = absurd (ground arith)
before_percent zero (c ∷ []) rest h e = absurd (ground arith)
before_percent zero (c ∷ d ∷ s) rest h e = let f : d ≡ b'%' = ground arith in ground arith
before_percent (suc q) (c ∷ s) rest h e = before_percent q s rest (tail_no_double c s h) e

not_doubled :
    (tok p : ℕ) (str : Text)
    → no_double str ≡ true
    → find_first tok str ≡ some p
    → is_doubled str p ≡ false
not_doubled tok zero str h e = refl
not_doubled tok (suc q) str h e =
    let (rest, f, g) = find_first-percent tok str (suc q) e in before_percent q str (tok ∷ rest) h f

pub find_time_token-find_first :
    (fuel : ℕ) (str : Text) (tok : ℕ)
    → no_double str ≡ true
    → find_time_token (suc fuel) str tok 0 ≡ ended (find_first tok str)
unfolding find_time_token find_from
find_time_token-find_first fuel str tok h = elim (Option-cases (find_first tok str)) [
  | inl e ↦ rw (find_time_token, find_from, e) refl
  | inr (p, e) ↦
      let z : 0 + p ≡ p = omega arith in
      rw (find_time_token, find_from, e, z, not_doubled tok p str h e) refl
]

-- Behind the specification of a token stands a later part of the text.
Behind : Text → ℕ → Option ℕ → Type 0
Behind str p none = Unit
Behind str p (some last) = suc p ≤ last

spec_at-Behind : (str : Text) (p : ℕ) → Behind str p (spec_at str p).1
unfolding Behind spec_at
spec_at-Behind str p =
    if-Behind ((p + 2 == length str) || not (get_or str (p + 2) 0 == b'{')) _ _ (omega arith)
      (closed (find_byte b'}' (drop (p + 2 + 1) str)))
  where
    if-Behind :
        (b : Bool) (x y : Text × Option ℕ)
        → Behind str p x.1
        → Behind str p y.1
        → Behind str p (if b then x else y).1
    if-Behind true x y h k = h
    if-Behind false x y h k = k

    some-Behind : (b : Bool) (n : ℕ) → suc p ≤ n → Behind str p (if b then none else some n)
    some-Behind true n h = tt
    some-Behind false n h = h

    closed :
        (o : Option ℕ)
        → Behind str p
            (elim o as (λ x. Text × Option ℕ) [
              | none ↦ (default_spec, some (p + 2 + 1))
              | some i ↦ (
                take i (drop (p + 2 + 1) str),
                if leb (length str) (p + 2 + 1 + i + 1) then none else some (p + 2 + 1 + i + 1),
              )
            ]).1
    closed none = omega arith
    closed (some i) =
        some-Behind (leb (length str) (p + 2 + 1 + i + 1)) (p + 2 + 1 + i + 1) (omega arith)

-- The percent signs before a token, and from there on
percents_at :
    (str : Text) (p : ℕ)
    → find_first b'd' str ≡ some p
    → percents str ≡ suc (percents (take p str) + percents (drop (suc p) str))
percents_at str p h =
    let (rest, e, g) = find_first-percent b'd' str p h in
    let z : p + 1 ≡ suc p = omega arith in
    let front : percents str ≡ percents (take p str) + percents (drop p str) =
      ap percents (sym (take-append-drop p str)) ∙ percents-append (take p str) (drop p str) in
    let here : percents (drop p str) ≡ suc (percents (b'd' ∷ rest)) = ap percents e in
    let behind : drop (suc p) str ≡ b'd' ∷ rest =
      ap (λ n. drop n str) (sym z) ∙ (sym (drop-drop 1 p str) ∙ ap (drop 1) e) in
    omega (arith, front, here, ap percents behind)

-- Putting a text without percent signs in the place of a token takes its percent sign away.
spliced_fewer :
    (str : Text) (p : ℕ) (last : Option ℕ) (fmt : Text)
    → find_first b'd' str ≡ some p
    → Behind str p last
    → percents fmt ≡ 0
    → percents (spliced str p last fmt) < percents str
unfolding Behind
spliced_fewer str p none fmt h b f =
    omega (arith, percents_at str p h, percents-append (take p str) fmt, f)
spliced_fewer str p (some last) fmt h b f =
    let z : suc p + (last - suc p) ≡ last = omega (arith, b) in
    let fewer : percents (drop last str) ≤ percents (drop (suc p) str) =
      subst (λ t. percents t ≤ percents (drop (suc p) str))
        (drop-drop (last - suc p) (suc p) str ∙ ap (λ n. drop n str) z)
        (percents-drop (last - suc p) (drop (suc p) str)) in
    omega (
      arith,
      percents_at str p h,
      percents-append (take p str) (fmt ++ drop last str),
      percents-append fmt (drop last str),
      f,
      fewer,
    )

spliced-no_double :
    (str : Text) (p : ℕ) (last : Option ℕ) (c : ℕ) (fmt : Text)
    → no_double str ≡ true
    → percents (c ∷ fmt) ≡ 0
    → no_double (spliced str p last (c ∷ fmt)) ≡ true
spliced-no_double str p none c fmt h f =
    let plain : (c == b'%') ≡ false = ground arith in
    no_double-before (take p str) c fmt (no_double-take p str h) plain
      (subst (λ t. no_double t ≡ true) (append-nil (c ∷ fmt)) (no_double-plain (c ∷ fmt) [] f refl))
spliced-no_double str p (some last) c fmt h f =
    let plain : (c == b'%') ≡ false = ground arith in
    no_double-before (take p str) c (fmt ++ drop last str) (no_double-take p str h) plain
      (no_double-plain (c ∷ fmt) (drop last str) f (no_double-drop last str h))

-- What replace_spec leaves, with a text that has bytes, but no percent sign
pub replaced_lem :
    (str : Text) (p : ℕ) (t : Text)
    → no_double str ≡ true
    → find_first b'd' str ≡ some p
    → 0 < length t
    → percents t ≡ 0
    → (percents (replace_spec str p (spec_at str p).1 t) < percents str)
      × (no_double (replace_spec str p (spec_at str p).1 t) ≡ true)
unfolding replace_spec
replaced_lem str p [] h e some_bytes f = absurd (omega arith)
replaced_lem str p (c ∷ fmt) h e some_bytes f = (
  spliced_fewer str p (spec_at str p).1 (c ∷ fmt) e (spec_at-Behind str p) f,
  spliced-no_double str p (spec_at str p).1 c fmt h f,
)
