-- ===== src/Pattern/Literals/Fuel.antt =====
-- The loop of `parse` consumes a byte in each round, so the length of the pattern is enough fuel.
use chucho.Base.{
  ℕ, zero, suc, ◌≤◌, ◌≡◌, refl, Bool, [], ◌∷◌, Text, arith, length, ◌==◌, Bool-cases, Option-cases,
  inl, inr,
}
use chucho.TextUtil.{from_first_of, is_digit}
use chucho.TextUtil.Tokens.{length-from_first_of}
use chucho.Pattern.{
  Parser, in_literal, begin, dot, in_min, in_max, Made, thrown, null, made, braced, get_argument,
  create_piece, simple_kind, takes_argument, placed, finish, literal_step, begin_step, min_step,
  dot_step, max_step, stoi, step, parse_loop,
}

braced-length : (r t : Text) → length t ≤ length r → length (braced r t).2 ≤ length r
unfolding braced
braced-length r [] h = omega arith
braced-length r (close ∷ rest) h = omega arith

get_argument-length : (s : Text) → length (get_argument s).2 ≤ length s
unfolding get_argument
get_argument-length [] = omega arith
get_argument-length (c ∷ r) = elim (Bool-cases (c == b'{')) [
  | inl e ↦
      rw e (omega (arith, braced-length r (from_first_of b'}' r) (length-from_first_of b'}' r)))
  | inr e ↦ rw e (omega arith)
]

create_piece-length :
    (valid : Text → Bool) (c : ℕ) (rest : Text) → length (create_piece valid c rest).2 ≤ length rest
unfolding create_piece
create_piece-length valid c rest = elim (Option-cases (simple_kind c)) [
  | inr (k, e) ↦ rw (e, create_piece) (omega arith)
  | inl e ↦ elim (Bool-cases (takes_argument c)) [
    | inl f ↦ rw (e, create_piece) (rw (f, create_piece) (get_argument-length rest))
    | inr f ↦ rw (e, create_piece) (rw (f, create_piece) (omega arith))
  ]
]

placed-length :
    (p : Parser) (c : ℕ) (m : Made) (passed behind : Text)
    → (placed p c (m, passed, behind)).1 ≡ behind
unfolding placed
placed-length p c thrown passed behind = refl
placed-length p c null passed behind = refl
placed-length p c (made k) passed behind = refl

finish-length :
    (valid : Text → Bool) (p : Parser) (c : ℕ) (rest : Text)
    → length (finish valid p c rest).1 ≤ length rest
unfolding finish
finish-length valid p c rest =
    let made_piece = create_piece valid c rest in
    rw (placed-length p c made_piece.0 made_piece.1 made_piece.2) (create_piece-length valid c rest)

-- A round leaves no more than what follows its byte.
record Shrinks (rest : Text) (r : Parser × Text) : Type 0 where
  less : length r.1 ≤ length rest

Shrinks-same : (rest : Text) (q : Parser) → Shrinks rest (q, rest)
Shrinks-same rest q = record { less = omega arith }

finish-Shrinks :
    (valid : Text → Bool) (p : Parser) (c : ℕ) (rest : Text) → Shrinks rest (finish valid p c rest)
finish-Shrinks valid p c rest = record { less = finish-length valid p c rest }

module _ (valid : Text → Bool) (p : Parser) (c : ℕ) (rest : Text) where
  begin_step-Shrinks : Shrinks rest (begin_step valid p c rest)
  unfolding begin_step
  begin_step-Shrinks = elim (Bool-cases (c == b'-')) [
    | inl e ↦ rw e (Shrinks-same rest _)
    | inr e ↦ elim (Bool-cases (c == b'.')) [
      | inl f ↦ rw (e, f) (Shrinks-same rest _)
      | inr f ↦ elim (Bool-cases (is_digit c)) [
        | inl g ↦ rw (e, f, g) (Shrinks-same rest _)
        | inr g ↦ rw (e, f, g) (finish-Shrinks valid _ c rest)
      ]
    ]
  ]

  min_step-Shrinks : Shrinks rest (min_step valid p c rest)
  unfolding min_step
  min_step-Shrinks = elim (Bool-cases (is_digit c)) [
    | inl g ↦ rw g (Shrinks-same rest _)
    | inr g ↦ elim (Option-cases (stoi p.text)) [
      | inl e ↦ rw (g, e) (Shrinks-same rest _)
      | inr (n, e) ↦ elim (Bool-cases (c == b'.')) [
        | inl f ↦ rw (g, e, f) (Shrinks-same rest _)
        | inr f ↦ rw (g, e, f) (finish-Shrinks valid _ c rest)
      ]
    ]
  ]

  dot_step-Shrinks : Shrinks rest (dot_step p c rest)
  unfolding dot_step
  dot_step-Shrinks = elim (Bool-cases (is_digit c)) [
    | inl g ↦ rw g (Shrinks-same rest _)
    | inr g ↦ rw g (Shrinks-same rest _)
  ]

  max_step-Shrinks : Shrinks rest (max_step valid p c rest)
  unfolding max_step
  max_step-Shrinks = elim (Bool-cases (is_digit c)) [
    | inl g ↦ rw g (Shrinks-same rest _)
    | inr g ↦ elim (Option-cases (stoi p.text)) [
      | inl e ↦ rw (g, e) (Shrinks-same rest _)
      | inr (n, e) ↦ rw (g, e) (finish-Shrinks valid _ c rest)
    ]
  ]

literal_step-Shrinks : (p : Parser) (c : ℕ) (rest : Text) → Shrinks rest (literal_step p c rest)
unfolding literal_step
literal_step-Shrinks p c [] = Shrinks-same [] _
literal_step-Shrinks p c (d ∷ rest) = elim (Bool-cases (c == b'%')) [
  | inl e ↦ elim (Bool-cases (d == b'%')) [
    | inl f ↦ rw (e, f) (record { less = omega arith })
    | inr f ↦ rw (e, f) (Shrinks-same (d ∷ rest) _)
  ]
  | inr e ↦ rw e (Shrinks-same (d ∷ rest) _)
]

step-Shrinks :
    (valid : Text → Bool) (p : Parser) (c : ℕ) (rest : Text) → Shrinks rest (step valid p c rest)
unfolding step
step-Shrinks valid p c rest =
    (elim p.state
      as (λ s. Shrinks rest (elim s [
        | in_literal ↦ literal_step p c rest
        | begin ↦ begin_step valid p c rest
        | dot ↦ dot_step p c rest
        | in_min ↦ min_step valid p c rest
        | in_max ↦ max_step valid p c rest
      ])) [
        | in_literal ↦ literal_step-Shrinks p c rest
        | begin ↦ begin_step-Shrinks valid p c rest
        | dot ↦ dot_step-Shrinks valid p c rest
        | in_min ↦ min_step-Shrinks valid p c rest
        | in_max ↦ max_step-Shrinks valid p c rest
      ])

-- Any fuel that covers the bytes that are left gives the same parser.
pub parse_loop_enough :
    (f g : ℕ) (valid : Text → Bool) (p : Parser) (s : Text)
    → length s ≤ f
    → length s ≤ g
    → parse_loop f valid p s ≡ parse_loop g valid p s
unfolding parse_loop
parse_loop_enough zero zero valid p s h k = refl
parse_loop_enough zero (suc g) valid p [] h k = refl
parse_loop_enough zero (suc g) valid p (c ∷ rest) h k = absurd (omega arith)
parse_loop_enough (suc f) zero valid p [] h k = refl
parse_loop_enough (suc f) zero valid p (c ∷ rest) h k = absurd (omega arith)
parse_loop_enough (suc f) (suc g) valid p [] h k = refl
parse_loop_enough (suc f) (suc g) valid p (c ∷ rest) h k =
    let less = (step-Shrinks valid p c rest).less in
    parse_loop_enough f g valid (step valid p c rest).0 (step valid p c rest).1 (omega arith)
      (omega arith)
