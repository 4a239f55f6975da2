-- ===== src/Pattern/Literals/Directives.antt =====
-- Patterns of literal texts and directives that are one letter.
use chucho.Base.{
  ℕ, suc, ◌≡◌, refl, sym, ap, ◌∙◌, Bool, false, List, [], ◌∷◌, ◌++◌, append-nil, Option, some, Text,
  length, ◌==◌,
}
use chucho.Pattern.{
  Parser, Piece, Kind, right, begin, default_params, literal_step, begin_step, finish, simple_kind,
  placed, made, create_piece, step, parse_loop, new_parser, push_literal, parse,
}
use chucho.Pattern.Literals.{escaped, reading, parse_loop-escaped, parse-parse_loop}
use chucho.Pattern.Literals.Letters.{no_letter}

-- A literal text, and the letter of the directive behind it with what the letter stands for.
pub record Item : Type 0 where
  pub before : Text
  pub letter : ℕ
  pub kind : Kind

-- The letters of the items stand for their kinds.
pub data AllKnown : List Item → Type 0 where
  nil : AllKnown []
  cons :
      (i : Item) (is : List Item)
      → simple_kind i.letter ≡ some i.kind
      → AllKnown is
      → AllKnown (i ∷ is)

-- The pattern of items and a last text
abbrev pub pattern_of : List Item → Text → Text
pattern_of [] last = escaped last
pattern_of (i ∷ is) last = escaped i.before ++ (b'%' ∷ (i.letter ∷ pattern_of is last))

abbrev pub directive : Kind → Option Piece
directive k = some (record { kind = k; params = record default_params { just = right } })

-- The pieces of items and a last text, behind the pieces so far
abbrev pub pieces_of : List (Option Piece) → List Item → Text → List (Option Piece)
pieces_of ps [] last = push_literal last ps
pieces_of ps (i ∷ is) last = pieces_of (push_literal i.before ps ++ directive i.kind ∷ []) is last

create_simple :
    (valid : Text → Bool) (c : ℕ) (k : Kind) (rest : Text)
    → simple_kind c ≡ some k
    → create_piece valid c rest ≡ (made k, [], rest)
unfolding create_piece
create_simple valid c k rest e = rw (create_piece, e) refl

begun : List (Option Piece) → Text → Parser
begun ps t = record new_parser {
  state = begin;
  pieces = push_literal t ps;
  text = t;
  since = b'%' ∷ [];
}

literal_step-letter :
    (ps : List (Option Piece)) (t : Text) (c : ℕ) (rest : Text)
    → (c == b'%') ≡ false
    → literal_step (reading ps t) b'%' (c ∷ rest) ≡ (begun ps t, c ∷ rest)
unfolding literal_step begun
literal_step-letter ps t c rest e = rw (literal_step, e) refl

finish_simple :
    (valid : Text → Bool) (p : Parser) (c : ℕ) (k : Kind) (rest : Text)
    → simple_kind c ≡ some k
    → finish valid p c rest
      ≡ (reading (p.pieces ++ some (record { kind = k; params = p.params }) ∷ []) [], rest)
unfolding finish placed
finish_simple valid p c k rest e = rw (finish, create_simple valid c k rest e) refl

begin_step-letter :
    (valid : Text → Bool) (ps : List (Option Piece)) (t : Text) (c : ℕ) (k : Kind) (rest : Text)
    → simple_kind c ≡ some k
    → begin_step valid (begun ps t) c rest
      ≡ (reading (push_literal t ps ++ directive k ∷ []) [], rest)
unfolding begin_step begun
begin_step-letter valid ps t c k rest e =
    let (percent, minus, dot, digit) = no_letter c k e in
    rw (begin_step, minus, dot, digit)
      (finish_simple valid (record (begun ps t) { params = record default_params { just = right } })
        c k rest e)

two_rounds :
    (valid : Text → Bool) (ps : List (Option Piece)) (t : Text) (c : ℕ) (k : Kind) (rest : Text)
    → simple_kind c ≡ some k
    → parse_loop (suc (suc (length rest))) valid (reading ps t) (b'%' ∷ (c ∷ rest))
      ≡ parse_loop (length rest) valid (reading (push_literal t ps ++ directive k ∷ []) []) rest
unfolding parse_loop step begun
two_rounds valid ps t c k rest e =
    let go = λ (n : ℕ) (r : Parser × Text). parse_loop n valid r.0 r.1 in
    ap (go (suc (length rest))) (literal_step-letter ps t c rest (no_letter c k e).0)
    ∙ ap (go (length rest)) (begin_step-letter valid ps t c k rest e)

parse_loop-pattern_of :
    (valid : Text → Bool) (ps : List (Option Piece)) (is : List Item) (last : Text)
    → AllKnown is
    → (p : Parser) × (parse_loop
          (length (pattern_of is last))
          valid
          (reading ps [])
          (pattern_of is last)
        ≡ p)
      × (push_literal p.text p.pieces ≡ pieces_of ps is last)
unfolding parse_loop
parse_loop-pattern_of valid ps [] last nil =
    let e : escaped last ++ [] ≡ escaped last = append-nil (escaped last) in
    (reading ps last, rw (sym e) (parse_loop-escaped valid ps [] last []), refl)
parse_loop-pattern_of valid ps (i ∷ is) last (cons _ _ known h) =
    let rest = pattern_of is last in
    let (p, e, f) =
      parse_loop-pattern_of valid (push_literal i.before ps ++ directive i.kind ∷ []) is last h in
    (
      p,
      parse_loop-escaped valid ps [] i.before (b'%' ∷ (i.letter ∷ rest))
          ∙ (two_rounds valid ps i.before i.letter i.kind rest known ∙ e),
      f,
    )

-- A pattern of literal texts, their % doubled, with a directive behind each that is a known letter,
-- and a text at the end is parsed into these texts, the empty ones left out, and the directives'
-- pieces.
pub parse-pattern_of :
    (valid : Text → Bool) (is : List Item) (last : Text)
    → AllKnown is
    → parse valid (pattern_of is last) ≡ pieces_of [] is last
parse-pattern_of valid is last h =
    let (p, e, f) = parse_loop-pattern_of valid [] is last h in
    parse-parse_loop valid (pattern_of is last) p e ∙ f
