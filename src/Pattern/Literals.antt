-- ===== src/Pattern/Literals.antt =====
-- Patterns without directives, and how one is read: texts, whose % are doubled.
pub mod Fuel
pub mod Letters
pub mod Directives
use mathlib.Core.Option
use chucho.Base.{
  ℕ, zero, suc, ◌+◌, ◌-◌, ◌^◌, ◌≤◌, ◌<◌, ◌≡◌, refl, sym, ap, ◌∙◌, Bool, true, false, List, [], ◌∷◌,
  ◌++◌, append-nil, append_assoc, Option, none, some, Text, arith, length, ◌==◌, ==_iff, ltb,
  Bool-cases, inl, inr, if◌then◌else◌,
}
use chucho.TextUtil.{is_digit}
use chucho.Event.{Event}
use chucho.Pattern.{
  Parser, Piece, Kind, literal, in_literal, default_params, literal_step, begin_step, finish,
  placed, create_piece, argument_kind, step, parse_loop, new_parser, push_literal, literal_piece,
  parse,
}
use chucho.Pattern.Format.{Env, fit, get_text, get_text_impl, format}
use chucho.Pattern.Literals.Fuel.{parse_loop_enough}

-- A text as a pattern.
abbrev pub escaped : Text → Text
escaped [] = []
escaped (c ∷ s) = if c == b'%' then b'%' ∷ (b'%' ∷ escaped s) else c ∷ escaped s

-- The parser in literal text, with the pieces so far and the text so far.
abbrev pub reading : List (Option Piece) → Text → Parser
reading ps t = record new_parser { pieces = ps; text = t }

literal_step-other :
    (ps : List (Option Piece)) (t : Text) (c : ℕ) (rest : Text)
    → (c == b'%') ≡ false
    → literal_step (reading ps t) c rest ≡ (reading ps (t ++ c ∷ []), rest)
unfolding literal_step
literal_step-other ps t c [] e = refl
literal_step-other ps t c (d ∷ rest) e = rw e refl

append_cons :
    (ps : List (Option Piece)) (t : Text) (c : ℕ) (s : Text)
    → reading ps ((t ++ c ∷ []) ++ s) ≡ reading ps (t ++ c ∷ s)
append_cons ps t c s = rw (append_assoc t (c ∷ []) s) refl

-- The rounds over an escaped text collect the text.
pub parse_loop-escaped :
    (valid : Text → Bool) (ps : List (Option Piece)) (t s more : Text)
    → parse_loop (length (escaped s ++ more)) valid (reading ps t) (escaped s ++ more)
      ≡ parse_loop (length more) valid (reading ps (t ++ s)) more
unfolding parse_loop step literal_step
parse_loop-escaped valid ps t [] more = rw (append-nil t) refl
parse_loop-escaped valid ps t (c ∷ s) more = elim (Bool-cases (c == b'%')) [
  | inr e ↦
      rw (e, parse_loop, step, literal_step-other ps t c (escaped s ++ more) e)
        (parse_loop-escaped valid ps (t ++ c ∷ []) s more ∙ rw (append_cons ps t c s) refl)
  | inl e ↦
      (let percent : c ≡ b'%' = (==_iff c b'%').0 e in
        rw percent (
          parse_loop_enough (suc (length (escaped s ++ more))) (length (escaped s ++ more)) valid
            (reading ps (t ++ b'%' ∷ [])) (escaped s ++ more) (omega arith) (omega arith)
          ∙ (parse_loop-escaped valid ps (t ++ b'%' ∷ []) s more
              ∙ rw (append_cons ps t b'%' s) refl)))
]

pub parse-parse_loop :
    (valid : Text → Bool) (s : Text) (p : Parser)
    → parse_loop (length s) valid new_parser s ≡ p
    → parse valid s ≡ push_literal p.text p.pieces
unfolding parse
parse-parse_loop valid s p e = rw e refl

parse-escaped : (valid : Text → Bool) (s : Text) → parse valid (escaped s) ≡ push_literal s []
unfolding parse_loop
parse-escaped valid s =
    let e : escaped s ++ [] ≡ escaped s = append-nil (escaped s) in
    parse-parse_loop valid (escaped s) (reading [] s)
      (rw (sym e) (parse_loop-escaped valid [] [] s []))

fit_default : (s : Text) → length s < 2 ^ 64 → fit default_params s ≡ s
unfolding fit
fit_default s h =
    let e : ltb (2 ^ 64 - 1) (length s) ≡ false = ground arith in
    let f : ltb (length s) 0 ≡ false = ground arith in rw (e, f) refl

-- A text with its % doubled is a pattern that formats every event as that text, if its length fits
-- 64 bits.
pub format-escaped :
    (valid : Text → Bool) (env : Env) (evt : Event) (s : Text)
    → length s < 2 ^ 64
    → format env (parse valid (escaped s)) evt ≡ some s
unfolding format push_literal get_text get_text_impl
format-escaped valid env evt [] h = rw (parse-escaped valid []) refl
format-escaped valid env evt (c ∷ s) h =
    rw (parse-escaped valid (c ∷ s))
      (ap some (append-nil (fit default_params (c ∷ s)) ∙ fit_default (c ∷ s) h))

parse-append :
    (valid : Text → Bool) (s more : Text) (p : Parser)
    → parse_loop (length more) valid (reading [] s) more ≡ p
    → parse valid (escaped s ++ more) ≡ push_literal p.text p.pieces
parse-append valid s more p e =
    parse-parse_loop valid (escaped s ++ more) p (parse_loop-escaped valid [] [] s more ∙ e)

-- A pattern that ends in an unfinished %- has its last text formatted twice, where the text is not
-- empty and its length fits 64 bits.
format_unfinished :
    (valid : Text → Bool) (env : Env) (evt : Event) (c : ℕ) (s : Text)
    → length (c ∷ s) < 2 ^ 64
    → format env (parse valid (escaped (c ∷ s) ++ (b'%' ∷ (b'-' ∷ [])))) evt
      ≡ some ((c ∷ s) ++ (c ∷ s))
unfolding format push_literal get_text get_text_impl parse_loop step literal_step begin_step
format_unfinished valid env evt c s h =
    rw (parse-append valid (c ∷ s) (b'%' ∷ (b'-' ∷ [])) _ refl)
      (rw (append-nil (fit default_params (c ∷ s)), fit_default (c ∷ s) h) refl)

-- A pattern that ends in %C without an argument has no format: the piece is a null pointer.
format_null :
    (valid : Text → Bool) (env : Env) (evt : Event) (s : Text)
    → format env (parse valid (escaped s ++ (b'%' ∷ (b'C' ∷ [])))) evt ≡ none
unfolding format push_literal get_text get_text_impl parse_loop step literal_step begin_step finish
    is_digit
format_null valid env evt [] = rw (parse-append valid [] (b'%' ∷ (b'C' ∷ [])) _ refl) refl
format_null valid env evt (c ∷ s) = rw (parse-append valid (c ∷ s) (b'%' ∷ (b'C' ∷ [])) _ refl) refl
