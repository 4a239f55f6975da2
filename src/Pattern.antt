-- ===== src/Pattern.antt =====
-- pattern_formatter.hpp and pattern_formatter.cpp: a pattern is parsed into pieces once, and each
-- event is formatted by the pieces. An iterator into the pattern is the bytes from there on.
-- What the pieces ask of other components (the host's and the file's names, dates, the diagnostic
-- context, regular expressions) is the parameter `Env`; reports of errors are not modelled.
pub mod Format
pub mod Literals
use chucho.Base.{
  ℕ, zero, suc, ◌+◌, ◌-◌, ◌%◌, ◌^◌, Bool, true, false, ◌&&◌, ◌||◌, List, [], ◌∷◌, ◌++◌, Option,
  none, some, Text, codes, if◌then◌else◌, ltb, leb, ◌==◌, length, drop,
}
use chucho.TextUtil.{skip_space, is_digit, read_digits, before_first_of, from_first_of}
use chucho.TextUtil.Decimal.{decimal}
use chucho.Event.{Event, marker_text}

pub data Justification : Type 0 where
  unset left right : Justification

abbrev pub size_max : ℕ
size_max = 2 ^ 64 - 1

pub record FormatParams : Type 0 where
  pub min_width : ℕ
  pub max_width : ℕ
  pub just : Justification

-- format_params::reset
abbrev pub default_params : FormatParams
default_params = record { min_width = 0; max_width = size_max; just = unset }

pub data Kind : Type 0 where
  base_file full_file base_host full_host pid event_marker line_number message : Kind
  function end_of_line level milliseconds_since_start thread : Kind
  logger : ℕ → Kind
  diagnostic_context utc_date_time local_date_time regex_replace literal : Text → Kind

pub record Piece : Type 0 where
  pub kind : Kind
  pub params : FormatParams

-- What create_piece ends with: an exception, a null pointer, or a piece.
pub data Made : Type 0 where
  thrown null : Made
  made : Kind → Made

-- get_argument, from what follows the letter: the argument, the bytes that `pos` moves over, and
-- the bytes behind them. Without the closing brace only the opening one is passed.
pub braced : Text → Text → Text × Text × Text
braced r [] = ([], b'{' ∷ [], r)
braced r (close ∷ rest) =
    (before_first_of b'}' r, b'{' ∷ (before_first_of b'}' r ++ close ∷ []), rest)

pub get_argument : Text → Text × Text × Text
unfolding braced
get_argument [] = ([], [], [])
get_argument (c ∷ r) = if c == b'{' then braced r (from_first_of b'}' r) else ([], [], c ∷ r)

-- std::stoul: white space and a sign may stand before the digits; `none` is an exception.
read_unsigned : Bool → Text → Option ℕ
read_unsigned negative [] = none
read_unsigned negative (c ∷ s) =
    let n = (read_digits 0 (c ∷ s)).0 in
    if is_digit c && leb n size_max
    then some (if negative then (size_max + 1 - n) % (size_max + 1) else n)
    else none

signed : Text → Option ℕ
unfolding read_unsigned
signed [] = none
signed (c ∷ s) =
    if c == b'-'
    then read_unsigned true s
    else if c == b'+'
    then read_unsigned false s
    else read_unsigned false (c ∷ s)

-- The constructor of logger_piece; the number is the greatest one where std::stoul throws.
pub piece_count : Text → ℕ
unfolding signed
piece_count num = elim (signed (skip_space num)) [ none ↦ size_max | some n ↦ n ]

pub required : (Text → Kind) → Text → Made
required kind [] = null
required kind (c ∷ arg) = made (kind (c ∷ arg))

abbrev pub default_date : Text
default_date = codes "%Y-%m-%d %H:%M:%S"

pub date_pattern : Text → Text
date_pattern [] = default_date
date_pattern (c ∷ arg) = c ∷ arg

-- The constructor of regex_replace_piece throws if its arguments are not of the right form.
pub regex_piece : (Text → Bool) → Text → Made
regex_piece valid [] = null
regex_piece valid (c ∷ arg) = if valid (c ∷ arg) then made (regex_replace (c ∷ arg)) else thrown

-- The letters without an argument.
unfoldable pub simple_kind : ℕ → Option Kind
simple_kind c =
    if c == b'b'
    then some base_file
    else if c == b'F'
    then some full_file
    else if c == b'h'
    then some base_host
    else if c == b'H'
    then some full_host
    else if c == b'i'
    then some pid
    else if c == b'k'
    then some event_marker
    else if c == b'L'
    then some line_number
    else if c == b'm'
    then some message
    else if c == b'M'
    then some function
    else if c == b'n'
    then some end_of_line
    else if c == b'p'
    then some level
    else if c == b'r'
    then some milliseconds_since_start
    else if c == b't'
    then some thread
    else none

-- The letters with one.
pub argument_kind : (Text → Bool) → ℕ → Text → Made
unfolding piece_count required date_pattern regex_piece
argument_kind valid c arg =
    if c == b'c'
    then made (logger (piece_count arg))
    else if c == b'C'
    then required diagnostic_context arg
    else if c == b'd'
    then made (utc_date_time (date_pattern arg))
    else if c == b'D'
    then made (local_date_time (date_pattern arg))
    else if c == b'R'
    then regex_piece valid arg
    else thrown

pub takes_argument : ℕ → Bool
takes_argument c = c == b'c' || c == b'C' || c == b'd' || c == b'D' || c == b'R'

-- create_piece: what it ends with, the bytes that `pos` moves over, and the bytes behind them.
pub create_piece : (Text → Bool) → ℕ → Text → Made × Text × Text
unfolding simple_kind argument_kind takes_argument get_argument
create_piece valid c rest = elim (simple_kind c) [
  | some k ↦ (made k, [], rest)
  | none ↦
      if takes_argument c
      then (let (arg, passed, behind) = get_argument rest in
          (argument_kind valid c arg, passed, behind))
      else (thrown, [], rest)
]

pub data ParserState : Type 0 where
  in_literal begin dot in_min in_max : ParserState

-- The variables of `parse`. A piece that is a null pointer is `none`; `since` is the bytes from
-- `begin_pos` up to the one that is looked at.
pub record Parser : Type 0 where
  pub state : ParserState
  pub pieces : List (Option Piece)
  pub text : Text
  pub params : FormatParams
  pub since : Text

abbrev pub literal_piece : Text → Option Piece
literal_piece text = some (record { kind = literal text; params = default_params })

unfoldable pub push_literal : Text → List (Option Piece) → List (Option Piece)
push_literal [] pieces = pieces
push_literal (c ∷ text) pieces = pieces ++ literal_piece (c ∷ text) ∷ []

-- Back to literal text, after a piece or the handler of an exception.
abbrev pub back_with : Parser → Option Piece → Parser
back_with p piece = record {
  state = in_literal;
  pieces = p.pieces ++ piece ∷ [];
  text = [];
  params = default_params;
  since = [];
}

-- The handler: the bytes of the directive are taken literally.
pub recover : Parser → Text → Parser
recover p passed = back_with p (literal_piece (p.since ++ passed))

pub placed : Parser → ℕ → Made × Text × Text → Parser × Text
unfolding recover
placed p c (thrown, passed, behind) = (recover p (c ∷ passed), behind)
placed p c (null, passed, behind) = (back_with p none, behind)
placed p c (made k, passed, behind) =
    (back_with p (some (record { kind = k; params = p.params })), behind)

pub finish : (Text → Bool) → Parser → ℕ → Text → Parser × Text
unfolding placed create_piece
finish valid p c rest = placed p c (create_piece valid c rest)

pub literal_step : Parser → ℕ → Text → Parser × Text
unfolding push_literal
literal_step p c [] = (record p { text = p.text ++ c ∷ [] }, [])
literal_step p c (d ∷ rest) =
    if c == b'%'
    then (if d == b'%' then (record p { text = p.text ++ c ∷ [] }, rest) else (
      record p { state = begin; pieces = push_literal p.text p.pieces; since = c ∷ [] },
      d ∷ rest,
    ))
    else (record p { text = p.text ++ c ∷ [] }, d ∷ rest)

abbrev pub justified : FormatParams → FormatParams
justified ps = elim ps.just [ unset ↦ record ps { just = right } | left ↦ ps | right ↦ ps ]

pub begin_step : (Text → Bool) → Parser → ℕ → Text → Parser × Text
begin_step valid p c rest =
    if c == b'-'
    then (record p { params = record p.params { just = left }; since = p.since ++ c ∷ [] }, rest)
    else (let q = record p { params = justified p.params } in
        if c == b'.'
        then (record q { state = dot; since = p.since ++ c ∷ [] }, rest)
        else if is_digit c
        then (record q { state = in_min; text = c ∷ []; since = p.since ++ c ∷ [] }, rest)
        else finish valid q c rest)

-- std::stoi of digits, which throws if an int does not hold the number
pub stoi : Text → Option ℕ
stoi text = let n = (read_digits 0 text).0 in if ltb n (2 ^ 31) then some n else none

pub min_step : (Text → Bool) → Parser → ℕ → Text → Parser × Text
min_step valid p c rest =
    if is_digit c
    then (record p { text = p.text ++ c ∷ []; since = p.since ++ c ∷ [] }, rest)
    else elim (stoi p.text) [
      | none ↦ (recover p (c ∷ []), rest)
      | some n ↦
          (let q = record p { params = record p.params { min_width = n } } in
            if c == b'.'
            then (record q { state = dot; since = p.since ++ c ∷ [] }, rest)
            else finish valid q c rest)
    ]

pub dot_step : Parser → ℕ → Text → Parser × Text
dot_step p c rest =
    if is_digit c
    then (record p { state = in_max; text = c ∷ []; since = p.since ++ c ∷ [] }, rest)
    else (record p { state = in_literal; params = default_params; text = p.since ++ c ∷ [] }, rest)

pub max_step : (Text → Bool) → Parser → ℕ → Text → Parser × Text
max_step valid p c rest =
    if is_digit c
    then (record p { text = p.text ++ c ∷ []; since = p.since ++ c ∷ [] }, rest)
    else elim (stoi p.text) [
      | none ↦ (recover p (c ∷ []), rest)
      | some n ↦ finish valid (record p { params = record p.params { max_width = n } }) c rest
    ]

-- The body of the loop, at a byte and what follows it.
pub step : (Text → Bool) → Parser → ℕ → Text → Parser × Text
step valid p c rest = elim p.state [
  | in_literal ↦ literal_step p c rest
  | begin ↦ begin_step valid p c rest
  | dot ↦ dot_step p c rest
  | in_min ↦ min_step valid p c rest
  | in_max ↦ max_step valid p c rest
]

-- Each round consumes a byte at least, so the length of the pattern is enough fuel.
pub parse_loop : ℕ → (Text → Bool) → Parser → Text → Parser
parse_loop zero valid p s = p
parse_loop (suc fuel) valid p [] = p
parse_loop (suc fuel) valid p (c ∷ rest) =
    let (q, behind) = step valid p c rest in parse_loop fuel valid q behind

abbrev pub new_parser : Parser
new_parser = record {
  state = in_literal;
  pieces = [];
  text = [];
  params = default_params;
  since = [];
}

unfoldable pub parse : (Text → Bool) → Text → List (Option Piece)
unfolding parse_loop push_literal step literal_step begin_step min_step dot_step max_step finish
    stoi recover
parse valid pattern =
    let p = parse_loop (length pattern) valid new_parser pattern in push_literal p.text p.pieces
