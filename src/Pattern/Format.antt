-- ===== src/Pattern/Format.antt =====
-- pattern_formatter::format and the pieces' texts.
pub mod Widths
pub mod LoggerNames
use mathlib.Core.Option
use chucho.Base.{
  ℕ, zero, suc, ◌+◌, ◌-◌, ◌^◌, Bool, true, false, ◌&&◌, List, [], ◌∷◌, ◌++◌, Option, none, some,
  Text, codes, if◌then◌else◌, ltb, leb, ◌==◌, length, drop, tail, replicate,
}
use chucho.TextUtil.{from_first_of}
use chucho.TextUtil.Decimal.{decimal}
use chucho.Level.{Level}
use chucho.Event.{Event, Marker, marker_text}
use chucho.Pattern.{
  Justification, unset, left, right, FormatParams, Kind, base_file, full_file, base_host, full_host,
  pid, event_marker, line_number, message, function, end_of_line, level, milliseconds_since_start,
  thread, logger, diagnostic_context, utc_date_time, local_date_time, regex_replace, literal, Piece,
}

-- What the pieces ask of other components at the time of a call.
pub record Env : Type 0 where
  pub base_name : Text → Text
  pub host_base_name : Text
  pub host_full_name : Text
  pub process_id : ℕ
  pub milliseconds : ℕ
  pub eol : Text
  pub this_thread : Text
  pub context : Text → Text
  pub utc_date : Text → ℕ → Text
  pub local_date : Text → ℕ → Text
  pub replaced : Text → Event → Text

-- std::count of the dots
unfoldable pub dots : Text → ℕ
dots [] = 0
dots (c ∷ s) = if c == b'.' then suc (dots s) else dots s

-- The loop `pos = nm.find('.', pos) + 1`
pub after_dots : ℕ → Text → Text
after_dots zero s = s
after_dots (suc n) s = after_dots n (tail (from_first_of b'.' s))

-- logger_piece::get_text_impl. The test `pos < nm.length() - 1` is that more than one byte is left.
pub logger_text : ℕ → Text → Text
unfolding dots after_dots
logger_text count nm =
    let hierarchy = dots nm + 1 in
    let kept = after_dots (hierarchy - count) nm in
    if ltb 1 hierarchy && leb count hierarchy
    then (if ltb (length kept) (length nm) && ltb 1 (length kept) then kept else nm)
    else nm

abbrev pub optional_text : Option Marker → Text
optional_text none = []
optional_text (some m) = marker_text m

abbrev pub text_or : Text → Option Text → Text
text_or d none = d
text_or d (some t) = t

-- get_text_impl of each class of pieces
unfoldable pub get_text_impl : Env → Kind → Event → Text
unfolding logger_text
get_text_impl env base_file evt = env.base_name evt.file_name
get_text_impl env full_file evt = evt.file_name
get_text_impl env base_host evt = env.host_base_name
get_text_impl env full_host evt = env.host_full_name
get_text_impl env pid evt = decimal env.process_id
get_text_impl env event_marker evt = optional_text evt.event_marker
get_text_impl env line_number evt = decimal evt.line_number
get_text_impl env message evt = evt.message
get_text_impl env function evt = evt.function_name
get_text_impl env end_of_line evt = env.eol
get_text_impl env level evt = evt.level.name
get_text_impl env milliseconds_since_start evt = decimal env.milliseconds
get_text_impl env thread evt = text_or env.this_thread evt.thread_id
get_text_impl env (logger count) evt = logger_text count evt.logger
get_text_impl env (diagnostic_context key) evt = env.context key
get_text_impl env (utc_date_time pattern) evt = env.utc_date pattern evt.time
get_text_impl env (local_date_time pattern) evt = env.local_date pattern evt.time
get_text_impl env (regex_replace arguments) evt = env.replaced arguments evt
get_text_impl env (literal text) evt = text

abbrev pub space : ℕ
space = 32

-- piece::get_text after get_text_impl
unfoldable pub fit : FormatParams → Text → Text
fit params result =
    if ltb params.max_width (length result)
    then drop (length result - params.max_width) result
    else if ltb (length result) params.min_width
    then (let pad = replicate (params.min_width - length result) space in
        elim params.just [ left ↦ result ++ pad | right ↦ pad ++ result | unset ↦ pad ++ result ])
    else result

unfoldable pub get_text : Env → Piece → Event → Text
unfolding fit get_text_impl
get_text env p evt = fit p.params (get_text_impl env p.kind evt)

-- format; `none` is the call through a null pointer.
unfoldable pub format : Env → List (Option Piece) → Event → Option Text
unfolding get_text
format env [] evt = some []
format env (none ∷ pieces) evt = none
format env (some p ∷ pieces) evt =
    Option.map (λ rest. get_text env p evt ++ rest) (format env pieces evt)
