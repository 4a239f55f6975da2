-- ===== src/Tests/EventTests.antt =====
-- event_cache.cpp, pattern_formatter.cpp, writer.cpp and the filters.
use chucho.Base.{
  ◌≡◌, ◌≢◌, refl, ◌+◌, Bool, true, List, [], ◌∷◌, ◌++◌, some, none, Text, codes, arith,
}
use chucho.Level.{Level, ge_level, eq_level, trace_level, info_level, warn_level}
use chucho.TextUtil.{is_digit, read_digits, from_first_of, skip_space, before_first_of}
use chucho.TextUtil.Decimal.{decimal}
use chucho.Event.{Event, marker, nil, cons, marker_text}
use chucho.Pattern.Literals.Directives.{Item, AllKnown, directive, parse-pattern_of}
use chucho.Pattern.{message, end_of_line, simple_kind, literal_piece, push_literal, parse}
use chucho.Pattern.Format.{Env, format, logger_text, dots}
use chucho.Pattern.Format.LoggerNames.{logger_text-components}
use chucho.Pattern.Literals.{escaped, format-escaped}
use chucho.Writer.{
  deny, accept, neutral, Host, Filter, level_threshold_filter, level_filter, evaluate, permits,
}
use chucho.Writer.Filters.{AllNeutral, permits_decided}

abbrev started : Event
started = record {
  logger = codes "app.net";
  level = warn_level;
  message = codes "up";
  time = 300;
  file_name = codes "a.cpp";
  line_number = 12;
  function_name = codes "main";
  event_marker = some (marker (codes "m") (cons (marker (codes "k") nil) nil));
  thread_id = none;
}

abbrev stopped : Event
stopped = record started { message = codes "down"; level = trace_level }

abbrev two_levels : List Level
two_levels = trace_level ∷ warn_level ∷ []

marker_text_children :
    marker_text (marker (codes "m") (cons (marker (codes "k") nil) nil)) ≡ codes "m [ k ]"
unfolding marker_text
marker_text_children = refl

abbrev env : Env
env = record {
  base_name = λ s. s;
  host_base_name = codes "here";
  host_full_name = codes "here.org";
  process_id = 9;
  milliseconds = 5;
  eol = 10 ∷ [];
  this_thread = codes "1";
  context = λ key. key;
  utc_date = λ pattern time. pattern;
  local_date = λ pattern time. pattern;
  replaced = λ arguments evt. evt.message;
}

abbrev any_regex : Text → Bool
any_regex arguments = true

format_message :
    format env (parse any_regex (codes "%5p|%-4m|%c{1}|%.2n%L")) started
    ≡ some (codes " WARN|up  |net|" ++ (10 ∷ codes "12"))
unfolding parse format is_digit read_digits from_first_of skip_space before_first_of decimal
format_message = refl

format-escaped_example :
    format env (parse any_regex (escaped (codes "50%"))) started ≡ some (codes "50%")
format-escaped_example = format-escaped any_regex env started (codes "50%") (omega arith)

logger_text-components_example : logger_text (1 + 1) (codes "a.b.c") ≡ codes "b.c"
unfolding dots
logger_text-components_example = logger_text-components (codes "a") (codes "b.c")

abbrev host : Host
host = record { formatted = λ evt. evt.message; now = λ evt. 0 }

abbrev threshold : Filter
threshold = record { name = codes "threshold"; state = level_threshold_filter info_level }

abbrev exact : Filter
exact = record { name = codes "exact"; state = level_filter warn_level accept deny }

accept_neutral_differ : accept ≢ neutral
accept_neutral_differ e = cc

permits_decided_example :
    permits host (threshold ∷ exact ∷ threshold ∷ []) started
    ≡ (true, threshold ∷ exact ∷ threshold ∷ [], [])
unfolding evaluate ge_level eq_level
permits_decided_example =
    permits_decided host started (threshold ∷ []) (threshold ∷ []) exact
      (AllNeutral.cons threshold [] refl AllNeutral.nil) accept_neutral_differ

abbrev line_end : List Item
line_end =
    record { before = codes "100% "; letter = b'm'; kind = message }
    ∷ record { before = []; letter = b'n'; kind = end_of_line }
    ∷ []

line_end-AllKnown : AllKnown line_end
unfolding simple_kind
line_end-AllKnown = AllKnown.cons _ _ refl (AllKnown.cons _ _ refl AllKnown.nil)

parse-pattern_of_example :
    parse any_regex (codes "100%% %m%n.")
    ≡ literal_piece (codes "100% ")
      ∷ directive message
      ∷ directive end_of_line
      ∷ literal_piece (codes ".")
      ∷ []
unfolding push_literal
parse-pattern_of_example = parse-pattern_of any_regex line_end (codes ".") line_end-AllKnown
