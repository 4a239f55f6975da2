-- ===== src/Tests/ConfigTests.antt =====
-- configurator.cpp, properties.cpp and config_file_configurator.cpp
use chucho.Base.{
  ℕ, ◌+◌, text_lt, ◌≡◌, refl, true, false, not, List, [], ◌∷◌, Option, none, some, Text, text_eq,
  codes, arith, if◌then◌else◌,
}
use chucho.Config.Variables.{Match, Lookup, value_of, resolve_variables}
use chucho.Config.Variables.Substituted.{resolve_variables-substituted}
use chucho.Config.Properties.{
  Properties, get, get_subset, read_lines, pop_return, get_one, after_prefix, insert_property,
}
use chucho.Config.Properties.Subsets.{get-get_subset}
use chucho.Config.Process.{
  no_calls, value_call, Factories, unfinished, undefined, create_writer, get_factory,
  handle_writer_entries, denies_all, pattern_of, filtered, created, gave,
}
use chucho.Config.Log4cplus.{add_filters_from}
use chucho.Config.Log4cplus.Filters.{in_fuel, add_filters_from_ends}
use chucho.Config.Process.Ends.{is_finished, create_writer_ends}
use chucho.Config.Process.Cycles.{LeadsTo, create_writer_cycle}

-- ${a} and $Env{b} in "x${a}y$Env{b}z"
abbrev two_matches : Text → List Match
two_matches val =
    record { begin = 1; size = 4; first_group = none; name = codes "a" }
    ∷ (record { begin = 6; size = 7; first_group = some 7; name = codes "b" } ∷ [])

abbrev references : Lookup
references = record {
  environment = λ s. none;
  variables = λ s. if text_eq s (codes "a") then some (codes "longer") else none;
}

resolve_variables-substituted_example :
    resolve_variables two_matches references (codes "x${a}y$Env{b}z")
    ≡ some (codes "xlongery$Env{b}z")
unfolding text_eq value_of
resolve_variables-substituted_example =
    resolve_variables-substituted two_matches references (codes "x${a}y$Env{b}z")
      (omega arith, (omega arith, omega arith)) (omega arith)

abbrev matched : Text → Option (Text × Text)
matched s =
    if text_eq s (codes "a.x=1")
    then some (codes "a.x", codes "1")
    else (if text_eq s (codes "a.x = 2") then some (codes "a.x", codes "2") else none)

get-get_subset_example :
    get (codes "x") (
      get_subset
        (codes "a.")
        (read_lines matched (codes "a.x=1" ∷ (codes "" ∷ (codes "a.x = 2\r" ∷ []))) []))
    ≡ codes "1" ∷ (codes "2" ∷ [])
unfolding text_eq pop_return
get-get_subset_example =
    get-get_subset matched (codes "a.x=1" ∷ (codes "" ∷ (codes "a.x = 2\r" ∷ []))) (codes "a.")
      (codes "x")

abbrev factories : Factories
factories = record {
  has_factory = λ cls. true;
  is_filter = λ cls. true;
  is_writer = λ cls. true;
  takes = λ cls key value. true;
  creates = λ cls calls. true;
  has_curl = true;
  has_rdkafka = false;
}

-- async holds file; and the writer round holds itself
abbrev held : Properties
held =
    (codes "writer.async", codes "chucho::async_writer")
    ∷ ((codes "writer.async.writer", codes "file")
        ∷ ((codes "writer.file", codes "chucho::file_writer")
            ∷ ((codes "writer.file.file_name", codes "log")
                ∷ ((codes "writer.round", codes "chucho::async_writer")
                    ∷ ((codes "writer.round.capacity", codes "9")
                        ∷ ((codes "writer.round.writer", codes "round") ∷ []))))))

create_writer_ends_example :
    (create_writer factories held (3 + 2) (codes "async")
      ≡ create_writer factories held 2 (codes "async"))
    × (is_finished (create_writer factories held 2 (codes "async")) ≡ true)
unfolding text_eq get_subset
create_writer_ends_example =
    create_writer_ends factories held (codes "async" ∷ (codes "file" ∷ [])) 3 (codes "async") refl
      refl

round_leads : (i : ℕ) → LeadsTo factories held (codes "round") (codes "round")
unfolding get_factory get_one text_eq get_subset text_lt handle_writer_entries
round_leads i = (
  codes "chucho::async_writer",
  (codes "capacity", codes "9") ∷ [],
  [],
  value_call no_calls (codes "capacity") (codes "9"),
  refl,
  refl,
  λ create. refl,
)

create_writer_cycle_example : create_writer factories held 5 (codes "round") ≡ unfinished
create_writer_cycle_example =
    create_writer_cycle factories held (λ i. codes "round") round_leads 5 0

abbrev level_filters : Properties
level_filters =
    (codes "1", codes "log4cplus::spi::LogLevelMatchFilter")
    ∷ ((codes "1.LogLevelToMatch", codes "INFO")
        ∷ ((codes "2", codes "log4cplus::spi::DenyAllFilter") ∷ []))

add_filters_from_ends_example :
    (add_filters_from factories level_filters (2 + 4) 1 denies_all
      ≡ add_filters_from factories level_filters 4 1 denies_all)
    × (in_fuel (add_filters_from factories level_filters 4 1 denies_all) ≡ true)
add_filters_from_ends_example = add_filters_from_ends factories level_filters 2 denies_all

both_filters :
    add_filters_from factories level_filters 4 1 (pattern_of [])
    ≡ gave (
        filtered
          (filtered (pattern_of []) (
            created
              (codes "chucho::level_filter")
              (value_call no_calls (codes "LogLevelToMatch") (codes "INFO"))))
          denies_all)
unfolding add_filters_from text_eq text_lt after_prefix insert_property get_one
both_filters = refl

-- chucho::remote_writer has no factory, and nothing but an assert says so.
abbrev no_remote : Factories
no_remote = record factories {
  has_factory = λ cls. not (text_eq cls (codes "chucho::remote_writer"));
}

socket_filter :
    add_filters_from no_remote ((codes "1", codes "log4cplus::SocketAppender") ∷ []) 2 1 denies_all
    ≡ undefined
unfolding add_filters_from text_eq text_lt after_prefix insert_property get_one
socket_filter = refl
