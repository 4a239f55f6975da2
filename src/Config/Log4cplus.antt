-- ===== src/Config/Log4cplus.antt =====
-- The log4cplus_properties_processor of config_file_configurator.cpp, over the factories of Process.
-- The regular expression that splits a logger's value into tokens is a parameter. A null pointer to a
-- writer is `none`; a memento that is given one throws std::bad_typeid. A factory that is not there,
-- and an object that is not a filter or a writer, are only asserted against: what follows is
-- undefined.
pub mod Filters
pub mod Writers
use chucho.Base.{
  ℕ, zero, suc, ◌+◌, Bool, true, false, not, ◌&&◌, ◌||◌, List, [], ◌∷◌, ◌++◌, Option, none, some,
  Text, codes, text_eq, if◌then◌else◌, length,
}
use chucho.TextUtil.{to_lower}
use chucho.TextUtil.Decimal.{decimal}
use chucho.Config.Properties.{Properties, get_subset, get_one, after_prefix}
use chucho.Config.Process.{
  Configurable, created, pattern_of, console, denies_all, filtered, Calls, no_calls, value_call,
  child_call, Factories, Attempt, threw, unfinished, undefined, gave, ◌>>=◌, handle_value,
  finish_configurable, logger_class, caught,
}

-- factory_keys_
unfoldable pub factory_key : Text → Option Text
unfolding text_eq
factory_key type =
    if text_eq type (codes "log4cplus::FileAppender")
    then some (codes "chucho::file_writer")
    else if text_eq type (codes "log4cplus::SocketAppender")
    then some (codes "chucho::remote_writer")
    else if text_eq type (codes "log4cplus::SysLogAppender")
    then some (codes "chucho::syslog_writer")
    else if text_eq type (codes "log4cplus::spi::LogLevelMatchFilter")
    then some (codes "chucho::level_filter")
    else if text_eq type (codes "log4cplus::spi::LogLevelRangeFilter")
    then some (codes "chucho::level_threshold_filter")
    else if text_eq type (codes "log4cplus::NTEventLogAppender")
    then some (codes "chucho::windows_event_log_writer")
    else none

-- Work with the factory of a class, which an assert says is there
abbrev pub with_factory : {A : Type 0} → Factories → Text → Attempt A → Attempt A
with_factory f cls work = if f.has_factory cls then work else undefined

-- The cast of a new filter, which an assert says is one
abbrev pub as_filter : Factories → Text → Configurable → Attempt Configurable
as_filter f cls made = if f.is_filter cls then gave made else undefined

-- `text.find(prefix) == 0`
abbrev pub starts_with : Text → Text → Bool
starts_with prefix text = elim (after_prefix prefix text) [ none ↦ false | some rest ↦ true ]

unfoldable pub get_non_empty_subset : Properties → Text → Attempt Properties
unfolding get_subset
get_non_empty_subset props prefix = elim (get_subset prefix props) [
  | [] ↦ threw
  | e ∷ es ↦ gave (e ∷ es)
]

-- The properties of a filter, without those whose value begins with its type
unfoldable pub handle_filter_values : Factories → Text → Text → Properties → Calls → Attempt Calls
unfolding handle_value after_prefix
handle_filter_values f cls type [] calls = gave calls
handle_filter_values f cls type ((k, v) ∷ rest) calls =
    (if starts_with type v then gave calls else handle_value f cls k v calls)
    >>= handle_filter_values f cls type rest

-- The body of the loop of add_filters
unfoldable pub add_one_filter :
    Factories → Properties → Text → Text → Configurable → Attempt Configurable
unfolding factory_key get_non_empty_subset handle_filter_values finish_configurable
add_one_filter f flts name type wrt =
    if text_eq type (codes "log4cplus::spi::DenyAllFilter")
    then gave (filtered wrt denies_all)
    else (if text_eq type (codes "log4cplus::spi::StringMatchFilter")
        then gave wrt
        else elim (factory_key type) [
          | none ↦ gave wrt
          | some cls ↦ with_factory f cls (
              get_non_empty_subset flts (name ++ codes ".") >>= λ props.
              handle_filter_values f cls type props no_calls >>= λ calls.
              finish_configurable f cls calls >>= λ made.
              as_filter f cls made >>= λ filt. gave (filtered wrt filt))
        ])

-- The loop from a number on, while there is a filter of the number
unfoldable pub add_filters_from :
    Factories → Properties → ℕ → ℕ → Configurable → Attempt Configurable
unfolding add_one_filter decimal
add_filters_from f flts zero num wrt = unfinished
add_filters_from f flts (suc fuel) num wrt = elim (get_one (decimal num) flts) [
  | none ↦ gave wrt
  | some type ↦
      add_one_filter f flts (decimal num) type wrt >>= add_filters_from f flts fuel (num + 1)
]

unfoldable pub add_filters : Factories → Properties → Configurable → Attempt Configurable
unfolding get_subset add_filters_from
add_filters f props wrt =
    let flts = get_subset (codes "filters.") props in
    add_filters_from f flts (suc (length flts)) 1 wrt

unfoldable pub boolean_value : Text → Bool
unfolding to_lower
boolean_value text =
    let low = to_lower text in not (text_eq low (codes "0") || text_eq low (codes "false"))

unfoldable pub create_formatter : Text → Properties → Attempt Configurable
create_formatter type props =
    if text_eq type (codes "log4cplus::PatternLayout")
    then elim (get_one (codes "ConversionPattern") props) [
      | none ↦ threw
      | some pat ↦ gave (pattern_of pat)
    ]
    else (if text_eq type (codes "log4cplus::SimpleLayout")
        then gave (pattern_of (codes "%p - %m%n"))
        else (if text_eq type (codes "log4cplus::TTCCLayout")
            then gave (pattern_of (codes "%r %t %p %c - %m%n"))
            else threw))

-- The constructor of a writer throws where there is no formatter.
unfoldable pub create_console_writer : Option Configurable → Properties → Attempt Configurable
unfolding boolean_value
create_console_writer none props = threw
create_console_writer (some fmt) props = elim (get_one (codes "logToStdErr") props) [
  | none ↦ gave (console false fmt)
  | some type ↦ gave (console (boolean_value type) fmt)
]

-- A value that there may be, and one that is there in any case
unfoldable pub handle_if_set : Factories → Text → Text → Properties → Calls → Attempt Calls
unfolding handle_value
handle_if_set f cls key props calls = elim (get_one key props) [
  | none ↦ gave calls
  | some v ↦ handle_value f cls key v calls
]

abbrev pub value_or : Text → Option Text → Text
value_or dflt none = dflt
value_or dflt (some v) = v

abbrev pub formatter_calls : Option Configurable → Calls
formatter_calls none = no_calls
formatter_calls (some fmt) = child_call no_calls fmt

unfoldable pub fill_file_writer_memento :
    Factories → Text → Option Configurable → Properties → Attempt Calls
unfolding handle_if_set
fill_file_writer_memento f cls fmt props =
    handle_if_set f cls (codes "Append") props (formatter_calls fmt) >>= λ c.
    handle_if_set f cls (codes "File") props c
    >>= handle_if_set f cls (codes "ImmediateFlush") props

-- A configurable of one value, from the factory of its class
unfoldable pub create_of_value : Factories → Text → Text → Text → Attempt Configurable
unfolding handle_value finish_configurable
create_of_value f cls key v =
    with_factory f cls (handle_value f cls key v no_calls >>= finish_configurable f cls)

abbrev pub rolling_class : Text
rolling_class = codes "chucho::rolling_file_writer"

unfoldable pub create_size_rolling_writer :
    Factories → Option Configurable → Properties → Attempt Configurable
unfolding fill_file_writer_memento create_of_value finish_configurable
create_size_rolling_writer f fmt props =
    with_factory f rolling_class (fill_file_writer_memento f rolling_class fmt props) >>= λ c.
    create_of_value f (codes "chucho::numbered_file_roller") (codes "max_index")
      (value_or (codes "1") (get_one (codes "MaxBackupIndex") props))
    >>= λ roller.
        create_of_value f (codes "chucho::size_file_roll_trigger") (codes "max_size")
          (value_or (codes "10m") (get_one (codes "MaxFileSize") props))
        >>= λ trigger.
            finish_configurable f rolling_class (child_call (child_call c roller) trigger)

unfoldable pub time_pattern : Option Text → Text → Text
unfolding to_lower
time_pattern sched file_name =
    let low = to_lower (value_or [] sched) in
    let period =
      (if text_eq low (codes "monthly")
        then codes ".%d{%Y-%m}"
        else if text_eq low (codes "weekly")
        then codes ".%d{%Y-%U}"
        else if text_eq low (codes "hourly")
        then codes ".%d{%Y-%m-%d %H}"
        else if text_eq low (codes "minutely")
        then codes ".%d{%Y-%m-%d %H:%M}"
        else codes ".%d{%Y-%m-%d}") in
    file_name ++ period

unfoldable pub create_time_rolling_writer :
    Factories → Option Configurable → Properties → Attempt Configurable
unfolding fill_file_writer_memento handle_value finish_configurable time_pattern
create_time_rolling_writer f fmt props =
    let roller_class = codes "chucho::time_file_roller" in
    let pattern =
      time_pattern (get_one (codes "Schedule") props)
        (value_or [] (get_one (codes "File") props)) in
    with_factory f rolling_class (fill_file_writer_memento f rolling_class fmt props) >>= λ c.
    with_factory f roller_class (
      handle_value f roller_class (codes "max_history")
        (value_or (codes "10") (get_one (codes "MaxBackupIndex") props)) no_calls)
    >>= λ r. handle_value f roller_class (codes "file_name_pattern") pattern r >>= λ r'.
        finish_configurable f roller_class r' >>= λ roller.
        finish_configurable f rolling_class (child_call c roller)
