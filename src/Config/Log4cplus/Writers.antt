-- ===== src/Config/Log4cplus/Writers.antt =====
-- create_writer, create_logger and process of the log4cplus_properties_processor.
use chucho.Base.{
  ◌≡◌, refl, Bool-cases, inl, inr, ℕ, zero, suc, true, ◌||◌, List, [], ◌∷◌, ◌++◌, Option, none,
  some, Text, codes, text_eq, if◌then◌else◌,
}
use chucho.Config.Properties.{Properties, get_subset, get_one, after_prefix}
use chucho.Config.Process.{
  Configurable, Calls, no_calls, child_call, Factories, Attempt, threw, unfinished, undefined, gave,
  ◌>>=◌, handle_value, finish_configurable, logger_class, caught,
}
use chucho.Config.Log4cplus.{
  factory_key, with_factory, starts_with, add_filters, create_formatter, create_console_writer,
  formatter_calls, create_size_rolling_writer, create_time_rolling_writer,
}

-- What create_writer ends with: a null pointer, or a writer
abbrev Made : Type 0
Made = Attempt (Option Configurable)

-- The cast of a new writer to one, which an assert says it is
abbrev as_writer : Factories → Text → Configurable → Attempt Configurable
as_writer f cls made = if f.is_writer cls then gave made else undefined

-- create_async_writer, where create makes the writer of a name
unfoldable create_async_writer : Factories → (Text → Made) → Properties → Attempt Configurable
unfolding finish_configurable
create_async_writer f create wrt_props =
    with_factory f (codes "chucho::async_writer") (elim (get_one (codes "Appender") wrt_props) [
      | none ↦ finish_configurable f (codes "chucho::async_writer") no_calls
      | some app ↦ create app >>= λ made. elim made [
        | none ↦ threw
        | some wrt ↦ finish_configurable f (codes "chucho::async_writer") (child_call no_calls wrt)
      ]
    ])

-- The properties that are not about the layout or the filters
unfoldable handle_appender_values : Factories → Text → Properties → Calls → Attempt Calls
unfolding handle_value after_prefix
handle_appender_values f cls [] calls = gave calls
handle_appender_values f cls ((k, v) ∷ rest) calls =
    (if starts_with (codes "layout") k || starts_with (codes "filters") k
      then gave calls
      else handle_value f cls k v calls)
    >>= handle_appender_values f cls rest

-- The formatter, if there is a layout
unfoldable layout_of : Properties → Attempt (Option Configurable)
unfolding create_formatter get_subset
layout_of wrt_props = elim (get_one (codes "layout") wrt_props) [
  | none ↦ gave none
  | some type ↦
      create_formatter type (get_subset (codes "layout.") wrt_props) >>= λ fmt. gave (some fmt)
]

-- The writer of a type, before it gets its filters; without one, writer_creation_exception is thrown
unfoldable create_of_type :
    Factories → (Text → Made) → Text → Option Configurable → Properties → Attempt Configurable
unfolding create_console_writer create_size_rolling_writer create_time_rolling_writer
    create_async_writer factory_key handle_appender_values
create_of_type f create type fmt wrt_props =
    if text_eq type (codes "log4cplus::ConsoleAppender")
    then create_console_writer fmt wrt_props
    else (if text_eq type (codes "log4cplus::RollingFileAppender")
        then create_size_rolling_writer f fmt wrt_props
        else (if text_eq type (codes "log4cplus::DailyRollingFileAppender")
            then create_time_rolling_writer f fmt wrt_props
            else (if text_eq type (codes "log4cplus::AsyncAppender")
                then create_async_writer f create wrt_props
                else elim (factory_key type) [
                  | none ↦ threw
                  | some cls ↦ with_factory f cls (
                      handle_appender_values f cls wrt_props (formatter_calls fmt) >>= λ calls.
                      finish_configurable f cls calls >>= as_writer f cls)
                ])))

-- create_writer, on fuel
unfoldable create_appender : Factories → Properties → ℕ → Text → Made
unfolding layout_of create_of_type add_filters
create_appender f props zero name = unfinished
create_appender f props (suc n) name = elim (get_one (codes "appender." ++ name) props) [
  | none ↦ threw
  | some type ↦
      (let wrt_props = get_subset (codes "appender." ++ (name ++ codes ".")) props in
        layout_of wrt_props >>= λ fmt.
        if text_eq type (codes "log4cplus::NullAppender")
        then gave none
        else (create_of_type f (create_appender f props n) type fmt wrt_props >>= λ wrt.
            add_filters f wrt_props wrt >>= λ made. gave (some made)))
]

unfoldable handle_writers : (Text → Made) → List Text → Calls → Attempt Calls
handle_writers create [] calls = gave calls
handle_writers create (tok ∷ toks) calls = create tok >>= λ made.
    handle_writers create toks (elim made [ none ↦ calls | some wrt ↦ child_call calls wrt ])

-- create_logger. The first token is the level, and is erased, which is undefined where there is none.
unfoldable create_logger :
    Factories → (Text → List Text) → (Text → Made) → Text → Text → Attempt Configurable
unfolding handle_value handle_writers finish_configurable
create_logger f split_tokens create name desc =
    with_factory f logger_class (handle_value f logger_class (codes "name") name no_calls)
    >>= λ calls. elim (split_tokens desc) [
      | [] ↦ undefined
      | lvl ∷ toks ↦ handle_value f logger_class (codes "level") lvl calls >>= λ c.
          handle_writers create toks c >>= finish_configurable f logger_class
    ]

unfoldable process_entries :
    Factories
    → (Text → List Text)
    → (Text → Made)
    → Properties
    → Attempt (List (Option Configurable))
unfolding create_logger
process_entries f split_tokens create [] = gave []
process_entries f split_tokens create ((name, desc) ∷ rest) =
    caught (create_logger f split_tokens create name desc) >>= λ made.
    process_entries f split_tokens create rest >>= λ others. gave (made ∷ others)

-- process: an exception about the root logger is not caught, one about another logger leaves that out
unfoldable pub process_log4cplus :
    Factories → (Text → List Text) → ℕ → Properties → Attempt (List (Option Configurable))
unfolding process_entries create_appender
process_log4cplus f split_tokens fuel props =
    let lprops = get_subset (codes "log4cplus.") props in
    let create = create_appender f lprops fuel in
    (elim (get_one (codes "rootLogger") lprops) [
      | none ↦ gave []
      | some root ↦ create_logger f split_tokens create [] root >>= λ made. gave (some made ∷ [])
    ])
    >>= λ first.
        process_entries f split_tokens create (get_subset (codes "logger.") lprops) >>= λ others.
        gave (first ++ others)

-- A root logger whose value has no tokens makes process undefined, whatever else is configured.
process_log4cplus_undefined :
    (f : Factories) (split_tokens : Text → List Text) (fuel : ℕ) (props : Properties) (root : Text)
    → get_one (codes "rootLogger") (get_subset (codes "log4cplus.") props) ≡ some root
    → f.takes logger_class (codes "name") [] ≡ true
    → split_tokens root ≡ []
    → process_log4cplus f split_tokens fuel props ≡ undefined
unfolding process_log4cplus create_logger handle_value
process_log4cplus_undefined f split_tokens fuel props root h named no_tokens =
    elim (Bool-cases (f.has_factory logger_class)) [
      | inl e ↦ rw (process_log4cplus, h, create_logger, e, handle_value, named, no_tokens) refl
      | inr e ↦ rw (process_log4cplus, h, create_logger, e) refl
    ]
