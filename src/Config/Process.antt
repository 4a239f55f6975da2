-- ===== src/Config/Process.antt =====
-- The chucho_properties_processor of config_file_configurator.cpp. What a factory makes is the record
-- of the calls that its memento got; whether a class has a factory, whether a memento takes a value and
-- whether a factory makes something of its memento, or throws, are parameters. Reports are left out.
pub mod Ends
pub mod Cycles
use chucho.Base.{
  ℕ, zero, suc, Bool, true, false, not, ◌&&◌, ◌||◌, List, [], ◌∷◌, ◌++◌, Option, none, some, Text,
  codes, text_eq, if◌then◌else◌, ◌==◌,
}
use chucho.Config.Properties.{Properties, get_subset, get, get_one}

-- What a factory has made of what its memento got, the formatters, writers and filters that are made by
-- their constructors, and a writer that has been given a filter
mutual
  pub data Configurable : Type 0 where
    created : Text → Calls → Configurable
    pattern_of : Text → Configurable
    console : Bool → Configurable → Configurable
    denies_all : Configurable
    filtered : Configurable → Configurable → Configurable

  pub data Calls : Type 0 where
    no_calls : Calls
    value_call : Calls → Text → Text → Calls
    child_call : Calls → Configurable → Calls

pub record Factories : Type 0 where
  pub has_factory : Text → Bool
  pub is_filter : Text → Bool
  pub is_writer : Text → Bool
  pub takes : Text → Text → Text → Bool
  pub creates : Text → Calls → Bool
  pub has_curl : Bool
  pub has_rdkafka : Bool

-- An exception, fuel that has run out, undefined behaviour, or a result
pub data Attempt (A : Type 0) : Type 0 where
  threw unfinished undefined : Attempt A
  gave : A → Attempt A

infixl 1 ◌>>=◌
abbrev pub ◌>>=◌ : {A B : Type 0} → Attempt A → (A → Attempt B) → Attempt B
◌>>=◌ threw f = threw
◌>>=◌ unfinished f = unfinished
◌>>=◌ undefined f = undefined
◌>>=◌ (gave a) f = f a

unfoldable pub has_dot : Text → Bool
has_dot [] = false
has_dot (c ∷ s) = c == b'.' || has_dot s

abbrev pub dotted : Text → Text → Text
dotted type name = type ++ (b'.' ∷ name)

-- get_factory, by the name of its class
unfoldable pub get_factory : Factories → Text → Text → Properties → Attempt Text
get_factory f type name props = elim (get_one (dotted type name) props) [
  | none ↦ threw
  | some cls ↦ if f.has_factory cls then gave cls else threw
]

-- memento::handle of a value, and create_configurable of a factory
unfoldable pub handle_value : Factories → Text → Text → Text → Calls → Attempt Calls
handle_value f cls key value calls =
    if f.takes cls key value then gave (value_call calls key value) else threw

unfoldable pub finish_configurable : Factories → Text → Calls → Attempt Configurable
finish_configurable f cls calls = if f.creates cls calls then gave (created cls calls) else threw

unfoldable pub handle_values : Factories → Text → Properties → Calls → Attempt Calls
unfolding handle_value
handle_values f cls [] calls = gave calls
handle_values f cls ((k, v) ∷ rest) calls =
    handle_value f cls k v calls >>= handle_values f cls rest

unfoldable pub create_configurable : Factories → Text → Text → Properties → Attempt Configurable
unfolding get_factory handle_values finish_configurable
create_configurable f type name props = get_factory f type name props >>= λ cls.
    handle_values f cls (get_subset (dotted type name ++ (b'.' ∷ [])) props) no_calls
    >>= finish_configurable f cls

-- create_file_roller: its compressor is made of the same properties
unfoldable pub handle_roller_entries :
    Factories → Properties → Text → Properties → Calls → Attempt Calls
unfolding create_configurable handle_value
handle_roller_entries f props cls [] calls = gave calls
handle_roller_entries f props cls ((k, v) ∷ rest) calls =
    (if text_eq k (codes "file_compressor")
      then (create_configurable f k v props >>= λ made. gave (child_call calls made))
      else handle_value f cls k v calls)
    >>= handle_roller_entries f props cls rest

unfoldable pub create_file_roller : Factories → Text → Properties → Attempt Configurable
unfolding get_factory handle_roller_entries finish_configurable
create_file_roller f name props = get_factory f (codes "file_roller") name props >>= λ cls.
    handle_roller_entries f props cls
      (get_subset (dotted (codes "file_roller") name ++ (b'.' ∷ [])) props) no_calls
    >>= finish_configurable f cls

-- The keys of what a writer holds, email_trigger and kafka as the build has them
unfoldable pub is_generic : Factories → Text → Bool
is_generic f key =
    text_eq key (codes "filter")
    || (text_eq key (codes "formatter")
        || (text_eq key (codes "file_roll_trigger")
            || (text_eq key (codes "serializer")
                || (text_eq key (codes "compressor")
                    || ((f.has_curl && text_eq key (codes "email_trigger"))
                        || (f.has_rdkafka && text_eq key (codes "kafka")))))))

abbrev pub writer_key : Text
writer_key = codes "writer"

-- One property of a writer, where create makes the writer of a name
unfoldable pub handle_writer_entry :
    Factories
    → (Text → Attempt Configurable)
    → Properties
    → Text
    → Text
    → Text
    → Calls
    → Attempt Calls
unfolding create_file_roller create_configurable handle_value is_generic has_dot
handle_writer_entry f create props cls k v calls =
    if text_eq k (codes "file_roller")
    then (create_file_roller f v props >>= λ made. gave (child_call calls made))
    else (if text_eq k writer_key
        then (create v >>= λ made. gave (child_call calls made))
        else (if is_generic f k
            then (create_configurable f k v props >>= λ made. gave (child_call calls made))
            else (if has_dot k then gave calls else handle_value f cls k v calls)))

unfoldable pub handle_writer_entries :
    Factories
    → (Text → Attempt Configurable)
    → Properties
    → Text
    → Properties
    → Calls
    → Attempt Calls
unfolding handle_writer_entry
handle_writer_entries f create props cls [] calls = gave calls
handle_writer_entries f create props cls ((k, v) ∷ rest) calls =
    handle_writer_entry f create props cls k v calls
    >>= handle_writer_entries f create props cls rest

abbrev pub writer_entries : Text → Properties → Properties
writer_entries name props = get_subset (dotted writer_key name ++ (b'.' ∷ [])) props

-- create_writer, on fuel: it calls itself for the value of each writer property
unfoldable pub create_writer : Factories → Properties → ℕ → Text → Attempt Configurable
unfolding get_factory handle_writer_entries finish_configurable
create_writer f props zero name = unfinished
create_writer f props (suc n) name = get_factory f writer_key name props >>= λ cls.
    handle_writer_entries f (create_writer f props n) props cls (writer_entries name props) no_calls
    >>= finish_configurable f cls

-- process: a property of a logger, a logger, and every logger, where an exception leaves out its logger
abbrev pub logger_class : Text
logger_class = codes "chucho::logger"

unfoldable pub handle_logger_entries :
    Factories → (Text → Attempt Configurable) → Properties → Calls → Attempt Calls
unfolding has_dot handle_value
handle_logger_entries f create [] calls = gave calls
handle_logger_entries f create ((k, v) ∷ rest) calls =
    (if text_eq k writer_key
      then (create v >>= λ made. gave (child_call calls made))
      else (if has_dot k then gave calls else handle_value f logger_class k v calls))
    >>= handle_logger_entries f create rest

unfoldable pub process_logger :
    Factories → (Text → Attempt Configurable) → Properties → Text → Attempt Configurable
unfolding handle_logger_entries handle_value finish_configurable
process_logger f create props name =
    handle_value f logger_class (codes "name") name no_calls >>= λ calls.
    handle_logger_entries f create
      (get_subset (codes "chucho.logger." ++ (name ++ (b'.' ∷ []))) props) calls
    >>= finish_configurable f logger_class

unfoldable pub caught : Attempt Configurable → Attempt (Option Configurable)
caught threw = gave none
caught unfinished = unfinished
caught undefined = undefined
caught (gave made) = gave (some made)

unfoldable pub process_loggers :
    Factories
    → (Text → Attempt Configurable)
    → Properties
    → List Text
    → Attempt (List (Option Configurable))
unfolding process_logger caught
process_loggers f create props [] = gave []
process_loggers f create props (name ∷ names) =
    caught (process_logger f create props name) >>= λ made.
    process_loggers f create props names >>= λ others. gave (made ∷ others)

unfoldable pub process : Factories → ℕ → Properties → Attempt (List (Option Configurable))
unfolding process_loggers create_writer
process f fuel props =
    process_loggers f (create_writer f (get_subset (codes "chucho.") props) fuel) props
      (get (codes "chucho.logger") props)
