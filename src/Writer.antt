-- ===== src/Writer.antt =====
-- writer.hpp and writer.cpp, filter.hpp, writeable_filter.hpp, level_filter.cpp,
-- level_threshold_filter.cpp and duplicate_message_filter.cpp: a writer with its filters.
-- A filter is its state. A duplicate_message_filter belongs to the writer it writes to, as the
-- configuration sets it up. The writer's formatter and the clock at an event are the parameter
-- `Host`; write_impl is what the derived class does with an event, here the list of its calls.
-- The mutex guard_ is held over `write`.
pub mod Filters
pub mod Duplicates
use chucho.Base.{
  ℕ, zero, suc, ◌+◌, Bool, true, false, not, ◌&&◌, List, [], ◌∷◌, ◌++◌, map, Option, none, some,
  Text, codes, text_eq, ltb, if◌then◌else◌,
}
use chucho.Level.{Level, ge_level, eq_level}
use chucho.TextUtil.Decimal.{decimal}
use chucho.Event.{Event}

-- filter::result
pub data Verdict : Type 0 where
  deny neutral accept : Verdict

pub data FilterState : Type 0 where
  level_filter : Level → Verdict → Verdict → FilterState
  level_threshold_filter : Level → FilterState
  duplicate_message_filter : ℕ → Text → FilterState

pub record Filter : Type 0 where
  pub name : Text
  pub state : FilterState

-- What evaluate leaves: the verdict, the filter's state, and the events that it writes.
pub record Evaluated : Type 0 where
  pub verdict : Verdict
  pub after : FilterState
  pub written : List Event

pub record Host : Type 0 where
  pub formatted : Event → Text
  pub now : Event → ℕ

-- The event that reports how often a message was repeated.
pub repeated : Host → ℕ → Event → Event
repeated host count evt = record evt {
  message = codes "The last message was logged " ++ (decimal count ++ codes " times in a row");
  time = host.now evt;
  thread_id = none;
}

pub duplicate_evaluate : Host → ℕ → Text → Event → Evaluated
unfolding repeated
duplicate_evaluate host count message evt =
    let fmsg = host.formatted evt in
    if ltb 0 count && text_eq fmsg message
    then record {
      verdict = deny;
      after = duplicate_message_filter (count + 1) message;
      written = [];
    }
    else (record {
      verdict = neutral;
      after = duplicate_message_filter 1 fmsg;
      written = if ltb 1 count then repeated host count evt ∷ [] else [];
    })

unfoldable pub evaluate : Host → FilterState → Event → Evaluated
unfolding duplicate_evaluate
evaluate host (level_filter level on_match on_mismatch) evt = record {
  verdict = if eq_level evt.level level then on_match else on_mismatch;
  after = level_filter level on_match on_mismatch;
  written = [];
}
evaluate host (level_threshold_filter level) evt = record {
  verdict = if ge_level evt.level level then neutral else deny;
  after = level_threshold_filter level;
  written = [];
}
evaluate host (duplicate_message_filter count message) evt =
    duplicate_evaluate host count message evt

-- permits, with the filters that it leaves and what they have written.
pub permits : Host → List Filter → Event → Bool × List Filter × List Event
unfolding evaluate
permits host [] evt = (true, [], [])
permits host (f ∷ fs) evt =
    let e = evaluate host f.state evt in
    let f1 = record f { state = e.after } in
    let rest = permits host fs evt in
    elim e.verdict [
      | deny ↦ (false, f1 ∷ fs, e.written)
      | accept ↦ (true, f1 ∷ fs, e.written)
      | neutral ↦ (rest.0, f1 ∷ rest.1, e.written ++ rest.2)
    ]

-- The writer; `output` is what write_impl was called with, the newest last.
pub record WriterState : Type 0 where
  pub filters : List Filter
  pub output : List Event

pub write : Host → Event → WriterState → WriterState
unfolding permits
write host evt w =
    let (permitted, filters, written) = permits host w.filters evt in
    record {
      filters = filters;
      output = w.output ++ (written ++ (if permitted then evt ∷ [] else []));
    }

pub write_all : Host → List Event → WriterState → WriterState
unfolding write
write_all host [] w = w
write_all host (evt ∷ evts) w = write_all host evts (write host evt w)

pub add_filter : Filter → WriterState → WriterState
add_filter f w = record w { filters = w.filters ++ f ∷ [] }

pub clear_filters : WriterState → WriterState
clear_filters w = record w { filters = [] }

-- std::find_if by the name; `none` is the exception of get_filter.
pub find_filter : Text → List Filter → Option Filter
find_filter name [] = none
find_filter name (f ∷ fs) = if text_eq f.name name then some f else find_filter name fs

pub get_filter : Text → WriterState → Option Filter
unfolding find_filter
get_filter name w = find_filter name w.filters

pub get_filter_names : WriterState → List Text
get_filter_names w = map (λ f. f.name) w.filters

pub other_filters : Text → List Filter → List Filter
other_filters name [] = []
other_filters name (f ∷ fs) =
    if text_eq f.name name then other_filters name fs else f ∷ other_filters name fs

pub remove_filter : Text → WriterState → WriterState
unfolding other_filters
remove_filter name w = record w { filters = other_filters name w.filters }
