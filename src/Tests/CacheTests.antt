-- ===== src/Tests/CacheTests.antt =====
-- The queue of event_cache.cpp, and async_writer.cpp.
use chucho.Base.{
  ap, ◌≡◌, ◌≢◌, refl, ◌≤◌, Bool, true, false, List, [], Option, ◌∷◌, ◌++◌, some, none, Text, codes,
  arith, text_eq,
}
use chucho.Level.{Level, from_text, trace_level, warn_level, error_level, ge_level, le_level}
use chucho.TextUtil.{to_lower}
use chucho.Event.{Event, marker, nil, cons, marker_text}
use chucho.EventCache.Format.{bytes_int, int_bytes, text_bytes, serialize, serialized_size}
use chucho.EventCache.Queue.{
  copied_to, push_memory, Cache, new_cache, fresh_cache, push, pop, timed_out, push_file,
  start_file, create_file, remove_file, append_file, write_bytes, placed_bytes, counted,
}
use chucho.EventCache.Queue.View.{empty, View, contents, Shows}
use chucho.EventCache.Queue.Fifo.{Pushed, push-Pushed}
use chucho.EventCache.Queue.Held.{Pushable}
use chucho.EventCache.Queue.Run.{Call, push_call, pop_call, run, queue_run, run-queue_run}
use chucho.Writer.{deny, accept}
use chucho.CacheAndRelease.{CacheAndRelease, evaluate_each}
use chucho.CacheAndRelease.Release.{restored_each, evaluate_each-releases}
use chucho.AsyncWriter.{
  AsyncWriter, running, crashed, new_async_writer, write_impl, request_stop, work,
}
use chucho.AsyncWriter.Kept.{Logged, restored_all}
use chucho.AsyncWriter.Order.{Reach, Uncrowded, start, logs, works, Reach-prefix}

abbrev started : Event
started = record {
  logger = codes "app.net";
  level = warn_level;
  message = codes "up";
  time = 300;
  file_name = codes "a.cpp";
  line_number = 12;
  function_name = codes "main";
  event_marker = some (marker (codes "m") (cons (marker (codes "k") nil) nil));
  thread_id = none;
}

abbrev stopped : Event
stopped = record started { message = codes "down"; event_marker = none }

abbrev two_levels : List Level
two_levels = trace_level ∷ warn_level ∷ []

from_text_warn : from_text (codes "WARN") two_levels ≡ some warn_level
unfolding from_text to_lower text_eq
from_text_warn = refl

-- More than the limit of 200 bytes in all, never as much at once
abbrev calls : List Call
calls =
    push_call (codes "7") started
    ∷ push_call (codes "8") stopped
    ∷ pop_call
    ∷ push_call (codes "7") started
    ∷ pop_call
    ∷ push_call (codes "7") started
    ∷ pop_call
    ∷ pop_call
    ∷ pop_call
    ∷ []

started-Pushable : Pushable two_levels 64 (codes "7") started
unfolding serialized_size marker_text
started-Pushable = record {
  fits = record {
    size = omega arith;
    logger = omega arith;
    level = omega arith;
    time = omega arith;
    file_name = omega arith;
    line_number = omega arith;
    function_name = omega arith;
    event_marker = omega arith;
    thread_id = omega arith;
  };
  known = from_text_warn;
  bounded = omega arith;
}

stopped-Pushable : Pushable two_levels 64 (codes "8") stopped
unfolding serialized_size marker_text
stopped-Pushable = record {
  fits = record {
    size = omega arith;
    logger = omega arith;
    level = omega arith;
    time = omega arith;
    file_name = omega arith;
    line_number = omega arith;
    function_name = omega arith;
    event_marker = omega arith;
    thread_id = omega arith;
  };
  known = from_text_warn;
  bounded = omega arith;
}

new_cache_200 : new_cache 64 200 ≡ some (fresh_cache 64 200)
unfolding new_cache
new_cache_200 = refl

run-queue_run_example : run two_levels calls (fresh_cache 64 200) ≡ some (queue_run calls [])
unfolding serialized_size marker_text
run-queue_run_example =
    run-queue_run two_levels 64 200 (fresh_cache 64 200) calls new_cache_200
      (started-Pushable, (stopped-Pushable, (started-Pushable, (started-Pushable, tt))))
      (omega arith, (omega arith, (omega arith, (omega arith, tt)))) (omega arith)

-- A cache with a full chunk of one block of six bytes
abbrev first_block : Text
first_block = 6 ∷ 0 ∷ 0 ∷ 0 ∷ 1 ∷ 2 ∷ []

abbrev second_block : Text
second_block = 6 ∷ 0 ∷ 0 ∷ 0 ∷ 3 ∷ 4 ∷ []

abbrev full_chunk : Cache
full_chunk = record (fresh_cache 6 12) {
  mem_chunk = first_block;
  write_pos = some 6;
  mem_chunk_occupied = 6;
  stats = record (fresh_cache 6 12).stats { current_size = 6 };
}

abbrev full_view : View
full_view = record { dead = []; mem = first_block ∷ []; free = 0; first = 0; backlog = empty }

full_chunk-Shows : Shows full_chunk full_view
unfolding bytes_int
full_chunk-Shows = record {
  chunk = refl;
  size = refl;
  read = refl;
  occupied = refl;
  blocks = (record { header = refl; large = omega arith; fits = omega arith }, tt);
  disk = refl;
  writes = (refl, refl);
  current = refl;
  larger = omega arith;
}

push-Pushed_example :
    (c' : Cache) × (push second_block full_chunk ≡ some c')
    × (v' : View) × Shows c' v'
    × (c'.chunk_size ≡ 6)
    × (c'.max_size ≡ 12)
    × (c'.current_sequence ≤ 1)
    × Pushed 6 12 (first_block ∷ []) second_block (contents v')
unfolding bytes_int
push-Pushed_example =
    push-Pushed full_chunk full_view second_block full_chunk-Shows
      (record { header = refl; large = omega arith; fits = omega arith }) (omega arith)

-- Two events are logged, and the writer is destroyed when one of them has been written.
abbrev new_state : AsyncWriter
new_state = record {
  cache = fresh_cache 64 192;
  stop = false;
  flush_on_destruct = true;
  worker = running;
  written = [];
}

new_state_made : new_async_writer 64 3 true ≡ some new_state
unfolding new_async_writer new_cache
new_state_made = refl

abbrev logged : Logged
logged = (codes "7", started) ∷ (codes "8", stopped) ∷ []

abbrev or_else : Option Cache → Cache → Cache
or_else none c = c
or_else (some d) c = d

abbrev succeeds : Option Cache → Bool
succeeds none = false
succeeds (some d) = true

some-or_else : (r : Option Cache) (c : Cache) → succeeds r ≡ true → r ≡ some (or_else r c)
some-or_else none c e = cc
some-or_else (some d) c e = refl

abbrev pushed : Text → Event → AsyncWriter → AsyncWriter
pushed thread evt w = record w { cache = or_else (push (serialize thread evt) w.cache) w.cache }

write_impl-pushed :
    (thread : Text) (evt : Event) (w : AsyncWriter)
    → succeeds (push (serialize thread evt) w.cache) ≡ true
    → write_impl thread evt w ≡ some (pushed thread evt w)
unfolding write_impl
write_impl-pushed thread evt w e =
    ap (λ r. elim r [ none ↦ none | some c ↦ some (record w { cache = c }) ])
      (some-or_else (push (serialize thread evt) w.cache) w.cache e)

abbrev one : AsyncWriter
one = pushed (codes "7") started new_state

abbrev two : AsyncWriter
two = pushed (codes "8") stopped one

abbrev last_state : AsyncWriter
last_state = request_stop two

abbrev half_written : AsyncWriter
half_written = work two_levels two

one_succeeds : succeeds (push (serialize (codes "7") started) new_state.cache) ≡ true
unfolding push placed_bytes push_memory push_file copied_to start_file create_file remove_file
    append_file write_bytes counted serialize serialized_size int_bytes text_bytes marker_text
one_succeeds = refl

two_succeeds : succeeds (push (serialize (codes "8") stopped) one.cache) ≡ true
unfolding push placed_bytes push_memory push_file copied_to start_file create_file remove_file
    append_file write_bytes counted serialize serialized_size int_bytes text_bytes marker_text
two_succeeds = refl

abbrev two_reached : Reach two_levels new_state logged two
two_reached =
    logs (codes "8") stopped two
      (logs (codes "7") started one start
        (write_impl-pushed (codes "7") started new_state one_succeeds))
      (write_impl-pushed (codes "8") stopped one two_succeeds)

one_size : one.cache.stats.current_size ≡ 62
unfolding push placed_bytes push_memory push_file copied_to start_file create_file remove_file
    append_file write_bytes counted serialize serialized_size int_bytes text_bytes marker_text
one_size = refl

one_limit : one.cache.max_size ≡ 192
unfolding push placed_bytes push_memory push_file copied_to start_file create_file remove_file
    append_file write_bytes counted serialize serialized_size int_bytes text_bytes marker_text
one_limit = refl

two_reached-Uncrowded : Uncrowded 64 two_reached
unfolding serialized_size marker_text
two_reached-Uncrowded =
    ((tt, started-Pushable, omega arith), stopped-Pushable, omega (arith, one_size, one_limit))

Reach-prefix_example :
    (rest : List Event) × (half_written.written ++ rest ≡ restored_all logged)
    × (half_written.worker ≢ crashed)
unfolding serialized_size marker_text
Reach-prefix_example =
    Reach-prefix two_levels 64 3 true new_state half_written logged new_state_made
      (works two_reached) two_reached-Uncrowded (omega arith)

-- Two warnings are cached, and an error releases them.
abbrev broken : Event
broken = record started { level = error_level }

abbrev cache_filter : CacheAndRelease
cache_filter = record {
  cache_threshold = warn_level;
  release_threshold = error_level;
  has_writer = true;
  cache = fresh_cache 64 200;
  written = [];
}

evaluate_each-releases_example :
    (c : Cache) × (evaluate_each 3 two_levels (logged ++ (codes "7", broken) ∷ []) cache_filter
      ≡ some (
        deny ∷ deny ∷ accept ∷ [],
        record cache_filter { cache = c; written = restored_each logged },
      ))
    × (pop two_levels c ≡ (timed_out, c))
unfolding ge_level le_level serialized_size marker_text
evaluate_each-releases_example =
    evaluate_each-releases two_levels 64 200 3 logged (codes "7") broken cache_filter new_cache_200
      ((started-Pushable, refl, refl), ((stopped-Pushable, refl, refl), tt)) (omega arith)
      (omega arith) (omega arith) refl refl
