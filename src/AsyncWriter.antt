-- ===== src/AsyncWriter.antt =====
-- async_writer.hpp and async_writer.cpp: events are pushed to a cache by any thread, and a worker
-- thread pops them and writes them to the writer behind. A state is the cache, the flags, and the
-- events that the writer behind has been given. What the threads do between two states is one
-- operation: a push and a pop hold the cache's mutex, and stop_ is read by the worker alone.
pub mod Kept
pub mod Order
pub mod Drain
use chucho.Base.{
  ℕ, zero, suc, ◌*◌, ◌%◌, ◌^◌, Bool, true, false, not, ◌&&◌, List, [], ◌∷◌, ◌++◌, Option, none,
  some, Text, if◌then◌else◌, ltb,
}
use chucho.Level.{Level}
use chucho.Event.{Event}
use chucho.EventCache.Format.{serialize}
use chucho.EventCache.Queue.{
  Cache, new_cache, push, Popped, timed_out, thrown, overrun, popped, pop,
}

-- The worker: in its loop, behind it, or ended by an exception.
pub data Worker : Type 0 where
  running exited crashed : Worker

pub record AsyncWriter : Type 0 where
  pub cache : Cache
  pub stop : Bool
  pub flush_on_destruct : Bool
  pub worker : Worker
  pub written : List Event

-- The cache's limit, a std::size_t
abbrev pub cache_limit : ℕ → ℕ → ℕ
cache_limit chunk_size max_chunks = max_chunks * chunk_size % 2 ^ 64

-- The constructor with a writer; `none` is its exception.
unfoldable pub new_async_writer : ℕ → ℕ → Bool → Option AsyncWriter
new_async_writer chunk_size max_chunks flush_on_destruct =
    elim (new_cache chunk_size (cache_limit chunk_size max_chunks)) [
      | none ↦ none
      | some c ↦
          if ltb max_chunks 2
          then none
          else (some (record {
            cache = c;
            stop = false;
            flush_on_destruct = flush_on_destruct;
            worker = running;
            written = [];
          }))
    ]

-- write_impl, by a thread of a name; `none` is an exception.
unfoldable pub write_impl : Text → Event → AsyncWriter → Option AsyncWriter
write_impl thread evt w = elim (push (serialize thread evt) w.cache) [
  | none ↦ none
  | some c ↦ some (record w { cache = c })
]

-- The destructor, before it joins the worker
unfoldable pub request_stop : AsyncWriter → AsyncWriter
request_stop w = record w { stop = true }

-- A round of the loop of thread_main, by what pop has returned
pub handled : Popped × Cache → AsyncWriter → AsyncWriter
handled (popped evt, c) w =
    if w.stop && not w.flush_on_destruct
    then record w { cache = c; worker = exited }
    else record w { cache = c; written = w.written ++ evt ∷ [] }
handled (timed_out, c) w =
    if w.stop then record w { cache = c; worker = exited } else record w { cache = c }
handled (thrown, c) w = record w { cache = c; worker = crashed }
handled (overrun, c) w = record w { cache = c; worker = crashed }

pub work : List Level → AsyncWriter → AsyncWriter
unfolding handled
work levels w = elim w.worker [
  | running ↦ handled (pop levels w.cache) w
  | exited ↦ w
  | crashed ↦ w
]

-- Rounds of the worker alone
pub work_all : ℕ → List Level → AsyncWriter → AsyncWriter
unfolding work
work_all zero levels w = w
work_all (suc n) levels w = work_all n levels (work levels w)
