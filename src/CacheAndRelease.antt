-- ===== src/CacheAndRelease.antt =====
-- cache_and_release_filter.cpp: a filter that keeps the events of low levels in a cache, and writes
-- them when an event of a high level comes. What the filter's writer is given (write_impl) is kept in
-- `written`; its exceptions are not modelled.
pub mod Release
use chucho.Base.{
  ℕ, zero, suc, Bool, true, false, List, [], ◌∷◌, ◌++◌, Option, none, some, Text, if◌then◌else◌,
}
use chucho.Level.{Level, ge_level, le_level}
use chucho.Event.{Event}
use chucho.EventCache.Format.{serialize}
use chucho.EventCache.Queue.{Cache, push, Popped, timed_out, thrown, overrun, popped, pop}
use chucho.Writer.{Verdict, deny, neutral, accept}

pub record CacheAndRelease : Type 0 where
  pub cache_threshold : Level
  pub release_threshold : Level
  pub has_writer : Bool
  pub cache : Cache
  pub written : List Event

-- The loop of evaluate; `none` is an exception, or fuel that has run out.
pub release : ℕ → List Level → CacheAndRelease → Option CacheAndRelease
release zero levels f = none
release (suc n) levels f =
    let (answer, c) = pop levels f.cache in
    elim answer [
      | timed_out ↦ some (record f { cache = c })
      | thrown ↦ none
      | overrun ↦ none
      | popped evt ↦ release n levels (record f { cache = c; written = f.written ++ evt ∷ [] })
    ]

-- evaluate, by a thread of a name
pub cache_evaluate :
    ℕ → List Level → Text → Event → CacheAndRelease → Option (Verdict × CacheAndRelease)
unfolding release
cache_evaluate fuel levels thread evt f =
    if ge_level evt.level f.release_threshold
    then (if f.has_writer
        then elim (release fuel levels f) [ none ↦ none | some g ↦ some (accept, g) ]
        else none)
    else if le_level evt.level f.cache_threshold
    then elim (push (serialize thread evt) f.cache) [
      | none ↦ none
      | some c ↦ some (deny, record f { cache = c })
    ]
    else some (neutral, f)

-- The verdicts on events that come one after the other
abbrev pub before :
    Verdict → Option (List Verdict × CacheAndRelease) → Option (List Verdict × CacheAndRelease)
before v none = none
before v (some (vs, f)) = some (v ∷ vs, f)

pub evaluate_each :
    ℕ → List Level → List (Text × Event) → CacheAndRelease → Option (List Verdict × CacheAndRelease)
unfolding cache_evaluate
evaluate_each fuel levels [] f = some ([], f)
evaluate_each fuel levels ((thread, evt) ∷ rest) f =
    elim (cache_evaluate fuel levels thread evt f) [
      | none ↦ none
      | some r ↦ before r.0 (evaluate_each fuel levels rest r.1)
    ]
