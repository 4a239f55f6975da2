-- ===== src/CacheAndRelease/Release.antt =====
-- What a cache_and_release_filter writes.
use chucho.Base.{
  ℕ, zero, suc, ◌+◌, ◌^◌, ◌<◌, ◌≡◌, refl, sym, ap, ◌∙◌, true, false, List, [], ◌∷◌, ◌++◌, map,
  append-nil, append_assoc, tail, Option, none, some, Text, arith, length, length-append,
}
use chucho.Level.{Level, ge_level, le_level}
use chucho.Event.{Event}
use chucho.EventCache.Format.{serialize, serialized_size}
use chucho.EventCache.Queue.{
  Cache, new_cache, push, Popped, timed_out, thrown, overrun, popped, pop,
}
use chucho.EventCache.Queue.Held.{
  sum, restored, Pushable, Holds, Holds-new, Holds-push, Holds-pop, Holds-pop_empty,
}
use chucho.Writer.{deny, accept}
use chucho.CacheAndRelease.{CacheAndRelease, release, cache_evaluate, evaluate_each}

abbrev pub restored_each : List (Text × Event) → List Event
restored_each [] = []
restored_each ((t, e) ∷ l) = restored t e ∷ restored_each l

-- The events are for the cache: they can be pushed, and are of low levels.
abbrev pub AllCached : List Level → ℕ → Level → Level → List (Text × Event) → Type 0
AllCached levels n cached released [] = Unit
AllCached levels n cached released ((t, e) ∷ l) =
    (Pushable levels n t e × (ge_level e.level released ≡ false) × (le_level e.level cached ≡ true))
    × AllCached levels n cached released l

abbrev pub cached_bytes : List (Text × Event) → ℕ
cached_bytes [] = 0
cached_bytes ((t, e) ∷ l) = serialized_size t e + cached_bytes l

sum_append : (ns : List ℕ) (k : ℕ) → sum (ns ++ k ∷ []) ≡ sum ns + k
sum_append [] k = omega arith
sum_append (n ∷ ns) k = omega (arith, sum_append ns k)

-- What the loop leaves: everything is written, and the cache is empty.
record Emptied (levels : List Level) (f : CacheAndRelease) (es : List Event)
    (r : Option CacheAndRelease) : Type 0 where
  cache : Cache
  done : r ≡ some (record f { cache = cache; written = f.written ++ es })
  nothing : pop levels cache ≡ (timed_out, cache)

-- A round of the loop, by what pop gives
abbrev round : ℕ → List Level → CacheAndRelease → Popped × Cache → Option CacheAndRelease
round fuel levels f p = elim p.0 [
  | timed_out ↦ some (record f { cache = p.1 })
  | thrown ↦ none
  | overrun ↦ none
  | popped evt ↦ release fuel levels (record f { cache = p.1; written = f.written ++ evt ∷ [] })
]

module _ (levels : List Level) (n m pushes : ℕ) where
  release-Emptied :
      (fuel : ℕ) (sizes : List ℕ) (f : CacheAndRelease) (es : List Event)
      → Holds levels n m sizes pushes f.cache es
      → length es < fuel
      → Emptied levels f es (release fuel levels f)
  unfolding release
  release-Emptied zero sizes f es h few = absurd (omega arith)
  release-Emptied (suc fuel) sizes f [] h few =
      let e = (Holds-pop_empty levels n m sizes pushes f.cache h).0 in
      record {
        cache = f.cache;
        done =
            ap (round fuel levels f) e
            ∙ ap (λ w. some (record f { written = w })) (sym (append-nil f.written));
        nothing = e;
      }
  release-Emptied (suc fuel) sizes f (x ∷ es) h few =
      let (c, e, left) = Holds-pop levels n m sizes pushes f.cache x es h in
      let g = record f { cache = c; written = f.written ++ x ∷ [] } in
      let r = release-Emptied fuel (tail sizes) g es left (omega arith) in
      record {
        cache = r.cache;
        done =
            ap (round fuel levels f) e
            ∙ (r.done
                ∙ ap (λ w. some (record f { cache = r.cache; written = w }))
                    (append_assoc f.written (x ∷ []) es));
        nothing = r.nothing;
      }

module _ (fuel : ℕ) (levels : List Level) (thread : Text) (evt : Event) (f : CacheAndRelease) where
  cache_evaluate_released :
      (g : CacheAndRelease)
      → f.has_writer ≡ true
      → ge_level evt.level f.release_threshold ≡ true
      → release fuel levels f ≡ some g
      → cache_evaluate fuel levels thread evt f ≡ some (accept, g)
  unfolding cache_evaluate
  cache_evaluate_released g writes high done = simp (cache_evaluate, high, writes, done)

  cache_evaluate_cached :
      (c : Cache)
      → ge_level evt.level f.release_threshold ≡ false
      → le_level evt.level f.cache_threshold ≡ true
      → push (serialize thread evt) f.cache ≡ some c
      → cache_evaluate fuel levels thread evt f ≡ some (deny, record f { cache = c })
  unfolding cache_evaluate
  cache_evaluate_cached c low cached done = simp (cache_evaluate, low, cached, done)

-- The events that are cached, and then one that releases them
module _ (levels : List Level) (n m fuel : ℕ) (thread : Text) (evt : Event) where
  evaluate_each-Emptied :
      (l : List (Text × Event)) (sizes : List ℕ) (pushes : ℕ) (f : CacheAndRelease)
      (es : List Event)
      → Holds levels n m sizes pushes f.cache es
      → AllCached levels n f.cache_threshold f.release_threshold l
      → sum sizes + cached_bytes l < m
      → pushes + length l < 2 ^ 32
      → length es + length l < fuel
      → f.has_writer ≡ true
      → ge_level evt.level f.release_threshold ≡ true
      → (c : Cache) × (evaluate_each fuel levels (l ++ (thread, evt) ∷ []) f
          ≡ some (
            map (λ r. deny) l ++ accept ∷ [],
            record f { cache = c; written = f.written ++ (es ++ restored_each l) },
          ))
        × (pop levels c ≡ (timed_out, c))
  unfolding evaluate_each
  evaluate_each-Emptied [] sizes pushes f es h cached size few enough writes high =
      let r = release-Emptied levels n m pushes fuel sizes f es h (omega arith) in
      let e = cache_evaluate_released fuel levels thread evt f _ writes high r.done in
      (r.cache, rw (evaluate_each, e, append-nil es) refl, r.nothing)
  evaluate_each-Emptied ((t, x) ∷ l) sizes pushes f es h ((p, low, cached), rest) size few enough
        writes high =
      let (c, done, held) =
        Holds-push levels n m sizes pushes f.cache es t x h p (omega arith) (omega arith) in
      let e = cache_evaluate_cached fuel levels t x f c low cached done in
      let (c', all, nothing) =
        evaluate_each-Emptied l (sizes ++ serialized_size t x ∷ []) (pushes + 1)
          (record f { cache = c }) (es ++ restored t x ∷ []) held rest
          (omega (arith, sum_append sizes (serialized_size t x))) (omega arith)
          (omega (arith, length-append es (restored t x ∷ []))) writes high in
      (
        c',
        rw (evaluate_each, e, all, append_assoc es (restored t x ∷ []) (restored_each l)) refl,
        nothing,
      )

-- A cache_and_release_filter with a writer denies the events that it caches, and an event that
-- reaches the release threshold is accepted: by then the writer has been given all the events that
-- were cached, in their order, as they come out of the cache, and the cache is empty. The loop ends
-- within a round more than the events. The cached events are below the release threshold and reach no
-- higher than the cache threshold; each fits its fields and a chunk and has a registered level; together
-- they are below the cache's limit, and fewer than 2^32.
pub evaluate_each-releases :
    (levels : List Level) (n m fuel : ℕ) (l : List (Text × Event)) (thread : Text) (evt : Event)
    (f : CacheAndRelease)
    → new_cache n m ≡ some f.cache
    → AllCached levels n f.cache_threshold f.release_threshold l
    → cached_bytes l < m
    → length l < 2 ^ 32
    → length l < fuel
    → f.has_writer ≡ true
    → ge_level evt.level f.release_threshold ≡ true
    → (c : Cache) × (evaluate_each fuel levels (l ++ (thread, evt) ∷ []) f
        ≡ some (
          map (λ r. deny) l ++ accept ∷ [],
          record f { cache = c; written = f.written ++ restored_each l },
        ))
      × (pop levels c ≡ (timed_out, c))
evaluate_each-releases levels n m fuel l thread evt f new cached size few enough writes high =
    evaluate_each-Emptied levels n m fuel thread evt l [] 0 f [] (Holds-new levels n m f.cache new)
      cached (omega arith) (omega arith) (omega arith) writes high
