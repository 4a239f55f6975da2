-- ===== src/AsyncWriter/Kept.antt =====
-- What the operations of an async_writer keep.
use chucho.Base.{
  ℕ, ◌+◌, ◌^◌, ◌<◌, ◌≡◌, ◌≢◌, refl, sym, ap, subst, ◌∙◌, Bool, true, false, not, ◌&&◌, Bool-cases,
  inl, inr, List, [], tail, ◌∷◌, ◌++◌, append_assoc, Option, none, some, Text, arith, length,
  length-append, ltb,
}
use chucho.Level.{Level}
use chucho.Event.{Event}
use chucho.EventCache.Format.{serialized_size}
use chucho.EventCache.Queue.{Cache, new_cache, timed_out, popped, pop}
use chucho.EventCache.Queue.Held.{
  restored, Pushable, Holds, Holds-new, Holds-push, Holds-current, Holds-pop, Holds-pop_empty,
}
use chucho.AsyncWriter.{
  Worker, running, exited, crashed, AsyncWriter, cache_limit, new_async_writer, write_impl,
  request_stop, handled, work,
}

-- The events that are logged, each with its thread
abbrev pub Logged : Type 0
Logged = List (Text × Event)

abbrev pub restored_all : Logged → List Event
restored_all [] = []
restored_all ((t, e) ∷ l) = restored t e ∷ restored_all l

restored_all-append :
    (l : Logged) (t : Text) (e : Event)
    → restored_all (l ++ (t, e) ∷ []) ≡ restored_all l ++ restored t e ∷ []
restored_all-append [] t e = refl
restored_all-append ((u, d) ∷ l) t e = ap (◌∷◌ (restored u d)) (restored_all-append l t e)

-- What holds in every state: what is written, what the worker has dropped, and what the cache holds
-- are what was logged; the worker has not crashed, and drops an event only if it leaves its loop
-- without flushing.
pub record Kept (levels : List Level) (n m : ℕ) (flush : Bool) (l : Logged) (w : AsyncWriter)
    : Type 0 where
  pub same_flush : w.flush_on_destruct ≡ flush
  pub sound : w.worker ≢ crashed
  pub dropped : List Event
  pub held : List Event
  pub complete : w.worker ≡ running → dropped ≡ []
  pub flushed : flush ≡ true → dropped ≡ []
  pub sizes : List ℕ
  pub holds : Holds levels n m sizes (length l) w.cache held
  pub all : w.written ++ (dropped ++ held) ≡ restored_all l

pub new_async_writer-Cache :
    (n k : ℕ) (flush : Bool) (first : AsyncWriter)
    → new_async_writer n k flush ≡ some first
    → (c : Cache) × (new_cache n (cache_limit n k) ≡ some c)
      × (first ≡ record {
        cache = c;
        stop = false;
        flush_on_destruct = flush;
        worker = running;
        written = [];
      })
unfolding new_async_writer
new_async_writer-Cache n k flush first e = by_cache (new_cache n (cache_limit n k)) refl
  where
    by_cache :
        (r : Option Cache)
        → new_cache n (cache_limit n k) ≡ r
        → (c : Cache) × (new_cache n (cache_limit n k) ≡ some c)
          × (first ≡ record {
            cache = c;
            stop = false;
            flush_on_destruct = flush;
            worker = running;
            written = [];
          })
    by_cache none h = cc (rw (new_async_writer, h) at e)
    by_cache (some c) h = elim (Bool-cases (ltb k 2)) [
      | inl few ↦ cc (rw (new_async_writer, h, few) at e)
      | inr many ↦ (c, h, cc (rw (new_async_writer, h, many) at e))
    ]

module _ (levels : List Level) (n m : ℕ) (flush : Bool) where
  pub write_impl-Kept :
      (l : Logged) (w : AsyncWriter) (thread : Text) (evt : Event)
      → Kept levels n m flush l w
      → Pushable levels n thread evt
      → w.cache.stats.current_size + serialized_size thread evt < w.cache.max_size
      → length l + 1 < 2 ^ 32
      → (w' : AsyncWriter) × (write_impl thread evt w ≡ some w')
        × Kept levels n m flush (l ++ (thread, evt) ∷ []) w'
  unfolding write_impl
  write_impl-Kept l w thread evt k p size few =
      let (current, limit) = Holds-current levels n m k.sizes (length l) w.cache k.held k.holds in
      let (c', done, h) =
        Holds-push levels n m k.sizes (length l) w.cache k.held thread evt k.holds p (omega arith)
          few in
      (
        record w { cache = c' },
        rw (write_impl, done) refl,
        record {
          same_flush = k.same_flush;
          sound = k.sound;
          dropped = k.dropped;
          held = k.held ++ restored thread evt ∷ [];
          complete = k.complete;
          flushed = k.flushed;
          sizes = k.sizes ++ serialized_size thread evt ∷ [];
          holds = rw (length-append l ((thread, evt) ∷ [])) h;
          all = rw (restored_all-append l thread evt, sym k.all) (simp append_assoc);
        },
      )

  -- A round that finds nothing in the cache
  timed_out-Kept :
      (l : Logged) (w : AsyncWriter)
      → Kept levels n m flush l w
      → w.worker ≡ running
      → Kept levels n m flush l (handled (timed_out, w.cache) w)
  unfolding handled
  timed_out-Kept l w k r = elim (Bool-cases w.stop) [
    | inl e ↦ rw e (record {
      same_flush = k.same_flush;
      sound = λ c. cc;
      dropped = [];
      held = k.held;
      complete = λ c. refl;
      flushed = λ c. refl;
      sizes = k.sizes;
      holds = k.holds;
      all = ap (λ d. w.written ++ (d ++ k.held)) (sym (k.complete r)) ∙ k.all;
    })
    | inr e ↦ rw e (record {
      same_flush = k.same_flush;
      sound = k.sound;
      dropped = k.dropped;
      held = k.held;
      complete = k.complete;
      flushed = k.flushed;
      sizes = k.sizes;
      holds = k.holds;
      all = k.all;
    })
  ]

  -- A round that finds an event
  popped-Kept :
      (l : Logged) (w : AsyncWriter) (e : Event) (es : List Event) (c : Cache)
      → Kept levels n m flush l w
      → w.worker ≡ running
      → w.written ++ (e ∷ es) ≡ restored_all l
      → (sizes : List ℕ) → Holds levels n m sizes (length l) c es
      → Kept levels n m flush l (handled (popped e, c) w)
  unfolding handled
  popped-Kept l w e es c k r q sizes h = elim (Bool-cases (w.stop && not w.flush_on_destruct)) [
    | inl d ↦ rw d (record {
      same_flush = k.same_flush;
      sound = λ c. cc;
      dropped = e ∷ [];
      held = es;
      complete = λ c. cc;
      flushed = λ f. ground (arith, k.same_flush);
      sizes = sizes;
      holds = h;
      all = q;
    })
    | inr d ↦ rw d (record {
      same_flush = k.same_flush;
      sound = k.sound;
      dropped = [];
      held = es;
      complete = λ c. refl;
      flushed = λ c. refl;
      sizes = sizes;
      holds = h;
      all = append_assoc w.written (e ∷ []) es ∙ q;
    })
  ]

  handled-Kept :
      (l : Logged) (w : AsyncWriter) (k : Kept levels n m flush l w) (es : List Event)
      → k.held ≡ es
      → w.worker ≡ running
      → Kept levels n m flush l (handled (pop levels w.cache) w)
  handled-Kept l w k [] e r =
      let h = subst (Holds levels n m k.sizes (length l) w.cache) e k.holds in
      subst (λ p. Kept levels n m flush l (handled p w))
        (sym (Holds-pop_empty levels n m k.sizes (length l) w.cache h).0) (timed_out-Kept l w k r)
  handled-Kept l w k (x ∷ es) e r =
      let h = subst (Holds levels n m k.sizes (length l) w.cache) e k.holds in
      let (c, done, left) = Holds-pop levels n m k.sizes (length l) w.cache x es h in
      let nothing : k.dropped ++ k.held ≡ x ∷ es = rw (k.complete r) e in
      subst (λ p. Kept levels n m flush l (handled p w)) (sym done)
        (popped-Kept l w x es c k r (ap (◌++◌ w.written) (sym nothing) ∙ k.all) (tail k.sizes) left)

  pub work-Kept :
      (l : Logged) (w : AsyncWriter)
      → Kept levels n m flush l w
      → Kept levels n m flush l (work levels w)
  unfolding work
  work-Kept l w k = by_worker w.worker refl
    where
      by_worker : (s : Worker) → w.worker ≡ s → Kept levels n m flush l (work levels w)
      by_worker running e = rw (work, e) (handled-Kept l w k k.held refl e)
      by_worker exited e = rw (work, e) k
      by_worker crashed e = rw (work, e) k

  pub new_async_writer-Kept :
      (c : Cache)
      → new_cache n m ≡ some c
      → (first : AsyncWriter)
      → first ≡ record {
        cache = c;
        stop = false;
        flush_on_destruct = flush;
        worker = running;
        written = [];
      }
      → Kept levels n m flush [] first
  new_async_writer-Kept c e first q = subst (Kept levels n m flush []) (sym q) (record {
    same_flush = refl;
    sound = λ d. cc;
    dropped = [];
    held = [];
    complete = λ d. refl;
    flushed = λ d. refl;
    sizes = [];
    holds = Holds-new levels n m c e;
    all = refl;
  })

  pub request_stop-Kept :
      (l : Logged) (w : AsyncWriter)
      → Kept levels n m flush l w
      → Kept levels n m flush l (request_stop w)
  unfolding request_stop
  request_stop-Kept l w k = record {
    same_flush = k.same_flush;
    sound = k.sound;
    dropped = k.dropped;
    held = k.held;
    complete = k.complete;
    flushed = k.flushed;
    sizes = k.sizes;
    holds = k.holds;
    all = k.all;
  }
