-- ===== src/AsyncWriter/Order.antt =====
-- What an async_writer has written, whatever the order of the threads' steps.
use chucho.Base.{
  ℕ, ◌+◌, ◌^◌, ◌<◌, ◌≡◌, ◌≢◌, sym, subst, ◌∙◌, Bool, List, [], ◌∷◌, ◌++◌, some, Text, arith, length,
  length-append,
}
use chucho.Level.{Level}
use chucho.Event.{Event}
use chucho.EventCache.Format.{serialized_size}
use chucho.EventCache.Queue.Held.{Pushable}
use chucho.AsyncWriter.{
  crashed, AsyncWriter, cache_limit, new_async_writer, write_impl, request_stop, work,
}
use chucho.AsyncWriter.Kept.{
  Logged, restored_all, Kept, new_async_writer-Cache, write_impl-Kept, work-Kept,
  new_async_writer-Kept, request_stop-Kept,
}

-- The states that the threads' steps reach from a first state, with what has been logged.
pub data Reach (levels : List Level) (first : AsyncWriter) : Logged → AsyncWriter → Type 0 where
  start : Reach levels first [] first
  logs :
      {l : Logged} {w : AsyncWriter} (thread : Text) (evt : Event) (w' : AsyncWriter)
      → Reach levels first l w
      → write_impl thread evt w ≡ some w'
      → Reach levels first (l ++ (thread, evt) ∷ []) w'
  works :
      {l : Logged} {w : AsyncWriter} → Reach levels first l w → Reach levels first l (work levels w)
  stops :
      {l : Logged} {w : AsyncWriter}
      → Reach levels first l w
      → Reach levels first l (request_stop w)

-- On the way, each event that was logged fits its fields and a chunk and has a registered level, and
-- the cache stayed below its limit.
abbrev pub Uncrowded :
    {levels : List Level} {first : AsyncWriter} {l : Logged} {w : AsyncWriter}
    → ℕ
    → Reach levels first l w
    → Type 0
Uncrowded n start = Unit
Uncrowded {levels} n (logs {w = w} thread evt w' r done) =
    Uncrowded n r
    × Pushable levels n thread evt
    × (w.cache.stats.current_size + serialized_size thread evt < w.cache.max_size)
Uncrowded n (works r) = Uncrowded n r
Uncrowded n (stops r) = Uncrowded n r

module _ (levels : List Level) (n m : ℕ) (flush : Bool) where
  Reach-Kept :
      (first w : AsyncWriter) (l : Logged)
      → Kept levels n m flush [] first
      → (r : Reach levels first l w) → Uncrowded n r
      → length l < 2 ^ 32
      → Kept levels n m flush l w
  Reach-Kept first _ _ k start ok few = k
  Reach-Kept first _ _ k (works {l} {w = v} r) ok few =
      work-Kept levels n m flush l v (Reach-Kept first v l k r ok few)
  Reach-Kept first _ _ k (stops {l} {w = v} r) ok few =
      request_stop-Kept levels n m flush l v (Reach-Kept first v l k r ok few)
  Reach-Kept first _ _ k (logs {l} {w = v} thread evt w r done) ok few =
      let (before_ok, p, room) = ok in
      let count = length-append l ((thread, evt) ∷ []) in
      let before = Reach-Kept first v l k r before_ok (omega (arith, count)) in
      let (w', done', after) =
        write_impl-Kept levels n m flush l v thread evt before p room (omega (arith, count)) in
      subst (Kept levels n m flush (l ++ (thread, evt) ∷ [])) (from_some w w' (sym done ∙ done'))
        after
    where
      from_some : (a b : AsyncWriter) → some a ≡ some b → b ≡ a
      from_some a b e = cc

pub reached-Kept :
    (levels : List Level) (chunk_size max_chunks : ℕ) (flush : Bool) (first w : AsyncWriter)
    (l : Logged)
    → new_async_writer chunk_size max_chunks flush ≡ some first
    → (r : Reach levels first l w) → Uncrowded chunk_size r
    → length l < 2 ^ 32
    → Kept levels chunk_size (cache_limit chunk_size max_chunks) flush l w
reached-Kept levels chunk_size max_chunks flush first w l made r ok few =
    let (c, new, same) = new_async_writer-Cache chunk_size max_chunks flush first made in
    Reach-Kept levels chunk_size (cache_limit chunk_size max_chunks) flush first w l
      (new_async_writer-Kept levels chunk_size (cache_limit chunk_size max_chunks) flush c new first
        same)
      r ok few

-- The events that an async_writer has written in any state are the first ones that were logged, in
-- their order, as they come out of the cache; nothing is written twice or left out in between, and
-- the worker does not end by an exception. The steps of the threads follow each other in any order.
-- Each event that is logged fits its fields and a chunk and has a registered level, the cache stays
-- below its limit, and fewer than 2^32 events are logged.
pub Reach-prefix :
    (levels : List Level) (chunk_size max_chunks : ℕ) (flush : Bool) (first w : AsyncWriter)
    (l : Logged)
    → new_async_writer chunk_size max_chunks flush ≡ some first
    → (r : Reach levels first l w) → Uncrowded chunk_size r
    → length l < 2 ^ 32
    → (rest : List Event) × (w.written ++ rest ≡ restored_all l) × (w.worker ≢ crashed)
Reach-prefix levels chunk_size max_chunks flush first w l made r ok few =
    let k = reached-Kept levels chunk_size max_chunks flush first w l made r ok few in
    (k.dropped ++ k.held, k.all, k.sound)
