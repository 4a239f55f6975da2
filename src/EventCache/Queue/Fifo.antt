-- ===== src/EventCache/Queue/Fifo.antt =====
-- The cache is a bounded queue, first in, first out.
use chucho.Base.{
  ℕ, ◌+◌, ◌^◌, ◌≤◌, ◌<◌, ◌≡◌, refl, sym, ap, subst, ◌∙◌, inl, inr, List, [], ◌∷◌, ◌++◌, append-nil,
  append_assoc, some, Text, arith, length, leb, Bool-cases,
}
use chucho.EventCache.Queue.{Cache, cull, placed_bytes, counted, push}
use chucho.EventCache.Queue.View.{
  total, total-append, flatten, IsBlock, Backlog, empty, spilled, backlog_blocks, View, contents,
  Shows,
}
use chucho.EventCache.Queue.Push.{Grown, placed_bytes-Grown}
use chucho.EventCache.Queue.Cull.{Culled, cull-Culled}

-- What a queue of blocks becomes by a push: the block is the newest; where the sizes reach the
-- limit, some of the oldest blocks are gone, no more than a chunk of them, and never the new one.
pub data Pushed (chunk_size max_size : ℕ) (q : List Text) (b : Text) (r : List Text) : Type 0 where
  kept : total q + length b < max_size → r ≡ q ++ b ∷ [] → Pushed chunk_size max_size q b r
  culled :
      (old new : List Text)
      → max_size ≤ total q + length b
      → q ≡ old ++ new
      → 0 < total old
      → total old ≤ chunk_size
      → r ≡ new ++ b ∷ []
      → Pushed chunk_size max_size q b r

-- The list without its last element
init : List Text → List Text
init [] = []
init (b ∷ []) = []
init (b ∷ c ∷ bs) = b ∷ init (c ∷ bs)

init-append : (q : List Text) (b : Text) → init (q ++ b ∷ []) ≡ q
unfolding init
init-append [] b = refl
init-append (c ∷ []) b = refl
init-append (c ∷ d ∷ q) b = ap (◌∷◌ c) (init-append (d ∷ q) b)

without_last : (q r : List Text) (b : Text) → q ++ b ∷ [] ≡ r ++ b ∷ [] → q ≡ r
without_last q r b e = sym (init-append q b) ∙ (ap init e ∙ init-append r b)

-- The blocks that a cull leaves end with the newest one.
cull-Pushed :
    (n m t : ℕ) (v : View) (q : List Text) (b : Text) (front : List (List Text)) (l : List Text)
    (c : Cache)
    → contents v ≡ q ++ b ∷ []
    → v.backlog ≡ spilled front (l ++ b ∷ [])
    → (k : Culled n m t v c) → m ≤ total q + length b
    → Pushed n m q b (contents k.after)
cull-Pushed n m t v q b front l c e f k h =
    let (new, nothing, same) = k.same_last front (l ++ b ∷ []) f in
    let left : contents k.after ≡ (flatten new ++ l) ++ b ∷ [] =
      rw (nothing, same) (sym (append_assoc (flatten new) l (b ∷ []))) in
    culled k.old (flatten new ++ l) h
      (without_last q (k.old ++ (flatten new ++ l)) b
        (sym e ∙ (k.dropped ∙ rw left (sym (append_assoc k.old (flatten new ++ l) (b ∷ []))))))
      k.some_dropped k.bounded left

-- A cache that has reached its limit has files.
has_files :
    (c : Cache) (v : View) (backlog : Backlog)
    → Shows c v
    → c.max_size ≤ c.stats.current_size
    → v.backlog ≡ backlog
    → (front : List (List Text)) × (last : List Text) × (v.backlog ≡ spilled front last)
has_files c v (spilled front last) s h e = (front, last, e)
has_files c v empty s h e =
    let nothing : contents v ≡ v.mem = ap (λ b. v.mem ++ backlog_blocks b) e ∙ append-nil v.mem in
    absurd (omega (arith, s.current, s.size, s.larger, ap total nothing))

culled_push :
    (c : Cache) (v : View) (b : Text) (n m t : ℕ)
    → (g : Grown n m t v b c) → c.max_size ≤ c.stats.current_size
    → (c' : Cache) × (cull c ≡ some c')
      × (v' : View) × Shows c' v'
      × (c'.chunk_size ≡ n)
      × (c'.max_size ≡ m)
      × (c'.current_sequence ≤ t + 1)
      × Pushed n m (contents v) b (contents v')
culled_push c v b n m t g h =
    let a = g.after in
    let (front, last, e) = has_files c a a.backlog g.shows h refl in
    let (l, f) = g.newest front last e in
    let (c', done, k) = cull-Culled c a.dead a.mem a.free a.first a.backlog g.shows h in
    let sum : total (contents a) ≡ total (contents v) + length b =
      omega (arith, ap total g.gained, total-append (contents v) (b ∷ [])) in
    let p =
      cull-Pushed c.chunk_size c.max_size c.current_sequence a (contents v) b front l c' g.gained
        (e ∙ ap (spilled front) f) k (omega (arith, h, g.shows.current)) in
    (
      c',
      done,
      k.after,
      k.shows,
      k.same_chunk ∙ g.same_chunk,
      k.same_max ∙ g.same_max,
      omega (arith, k.same_sequence, g.next_sequence),
      subst (λ n. Pushed n m (contents v) b (contents k.after)) g.same_chunk
          (subst (λ m. Pushed c.chunk_size m (contents v) b (contents k.after)) g.same_max p),
    )

-- A push of a block that a chunk can hold, on a cache that shows a queue and has fewer than 2^32 - 1
-- files behind it, ends without an exception. The cache then shows the queue with the block as its
-- newest; where that would reach the limit, some of the oldest blocks are gone, at least one byte and
-- at most a chunk of them, and never the new one. The sizes stay and one file at most is started.
pub push-Pushed :
    (c : Cache) (v : View) (b : Text)
    → Shows c v
    → IsBlock c.chunk_size b
    → c.current_sequence + 1 < 2 ^ 32
    → (c' : Cache) × (push b c ≡ some c')
      × (v' : View) × Shows c' v'
      × (c'.chunk_size ≡ c.chunk_size)
      × (c'.max_size ≡ c.max_size)
      × (c'.current_sequence ≤ c.current_sequence + 1)
      × Pushed c.chunk_size c.max_size (contents v) b (contents v')
unfolding push
push-Pushed c v b s h r =
    let c1 = counted (length b) (placed_bytes b c) in
    let g = placed_bytes-Grown c v.dead v.mem v.free v.first b v.backlog s h r in
    let sum : total (contents g.after) ≡ total (contents v) + length b =
      omega (arith, ap total g.gained, total-append (contents v) (b ∷ [])) in
    elim (Bool-cases (leb c1.max_size c1.stats.current_size)) [
      | inr e ↦
          (let less : c1.stats.current_size < c1.max_size = ground arith in
            (
              c1,
              rw (push, e) refl,
              g.after,
              g.shows,
              g.same_chunk,
              g.same_max,
              g.next_sequence,
              kept (omega (arith, less, g.shows.current, g.same_max)) g.gained,
            ))
      | inl e ↦
          rw (push, e)
            (culled_push c1 v b c.chunk_size c.max_size c.current_sequence g (ground arith))
    ]
