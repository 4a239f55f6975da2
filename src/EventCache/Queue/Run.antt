-- ===== src/EventCache/Queue/Run.antt =====
-- A cache that never fills gives back what a queue of its events gives back.
use chucho.Base.{
  sym, subst, tail, ℕ, ◌+◌, ◌^◌, ◌<◌, ◌≡◌, refl, ap, ◌∙◌, List, [], ◌∷◌, ◌++◌, Option, none, some,
  Text, arith, length,
}
use chucho.Level.{Level}
use chucho.Event.{Event}
use chucho.EventCache.Format.{serialized_size, serialize}
use chucho.EventCache.Queue.{Cache, new_cache, push, Popped, timed_out, popped, pop}
use chucho.EventCache.Queue.Held.{
  sum, restored, Pushable, Holds, Holds-new, Holds-push, Holds-pop, Holds-pop_empty,
}

-- The calls of a run: a push, by a thread of a name, and a pop.
pub data Call : Type 0 where
  push_call : Text → Event → Call
  pop_call : Call

abbrev pub answered : Popped → Option (List Popped) → Option (List Popped)
answered p none = none
answered p (some ps) = some (p ∷ ps)

pub run : List Level → List Call → Cache → Option (List Popped)
run levels [] c = some []
run levels (push_call thread evt ∷ calls) c = elim (push (serialize thread evt) c) [
  | none ↦ none
  | some c' ↦ run levels calls c'
]
run levels (pop_call ∷ calls) c = let (p, c') = pop levels c in answered p (run levels calls c')

-- The same calls on a list of events
abbrev pub queue_run : List Call → List Event → List Popped
queue_run [] q = []
queue_run (push_call thread evt ∷ calls) q = queue_run calls (q ++ restored thread evt ∷ [])
queue_run (pop_call ∷ calls) [] = timed_out ∷ queue_run calls []
queue_run (pop_call ∷ calls) (e ∷ q) = popped e ∷ queue_run calls q

abbrev pub AllPushable : List Level → ℕ → List Call → Type 0
AllPushable levels n [] = Unit
AllPushable levels n (push_call thread evt ∷ calls) =
    Pushable levels n thread evt × AllPushable levels n calls
AllPushable levels n (pop_call ∷ calls) = AllPushable levels n calls

-- The sizes that wait, of the sizes that wait at first, stay below a limit together.
abbrev pub StaysBelow : ℕ → List Call → List ℕ → Type 0
StaysBelow m [] sizes = Unit
StaysBelow m (push_call thread evt ∷ calls) sizes =
    (sum sizes + serialized_size thread evt < m)
    × StaysBelow m calls (sizes ++ serialized_size thread evt ∷ [])
StaysBelow m (pop_call ∷ calls) sizes = StaysBelow m calls (tail sizes)

run-Holds :
    (levels : List Level) (n m : ℕ) (sizes : List ℕ) (pushes : ℕ) (calls : List Call) (c : Cache)
    (es : List Event)
    → Holds levels n m sizes pushes c es
    → AllPushable levels n calls
    → StaysBelow m calls sizes
    → pushes + length calls < 2 ^ 32
    → run levels calls c ≡ some (queue_run calls es)
unfolding run
run-Holds levels n m sizes pushes [] c es h p size few = refl
run-Holds levels n m sizes pushes (push_call thread evt ∷ calls) c es h p size few =
    let (c', done, h') =
      Holds-push levels n m sizes pushes c es thread evt h p.0 size.0 (omega arith) in
    rw (run, done)
      (run-Holds levels n m (sizes ++ serialized_size thread evt ∷ []) (pushes + 1) calls c'
        (es ++ restored thread evt ∷ []) h' p.1 size.1 (omega arith))
run-Holds levels n m sizes pushes (pop_call ∷ calls) c [] h p size few =
    let (nothing, none_waits) = Holds-pop_empty levels n m sizes pushes c h in
    let same : tail sizes ≡ sizes = ap tail none_waits ∙ sym none_waits in
    ap (λ r. answered r.0 (run levels calls r.1)) nothing
    ∙ ap (answered timed_out) (
        run-Holds levels n m sizes pushes calls c [] h p (subst (StaysBelow m calls) same size)
          (omega arith))
run-Holds levels n m sizes pushes (pop_call ∷ calls) c (e ∷ es) h p size few =
    let (c', done, h') = Holds-pop levels n m sizes pushes c e es h in
    ap (λ r. answered r.0 (run levels calls r.1)) done
    ∙ ap (answered (popped e))
        (run-Holds levels n m (tail sizes) pushes calls c' es h' p size (omega arith))

-- A run of pushes and pops on a new cache gives what the same calls on a list of events give, first
-- in, first out, whatever way the events take through the memory and the files: if each event fits
-- its fields and a chunk and has a registered level, if the events that wait never come to the
-- cache's limit together, and if there are fewer than 2^32 calls. No call throws or reads past the
-- memory.
pub run-queue_run :
    (levels : List Level) (n m : ℕ) (c : Cache) (calls : List Call)
    → new_cache n m ≡ some c
    → AllPushable levels n calls
    → StaysBelow m calls []
    → length calls < 2 ^ 32
    → run levels calls c ≡ some (queue_run calls [])
run-queue_run levels n m c calls made p size few =
    run-Holds levels n m [] 0 calls c [] (Holds-new levels n m c made) p size (omega arith)
