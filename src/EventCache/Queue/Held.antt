-- ===== src/EventCache/Queue/Held.antt =====
-- A cache that has not reached its limit holds a list of events.
use chucho.Base.{
  ℕ, ◌+◌, ◌^◌, ◌≤◌, ◌<◌, ◌≡◌, refl, sym, ap, subst, ◌∙◌, List, [], ◌∷◌, ◌++◌, Option, none, some,
  Text, tail, Bool-cases, inl, inr, arith, length, leb,
}
use chucho.Level.{Level, from_text}
use chucho.Event.{Event}
use chucho.EventCache.Format.{get_int, serialized_size, serialize, read_marker, marker_bytes}
use chucho.EventCache.Format.RoundTrip.{
  Fits, get_int-int_bytes, unserialize-serialize, length-serialize,
}
use chucho.EventCache.Queue.{Cache, new_cache, fresh_cache, push, timed_out, popped, pop}
use chucho.EventCache.Queue.View.{total, IsBlock, empty, View, contents, Shows}
use chucho.EventCache.Queue.Fifo.{Pushed, kept, culled, push-Pushed}
use chucho.EventCache.Queue.Pop.{Reads, pop-Pops, pop_empty}

-- An event as it comes back
abbrev pub restored : Text → Event → Event
restored thread evt = record evt {
  event_marker = read_marker (marker_bytes evt.event_marker);
  thread_id = some thread;
}

-- What the pushes of a run ask for
pub record Pushable (levels : List Level) (chunk_size : ℕ) (thread : Text) (evt : Event)
    : Type 0 where
  pub fits : Fits thread evt
  pub known : from_text evt.level.name levels ≡ some evt.level
  pub bounded : serialized_size thread evt ≤ chunk_size

-- Blocks and the events that are read from them
abbrev Stored : List Level → List Text → List Event → Type 0
Stored levels [] [] = Unit
Stored levels [] (e ∷ es) = ⊥
Stored levels (b ∷ bs) [] = ⊥
Stored levels (b ∷ bs) (e ∷ es) = Reads levels b e × Stored levels bs es

Stored-append :
    (levels : List Level) (bs : List Text) (es : List Event) (b : Text) (e : Event)
    → Stored levels bs es
    → Reads levels b e
    → Stored levels (bs ++ b ∷ []) (es ++ e ∷ [])
Stored-append levels [] [] b e h r = (r, tt)
Stored-append levels [] (d ∷ es) b e h r = absurd h
Stored-append levels (a ∷ bs) [] b e h r = absurd h
Stored-append levels (a ∷ bs) (d ∷ es) b e h r = (h.0, Stored-append levels bs es b e h.1 r)

serialize-IsBlock :
    (levels : List Level) (n : ℕ) (thread : Text) (evt : Event)
    → Pushable levels n thread evt
    → IsBlock n (serialize thread evt)
unfolding serialize get_int serialized_size
serialize-IsBlock levels n thread evt p = record {
  header =
      ap (λ r. r.0)
        (get_int-int_bytes 4 (serialized_size thread evt) _ (omega (arith, p.fits.size)))
      ∙ sym (length-serialize thread evt);
  large = omega (arith, length-serialize thread evt);
  fits = omega (arith, length-serialize thread evt, p.bounded);
}

serialize-Reads :
    (levels : List Level) (n : ℕ) (thread : Text) (evt : Event)
    → Pushable levels n thread evt
    → Reads levels (serialize thread evt) (restored thread evt)
serialize-Reads levels n thread evt p more =
    ap (λ r. r.0) (unserialize-serialize levels thread more evt p.fits p.known)

kept_of :
    (n m : ℕ) (q : List Text) (b : Text) (r : List Text)
    → total q + length b < m
    → Pushed n m q b r
    → r ≡ q ++ b ∷ []
kept_of n m q b r h (kept k e) = e
kept_of n m q b r h (culled old new k e f g i) = absurd (omega arith)

new_cache-Shows :
    (n m : ℕ) (c : Cache)
    → new_cache n m ≡ some c
    → Shows c (record { dead = []; mem = []; free = n; first = 0; backlog = empty })
      × (c.chunk_size ≡ n)
      × (c.max_size ≡ m)
      × (c.current_sequence ≡ 0)
unfolding new_cache
new_cache-Shows n m c e = elim (Bool-cases (leb m n)) [
  | inl h ↦ cc (rw h at e)
  | inr h ↦
      (let made : fresh_cache n m ≡ c = ap from_some (rw h at e) in
        subst
          (λ c.
            Shows c (record { dead = []; mem = []; free = n; first = 0; backlog = empty })
            × (c.chunk_size ≡ n)
            × (c.max_size ≡ m)
            × (c.current_sequence ≡ 0))
          made
          (
            record {
              chunk = refl;
              size = omega arith;
              read = refl;
              occupied = refl;
              blocks = tt;
              disk = refl;
              writes = (ap some (omega arith), refl);
              current = refl;
              larger = ground arith;
            },
            refl,
            refl,
            refl,
          ))
]
  where
    from_some : Option Cache → Cache
    from_some none = fresh_cache n m
    from_some (some d) = d

-- The sizes of blocks, and of what they come to
abbrev lengths : List Text → List ℕ
lengths [] = []
lengths (b ∷ bs) = length b ∷ lengths bs

abbrev pub sum : List ℕ → ℕ
sum [] = 0
sum (n ∷ ns) = n + sum ns

sum-lengths : (bs : List Text) → sum (lengths bs) ≡ total bs
sum-lengths [] = refl
sum-lengths (b ∷ bs) = omega (arith, sum-lengths bs)

lengths-append : (bs : List Text) (b : Text) → lengths (bs ++ b ∷ []) ≡ lengths bs ++ length b ∷ []
lengths-append [] b = refl
lengths-append (c ∷ bs) b = ap (◌∷◌ (length c)) (lengths-append bs b)

-- A cache of a chunk size and a limit that holds events of some sizes, after so many pushes at most.
pub record Holds (levels : List Level) (n m : ℕ) (sizes : List ℕ) (pushes : ℕ) (c : Cache)
    (es : List Event) : Type 0 where
  view : View
  shows : Shows c view
  stored : Stored levels (contents view) es
  chunk : c.chunk_size ≡ n
  limit : c.max_size ≡ m
  sized : lengths (contents view) ≡ sizes
  few : c.current_sequence ≤ pushes

pub Holds-new :
    (levels : List Level) (n m : ℕ) (c : Cache)
    → new_cache n m ≡ some c
    → Holds levels n m [] 0 c []
Holds-new levels n m c e =
    let (s, chunk, limit, sequence) = new_cache-Shows n m c e in
    record {
      view = _;
      shows = s;
      stored = tt;
      chunk = chunk;
      limit = limit;
      sized = refl;
      few = omega arith;
    }

module _ (levels : List Level) (n m : ℕ) (sizes : List ℕ) (pushes : ℕ) (c : Cache) where
  held_size :
      (es : List Event)
      → (h : Holds levels n m sizes pushes c es) → total (contents h.view) ≡ sum sizes
  held_size es h = sym (sum-lengths (contents h.view)) ∙ ap sum h.sized

  pub Holds-current :
      (es : List Event)
      → Holds levels n m sizes pushes c es
      → (c.stats.current_size ≡ sum sizes) × (c.max_size ≡ m)
  Holds-current es h = (h.shows.current ∙ held_size es h, h.limit)

  pub Holds-push :
      (es : List Event) (thread : Text) (evt : Event)
      → Holds levels n m sizes pushes c es
      → Pushable levels n thread evt
      → sum sizes + serialized_size thread evt < m
      → pushes + 1 < 2 ^ 32
      → (c' : Cache) × (push (serialize thread evt) c ≡ some c')
        × Holds levels n m
            (sizes ++ serialized_size thread evt ∷ [])
            (pushes + 1)
            c'
            (es ++ restored thread evt ∷ [])
  Holds-push es thread evt h p size few =
      let b = serialize thread evt in
      let v = h.view in
      let whole : length b ≡ serialized_size thread evt = length-serialize thread evt in
      let block =
        subst (λ k. IsBlock k b) (sym h.chunk) (serialize-IsBlock levels n thread evt p) in
      let (c', done, v', s', same_chunk, same_max, next, pushed) =
        push-Pushed c v b h.shows block (omega (arith, h.few)) in
      let grown =
        kept_of c.chunk_size c.max_size (contents v) b (contents v')
          (omega (arith, held_size es h, h.limit)) pushed in
      (
        c',
        done,
        record {
          view = v';
          shows = s';
          stored =
              subst (λ l. Stored levels l (es ++ restored thread evt ∷ [])) (sym grown)
                (Stored-append levels (contents v) es b (restored thread evt) h.stored
                  (serialize-Reads levels n thread evt p));
          chunk = same_chunk ∙ h.chunk;
          limit = same_max ∙ h.limit;
          sized =
              ap lengths grown
              ∙ (lengths-append (contents v) b
                  ∙ (ap (λ l. l ++ length b ∷ []) h.sized ∙ ap (λ k. sizes ++ k ∷ []) whole));
          few = omega (arith, h.few, next);
        },
      )

  pub Holds-pop :
      (e : Event) (es : List Event)
      → Holds levels n m sizes pushes c (e ∷ es)
      → (c' : Cache) × (pop levels c ≡ (popped e, c')) × Holds levels n m (tail sizes) pushes c' es
  Holds-pop e es h = first_block (contents h.view) refl h.stored
    where
      first_block :
          (bs : List Text)
          → contents h.view ≡ bs
          → Stored levels bs (e ∷ es)
          → (c' : Cache) × (pop levels c ≡ (popped e, c'))
            × Holds levels n m (tail sizes) pushes c' es
      first_block [] q s = absurd s
      first_block (b ∷ bs) q s =
          let (c', done, took) = pop-Pops levels c h.view b bs e h.shows q s.0 in
          (
            c',
            done,
            record {
              view = took.after;
              shows = took.shows;
              stored = subst (λ l. Stored levels l es) (sym took.left) s.1;
              chunk = took.same_chunk ∙ h.chunk;
              limit = took.same_max ∙ h.limit;
              sized = ap lengths took.left ∙ ap tail (sym (ap lengths q) ∙ h.sized);
              few = omega (arith, h.few, took.same_sequence);
            },
          )

  pub Holds-pop_empty :
      Holds levels n m sizes pushes c [] → (pop levels c ≡ (timed_out, c)) × (sizes ≡ [])
  Holds-pop_empty h = no_block (contents h.view) refl h.stored
    where
      no_block :
          (bs : List Text)
          → contents h.view ≡ bs
          → Stored levels bs []
          → (pop levels c ≡ (timed_out, c)) × (sizes ≡ [])
      no_block [] q s = (pop_empty levels c h.view h.shows q, sym h.sized ∙ ap lengths q)
      no_block (b ∷ bs) q s = absurd s
