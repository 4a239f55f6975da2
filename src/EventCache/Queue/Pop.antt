-- ===== src/EventCache/Queue/Pop.antt =====
-- pop takes the oldest block, from the memory or from the oldest file.
use chucho.Base.{
  ℕ, zero, suc, ◌+◌, ◌-◌, ◌≤◌, ◌<◌, ◌≡◌, refl, sym, ap, subst, ◌∙◌, true, false, List, [], ◌∷◌,
  ◌++◌, append-nil, append_assoc, some, Text, arith, length, length-append, take, drop, take-append,
  drop-append-length, leb, ltb, ◌==◌,
}
use chucho.Level.{Level}
use chucho.Event.{Event}
use chucho.EventCache.Format.{bytes_int, unserialize}
use chucho.EventCache.Queue.{
  Cache, zeros, remove_file, find_oldest_file, timed_out, popped, load_file, needs_file, taken,
  take_event, pop,
}
use chucho.EventCache.Queue.View.{
  concat, total, length-concat, total-append, flatten, Backlog, empty, spilled, backlog_blocks,
  Writes, View, contents, Shows,
}
use chucho.EventCache.Queue.Files.{
  find_oldest_file-front, remove_file-front, find_oldest_file-last, remove_file-last,
}

-- The bytes of an event, whatever follows them
abbrev pub Reads : List Level → Text → Event → Type 0
Reads levels b e = (more : Text) → (unserialize levels (b ++ more)).0 ≡ (length b, some e)

-- A pop that has taken the oldest block
pub record Took (chunk_size max_size sequence : ℕ) (rest : List Text) (c : Cache) : Type 0 where
  pub same_chunk : c.chunk_size ≡ chunk_size
  pub same_max : c.max_size ≡ max_size
  pub same_sequence : c.current_sequence ≡ sequence
  pub after : View
  pub shows : Shows c after
  pub left : contents after ≡ rest

bytes_int-zeros : (n k : ℕ) → bytes_int (take n (zeros k)) ≡ 0
unfolding bytes_int
bytes_int-zeros zero k = refl
bytes_int-zeros (suc n) zero = refl
bytes_int-zeros (suc n) (suc k) = omega (arith, bytes_int-zeros n k)

module _ (levels : List Level) (c : Cache) (dead : Text) (b : Text) (mem : List Text)
    (free first : ℕ) (backlog : Backlog) where
  abbrev before : View
  before = record { dead = dead; mem = b ∷ mem; free = free; first = first; backlog = backlog }

  rest_of_chunk : Shows c before → drop c.read_pos c.mem_chunk ≡ b ++ (concat mem ++ zeros free)
  rest_of_chunk s =
      ap (drop c.read_pos) s.chunk
      ∙ rw (s.read, drop-append-length dead ((b ++ concat mem) ++ zeros free))
          (append_assoc b (concat mem) (zeros free))

  needs_file-false : Shows c before → needs_file c ≡ false
  unfolding needs_file
  needs_file-false s =
      let h = s.blocks.0 in
      let early : leb (c.chunk_size - 4) c.read_pos ≡ false =
        ground (arith, s.size, s.read, h.large) in
      let some_bytes : (length b == 0) ≡ false = ground (arith, h.large) in
      rw
        (
          early,
          rest_of_chunk s,
          take-append 4 b (concat mem ++ zeros free) (omega (arith, h.large)),
          h.header,
          some_bytes,
        )
        refl

  take_event-Took :
      (e : Event)
      → Shows c before
      → Reads levels b e
      → (c' : Cache) × (take_event levels c ≡ (popped e, c'))
        × Took c.chunk_size c.max_size c.current_sequence (mem ++ backlog_blocks backlog) c'
  unfolding take_event taken
  take_event-Took e s r =
      let decoded : (unserialize levels (drop c.read_pos c.mem_chunk)).0 ≡ (length b, some e) =
        ap (λ t. (unserialize levels t).0) (rest_of_chunk s) ∙ r (concat mem ++ zeros free) in
      let result = record c {
        read_pos = c.read_pos + length b;
        mem_chunk_occupied = c.mem_chunk_occupied - length b;
        stats = record c.stats {
          current_size = c.stats.current_size - length b;
          events_read = c.stats.events_read + 1;
        };
      } in
      (
        result,
        ap (taken c) decoded,
        record {
          same_chunk = refl;
          same_max = refl;
          same_sequence = refl;
          after = record {
            dead = dead ++ b;
            mem = mem;
            free = free;
            first = first;
            backlog = backlog;
          };
          shows = record {
            chunk = s.chunk ∙ simp append_assoc;
            size = omega (arith, s.size, length-append dead b);
            read = omega (arith, s.read, length-append dead b);
            occupied = omega (arith, s.occupied);
            blocks = s.blocks.1;
            disk = s.disk;
            writes = moved backlog s.writes;
            current = omega (arith, s.current);
            larger = s.larger;
          };
          left = refl;
        },
      )
    where
      moved :
          (k : Backlog)
          → Writes (length dead + (length b + total mem)) first c k
          → Writes (length (dead ++ b) + total mem) first c k
      moved empty w = (w.0 ∙ ap some (omega (arith, length-append dead b)), w.1)
      moved (spilled front last) w = w

module _ (c : Cache) (dead : Text) (free first : ℕ) where
  abbrev waiting : Backlog → View
  waiting backlog = record { dead = dead; mem = []; free = free; first = first; backlog = backlog }

  needs_file-true : (backlog : Backlog) → Shows c (waiting backlog) → needs_file c ≡ true
  unfolding needs_file
  needs_file-true backlog s =
      let rest : drop c.read_pos c.mem_chunk ≡ zeros free =
        ap (drop c.read_pos) s.chunk ∙ rw (s.read, drop-append-length dead (zeros free)) refl in
      let empty_here : bytes_int (take 4 (drop c.read_pos c.mem_chunk)) ≡ 0 =
        ap (λ t. bytes_int (take 4 t)) rest ∙ bytes_int-zeros 4 free in
      rw empty_here (ground arith)

  -- A file of a cache whose memory is read goes to the memory.
  load_file-front :
      (f : List Text) (front : List (List Text)) (last : List Text)
      → Shows c (waiting (spilled (f ∷ front) last))
      → (find_oldest_file c.files ≡ some (first, concat f))
        × Shows (load_file (first, concat f) c) (record {
          dead = [];
          mem = f;
          free = c.chunk_size - total f;
          first = suc first;
          backlog = spilled front last;
        })
  unfolding load_file
  load_file-front f front last s =
      let other : (first == c.current_sequence) ≡ false = ground (arith, s.writes.2) in
      (
        ap find_oldest_file s.disk ∙ find_oldest_file-front first f front last,
        rw (load_file, s.writes.1, other)
            (record {
              chunk = ap (λ n. concat f ++ zeros (c.chunk_size - n)) (length-concat f);
              size = omega (arith, s.writes.4.0.bounded);
              read = refl;
              occupied = length-concat f;
              blocks = s.writes.4.0.blocks;
              disk = ap (remove_file first) s.disk ∙ remove_file-front first f front last;
              writes =
                  (s.writes.0, s.writes.1, omega (arith, s.writes.2), s.writes.3, s.writes.4.1);
              current = s.current ∙ ap total (append_assoc f (flatten front) last);
              larger = s.larger;
            }),
      )

  load_file-last :
      (last : List Text)
      → Shows c (waiting (spilled [] last))
      → (find_oldest_file c.files ≡ some (first, concat last))
        × Shows (load_file (first, concat last) c) (record {
          dead = [];
          mem = last;
          free = c.chunk_size - total last;
          first = first;
          backlog = empty;
        })
  unfolding load_file
  load_file-last last s =
      let same : (first == c.current_sequence) ≡ true = ground (arith, s.writes.2) in
      (
        ap find_oldest_file s.disk ∙ find_oldest_file-last first last,
        rw (load_file, s.writes.1, same)
            (record {
              chunk = ap (λ n. concat last ++ zeros (c.chunk_size - n)) (length-concat last);
              size = omega (arith, s.writes.3.bounded);
              read = refl;
              occupied = length-concat last;
              blocks = s.writes.3.blocks;
              disk = ap (remove_file first) s.disk ∙ remove_file-last first last;
              writes = (ap some (omega arith), refl);
              current = s.current ∙ ap total (sym (append-nil last));
              larger = s.larger;
            }),
      )

same_by_load :
    (c : Cache) (f : ℕ × Text)
    → let d = load_file f c in
      (d.chunk_size ≡ c.chunk_size)
      × (d.max_size ≡ c.max_size)
      × (d.current_sequence ≡ c.current_sequence)
unfolding load_file
same_by_load c f = ground arith

-- A pop that returns an event and leaves blocks
abbrev pub Pops : List Level → Cache → Event → List Text → Type 0
Pops levels c e rest =
    (c' : Cache) × (pop levels c ≡ (popped e, c'))
    × Took c.chunk_size c.max_size c.current_sequence rest c'

head_of : List Text → Text
head_of [] = []
head_of (b ∷ bs) = b

tail_of : List Text → List Text
tail_of [] = []
tail_of (b ∷ bs) = bs

module _ (levels : List Level) (c : Cache) (e : Event) where
  pop_memory :
      (dead b : Text) (mem : List Text) (free first : ℕ) (backlog : Backlog)
      → Shows c (before levels c dead b mem free first backlog)
      → Reads levels b e
      → Pops levels c e (mem ++ backlog_blocks backlog)
  unfolding pop
  pop_memory dead b mem free first backlog s r =
      let some_bytes : (c.stats.current_size == 0) ≡ false =
        ground (arith, s.current, s.blocks.0.large) in
      let (c', done, took) = take_event-Took levels c dead b mem free first backlog e s r in
      (
        c',
        rw (pop, some_bytes, needs_file-false levels c dead b mem free first backlog s) done,
        took,
      )

  pop_file :
      (n : ℕ) (dead b : Text) (mem : List Text) (free first : ℕ) (backlog : Backlog)
      → 0 < c.stats.current_size
      → needs_file c ≡ true
      → find_oldest_file c.files ≡ some (n, concat (b ∷ mem))
      → total (b ∷ mem) ≤ c.chunk_size
      → Shows (load_file (n, concat (b ∷ mem)) c) (before levels c dead b mem free first backlog)
      → Reads levels b e
      → Pops levels c e (mem ++ backlog_blocks backlog)
  unfolding pop
  pop_file n dead b mem free first backlog size needs found bounded s r =
      let d = load_file (n, concat (b ∷ mem)) c in
      let some_bytes : (c.stats.current_size == 0) ≡ false = ground arith in
      let small : ltb c.chunk_size (length (b ++ concat mem)) ≡ false =
        ground (arith, length-concat (b ∷ mem)) in
      let (c', done, took) = take_event-Took levels d dead b mem free first backlog e s r in
      let (same_chunk, same_max, same_sequence) = same_by_load c (n, concat (b ∷ mem)) in
      (
        c',
        rw (pop, some_bytes, needs, found, small) done,
        record {
          same_chunk = took.same_chunk ∙ same_chunk;
          same_max = took.same_max ∙ same_max;
          same_sequence = took.same_sequence ∙ same_sequence;
          after = took.after;
          shows = took.shows;
          left = took.left;
        },
      )

  pop_shown :
      (dead : Text) (mem : List Text) (free first : ℕ) (backlog : Backlog) (b : Text)
      (rest : List Text)
      → Shows c (record { dead = dead; mem = mem; free = free; first = first; backlog = backlog })
      → mem ++ backlog_blocks backlog ≡ b ∷ rest
      → Reads levels b e
      → Pops levels c e rest
  unfolding head_of tail_of
  pop_shown dead (b1 ∷ mem) free first backlog b rest s q r =
      subst (Pops levels c e) (ap tail_of q) (
        pop_memory dead b1 mem free first backlog s
          (subst (λ x. Reads levels x e) (sym (ap head_of q)) r))
  pop_shown dead [] free first empty b rest s q r = cc
  pop_shown dead [] free first (spilled [] []) b rest s q r =
      absurd (omega (arith, s.writes.3.filled))
  pop_shown dead [] free first (spilled [] (b1 ∷ mem)) b rest s q r =
      let (found, loaded) = load_file-last c dead free first (b1 ∷ mem) s in
      subst (Pops levels c e) (append-nil mem ∙ ap tail_of q) (
        pop_file first [] b1 mem (c.chunk_size - total (b1 ∷ mem)) first empty
          (omega (arith, s.current, s.writes.3.filled))
          (needs_file-true c dead free first (spilled [] (b1 ∷ mem)) s) found s.writes.3.bounded
          loaded (subst (λ x. Reads levels x e) (sym (ap head_of q)) r))
  pop_shown dead [] free first (spilled ([] ∷ front) last) b rest s q r =
      absurd (omega (arith, s.writes.4.0.filled))
  pop_shown dead [] free first (spilled ((b1 ∷ mem) ∷ front) last) b rest s q r =
      let (found, loaded) = load_file-front c dead free first (b1 ∷ mem) front last s in
      subst (Pops levels c e) (sym (append_assoc mem (flatten front) last) ∙ ap tail_of q) (
        pop_file first [] b1 mem (c.chunk_size - total (b1 ∷ mem)) (suc first) (spilled front last)
          (omega (
            arith,
            s.current,
            s.writes.4.0.filled,
            total-append ((b1 ∷ mem) ++ flatten front) last,
            total-append (b1 ∷ mem) (flatten front),
          ))
          (needs_file-true c dead free first (spilled ((b1 ∷ mem) ∷ front) last) s) found
          s.writes.4.0.bounded loaded (subst (λ x. Reads levels x e) (sym (ap head_of q)) r))

-- A cache that shows a block first, whose bytes are an event, returns that event and shows the rest.
pub pop-Pops :
    (levels : List Level) (c : Cache) (v : View) (b : Text) (rest : List Text) (e : Event)
    → Shows c v
    → contents v ≡ b ∷ rest
    → Reads levels b e
    → Pops levels c e rest
pop-Pops levels c v b rest e s q r =
    pop_shown levels c e v.dead v.mem v.free v.first v.backlog b rest s q r

-- A cache that shows nothing returns nothing, and is as it was.
pub pop_empty :
    (levels : List Level) (c : Cache) (v : View)
    → Shows c v
    → contents v ≡ []
    → pop levels c ≡ (timed_out, c)
unfolding pop
pop_empty levels c v s q =
    let nothing : (c.stats.current_size == 0) ≡ true = ground (arith, s.current, ap total q) in
    rw (pop, nothing) refl
