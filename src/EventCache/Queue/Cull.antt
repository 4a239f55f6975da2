-- ===== src/EventCache/Queue/Cull.antt =====
-- cull drops the oldest events: those in memory, or those of the oldest file.
use chucho.Base.{
  ℕ, zero, suc, ◌+◌, ◌≤◌, ◌<◌, ◌≡◌, refl, sym, ap, ◌∙◌, true, false, List, [], ◌∷◌, ◌++◌,
  append_assoc, some, Text, arith, length, length-replicate, ltb, ◌⊎◌, inl, inr,
}
use chucho.EventCache.Queue.{Cache, zeros, culled_by, find_oldest_file, remove_file, cull}
use chucho.EventCache.Queue.View.{
  concat, total, length-concat, total-append, flatten, AllBlocks, Backlog, empty, spilled, View,
  contents, Shows,
}
use chucho.EventCache.Queue.Files.{find_oldest_file-front, remove_file-front}

zeros-append : (n k : ℕ) → zeros (n + k) ≡ zeros n ++ zeros k
zeros-append zero k = let e : 0 + k ≡ k = omega arith in rw e refl
zeros-append (suc n) k =
    let e : suc n + k ≡ suc (n + k) = omega arith in rw e (ap (◌∷◌ 0) (zeros-append n k))

pub blocks_of_nothing : (n : ℕ) (bs : List Text) → AllBlocks n bs → total bs ≡ 0 → bs ≡ []
blocks_of_nothing n [] h e = refl
blocks_of_nothing n (b ∷ bs) h e = absurd (omega (arith, h.0.large))

-- A culled cache: some of the oldest events are gone, no more than a chunk of them, and a last file
-- is as it was.
pub record Culled (chunk_size max_size sequence : ℕ) (v : View) (c : Cache) : Type 0 where
  pub same_chunk : c.chunk_size ≡ chunk_size
  pub same_max : c.max_size ≡ max_size
  pub same_sequence : c.current_sequence ≡ sequence
  pub after : View
  pub shows : Shows c after
  pub old : List Text
  pub dropped : contents v ≡ old ++ contents after
  pub some_dropped : 0 < total old
  pub bounded : total old ≤ chunk_size
  pub same_last :
      (front : List (List Text)) (last : List Text)
      → v.backlog ≡ spilled front last
      → (new : List (List Text)) × (after.mem ≡ []) × (after.backlog ≡ spilled new last)

last_of : Backlog → List Text
last_of empty = []
last_of (spilled front last) = last

module _ (c : Cache) (dead : Text) (mem : List Text) (free first : ℕ) where
  abbrev at : Backlog → View
  at backlog = record { dead = dead; mem = mem; free = free; first = first; backlog = backlog }

  -- The memory is dropped.
  cull_memory :
      (front : List (List Text)) (last : List Text)
      → Shows c (at (spilled front last))
      → 0 < c.mem_chunk_occupied
      → (c' : Cache) × (cull c ≡ some c')
        × Culled c.chunk_size c.max_size c.current_sequence (at (spilled front last)) c'
  unfolding cull
  cull_memory front last s h =
      let positive : ltb 0 c.mem_chunk_occupied ≡ true = ground arith in
      let result = record c {
        mem_chunk = zeros c.chunk_size;
        mem_chunk_occupied = 0;
        stats = culled_by c.mem_chunk_occupied c.stats;
      } in
      (
        result,
        rw (cull, positive) refl,
        record {
          same_chunk = refl;
          same_max = refl;
          same_sequence = refl;
          after = record {
            dead = zeros (length dead);
            mem = [];
            free = total mem + free;
            first = first;
            backlog = spilled front last;
          };
          shows = record {
            chunk = rw (sym s.size) (zeros-append (length dead) (total mem + free));
            size = omega (arith, s.size, length-replicate {A = ℕ} (length dead) 0);
            read = s.read ∙ sym (length-replicate {A = ℕ} (length dead) 0);
            occupied = refl;
            blocks = tt;
            disk = s.disk;
            writes = s.writes;
            current =
                omega (arith, s.current, s.occupied, total-append mem (flatten front ++ last));
            larger = s.larger;
          };
          old = mem;
          dropped = refl;
          some_dropped = omega (arith, s.occupied);
          bounded = omega (arith, s.size);
          same_last = λ f l e. (f, refl, e);
        },
      )

  -- The oldest file is dropped.
  cull_file :
      (f : List Text) (front : List (List Text)) (last : List Text)
      → Shows c (at (spilled (f ∷ front) last))
      → c.mem_chunk_occupied ≡ 0
      → (c' : Cache) × (cull c ≡ some c')
        × Culled c.chunk_size c.max_size c.current_sequence (at (spilled (f ∷ front) last)) c'
  unfolding cull last_of
  cull_file f front last s h =
      let idle : ltb 0 c.mem_chunk_occupied ≡ false = ground arith in
      let nothing : mem ≡ [] =
        blocks_of_nothing c.chunk_size mem s.blocks (omega (arith, s.occupied)) in
      let found = ap find_oldest_file s.disk ∙ find_oldest_file-front first f front last in
      let result = record c {
        files = remove_file first c.files;
        stats =
            culled_by (length (concat f))
              (record c.stats { files_destroyed = c.stats.files_destroyed + 1 });
      } in
      (
        result,
        rw (cull, idle, found) refl,
        record {
          same_chunk = refl;
          same_max = refl;
          same_sequence = refl;
          after = record (at (spilled front last)) { first = suc first };
          shows = record {
            chunk = s.chunk;
            size = s.size;
            read = s.read;
            occupied = s.occupied;
            blocks = s.blocks;
            disk = ap (remove_file first) s.disk ∙ remove_file-front first f front last;
            writes = (s.writes.0, s.writes.1, omega (arith, s.writes.2), s.writes.3, s.writes.4.1);
            current = omega (
              arith,
              s.current,
              total-append mem ((f ++ flatten front) ++ last),
              total-append mem (flatten front ++ last),
              total-append (f ++ flatten front) last,
              total-append f (flatten front),
              total-append (flatten front) last,
              length-concat f,
            );
            larger = s.larger;
          };
          old = f;
          dropped = rw nothing (append_assoc f (flatten front) last);
          some_dropped = s.writes.4.0.filled;
          bounded = s.writes.4.0.bounded;
          same_last = λ g l e. (front, nothing, ap (spilled front) (ap last_of e));
        },
      )

  -- Either, where the limit is reached and no file is larger than a chunk
  pub cull-Culled :
      (backlog : Backlog)
      → Shows c (at backlog)
      → c.max_size ≤ c.stats.current_size
      → (c' : Cache) × (cull c ≡ some c')
        × Culled c.chunk_size c.max_size c.current_sequence (at backlog) c'
  cull-Culled empty s h = absurd (omega (arith, s.current, s.size, s.larger, total-append mem []))
  cull-Culled (spilled front last) s h = elim (zero_or_more c.mem_chunk_occupied) [
    | inr p ↦ cull_memory front last s p
    | inl p ↦ cull_of_files front last s p
  ]
    where
      zero_or_more : (n : ℕ) → (n ≡ 0) ⊎ (0 < n)
      zero_or_more zero = inl refl
      zero_or_more (suc n) = inr (omega arith)

      cull_of_files :
          (front : List (List Text)) (last : List Text)
          → Shows c (at (spilled front last))
          → c.mem_chunk_occupied ≡ 0
          → (c' : Cache) × (cull c ≡ some c')
            × Culled c.chunk_size c.max_size c.current_sequence (at (spilled front last)) c'
      cull_of_files [] last s p = absurd (
          omega (arith, s.current, s.occupied, s.larger, s.writes.3.bounded, total-append mem last))
      cull_of_files (f ∷ front) last s p = cull_file f front last s p
