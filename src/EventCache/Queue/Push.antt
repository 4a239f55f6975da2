-- ===== src/EventCache/Queue/Push.antt =====
-- The branches of push: where a block goes.
use chucho.Base.{
  ℕ, zero, suc, ◌+◌, ◌-◌, ◌%◌, ◌^◌, ◌≤◌, ◌<◌, ◌≡◌, refl, sym, ap, ◌∙◌, true, false, inl, inr, List,
  [], ◌∷◌, ◌++◌, append-nil, append_assoc, none, some, Text, arith, length, length-append, drop,
  take-append-length, leb, ◌==◌, Bool-cases,
}
use chucho.EventCache.Queue.{
  Cache, zeros, copied_to, remove_file, append_file, create_file, push_memory, start_file,
  write_bytes, push_file, placed_bytes, counted,
}
use chucho.EventCache.Queue.View.{
  concat, total, length-concat, concat-append, total-append, flatten, flatten-append, IsBlock,
  IsFile, Backlog, empty, spilled, numbered, numbered-append, files_of, View, contents, Shows,
  AllBlocks-append, AllFiles-append, length-append_one,
}

drop-append-more : (x y : Text) (n : ℕ) → drop (length x + n) (x ++ y) ≡ drop n y
drop-append-more [] y n = let e : 0 + n ≡ n = omega arith in rw e refl
drop-append-more (c ∷ x) y n =
    let e : suc (length x) + n ≡ suc (length x + n) = omega arith in rw e (drop-append-more x y n)

drop-zeros : (n k : ℕ) → drop n (zeros k) ≡ zeros (k - n)
drop-zeros zero k = let e : k - 0 ≡ k = omega arith in rw e refl
drop-zeros (suc n) zero = let e : 0 - suc n ≡ 0 = omega arith in rw e refl
drop-zeros (suc n) (suc k) = let e : suc k - suc n ≡ k - n = omega arith in rw e (drop-zeros n k)

copied_to-zeros :
    (x b : Text) (k : ℕ) → copied_to (length x) b (x ++ zeros k) ≡ x ++ (b ++ zeros (k - length b))
unfolding copied_to
copied_to-zeros x b k =
    rw
      (
        take-append-length x (zeros k),
        drop-append-more x (zeros k) (length b),
        drop-zeros (length b) k,
      )
      refl

copied_to-end :
    (dead m b : Text) (k : ℕ)
    → copied_to (length dead + length m) b (dead ++ (m ++ zeros k))
      ≡ dead ++ ((m ++ b) ++ zeros (k - length b))
copied_to-end dead m b k =
    rw
      (
        sym (length-append dead m),
        sym (append_assoc dead m (zeros k)),
        copied_to-zeros (dead ++ m) b k,
      )
      (simp append_assoc)

concat-one : (bs : List Text) (b : Text) → concat (bs ++ b ∷ []) ≡ concat bs ++ b
concat-one bs b = concat-append bs (b ∷ []) ∙ ap (◌++◌ (concat bs)) (append-nil b)

total-one : (bs : List Text) (b : Text) → total (bs ++ b ∷ []) ≡ total bs + length b
total-one bs b = omega (arith, total-append bs (b ∷ []))

append_file-last :
    (n k : ℕ) (fs : List (List Text)) (s b : Text)
    → n + length fs ≡ k
    → append_file k b (numbered n fs ++ (k, s) ∷ []) ≡ numbered n fs ++ (k, s ++ b) ∷ []
unfolding append_file
append_file-last n k [] s b e = let same : (k == k) ≡ true = ground arith in rw same refl
append_file-last n k (f ∷ fs) s b e =
    let other : (n == k) ≡ false = ground arith in
    rw (other, append_file-last (suc n) k fs s b (omega arith)) refl

remove_file-absent :
    (n k : ℕ) (fs : List (List Text))
    → n + length fs ≤ k
    → remove_file k (numbered n fs) ≡ numbered n fs
unfolding remove_file
remove_file-absent n k [] h = refl
remove_file-absent n k (f ∷ fs) h =
    let other : (n == k) ≡ false = ground arith in
    rw (other, remove_file-absent (suc n) k fs (omega arith)) refl

files_of-spilled :
    (n : ℕ) (front : List (List Text)) (last : List Text)
    → files_of n (spilled front last) ≡ numbered n (front ++ last ∷ [])
files_of-spilled n front last = sym (numbered-append n front last)

last_of : Backlog → List Text
last_of empty = []
last_of (spilled front last) = last

create_file-numbered :
    (n k : ℕ) (fs : List (List Text)) (b : Text)
    → n + length fs ≡ k
    → append_file k b (create_file k (numbered n fs)) ≡ numbered n fs ++ (k, b) ∷ []
unfolding create_file
create_file-numbered n k fs b e =
    rw (remove_file-absent n k fs (omega arith)) (append_file-last n k fs [] b e)

-- A cache after a push without culling: the block is the newest.
pub record Grown (chunk_size max_size sequence : ℕ) (v : View) (b : Text) (c : Cache) : Type 0 where
  pub same_chunk : c.chunk_size ≡ chunk_size
  pub same_max : c.max_size ≡ max_size
  pub next_sequence : c.current_sequence ≤ sequence + 1
  pub after : View
  pub shows : Shows c after
  pub gained : contents after ≡ contents v ++ b ∷ []
  pub newest :
      (front : List (List Text)) (last : List Text)
      → after.backlog ≡ spilled front last
      → (l : List Text) × (last ≡ l ++ b ∷ [])

module _ (c : Cache) (dead : Text) (mem : List Text) (free first : ℕ) (b : Text) where
  abbrev at : Backlog → View
  at backlog = record { dead = dead; mem = mem; free = free; first = first; backlog = backlog }

  push_memory-Grown :
      Shows c (at empty)
      → IsBlock c.chunk_size b
      → length b ≤ free
      → Grown c.chunk_size c.max_size c.current_sequence
          (at empty)
          b
          (counted (length b) (push_memory (length dead + total mem) b c))
  unfolding push_memory counted
  push_memory-Grown s h room = record {
    same_chunk = refl;
    same_max = refl;
    next_sequence = omega arith;
    after = record (at empty) { mem = mem ++ b ∷ []; free = free - length b };
    shows = record {
      chunk =
          ap (copied_to (length dead + total mem) b) s.chunk
          ∙ rw (sym (length-concat mem), concat-one mem b) (copied_to-end dead (concat mem) b free);
      size = omega (arith, total-append mem (b ∷ []), s.size);
      read = s.read;
      occupied = omega (arith, total-append mem (b ∷ []), s.occupied);
      blocks = AllBlocks-append c.chunk_size mem (b ∷ []) s.blocks (h, tt);
      disk = s.disk;
      writes = (ap some (omega (arith, total-append mem (b ∷ []))), s.writes.1);
      current =
          omega (
            arith,
            s.current,
            total-append (mem ++ b ∷ []) [],
            total-append mem [],
            total-one mem b,
          );
      larger = s.larger;
    };
    gained = rw (append-nil (mem ++ b ∷ []), append-nil mem) refl;
    newest = λ front last e. cc;
  }

  one_block : IsBlock c.chunk_size b → IsFile c.chunk_size (b ∷ [])
  one_block h = record {
    blocks = (h, tt);
    filled = omega (arith, h.large);
    bounded = omega (arith, h.fits);
  }

  -- The first file
  first_file-Grown :
      Shows c (at empty)
      → IsBlock c.chunk_size b
      → c.current_sequence + 1 < 2 ^ 32
      → Grown c.chunk_size c.max_size c.current_sequence
          (at empty)
          b
          (counted (length b) (write_bytes b (start_file (record c { write_pos = none }))))
  unfolding start_file write_bytes counted create_file remove_file append_file last_of
  first_file-Grown s h r = record {
    same_chunk = refl;
    same_max = refl;
    next_sequence = omega arith;
    after = record (at empty) { first = c.current_sequence + 1; backlog = spilled [] (b ∷ []) };
    shows = record {
      chunk = s.chunk;
      size = s.size;
      read = s.read;
      occupied = s.occupied;
      blocks = s.blocks;
      disk =
          (let number : (c.current_sequence + 1) % 2 ^ 32 ≡ c.current_sequence + 1 = omega arith in
            let start : c.current_sequence + 1 + 0 ≡ c.current_sequence + 1 = omega arith in
            rw (number, s.disk, start, append-nil b)
              (create_file-numbered (c.current_sequence + 1) (c.current_sequence + 1) [] b
                (omega arith)));
      writes = (refl, ap some (omega arith), omega arith, one_block h, tt);
      current = omega (arith, s.current, total-append mem [], total-append mem (b ∷ []));
      larger = s.larger;
    };
    gained = ap (λ m. m ++ b ∷ []) (sym (append-nil mem));
    newest = λ front last e. ([], ap last_of (sym e));
  }

  next_contents :
      (front : List (List Text)) (last : List Text)
      → contents (at (spilled (front ++ last ∷ []) (b ∷ [])))
        ≡ contents (at (spilled front last)) ++ b ∷ []
  next_contents front last =
      rw (flatten-append front last) (sym (append_assoc mem (flatten front ++ last) (b ∷ [])))

  -- A file behind the others
  next_file-Grown :
      (front : List (List Text)) (last : List Text)
      → Shows c (at (spilled front last))
      → IsBlock c.chunk_size b
      → c.current_sequence + 1 < 2 ^ 32
      → Grown c.chunk_size c.max_size c.current_sequence
          (at (spilled front last))
          b
          (counted (length b) (write_bytes b (start_file (record c { write_pos = none }))))
  unfolding start_file write_bytes counted create_file last_of
  next_file-Grown front last s h r = record {
    same_chunk = refl;
    same_max = refl;
    next_sequence = omega arith;
    after = at (spilled (front ++ last ∷ []) (b ∷ []));
    shows = record {
      chunk = s.chunk;
      size = s.size;
      read = s.read;
      occupied = s.occupied;
      blocks = s.blocks;
      disk =
          (let number : (c.current_sequence + 1) % 2 ^ 32 ≡ c.current_sequence + 1 = omega arith in
            let seq : c.current_sequence ≡ first + length front = s.writes.2 in
            let next : first + length (front ++ last ∷ []) ≡ c.current_sequence + 1 =
              omega (arith, length-append_one front last) in
            rw (number, s.disk, files_of-spilled first front last, next, append-nil b)
              (create_file-numbered first (c.current_sequence + 1) (front ++ last ∷ []) b next));
      writes = (
        refl,
        ap some (omega arith),
        omega (arith, s.writes.2, length-append_one front last),
        one_block h,
        AllFiles-append c.chunk_size front last s.writes.4 s.writes.3,
      );
      current = omega (
        arith,
        s.current,
        ap total (next_contents front last),
        total-one (contents (at (spilled front last))) b,
      );
      larger = s.larger;
    };
    gained = next_contents front last;
    newest = λ f l e. ([], ap last_of (sym e));
  }

  -- The file that is written
  written : ℕ → Cache
  unfolding append_file
  written pos = record c {
    write_pos = none;
    files = append_file c.current_sequence b c.files;
    write_file = some (pos + length b);
  }

  same_contents :
      (front : List (List Text)) (last : List Text)
      → contents (at (spilled front (last ++ b ∷ [])))
        ≡ contents (at (spilled front last)) ++ b ∷ []
  same_contents front last = simp append_assoc

  same_file-Grown :
      (front : List (List Text)) (last : List Text)
      → Shows c (at (spilled front last))
      → IsBlock c.chunk_size b
      → total last + length b ≤ c.chunk_size
      → Grown c.chunk_size c.max_size c.current_sequence
          (at (spilled front last))
          b
          (counted (length b) (written (total last)))
  unfolding counted written last_of
  same_file-Grown front last s h r = record {
    same_chunk = refl;
    same_max = refl;
    next_sequence = omega arith;
    after = at (spilled front (last ++ b ∷ []));
    shows = record {
      chunk = s.chunk;
      size = s.size;
      read = s.read;
      occupied = s.occupied;
      blocks = s.blocks;
      disk =
          rw (s.disk, s.writes.2, concat-one last b)
            (append_file-last first (first + length front) front (concat last) b refl);
      writes = (
        refl,
        ap some (sym (total-one last b)),
        s.writes.2,
        (record {
          blocks = AllBlocks-append c.chunk_size last (b ∷ []) s.writes.3.blocks (h, tt);
          filled = omega (arith, total-one last b, h.large);
          bounded = omega (arith, total-one last b);
        }),
        s.writes.4,
      );
      current = omega (
        arith,
        s.current,
        ap total (same_contents front last),
        total-one (contents (at (spilled front last))) b,
      );
      larger = s.larger;
    };
    gained = same_contents front last;
    newest = λ f l e. (last, ap last_of (sym e));
  }

  -- All branches
  pub placed_bytes-Grown :
      (backlog : Backlog)
      → Shows c (at backlog)
      → IsBlock c.chunk_size b
      → c.current_sequence + 1 < 2 ^ 32
      → Grown c.chunk_size c.max_size c.current_sequence
          (at backlog)
          b
          (counted (length b) (placed_bytes b c))
  unfolding placed_bytes push_file write_bytes written
  placed_bytes-Grown empty s h r =
      elim (Bool-cases (leb (length dead + total mem + length b) c.chunk_size)) [
        | inl e ↦ rw (placed_bytes, s.writes.0, e) (push_memory-Grown s h (ground arith))
        | inr e ↦ rw (placed_bytes, s.writes.0, e, push_file, s.writes.1) (first_file-Grown s h r)
      ]
  placed_bytes-Grown (spilled front last) s h r =
      elim (Bool-cases (leb (total last + length b) c.chunk_size)) [
        | inl e ↦
            rw (placed_bytes, s.writes.0, push_file, s.writes.1, e)
              (same_file-Grown front last s h (ground arith))
        | inr e ↦
            rw (placed_bytes, s.writes.0, push_file, s.writes.1, e)
              (next_file-Grown front last s h r)
      ]
