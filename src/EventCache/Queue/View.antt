-- ===== src/EventCache/Queue/View.antt =====
-- What a cache holds: blocks of bytes, one for an event, the oldest in memory and the others in
-- files, and how memory, directory and positions show them.
use chucho.Base.{
  ℕ, suc, ◌+◌, ◌≤◌, ◌<◌, ◌≡◌, refl, sym, ap, ◌∙◌, List, [], ◌∷◌, ◌++◌, append-nil, append_assoc,
  none, some, Text, arith, length, length-append, take,
}
use chucho.EventCache.Format.{bytes_int}
use chucho.EventCache.Queue.{Cache, zeros}

abbrev pub concat : List Text → Text
concat [] = []
concat (b ∷ bs) = b ++ concat bs

abbrev pub total : List Text → ℕ
total [] = 0
total (b ∷ bs) = length b + total bs

pub length-concat : (bs : List Text) → length (concat bs) ≡ total bs
length-concat [] = refl
length-concat (b ∷ bs) = omega (arith, length-append b (concat bs), length-concat bs)

pub concat-append : (bs cs : List Text) → concat (bs ++ cs) ≡ concat bs ++ concat cs
concat-append [] cs = refl
concat-append (b ∷ bs) cs = rw (concat-append bs cs) (sym (append_assoc b (concat bs) (concat cs)))

pub total-append : (bs cs : List Text) → total (bs ++ cs) ≡ total bs + total cs
total-append [] cs = omega arith
total-append (b ∷ bs) cs = omega (arith, total-append bs cs)

-- The blocks of files
abbrev pub flatten : List (List Text) → List Text
flatten [] = []
flatten (f ∷ fs) = f ++ flatten fs

-- The bytes of one event, for a chunk of a size: they begin with their number.
pub record IsBlock (chunk_size : ℕ) (b : Text) : Type 0 where
  pub header : bytes_int (take 4 b) ≡ length b
  pub large : 4 < length b
  pub fits : length b ≤ chunk_size

abbrev pub AllBlocks : ℕ → List Text → Type 0
AllBlocks n [] = Unit
AllBlocks n (b ∷ bs) = IsBlock n b × AllBlocks n bs

-- A file holds an event at least, and no more than a chunk.
pub record IsFile (chunk_size : ℕ) (f : List Text) : Type 0 where
  pub blocks : AllBlocks chunk_size f
  pub filled : 0 < total f
  pub bounded : total f ≤ chunk_size

abbrev pub AllFiles : ℕ → List (List Text) → Type 0
AllFiles n [] = Unit
AllFiles n (f ∷ fs) = IsFile n f × AllFiles n fs

-- The files: none, or those before the one that is written, and that one.
pub data Backlog : Type 0 where
  empty : Backlog
  spilled : List (List Text) → List Text → Backlog

abbrev pub backlog_blocks : Backlog → List Text
backlog_blocks empty = []
backlog_blocks (spilled front last) = flatten front ++ last

abbrev pub numbered : ℕ → List (List Text) → List (ℕ × Text)
numbered n [] = []
numbered n (f ∷ fs) = (n, concat f) ∷ numbered (suc n) fs

abbrev pub files_of : ℕ → Backlog → List (ℕ × Text)
files_of first empty = []
files_of first (spilled front last) =
    numbered first front ++ (first + length front, concat last) ∷ []

-- What the writing side knows
abbrev pub Writes : ℕ → ℕ → Cache → Backlog → Type 0
Writes end first c empty = (c.write_pos ≡ some end) × (c.write_file ≡ none)
Writes end first c (spilled front last) =
    (c.write_pos ≡ none)
    × (c.write_file ≡ some (total last))
    × (c.current_sequence ≡ first + length front)
    × IsFile c.chunk_size last
    × AllFiles c.chunk_size front

pub record View : Type 0 where
  pub dead : Text
  pub mem : List Text
  pub free : ℕ
  pub first : ℕ
  pub backlog : Backlog

-- The events' blocks, the oldest first
abbrev pub contents : View → List Text
contents v = v.mem ++ backlog_blocks v.backlog

pub record Shows (c : Cache) (v : View) : Type 0 where
  pub chunk : c.mem_chunk ≡ v.dead ++ (concat v.mem ++ zeros v.free)
  pub size : length v.dead + (total v.mem + v.free) ≡ c.chunk_size
  pub read : c.read_pos ≡ length v.dead
  pub occupied : c.mem_chunk_occupied ≡ total v.mem
  pub blocks : AllBlocks c.chunk_size v.mem
  pub disk : c.files ≡ files_of v.first v.backlog
  pub writes : Writes (length v.dead + total v.mem) v.first c v.backlog
  pub current : c.stats.current_size ≡ total (contents v)
  pub larger : c.chunk_size < c.max_size

pub AllBlocks-append :
    (n : ℕ) (bs cs : List Text) → AllBlocks n bs → AllBlocks n cs → AllBlocks n (bs ++ cs)
AllBlocks-append n [] cs h k = k
AllBlocks-append n (b ∷ bs) cs h k = (h.0, AllBlocks-append n bs cs h.1 k)

pub AllFiles-append :
    (n : ℕ) (fs : List (List Text)) (f : List Text)
    → AllFiles n fs
    → IsFile n f
    → AllFiles n (fs ++ f ∷ [])
AllFiles-append n [] f h k = (k, tt)
AllFiles-append n (g ∷ fs) f h k = (h.0, AllFiles-append n fs f h.1 k)

pub flatten-append :
    (fs : List (List Text)) (f : List Text) → flatten (fs ++ f ∷ []) ≡ flatten fs ++ f
flatten-append [] f = append-nil f
flatten-append (g ∷ fs) f = rw (flatten-append fs f) (sym (append_assoc g (flatten fs) f))

pub numbered-append :
    (n : ℕ) (fs : List (List Text)) (f : List Text)
    → numbered n (fs ++ f ∷ []) ≡ numbered n fs ++ (n + length fs, concat f) ∷ []
numbered-append n [] f = let e : n + 0 ≡ n = omega arith in rw e refl
numbered-append n (g ∷ fs) f =
    let e : suc n + length fs ≡ n + suc (length fs) = omega arith in
    ap (◌∷◌ (n, concat g)) (numbered-append (suc n) fs f ∙ rw e refl)

pub length-append_one : {A : Type 0} (fs : List A) (f : A) → length (fs ++ f ∷ []) ≡ suc (length fs)
length-append_one fs f = omega (arith, length-append fs (f ∷ []))
