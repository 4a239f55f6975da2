-- ===== src/Roller.antt =====
-- numbered_file_roller.hpp and numbered_file_roller.cpp: what a roll does to the files.
-- A name is the active file's, or that of the number min_index + k, with or without the compressor's
-- extension; names of different numbers are different texts. A directory is a function from names to
-- contents. The compressor's effect on a content is a parameter; it replaces the file by one with
-- its extension. Calls of the operating system that fail are not modelled: std::rename of a file that
-- is not there does nothing, file::remove of one does nothing, and a compressor throws.
pub mod Shift
pub mod Rolled
pub mod Sliding
pub mod Sized
pub mod TimeNames
use chucho.Base.{
  ℕ, zero, suc, ◌+◌, Bool, true, false, not, ◌&&◌, Option, none, some, Text, if◌then◌else◌, leb,
  ◌==◌,
}

pub data Name : Type 0 where
  active : Name
  numbered : ℕ → Bool → Name

abbrev pub same_bool : Bool → Bool → Bool
same_bool true b = b
same_bool false b = not b

pub same_name : Name → Name → Bool
same_name active active = true
same_name active (numbered k z) = false
same_name (numbered k z) active = false
same_name (numbered k z) (numbered j y) = k == j && same_bool z y

abbrev pub Files : Type 0
Files = Name → Option Text

pub put : Name → Option Text → Files → Files
unfolding same_name
put n content files m = if same_name n m then content else files m

-- file::remove
pub remove : Name → Files → Files
unfolding put
remove n files = put n none files

-- file::exists
pub exists : Name → Files → Bool
exists n files = elim (files n) [ none ↦ false | some content ↦ true ]

-- std::rename
pub rename : Name → Name → Files → Files
unfolding put
rename from to files = elim (files from) [
  | none ↦ files
  | some content ↦ put to (some content) (put from none files)
]

-- The roller: max_index - min_index, and the compressor's min_index if there is a compressor.
pub record Roller : Type 0 where
  pub last : ℕ
  pub compressor : Option ℕ

pub is_compressed : Roller → ℕ → Bool
is_compressed r k = elim r.compressor [ none ↦ false | some least ↦ leb least (k + 1) ]

pub get_name : Roller → ℕ → Name
unfolding is_compressed
get_name r k = numbered k (is_compressed r k)

-- gzip_file_compressor::compress, of the file of a number: it makes a file with the extension and
-- removes the one that it has read. `none` is its exception.
pub compress : (Text → Text) → ℕ → Files → Option Files
unfolding put
compress packed k files = elim (files (numbered k false)) [
  | none ↦ none
  | some content ↦
      some (put (numbered k false) none (put (numbered k true) (some (packed content)) files))
]

-- The body of the loop, at i = k + 1.
pub move_up : (Text → Text) → Roller → ℕ → Files → Option Files
unfolding get_name exists rename compress
move_up packed r k files =
    if exists (get_name r k) files
    then (if not (is_compressed r k) && is_compressed r (suc k)
        then compress packed (suc k) (rename (get_name r k) (numbered (suc k) false) files)
        else some (rename (get_name r k) (get_name r (suc k)) files))
    else some files

-- The loop from i = k down
pub shift : (Text → Text) → Roller → ℕ → Files → Option Files
unfolding move_up
shift packed r zero files = some files
shift packed r (suc k) files = elim (move_up packed r k files) [
  | none ↦ none
  | some moved ↦ shift packed r k moved
]

-- What stands behind the loop
pub roll_active : (Text → Text) → Roller → Files → Option Files
unfolding rename compress is_compressed
roll_active packed r files =
    let renamed = rename active (numbered 0 false) files in
    if is_compressed r 0 then compress packed 0 renamed else some renamed

-- roll; `none` is the exception that it throws.
pub roll : (Text → Text) → Roller → Files → Option Files
unfolding shift roll_active remove get_name
roll packed r files = elim (shift packed r r.last (remove (get_name r r.last) files)) [
  | none ↦ none
  | some shifted ↦ roll_active packed r shifted
]
