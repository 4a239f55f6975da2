-- ===== src/Roller/Sliding.antt =====
-- sliding_numbered_file_roller.hpp and sliding_numbered_file_roller.cpp. An index is counted from
-- min_index_ - 1, the file without a number, which is `numbered 0`. Indices and the count do not reach
-- the limits of an int.
pub mod Window
use chucho.Base.{
  ℕ, zero, suc, ◌+◌, ◌-◌, Bool, true, false, ◌&&◌, Option, none, some, Text, if◌then◌else◌, leb,
}
use chucho.Roller.{Name, numbered, Files, put, remove, exists, compress}

-- The compressor is known by its min_index.
pub record SlidingRoller : Type 0 where
  pub max_count : ℕ
  pub compressor : Option ℕ
  pub cur_index : ℕ

pub is_packed : SlidingRoller → ℕ → Bool
is_packed r k = elim r.compressor [ none ↦ false | some least ↦ leb (k + least) r.cur_index ]

pub get_file_name : SlidingRoller → ℕ → Bool → Name
unfolding is_packed
get_file_name r k with_compression_ext = numbered k (with_compression_ext && is_packed r k)

pub get_active_file_name : SlidingRoller → Name
unfolding get_file_name
get_active_file_name r = get_file_name r r.cur_index false

-- The first part of roll, behind the increment of the index
pub remove_oldest : SlidingRoller → Files → Files
unfolding get_file_name remove
remove_oldest r files =
    if leb r.max_count r.cur_index
    then remove (get_file_name r (r.cur_index - r.max_count) true) files
    else files

-- The second part; `none` is an exception of the compressor.
pub compress_next : (Text → Text) → SlidingRoller → Files → Option Files
unfolding get_file_name exists compress
compress_next packed r files = elim r.compressor [
  | none ↦ some files
  | some least ↦
      if leb least r.cur_index && exists (get_file_name r (r.cur_index - least) false) files
      then compress packed (r.cur_index - least) files
      else some files
]

pub slide : (Text → Text) → SlidingRoller → Files → SlidingRoller × Option Files
unfolding remove_oldest compress_next
slide packed r files =
    let next = record r { cur_index = r.cur_index + 1 } in
    (next, compress_next packed next (remove_oldest next files))

-- What a rolling_file_writer does: it closes the active file, rolls, and opens and fills the next
-- active file. `content` has the whole of each file.
pub filled : (ℕ → Text) → SlidingRoller × Option Files → SlidingRoller × Option Files
unfolding get_active_file_name put
filled content (r, none) = (r, none)
filled content (r, some g) = (r, some (put (get_active_file_name r) (some (content r.cur_index)) g))

pub rolled_once :
    (Text → Text) → (ℕ → Text) → SlidingRoller × Option Files → SlidingRoller × Option Files
unfolding slide filled
rolled_once packed content (r, none) = (r, none)
rolled_once packed content (r, some files) = filled content (slide packed r files)

pub fill : (Text → Text) → (ℕ → Text) → SlidingRoller → ℕ → SlidingRoller × Option Files
unfolding rolled_once filled
fill packed content r zero = filled content (r, some (λ m. none))
fill packed content r (suc n) = rolled_once packed content (fill packed content r n)
