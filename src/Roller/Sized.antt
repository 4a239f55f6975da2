-- ===== src/Roller/Sized.antt =====
-- rolling_file_writer.cpp and size_file_roll_trigger.cpp over a numbered_file_roller: a roll before a
-- write where the file has its size. The file system accepts every byte, and nothing else touches the
-- files, so the watching of file_writer has nothing to do. What the descriptor has accepted stands
-- in the active file.
pub mod Written
pub mod Kept
use chucho.Base.{
  ℕ, zero, suc, Bool, true, false, List, [], ◌∷◌, ◌++◌, Option, none, some, Text, if◌then◌else◌,
  leb, length,
}
use chucho.FdWriter.{
  Accepts, FdWriter, new_fd_writer, Outcome, returned, threw, unfinished, close,
  set_file_descriptor, write_text,
}
use chucho.FdWriter.Delivery.{bytes_to}
use chucho.Roller.{active, Files, put, Roller, roll}

abbrev pub accepts_all : Accepts
accepts_all calls n = some n

pub record RollingWriter : Type 0 where
  pub base : FdWriter
  pub files : Files

abbrev pub content_of : Option Text → Text
content_of none = []
content_of (some content) = content

-- What has been accepted goes to the active file.
abbrev pub settle : ℕ → RollingWriter → RollingWriter
settle d w = record {
  base = record (w.base) { sent = [] };
  files = put active (some (content_of (w.files active) ++ bytes_to d w.base.sent)) w.files;
}

-- size_file_roll_trigger::is_triggered; a file that is not there is an exception, which it catches
unfoldable pub size_is_triggered : ℕ → Files → Bool
size_is_triggered max_size files = elim (files active) [
  | none ↦ false
  | some content ↦ leb max_size (length content)
]

-- open of the active file, in the mode that appends
unfoldable pub open_active : ℕ → Files → FdWriter → Option RollingWriter
unfolding set_file_descriptor
open_active d files base = elim (set_file_descriptor d base) [
  | none ↦ none
  | some v ↦ some (record { base = v; files = put active (some (content_of (files active))) files })
]

-- `close(); roller_->roll(); open(roller_->get_active_file_name());`
unfoldable pub roll_writer : (Text → Text) → Roller → ℕ → RollingWriter → Option RollingWriter
unfolding close open_active
roll_writer packed r d w =
    let closed = settle d (record w { base = close accepts_all w.base }) in
    elim (roll packed r closed.files) [ none ↦ none | some files ↦ open_active d files closed.base ]

-- file_writer::write_impl
unfoldable pub write_active : ℕ → Text → RollingWriter → Option RollingWriter
unfolding write_text
write_active d msg w = elim (write_text accepts_all msg w.base) [
  | returned v ↦ some (settle d (record w { base = v }))
  | threw v ↦ none
  | unfinished ↦ none
]

-- write_impl; `none` is an exception
unfoldable pub write_sized :
    (Text → Text) → Roller → ℕ → ℕ → Text → RollingWriter → Option RollingWriter
unfolding size_is_triggered roll_writer write_active
write_sized packed r max_size d msg w =
    if size_is_triggered max_size w.files
    then elim (roll_writer packed r d w) [ none ↦ none | some rolled ↦ write_active d msg rolled ]
    else write_active d msg w

unfoldable pub write_sized_each :
    (Text → Text) → Roller → ℕ → ℕ → List Text → RollingWriter → Option RollingWriter
unfolding write_sized
write_sized_each packed r max_size d [] w = some w
write_sized_each packed r max_size d (msg ∷ msgs) w = elim (write_sized packed r max_size d msg w) [
  | none ↦ none
  | some v ↦ write_sized_each packed r max_size d msgs v
]

-- A writer that has opened the active file where no files were
unfoldable pub new_rolling_writer : ℕ → Bool → RollingWriter
unfolding new_fd_writer
new_rolling_writer d flush_each = record {
  base = new_fd_writer (some d) flush_each;
  files = put active (some []) (λ n. none);
}
