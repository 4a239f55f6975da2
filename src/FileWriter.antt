-- ===== src/FileWriter.antt =====
-- file_writer.cpp and platform/posix/file_writer_posix.cpp: a file_descriptor_writer on a file that
-- is watched. What the system answers during an operation is a parameter: the clock, in
-- nanoseconds, what file::get_writeability says, whether the directories can be made, and the
-- descriptor that open gives, if any. The state keeps the calls of open that have succeeded. Reports
-- to the status manager are left out.
pub mod Invariant
pub mod Access
pub mod Reach
pub mod Recovery
pub mod Unopened
use chucho.Base.{
  ℕ, ◌+◌, ◌*◌, ◌^◌, Bool, true, false, not, ◌&&◌, ◌||◌, List, [], ◌∷◌, ◌++◌, Option, none, some,
  Text, text_eq, if◌then◌else◌, leb,
}
use chucho.FdWriter.{
  Accepts, FdWriter, new_fd_writer, Outcome, returned, threw, unfinished, close,
  set_file_descriptor, write_text,
}

pub data Writeability : Type 0 where
  non_existent non_writeable writeable : Writeability

pub data OnStart : Type 0 where
  append truncate : OnStart

-- A call of open: O_APPEND or O_TRUNC, and O_CREAT
pub record Opening : Type 0 where
  pub name : Text
  pub appends : Bool
  pub creates : Bool

pub record System : Type 0 where
  pub now : ℕ
  pub opened_at : ℕ
  pub writeability_of : Text → Writeability
  pub creates_directories : Text → Bool
  pub descriptor : Text → Bool → Option ℕ

pub record FileWriter : Type 0 where
  pub base : FdWriter
  pub initial_file_name : Text
  pub file_name : Text
  pub start : OnStart
  pub next_access_check : ℕ
  pub writeability : Option Writeability
  pub is_open : Bool
  pub has_been_opened : Bool
  pub allow_creation : Bool
  pub openings : List Opening

abbrev pub three_seconds : ℕ
three_seconds = 3 * 10 ^ 9

abbrev pub at_end : FileWriter → Bool
at_end w = w.has_been_opened || (elim w.start [ append ↦ true | truncate ↦ false ])

-- open_impl: whether it returns, or throws, and the writer.
unfoldable pub open_impl : System → Text → FileWriter → Bool × FileWriter
unfolding set_file_descriptor
open_impl sys file_name w = elim (sys.descriptor file_name w.allow_creation) [
  | none ↦ (true, record w { is_open = false })
  | some fd ↦
      (let called = record w {
        openings =
            w.openings
            ++ record { name = file_name; appends = at_end w; creates = w.allow_creation } ∷ [];
      } in
        elim (set_file_descriptor fd w.base) [
          | none ↦ (false, called)
          | some base ↦ (true, record called { base = base; is_open = true })
        ])
]

-- What open does when open_impl has returned
abbrev pub opened : System → Bool × FileWriter → FileWriter
opened sys (false, w) = w
opened sys (true, w) =
    if w.is_open
    then record w {
      next_access_check = sys.opened_at + three_seconds;
      writeability = some writeable;
      has_been_opened = true;
    }
    else w

abbrev pub named : Text → FileWriter → FileWriter
named file_name w =
    if text_eq w.file_name file_name
    then w
    else record w { has_been_opened = false; file_name = file_name }

-- The block of open that can throw
unfoldable pub tried : System → Text → FileWriter → FileWriter
unfolding open_impl
tried sys file_name v =
    if v.allow_creation && not (sys.creates_directories file_name)
    then v
    else opened sys (open_impl sys file_name v)

unfoldable pub open_file : System → Text → FileWriter → FileWriter
unfolding tried
open_file sys file_name w = tried sys file_name (named file_name w)

-- The constructor without a file name, and that with one
unfoldable pub unopened : System → OnStart → Bool → Text → FileWriter
unfolding new_fd_writer
unopened sys start flush_each initial = record {
  base = new_fd_writer none flush_each;
  initial_file_name = initial;
  file_name = [];
  start = start;
  next_access_check = sys.now;
  writeability = none;
  is_open = false;
  has_been_opened = false;
  allow_creation = true;
  openings = [];
}

unfoldable pub new_file_writer : System → OnStart → Bool → Text → FileWriter
unfolding unopened open_file
new_file_writer sys start flush_each file_name =
    open_file sys file_name (unopened sys start flush_each file_name)

-- The branches of ensure_access
unfoldable pub closed_file : Accepts → FileWriter → FileWriter
unfolding close
closed_file accepts w = record w { base = close accepts w.base; is_open = false }

unfoldable pub lose_access : Accepts → FileWriter → FileWriter
unfolding closed_file
lose_access accepts w = elim w.writeability [
  | none ↦ w
  | some non_writeable ↦ w
  | some non_existent ↦ record (closed_file accepts w) { writeability = some non_writeable }
  | some writeable ↦ record (closed_file accepts w) { writeability = some non_writeable }
]

unfoldable pub recreate : System → FileWriter → FileWriter
unfolding open_file
recreate sys w =
    let v = open_file sys w.file_name w in
    if v.is_open then v else record v { writeability = some non_existent }

unfoldable pub reopen : System → Accepts → FileWriter → FileWriter
unfolding closed_file open_file
reopen sys accepts w =
    let v = open_file sys w.file_name (closed_file accepts w) in
    if v.is_open then v else record v { writeability = some non_writeable }

unfoldable pub regain_access : System → Accepts → FileWriter → FileWriter
unfolding reopen
regain_access sys accepts w = elim w.writeability [
  | none ↦ w
  | some writeable ↦ w
  | some non_writeable ↦ reopen sys accepts w
  | some non_existent ↦ reopen sys accepts w
]

unfoldable pub check_access : System → Accepts → FileWriter → FileWriter
unfolding lose_access recreate regain_access
check_access sys accepts w = elim (sys.writeability_of w.file_name) [
  | non_writeable ↦ lose_access accepts w
  | non_existent ↦ recreate sys w
  | writeable ↦ regain_access sys accepts w
]

unfoldable pub ensure_access : System → Accepts → FileWriter → FileWriter
unfolding check_access
ensure_access sys accepts w =
    if leb w.next_access_check sys.now
    then (let v = check_access sys accepts w in
        record v { next_access_check = v.next_access_check + three_seconds })
    else w

-- How write_impl ends: an exception of the base is thrown on as a file_exception.
pub data FileOutcome : Type 0 where
  wrote thrown : FileWriter → FileOutcome
  unended : FileOutcome

abbrev pub around : FileWriter → Outcome → FileOutcome
around w (returned base) = wrote (record w { base = base })
around w (threw base) = thrown (record w { base = base })
around w unfinished = unended

-- write_impl, with the formatter's text
unfoldable pub write_event : System → Accepts → Text → FileWriter → FileOutcome
unfolding ensure_access write_text
write_event sys accepts msg w =
    let v = ensure_access sys accepts w in
    if v.is_open then around v (write_text accepts msg v.base) else wrote v
