-- ===== src/Tests/FileWriterTests.antt =====
-- file_descriptor_writer.cpp and file_writer.cpp.
use chucho.Base.{
  ℕ, ap, ◌*◌, ◌^◌, min, ◌≡◌, refl, true, false, List, [], ◌∷◌, Option, some, none, Text, codes,
  text_eq, arith,
}
use chucho.FdWriter.{
  Accepts, FdWriter, new_fd_writer, returned, flush, set_file_descriptor, copy_some, write_loop,
  write_text,
}
use chucho.FdWriter.Delivery.{Sound, Delivered, write_text-Delivered}
use chucho.FileWriter.{
  Writeability, non_existent, non_writeable, writeable, append, truncate, System, FileWriter,
  open_impl, tried, open_file, unopened, new_file_writer, ensure_access, wrote, write_event,
}
use chucho.FileWriter.Invariant.{Keeps}
use chucho.FileWriter.Reach.{Ends, Reach, made, written}
use chucho.FileWriter.Recovery.{
  Reach-appends, base_outcome, OpenedAgain, removed, write_event-recovers,
}
use chucho.FileWriter.Unopened.{write_events, write_events_unopened}

-- A system that accepts three bytes at most at a time
abbrev three_at_most : Accepts
three_at_most k n = some (min n 3)

abbrev bytes_in : Option ℕ → ℕ
bytes_in none = 0
bytes_in (some n) = n

three_at_most-Sound : Sound three_at_most
three_at_most-Sound = record {
  bounds = λ k n rc e h. (ground (arith, ap bytes_in e), ground (arith, ap bytes_in e));
}

abbrev waiting : FdWriter
waiting = record (new_fd_writer (some 3) true) { buf = codes "ab" }

write_text-Delivered_example :
    Delivered 3 8193 waiting (codes "log") (write_text three_at_most (codes "log") waiting)
unfolding new_fd_writer
write_text-Delivered_example =
    write_text-Delivered three_at_most 3 waiting (codes "log") three_at_most-Sound refl
      (omega arith)

partial_write :
    write_text three_at_most (codes "log") waiting
    ≡ returned (record waiting { buf = codes "og"; calls = 1; sent = (3, codes "abl") ∷ [] })
unfolding write_text write_loop copy_some flush new_fd_writer
partial_write = refl

abbrev name : Text
name = codes "/tmp/log"

abbrev at_time : ℕ → Writeability → System
at_time now state = record {
  now = now;
  opened_at = now;
  writeability_of = λ file. state;
  creates_directories = λ file. true;
  descriptor = λ file creates. some 4;
}

abbrev new_writer : FileWriter
new_writer = new_file_writer (at_time 5 non_existent) truncate true name

abbrev first_write : FileWriter
first_write = record new_writer {
  base = record (new_fd_writer (some 4) true) { calls = 1; sent = (4, codes "one") ∷ [] };
}

first_written :
    write_event (at_time 6 writeable) three_at_most (codes "one") new_writer ≡ wrote first_write
unfolding write_event ensure_access write_text write_loop copy_some flush new_file_writer unopened
    new_fd_writer open_file tried open_impl set_file_descriptor text_eq
first_written = refl

first_write-Reach : Reach three_at_most truncate true name 6 first_write
unfolding write_event ensure_access write_text write_loop copy_some flush new_file_writer unopened
    new_fd_writer open_file tried open_impl set_file_descriptor text_eq
first_write-Reach =
    written (at_time 6 writeable) (codes "one") first_write
      (made (at_time 5 non_existent) (omega arith)) (omega arith) (omega arith) refl

-- The file has been removed.
Reach-appends_example :
    Ends
      (Keeps first_write)
      (write_event (at_time (10 ^ 10) non_existent) three_at_most (codes "two") first_write)
Reach-appends_example =
    Reach-appends three_at_most truncate true name (codes "two") 6 first_write
      (at_time (10 ^ 10) non_existent) three_at_most-Sound first_write-Reach (λ e. cc) (omega arith)
      (omega arith)

-- The file that has been removed is opened again.
write_event-recovers_example :
    OpenedAgain 4 first_write
      (ensure_access (at_time (10 ^ 10) non_existent) three_at_most first_write)
    × Delivered 4 8193
        (ensure_access (at_time (10 ^ 10) non_existent) three_at_most first_write).base
        (codes "two")
        (base_outcome
          (write_event (at_time (10 ^ 10) non_existent) three_at_most (codes "two") first_write))
write_event-recovers_example =
    write_event-recovers three_at_most truncate true name (codes "two") 6 3 first_write
      (at_time (10 ^ 10) non_existent) three_at_most-Sound first_write-Reach (omega arith)
      (omega arith) (removed refl) (record { directories = refl; descriptor = refl })

-- The file cannot be opened at first, and is writeable afterwards.
abbrev refused : System
refused = record (at_time 5 non_writeable) { descriptor = λ file creates. none }

abbrev writes : List (System × Text)
writes =
    (at_time (10 ^ 10) writeable, codes "one") ∷ (at_time (2 * 10 ^ 10) writeable, codes "two") ∷ []

write_events_unopened_example :
    ((write_events three_at_most writes (new_file_writer refused append true name)).is_open ≡ false)
    × ((write_events three_at_most writes (new_file_writer refused append true name)).base.sent
        ≡ [])
write_events_unopened_example =
    write_events_unopened three_at_most refused append true name writes refl refl
      ((λ e. cc), ((λ e. cc), tt))
