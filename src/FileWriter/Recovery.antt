-- ===== src/FileWriter/Recovery.antt =====
-- What a file_writer does over a series of writes.
use chucho.Base.{
  ℕ, suc, ◌+◌, ◌≤◌, ◌≡◌, ◌≢◌, refl, ap, sym, subst, Bool, true, false, not, ◌&&◌, Bool-cases, inl,
  inr, [], ◌∷◌, ◌++◌, ◌∙◌, Option, none, some, Text, leb, ltb, arith,
}
use chucho.FdWriter.{
  Accepts, Outcome, returned, threw, unfinished, buf_size, set_file_descriptor, write_text,
}
use chucho.FdWriter.Delivery.{Sound, Delivered, write_text-Delivered}
use chucho.FileWriter.{
  Writeability, non_existent, non_writeable, writeable, OnStart, System, FileWriter, three_seconds,
  at_end, open_impl, tried, open_file, closed_file, lose_access, recreate, reopen, regain_access,
  check_access, ensure_access, FileOutcome, wrote, thrown, unended, around, write_event,
}
use chucho.FileWriter.Invariant.{named_same, Keeps}
use chucho.FileWriter.Access.{Watched, next_check, ensure_access-Watched, ensure_access-Keeps}
use chucho.FileWriter.Reach.{Ends, Based-Keeps, write_event-Ends, Reach, Reach-Watched}

-- Once a descriptor has accepted bytes from a file_writer, the writer does not truncate: each file
-- that a later write_impl opens is opened with O_APPEND, whether the writer was made to append or to
-- truncate, and whatever has happened to the file in between. write_impl ends. The clock does not go
-- back, and the system accepts a byte at least of each write, or fails.
pub Reach-appends :
    (accepts : Accepts) (start : OnStart) (flush_each : Bool) (file_name msg : Text) (t : ℕ)
    (w : FileWriter) (sys : System)
    → Sound accepts
    → Reach accepts start flush_each file_name t w
    → w.base.sent ≢ []
    → t ≤ sys.now
    → sys.now ≤ sys.opened_at
    → Ends (Keeps w) (write_event sys accepts msg w)
Reach-appends accepts start flush_each file_name msg t w sys sound r some_sent after later =
    let s = Reach-Watched accepts start flush_each file_name sound t w r in
    let a =
      ensure_access-Watched sys accepts w later (t + three_seconds + three_seconds) s
        (omega arith) in
    let before : w.has_been_opened ≡ true = elim (Bool-cases w.has_been_opened) [
      | inl h ↦ h
      | inr h ↦ absurd (some_sent (s.core.fresh h).2)
    ] in
    let k = ensure_access-Keeps sys accepts w later before in
    write_event-Ends sys accepts sound w (next_check sys) (Keeps w) msg a k
      (λ d h. Based-Keeps w (ensure_access sys accepts w) d k)

-- The base's part of a write
abbrev pub base_outcome : FileOutcome → Outcome
base_outcome (wrote v) = returned v.base
base_outcome (thrown v) = threw v.base
base_outcome unended = unfinished

-- What the system lets open do with the file of a writer: it gives a descriptor above zero.
pub record Openable (sys : System) (w : FileWriter) (k : ℕ) : Type 0 where
  pub directories : sys.creates_directories w.file_name ≡ true
  pub descriptor : sys.descriptor w.file_name w.allow_creation ≡ some (suc k)

-- The file has gone, or it is writeable after it was known not to be.
pub data IsBack (sys : System) (w : FileWriter) : Type 0 where
  removed : sys.writeability_of w.file_name ≡ non_existent → IsBack sys w
  regained :
      sys.writeability_of w.file_name ≡ writeable
      → w.writeability ≢ none
      → w.writeability ≢ some writeable
      → IsBack sys w

-- A writer opens its file once more, with the flags that are due, and writes to the new descriptor.
pub record OpenedAgain (d : ℕ) (w v : FileWriter) : Type 0 where
  pub now_open : v.is_open ≡ true
  pub to_new : v.base.fd ≡ some d
  pub once_more :
      v.openings
      ≡ w.openings
        ++ record { name = w.file_name; appends = at_end w; creates = w.allow_creation } ∷ []

abbrev with_file : System → ℕ → FileWriter → FileWriter
with_file sys d w = record w {
  base = record (w.base) { fd = some d };
  openings =
      w.openings
      ++ record { name = w.file_name; appends = at_end w; creates = w.allow_creation } ∷ [];
  is_open = true;
  next_access_check = sys.opened_at + three_seconds;
  writeability = some writeable;
  has_been_opened = true;
}

open_file-Openable :
    (sys : System) (w : FileWriter) (k : ℕ)
    → Openable sys w k
    → open_file sys w.file_name w ≡ with_file sys (suc k) w
unfolding open_file tried open_impl set_file_descriptor
open_file-Openable sys w k o =
    let e = o.descriptor in
    let flag : w.allow_creation && not (sys.creates_directories w.file_name) ≡ false =
      elim (Bool-cases w.allow_creation) [
        | inl yes_create ↦ rw (yes_create, o.directories) refl
        | inr no_create ↦ rw no_create refl
      ] in
    let above : ltb (suc k) 1 ≡ false = ground arith in
    simp (open_file, named_same w, tried, flag, open_impl, e, set_file_descriptor, above)

module _ (sys : System) (accepts : Accepts) (w : FileWriter) (k : ℕ) (o : Openable sys w k) where
  recreate-Openable : recreate sys w ≡ with_file sys (suc k) w
  unfolding recreate
  recreate-Openable = simp (recreate, open_file-Openable sys w k o)

  reopen-Openable : reopen sys accepts w ≡ with_file sys (suc k) (closed_file accepts w)
  unfolding reopen closed_file
  reopen-Openable =
      let e =
        open_file-Openable sys (closed_file accepts w) k
          (record { directories = o.directories; descriptor = o.descriptor }) in
      simp (reopen, e)

  reopen-OpenedAgain : OpenedAgain (suc k) w (reopen sys accepts w)
  unfolding closed_file
  reopen-OpenedAgain =
      subst (OpenedAgain (suc k) w) (sym reopen-Openable)
        (record { now_open = refl; to_new = refl; once_more = refl })

  check_access-OpenedAgain : IsBack sys w → OpenedAgain (suc k) w (check_access sys accepts w)
  unfolding check_access regain_access
  check_access-OpenedAgain (removed e) =
      subst (OpenedAgain (suc k) w)
        (sym (
          let there : check_access sys accepts w ≡ recreate sys w = rw (check_access, e) refl in
          there ∙ recreate-Openable))
        (record { now_open = refl; to_new = refl; once_more = refl })
  check_access-OpenedAgain (regained e known other) = by_case w.writeability refl
    where
      to_regain : check_access sys accepts w ≡ regain_access sys accepts w
      to_regain =
          ap
            (λ x. elim x as (λ z. FileWriter) [
              | non_writeable ↦ lose_access accepts w
              | non_existent ↦ recreate sys w
              | writeable ↦ regain_access sys accepts w
            ])
            e

      by_known :
          (y : Option Writeability)
          → w.writeability ≡ y
          → regain_access sys accepts w ≡ elim y as (λ z. FileWriter) [
            | none ↦ w
            | some writeable ↦ w
            | some non_writeable ↦ reopen sys accepts w
            | some non_existent ↦ reopen sys accepts w
          ]
      by_known y f =
          ap
            (λ x. elim x as (λ z. FileWriter) [
              | none ↦ w
              | some writeable ↦ w
              | some non_writeable ↦ reopen sys accepts w
              | some non_existent ↦ reopen sys accepts w
            ])
            f

      by_case :
          (y : Option Writeability)
          → w.writeability ≡ y
          → OpenedAgain (suc k) w (check_access sys accepts w)
      by_case none f = absurd (known f)
      by_case (some writeable) f = absurd (other f)
      by_case (some non_writeable) f =
          subst (OpenedAgain (suc k) w) (sym (to_regain ∙ by_known (some non_writeable) f))
            reopen-OpenedAgain
      by_case (some non_existent) f =
          subst (OpenedAgain (suc k) w) (sym (to_regain ∙ by_known (some non_existent) f))
            reopen-OpenedAgain

  ensure_access-OpenedAgain :
      (limit : ℕ)
      → Watched limit w
      → limit ≤ sys.now
      → IsBack sys w
      → OpenedAgain (suc k) w (ensure_access sys accepts w)
  unfolding ensure_access
  ensure_access-OpenedAgain limit s late back =
      let due : leb w.next_access_check sys.now ≡ true = ground (arith, s.core.soon) in
      let again = check_access-OpenedAgain back in
      rw (ensure_access, due)
        (record { now_open = again.now_open; to_new = again.to_new; once_more = again.once_more })

base_outcome-around : (w : FileWriter) (o : Outcome) → base_outcome (around w o) ≡ o
base_outcome-around w (returned b) = refl
base_outcome-around w (threw b) = refl
base_outcome-around w unfinished = refl

write_event_open :
    (sys : System) (accepts : Accepts) (msg : Text) (w : FileWriter)
    → (ensure_access sys accepts w).is_open ≡ true
    → base_outcome (write_event sys accepts msg w)
      ≡ write_text accepts msg (ensure_access sys accepts w).base
unfolding write_event
write_event_open sys accepts msg w h =
    rw (write_event, h)
      (base_outcome-around (ensure_access sys accepts w)
        (write_text accepts msg (ensure_access sys accepts w).base))

-- A file_writer recovers: at a write six seconds or more after the last operation that finds that its
-- file has gone, or that it is writeable after it was known not to be, and where open gives a
-- descriptor above zero, the file is opened, once and with O_APPEND if it has been opened before or is
-- appended to on start, and the base writes to the new descriptor, as write_text-Delivered says. This
-- is so after any history of removed files and lost permissions. The clock does not go back, and the
-- system accepts a byte at least of each write, or fails.
pub write_event-recovers :
    (accepts : Accepts) (start : OnStart) (flush_each : Bool) (file_name msg : Text) (t k : ℕ)
    (w : FileWriter) (sys : System)
    → Sound accepts
    → Reach accepts start flush_each file_name t w
    → t + three_seconds + three_seconds ≤ sys.now
    → sys.now ≤ sys.opened_at
    → IsBack sys w
    → Openable sys w k
    → OpenedAgain (suc k) w (ensure_access sys accepts w)
      × Delivered
          (suc k)
          (suc buf_size)
          (ensure_access sys accepts w).base
          msg
          (base_outcome (write_event sys accepts msg w))
write_event-recovers accepts start flush_each file_name msg t k w sys sound r after later back o =
    let s = Reach-Watched accepts start flush_each file_name sound t w r in
    let a =
      ensure_access-Watched sys accepts w later (t + three_seconds + three_seconds) s
        (omega arith) in
    let again =
      ensure_access-OpenedAgain sys accepts w k o (t + three_seconds + three_seconds) s after
        back in
    (
      again,
      subst (Delivered (suc k) (suc buf_size) (ensure_access sys accepts w).base msg)
          (sym (write_event_open sys accepts msg w again.now_open))
          (write_text-Delivered accepts (suc k) (ensure_access sys accepts w).base msg sound
            again.to_new a.core.bounded),
    )
