-- ===== src/FileWriter/Unopened.antt =====
-- A file_writer whose file exists, but could not be opened when the writer was made.
use chucho.Base.{
  ◌+◌, ◌≡◌, ◌≢◌, refl, sym, ap, subst, ◌∙◌, Bool, true, false, Bool-cases, inl, inr, List, [], ◌∷◌,
  none, Text, leb,
}
use chucho.FdWriter.{Accepts, new_fd_writer}
use chucho.FileWriter.{
  Writeability, non_existent, non_writeable, writeable, OnStart, System, FileWriter, three_seconds,
  open_impl, tried, open_file, unopened, new_file_writer, lose_access, regain_access, check_access,
  ensure_access, FileOutcome, wrote, thrown, unended, write_event,
}
use chucho.FileWriter.Invariant.{named_same}
use chucho.FileWriter.Reach.{nameless, new_file_writer-open_file}

-- A series of writes; an exception of one goes to the caller, and the next is made.
abbrev then_state : FileOutcome → FileWriter → FileWriter
then_state (wrote v) w = v
then_state (thrown v) w = v
then_state unended w = w

pub write_events : Accepts → List (System × Text) → FileWriter → FileWriter
write_events accepts [] w = w
write_events accepts ((sys, msg) ∷ calls) w =
    write_events accepts calls (then_state (write_event sys accepts msg w) w)

abbrev pub AlwaysThere : Text → List (System × Text) → Type 0
AlwaysThere file_name [] = Unit
AlwaysThere file_name ((sys, msg) ∷ calls) =
    (sys.writeability_of file_name ≢ non_existent) × AlwaysThere file_name calls

record Shut (file_name : Text) (w : FileWriter) : Type 0 where
  same_name : w.file_name ≡ file_name
  unknown : w.writeability ≡ none
  not_open : w.is_open ≡ false
  nothing : w.base.sent ≡ []

check_access-Shut :
    (sys : System) (accepts : Accepts) (file_name : Text) (w : FileWriter)
    → Shut file_name w
    → sys.writeability_of file_name ≢ non_existent
    → check_access sys accepts w ≡ w
unfolding check_access lose_access regain_access
check_access-Shut sys accepts file_name w s h = by_answer (sys.writeability_of w.file_name) refl
  where
    by_answer :
        (x : Writeability) → sys.writeability_of w.file_name ≡ x → check_access sys accepts w ≡ w
    by_answer non_existent e = absurd (h (ap sys.writeability_of (sym s.same_name) ∙ e))
    by_answer non_writeable e = simp (check_access, e, lose_access, s.unknown)
    by_answer writeable e = simp (check_access, e, regain_access, s.unknown)

ensure_access-Shut :
    (sys : System) (accepts : Accepts) (file_name : Text) (w : FileWriter)
    → Shut file_name w
    → sys.writeability_of file_name ≢ non_existent
    → Shut file_name (ensure_access sys accepts w)
unfolding ensure_access
ensure_access-Shut sys accepts file_name w s h =
    elim (Bool-cases (leb w.next_access_check sys.now)) [
      | inl due ↦
          rw (ensure_access, due)
            (subst
              (λ v.
                Shut file_name
                  (record v { next_access_check = v.next_access_check + three_seconds }))
              (sym (check_access-Shut sys accepts file_name w s h))
              (record {
                same_name = s.same_name;
                unknown = s.unknown;
                not_open = s.not_open;
                nothing = s.nothing;
              }))
      | inr early ↦ rw (ensure_access, early) s
    ]

write_events-Shut :
    (accepts : Accepts) (file_name : Text) (calls : List (System × Text)) (w : FileWriter)
    → Shut file_name w
    → AlwaysThere file_name calls
    → Shut file_name (write_events accepts calls w)
unfolding write_events write_event
write_events-Shut accepts file_name [] w s h = s
write_events-Shut accepts file_name ((sys, msg) ∷ calls) w s h =
    let s' = ensure_access-Shut sys accepts file_name w s h.0 in
    let done : write_event sys accepts msg w ≡ wrote (ensure_access sys accepts w) =
      simp (write_event, s'.not_open) in
    subst (λ o. Shut file_name (write_events accepts calls (then_state o w))) (sym done)
      (write_events-Shut accepts file_name calls (ensure_access sys accepts w) s' h.1)

new_file_writer-Shut :
    (sys : System) (start : OnStart) (flush_each : Bool) (file_name : Text)
    → sys.creates_directories file_name ≡ true
    → sys.descriptor file_name true ≡ none
    → Shut file_name (new_file_writer sys start flush_each file_name)
unfolding unopened new_fd_writer open_file tried open_impl
new_file_writer-Shut sys start flush_each file_name made refused =
    let u = nameless sys start flush_each file_name in
    let done : open_file sys file_name u ≡ record u { is_open = false } =
      simp (open_file, named_same u, tried, made, open_impl, refused) in
    subst (Shut file_name) (sym (new_file_writer-open_file sys start flush_each file_name ∙ done))
      (record { same_name = refl; unknown = refl; not_open = refl; nothing = refl })

-- A file_writer whose open gave no descriptor when it was made never opens its file as long as the
-- file is there: whatever the permissions become and however much is written, at whatever times, no
-- descriptor accepts a byte, and the writer is not open.
pub write_events_unopened :
    (accepts : Accepts) (sys : System) (start : OnStart) (flush_each : Bool) (file_name : Text)
    (calls : List (System × Text))
    → sys.creates_directories file_name ≡ true
    → sys.descriptor file_name true ≡ none
    → AlwaysThere file_name calls
    → ((write_events accepts calls (new_file_writer sys start flush_each file_name)).is_open
        ≡ false)
      × ((write_events accepts calls (new_file_writer sys start flush_each file_name)).base.sent
          ≡ [])
write_events_unopened accepts sys start flush_each file_name calls made refused there =
    let s =
      write_events-Shut accepts file_name calls (new_file_writer sys start flush_each file_name)
        (new_file_writer-Shut sys start flush_each file_name made refused) there in
    (s.not_open, s.nothing)
