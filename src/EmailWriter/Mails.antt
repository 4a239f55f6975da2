-- ===== src/EmailWriter/Mails.antt =====
-- What an email_writer sends.
use chucho.Base.{
  ℕ, suc, ◌+◌, ◌-◌, ◌≤◌, ◌<◌, ◌≡◌, refl, sym, ap, ◌∙◌, Bool, true, false, List, [], ◌∷◌, ◌++◌,
  append-nil, append_assoc, none, some, Text, arith, if◌then◌else◌, leb, length, drop, keep_last,
  length-keep_last, length-append, drop-append, drop_all, drop-drop, Bool-cases, inl, inr,
}
use chucho.Event.{Event}
use chucho.Pattern.{parse}
use chucho.Pattern.Format.{format}
use chucho.EmailWriter.{
  Mail, EmailWriter, new_email_writer, format_message, make_room, push_event, write_mail,
  write_mails,
}

-- The runs of events that end with one that triggers, and what is left after the last of them
abbrev pub runs : (Event → Bool) → List Event → List Event → List (Event × List Event)
runs triggers pending [] = []
runs triggers pending (e ∷ es) =
    let rest = runs triggers [] es in
    let longer = runs triggers (pending ++ (e ∷ [])) es in
    if triggers e then (e, pending ++ (e ∷ [])) ∷ rest else longer

abbrev pub left_over : (Event → Bool) → List Event → List Event → List Event
left_over triggers pending [] = pending
left_over triggers pending (e ∷ es) =
    let rest = left_over triggers [] es in
    let longer = left_over triggers (pending ++ (e ∷ [])) es in if triggers e then rest else longer

-- The mail of each run, as far as format_message gives one
abbrev pub mails : Mail → ℕ → List (Event × List Event) → List Text
mails m max [] = []
mails m max ((e, run) ∷ rest) =
    (elim (format_message m e (keep_last max run)) [ none ↦ [] | some message ↦ message ∷ [] ])
    ++ mails m max rest

make_room-drop :
    (max : ℕ) (q : List Event) → 0 < max → make_room max q ≡ some (drop (length q + 1 - max) q)
unfolding make_room
make_room-drop max [] h =
    let wide : leb max 0 ≡ false = ground arith in
    rw wide (ap some (sym (drop_all (0 + 1 - max) [] (omega arith))))
make_room-drop max (e ∷ q) h = elim (Bool-cases (leb max (length (e ∷ q)))) [
  | inl more ↦
      let k : suc (length q) + 1 - max ≡ suc (length q + 1 - max) = ground arith in
      rw (more, k) (make_room-drop max q h)
  | inr fits ↦ let k : suc (length q) + 1 - max ≡ 0 = ground arith in rw (fits, k) refl
]

push_event-keep_last :
    (max : ℕ) (e : Event) (pending : List Event)
    → 0 < max
    → push_event max e (keep_last max pending) ≡ some (keep_last max (pending ++ (e ∷ [])))
unfolding push_event
push_event-keep_last max e pending h =
    let k : length pending - max + (length (keep_last max pending) + 1 - max)
        ≡ length (pending ++ (e ∷ [])) - max =
      omega (arith, length-keep_last max pending, length-append pending (e ∷ [])) in
    let inside : length (pending ++ (e ∷ [])) - max ≤ length pending =
      omega (arith, length-append pending (e ∷ [])) in
    rw (push_event, make_room-drop max (keep_last max pending) h)
      (ap (λ q. some (q ++ (e ∷ [])))
          (drop-drop (length (keep_last max pending) + 1 - max) (length pending - max) pending
            ∙ ap (λ n. drop n pending) k)
        ∙ ap some (sym (drop-append (length (pending ++ (e ∷ [])) - max) pending (e ∷ []) inside)))

-- The writer with the last of some events waiting
abbrev with_last : ℕ → List Event → List Text → EmailWriter
with_last max pending sent = record { evts = keep_last max pending; max = max; sent = sent }

write_mail_quiet :
    (m : Mail) (max : ℕ) (e : Event) (pending : List Event) (sent : List Text)
    → 0 < max
    → m.is_triggered e ≡ false
    → write_mail m e (with_last max pending sent)
      ≡ some (true, with_last max (pending ++ (e ∷ [])) sent)
unfolding write_mail
write_mail_quiet m max e pending sent h t =
    rw (write_mail, push_event-keep_last max e pending h, t) refl

write_mail_triggered :
    (m : Mail) (max : ℕ) (e : Event) (pending : List Event) (sent : List Text) (message : Text)
    → 0 < max
    → m.is_triggered e ≡ true
    → m.performs message ≡ true
    → format_message m e (keep_last max (pending ++ (e ∷ []))) ≡ some message
    → write_mail m e (with_last max pending sent)
      ≡ some (true, with_last max [] (sent ++ (message ∷ [])))
unfolding write_mail
write_mail_triggered m max e pending sent message h t ok made =
    let none_kept : ◌≡◌ {A = List Event} (drop (0 - max) []) [] =
      drop_all (0 - max) [] (omega arith) in
    simp (write_mail, push_event-keep_last max e pending h, t, made, ok, none_kept)

format_message-some :
    (m : Mail) (e : Event) (evts : List Event) (subject : Text)
    → format (m.env e) (parse m.valid_regex m.subject) e ≡ some subject
    → (message : Text) × (format_message m e evts ≡ some message)
unfolding format_message
format_message-some m e evts subject h = rw (format_message, h) (_, refl)

write_mails_from :
    (m : Mail) (max : ℕ) (es pending : List Event) (sent : List Text)
    → 0 < max
    → ((e : Event)
        → (subject : Text) × (format (m.env e) (parse m.valid_regex m.subject) e ≡ some subject))
    → ((message : Text) → m.performs message ≡ true)
    → write_mails m es (with_last max pending sent)
      ≡ some (
          with_last max
            (left_over m.is_triggered pending es)
            (sent ++ mails m max (runs m.is_triggered pending es)))
unfolding write_mails
write_mails_from m max [] pending sent h f ok = simp append-nil
write_mails_from m max (e ∷ es) pending sent h f ok = elim (Bool-cases (m.is_triggered e)) [
  | inl t ↦
      let (message, made) =
        format_message-some m e (keep_last max (pending ++ (e ∷ []))) (f e).0 (f e).1 in
      rw
        (
          write_mails,
          write_mail_triggered m max e pending sent message h t (ok message) made,
          t,
          made,
        )
        (write_mails_from m max es [] (sent ++ (message ∷ [])) h f ok ∙ simp append_assoc)
  | inr t ↦
      rw (write_mails, write_mail_quiet m max e pending sent h t, t)
        (write_mails_from m max es (pending ++ (e ∷ [])) sent h f ok)
]

-- An email_writer sends a mail for each event that triggers, made at that event of the last max events
-- since the mail before it, or of all of them if they are fewer; the events after the last mail wait, the
-- last max of them. max is above zero, each mail is sent, and the subject's pattern formats every event.
pub write_mails_runs :
    (m : Mail) (max : ℕ) (es : List Event)
    → 0 < max
    → ((e : Event)
        → (subject : Text) × (format (m.env e) (parse m.valid_regex m.subject) e ≡ some subject))
    → ((message : Text) → m.performs message ≡ true)
    → write_mails m es (new_email_writer max)
      ≡ some (record {
        evts = keep_last max (left_over m.is_triggered [] es);
        max = max;
        sent = mails m max (runs m.is_triggered [] es);
      })
unfolding new_email_writer
write_mails_runs m max es h f ok =
    let none_kept : ◌≡◌ {A = List Event} [] (drop (0 - max) []) =
      sym (drop_all (0 - max) [] (omega arith)) in
    ap (λ q. write_mails m es (record { evts = q; max = max; sent = [] })) none_kept
    ∙ write_mails_from m max es [] [] h f ok
