-- ===== src/QueueWriter/Batches.antt =====
-- What a message_queue_writer sends.
use chucho.Base.{
  ℕ, ◌+◌, ◌%◌, ◌^◌, ◌≤◌, ◌<◌, ◌≡◌, refl, sym, ap, ◌∙◌, true, false, inl, inr, ◌⊎◌, List, [], ◌∷◌,
  ◌++◌, map, append-nil, append_assoc, Text, arith, length, ◌==◌,
}
use chucho.QueueWriter.{
  serialize_message, finish_blob, QueueWriter, Line, new_queue_writer, compressed, flush_queue,
  write_message, write_messages,
}

-- Texts that each have a line end before them
abbrev pub followed : Text → List Text → Text
followed eol [] = []
followed eol (msg ∷ msgs) = eol ++ (msg ++ followed eol msgs)

-- The texts of some events with a line end between two that follow: the empty texts in front of the
-- first one that is not empty are left out, with their line ends.
abbrev pub joined : Text → List Text → Text
joined eol [] = []
joined eol ([] ∷ msgs) = joined eol msgs
joined eol ((c ∷ msg) ∷ msgs) = (c ∷ msg) ++ followed eol msgs

-- The blob that the serializer makes
abbrev blob_from : Text → Text → List Text → Text
blob_from eol events [] = events
blob_from eol events (msg ∷ msgs) = blob_from eol (serialize_message eol msg events) msgs

blob_from_some :
    (eol : Text) (c : ℕ) (events : Text) (msgs : List Text)
    → blob_from eol (c ∷ events) msgs ≡ (c ∷ events) ++ followed eol msgs
unfolding serialize_message
blob_from_some eol c events [] = sym (append-nil (c ∷ events))
blob_from_some eol c events (msg ∷ msgs) =
    blob_from_some eol c (events ++ (eol ++ msg)) msgs
    ∙ (append_assoc (c ∷ events) (eol ++ msg) (followed eol msgs)
        ∙ ap (λ l. (c ∷ events) ++ l) (append_assoc eol msg (followed eol msgs)))

blob_from-joined : (eol : Text) (msgs : List Text) → blob_from eol [] msgs ≡ joined eol msgs
unfolding serialize_message
blob_from-joined eol [] = refl
blob_from-joined eol ([] ∷ msgs) = blob_from-joined eol msgs
blob_from-joined eol ((c ∷ msg) ∷ msgs) = blob_from_some eol c msg msgs

blob_from-joined_each : (eol : Text) → (λ (b : List Text). blob_from eol [] b) ≡ joined eol
blob_from-joined_each eol = λ i b. blob_from-joined eol b i

-- Batches that are full, put together
abbrev pub flat : List (List Text) → List Text
flat [] = []
flat (b ∷ bs) = b ++ flat bs

abbrev pub AllFull : ℕ → List (List Text) → Type 0
AllFull n [] = Unit
AllFull n (b ∷ bs) = (length b ≡ n) × AllFull n bs

write_messages-append :
    (line : Line) (a b : List Text) (w : QueueWriter)
    → write_messages line (a ++ b) w ≡ write_messages line b (write_messages line a w)
unfolding write_messages
write_messages-append line [] b w = refl
write_messages-append line (msg ∷ a) b w =
    write_messages-append line a b (write_message line msg w).1

-- A write that does not come to the maximum
abbrev pub counted : Line → Text → QueueWriter → QueueWriter
counted line msg w = record w {
  events = serialize_message line.eol msg w.events;
  number_coalesced = w.number_coalesced + 1;
}

write_message_counts :
    (line : Line) (msg : Text) (w : QueueWriter)
    → w.number_coalesced + 1 < 2 ^ 64
    → (w.number_coalesced + 1 == w.coalesce_max) ≡ false
    → write_message line msg w ≡ (true, counted line msg w)
unfolding write_message
write_message_counts line msg w small other =
    let same : (w.number_coalesced + 1) % 2 ^ 64 ≡ w.number_coalesced + 1 = omega arith in
    simp (write_message, same, other)

write_message_fills :
    (line : Line) (msg : Text) (w : QueueWriter)
    → w.coalesce_max < 2 ^ 64
    → w.number_coalesced + 1 ≡ w.coalesce_max
    → write_message line msg w ≡ flush_queue line (counted line msg w)
unfolding write_message
write_message_fills line msg w small full =
    let same : (w.number_coalesced + 1) % 2 ^ 64 ≡ w.number_coalesced + 1 = omega arith in
    let now : (w.number_coalesced + 1 == w.coalesce_max) ≡ true = ground arith in
    simp (write_message, same, now)

-- Events that do not come to the maximum wait in the blob, or behind one that was not sent.
write_messages_waiting :
    (line : Line) (msgs : List Text) (w : QueueWriter)
    → w.number_coalesced + length msgs < 2 ^ 64
    → ((w.number_coalesced + length msgs < w.coalesce_max) ⊎ (w.coalesce_max ≤ w.number_coalesced))
    → write_messages line msgs w ≡ record w {
      events = blob_from line.eol w.events msgs;
      number_coalesced = w.number_coalesced + length msgs;
    }
unfolding write_messages
write_messages_waiting line [] w small quiet =
    ap (λ n. record w { number_coalesced = n }) (omega arith)
write_messages_waiting line (msg ∷ msgs) w small quiet =
    let other : (w.number_coalesced + 1 == w.coalesce_max) ≡ false = ground arith in
    ap (λ r. write_messages line msgs r.1) (write_message_counts line msg w (omega arith) other)
    ∙ (write_messages_waiting line msgs (counted line msg w) (omega arith) (ground arith)
        ∙ ap
            (λ n. record w {
              events = blob_from line.eol (serialize_message line.eol msg w.events) msgs;
              number_coalesced = n;
            })
            (omega arith))

-- A batch that fills the blob
abbrev with_blob : QueueWriter → Text → ℕ → QueueWriter
with_blob w events n = record w { events = events; number_coalesced = n }

write_messages_full :
    (line : Line) (msgs : List Text) (w : QueueWriter)
    → w.coalesce_max < 2 ^ 64
    → w.number_coalesced + length msgs ≡ w.coalesce_max
    → w.number_coalesced < w.coalesce_max
    → write_messages line msgs w
      ≡ (flush_queue line (record w {
        events = blob_from line.eol w.events msgs;
        number_coalesced = w.coalesce_max;
      })).1
unfolding write_messages
write_messages_full line [] w small full more = absurd (omega arith)
write_messages_full line (msg ∷ []) w small full more =
    let now : w.number_coalesced + 1 ≡ w.coalesce_max = omega arith in
    ap (λ r. r.1) (write_message_fills line msg w small now)
    ∙ ap
        (λ n.
          (flush_queue line (record w {
            events = serialize_message line.eol msg w.events;
            number_coalesced = n;
          })).1)
        now
write_messages_full line (msg ∷ next ∷ msgs) w small full more =
    let other : (w.number_coalesced + 1 == w.coalesce_max) ≡ false = ground arith in
    ap (λ r. write_messages line (next ∷ msgs) r.1)
      (write_message_counts line msg w (omega arith) other)
    ∙ write_messages_full line (next ∷ msgs) (counted line msg w) small (omega arith) (omega arith)

abbrev idle : ℕ → ℕ → List Text → QueueWriter
idle m calls sent = record {
  events = [];
  coalesce_max = m;
  number_coalesced = 0;
  calls = calls;
  sent = sent;
}

-- The writer behind full batches and the rest of one, from an idle writer
abbrev behind : Line → ℕ → List (List Text) → List Text → ℕ → List Text → QueueWriter
behind line m full rest calls sent = record {
  events = blob_from line.eol [] rest;
  coalesce_max = m;
  number_coalesced = length rest;
  calls = calls + length full;
  sent = sent ++ map (λ b. compressed line.compressor (blob_from line.eol [] b)) full;
}

same_writer :
    (e : Text) (m : ℕ) {n n' c c' : ℕ} {s s' : List Text}
    → n ≡ n'
    → c ≡ c'
    → s ≡ s'
    → (let left : QueueWriter = record {
      events = e;
      coalesce_max = m;
      number_coalesced = n;
      calls = c;
      sent = s;
    } in
        left)
      ≡ record { events = e; coalesce_max = m; number_coalesced = n'; calls = c'; sent = s' }
same_writer e m p q r = cc

module _ (line : Line) (m : ℕ) (some_max : 0 < m) (small : m < 2 ^ 64) where
  -- A full batch that is sent, or not
  full_batch-sent :
      (b : List Text) (calls : ℕ) (sent : List Text)
      → length b ≡ m
      → line.delivers calls ≡ true
      → write_messages line b (idle m calls sent)
        ≡ idle m (calls + 1) (sent ++ compressed line.compressor (blob_from line.eol [] b) ∷ [])
  unfolding flush_queue finish_blob
  full_batch-sent b calls sent f ok =
      write_messages_full line b (idle m calls sent) small (omega arith) some_max
      ∙ simp (flush_queue, finish_blob, ok)

  full_batch-failed :
      (b : List Text) (calls : ℕ) (sent : List Text)
      → length b ≡ m
      → line.delivers calls ≡ false
      → write_messages line b (idle m calls sent)
        ≡ record (idle m (calls + 1) sent) { number_coalesced = m }
  unfolding flush_queue finish_blob
  full_batch-failed b calls sent f no_send =
      write_messages_full line b (idle m calls sent) small (omega arith) some_max
      ∙ simp (flush_queue, finish_blob, no_send)

  idle_batches :
      (full : List (List Text)) (rest : List Text) (calls : ℕ) (sent : List Text)
      → ((k : ℕ) → calls ≤ k → k < calls + length full → line.delivers k ≡ true)
      → AllFull m full
      → length rest < m
      → write_messages line (flat full ++ rest) (idle m calls sent)
        ≡ behind line m full rest calls sent
  idle_batches [] rest calls sent ok f few =
      write_messages_waiting line rest (idle m calls sent) (omega arith) (inl (omega arith))
      ∙ same_writer (blob_from line.eol [] rest) m (omega arith) (omega arith)
          (sym (append-nil sent))
  idle_batches (b ∷ bs) rest calls sent ok f few =
      let first = full_batch-sent b calls sent f.0 (ok calls (omega arith) (omega arith)) in
      ap (λ l. write_messages line l (idle m calls sent)) (append_assoc b (flat bs) rest)
      ∙ (write_messages-append line b (flat bs ++ rest) (idle m calls sent)
          ∙ (ap (write_messages line (flat bs ++ rest)) first
              ∙ (idle_batches bs rest (calls + 1)
                    (sent ++ compressed line.compressor (blob_from line.eol [] b) ∷ [])
                    (λ k low high. ok k (omega arith) (omega arith)) f.1 few
                  ∙ same_writer (blob_from line.eol [] rest) m refl (omega arith) (
                      append_assoc sent (compressed line.compressor (blob_from line.eol [] b) ∷ [])
                        (map (λ l. compressed line.compressor (blob_from line.eol [] l)) bs)))))

-- A new message_queue_writer whose sends succeed sends a blob for each full batch of coalesce_max
-- events, in order, with the formatter's texts in it and a line end between two of them, compressed
-- if there is a compressor; the events of a batch that is not full wait, put together in the same
-- way. A batch's empty texts in front of its first one that is not empty leave no line end.
-- coalesce_max is above zero, and a std::size_t.
pub write_messages_batches :
    (line : Line) (coalesce_max : ℕ) (full : List (List Text)) (rest : List Text)
    → ((k : ℕ) → line.delivers k ≡ true)
    → 0 < coalesce_max
    → coalesce_max < 2 ^ 64
    → AllFull coalesce_max full
    → length rest < coalesce_max
    → write_messages line (flat full ++ rest) (new_queue_writer coalesce_max) ≡ record {
      events = joined line.eol rest;
      coalesce_max = coalesce_max;
      number_coalesced = length rest;
      calls = length full;
      sent = map (λ b. compressed line.compressor (joined line.eol b)) full;
    }
unfolding new_queue_writer
write_messages_batches line m full rest ok some_max small f few =
    idle_batches line m some_max small full rest 0 [] (λ k low high. ok k) f few
    ∙ (ap (λ n. record (behind line m full rest 0 []) { calls = n }) (omega arith)
        ∙ ap
            (λ blob.
              let left : QueueWriter = record {
                events = blob rest;
                coalesce_max = m;
                number_coalesced = length rest;
                calls = length full;
                sent = map (λ b. compressed line.compressor (blob b)) full;
              } in
              left)
            (blob_from-joined_each line.eol))

-- Once the send of a full batch has failed, after any number of batches that were sent, a
-- message_queue_writer does not send again: the batch is lost, and whatever is written afterwards
-- waits, up to 2^64 events with the batch's, whether or not the other side is there again.
-- coalesce_max is above zero.
pub write_messages_failed :
    (line : Line) (coalesce_max : ℕ) (full : List (List Text)) (batch later : List Text)
    → ((k : ℕ) → k < length full → line.delivers k ≡ true)
    → line.delivers (length full) ≡ false
    → 0 < coalesce_max
    → AllFull coalesce_max full
    → length batch ≡ coalesce_max
    → coalesce_max + length later < 2 ^ 64
    → write_messages line (flat full ++ (batch ++ later)) (new_queue_writer coalesce_max) ≡ record {
      events = joined line.eol later;
      coalesce_max = coalesce_max;
      number_coalesced = coalesce_max + length later;
      calls = length full + 1;
      sent = map (λ b. compressed line.compressor (joined line.eol b)) full;
    }
unfolding new_queue_writer
write_messages_failed line m full batch later ok no_send some_max each f small =
    let sent = map (λ b. compressed line.compressor (blob_from line.eol [] b)) full in
    write_messages-append line (flat full) (batch ++ later) (idle m 0 [])
    ∙ (ap (write_messages line (batch ++ later)) (
          ap (λ l. write_messages line l (idle m 0 [])) (sym (append-nil (flat full)))
          ∙ idle_batches line m some_max (omega arith) full [] 0 []
              (λ k low high. ok k (omega arith)) each some_max
          ∙ ap (λ n. idle m n sent) (omega arith))
        ∙ (write_messages-append line batch later (idle m (length full) sent)
            ∙ (ap (write_messages line later) (
                  full_batch-failed line m some_max (omega arith) batch (length full) sent f
                    no_send)
                ∙ (write_messages_waiting line later
                      (record (idle m (length full + 1) sent) { number_coalesced = m }) small
                      (inr (omega arith))
                    ∙ ap
                        (λ blob.
                          let left : QueueWriter = record {
                            events = blob later;
                            coalesce_max = m;
                            number_coalesced = m + length later;
                            calls = length full + 1;
                            sent = map (λ b. compressed line.compressor (blob b)) full;
                          } in
                          left)
                        (blob_from-joined_each line.eol)))))
