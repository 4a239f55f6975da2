-- ===== src/QueueWriter.antt =====
-- message_queue_writer.cpp and formatted_message_serializer.cpp: events are serialized into one blob,
-- which is sent when it holds coalesce_max_ of them. The derived class's flush_impl is a parameter:
-- whether its call of a number succeeds, or throws. So is what the compressor makes of a blob, if
-- there is one. writer::write reports an exception and goes on. write_impl gets the formatter's text.
pub mod Batches
use chucho.Base.{
  ℕ, zero, suc, ◌+◌, ◌%◌, ◌^◌, Bool, true, false, List, [], ◌∷◌, ◌++◌, Option, none, some, Text,
  if◌then◌else◌, ◌==◌,
}

-- serialize and finish_blob of formatted_message_serializer, over events_
unfoldable pub serialize_message : Text → Text → Text → Text
serialize_message eol msg [] = msg
serialize_message eol msg (c ∷ events) = (c ∷ events) ++ (eol ++ msg)

unfoldable pub finish_blob : Text → Text × Text
finish_blob events = (events, [])

pub record QueueWriter : Type 0 where
  pub events : Text
  pub coalesce_max : ℕ
  pub number_coalesced : ℕ
  pub calls : ℕ
  pub sent : List Text

pub record Line : Type 0 where
  pub eol : Text
  pub compressor : Option (Text → Text)
  pub delivers : ℕ → Bool

unfoldable pub new_queue_writer : ℕ → QueueWriter
new_queue_writer coalesce_max = record {
  events = [];
  coalesce_max = coalesce_max;
  number_coalesced = 0;
  calls = 0;
  sent = [];
}

abbrev pub compressed : Option (Text → Text) → Text → Text
compressed none bytes = bytes
compressed (some compress) bytes = compress bytes

-- flush: whether it returns, or throws, and the writer.
unfoldable pub flush_queue : Line → QueueWriter → Bool × QueueWriter
unfolding finish_blob
flush_queue line w =
    let (bytes, events) = finish_blob w.events in
    let called = record w { events = events; calls = w.calls + 1 } in
    if line.delivers w.calls
    then (
      true,
      record called {
        number_coalesced = 0;
        sent = w.sent ++ compressed line.compressor bytes ∷ [];
      },
    )
    else (false, called)

unfoldable pub write_message : Line → Text → QueueWriter → Bool × QueueWriter
unfolding serialize_message flush_queue
write_message line msg w =
    let n = (w.number_coalesced + 1) % 2 ^ 64 in
    let v = record w { events = serialize_message line.eol msg w.events; number_coalesced = n } in
    if n == w.coalesce_max then flush_queue line v else (true, v)

-- Events that are written one after the other
unfoldable pub write_messages : Line → List Text → QueueWriter → QueueWriter
unfolding write_message
write_messages line [] w = w
write_messages line (msg ∷ msgs) w = write_messages line msgs (write_message line msg w).1
