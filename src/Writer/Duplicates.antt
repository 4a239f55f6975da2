-- ===== src/Writer/Duplicates.antt =====
-- duplicate_message_filter: what a writer with this filter writes of a run of equal messages.
use chucho.Base.{ℕ, ◌≡◌, List, [], ◌∷◌, Text}
use chucho.Event.{Event}
use chucho.Writer.{duplicate_message_filter, Host, WriterState}
use chucho.Writer.Filters.{single}

-- A writer whose only filter has seen `message` `count` times in a row.
abbrev pub after_run : Text → ℕ → Text → List Event → WriterState
after_run name count message output = single name (duplicate_message_filter count message) output

-- The events that the host formats as `message`, all of them.
pub data AllFormatted (host : Host) (message : Text) : List Event → Type 0 where
  nil : AllFormatted host message []
  cons :
      (evt : Event) (evts : List Event)
      → host.formatted evt ≡ message
      → AllFormatted host message evts
      → AllFormatted host message (evt ∷ evts)
