-- ===== src/AsyncWriter/Drain.antt =====
-- The end of an async_writer that flushes: the rounds of the worker after its destructor has set
-- stop_.
use chucho.Base.{◌≡◌, true}
use chucho.Level.{Level}
use chucho.Event.{Event}
use chucho.AsyncWriter.{running, AsyncWriter}

-- The worker is in its loop, stop_ is set, and it flushes.
record Flushing (w : AsyncWriter) : Type 0 where
  runs : w.worker ≡ running
  stops : w.stop ≡ true
  flushes : w.flush_on_destruct ≡ true
