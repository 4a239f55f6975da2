-- ===== src/FdWriter.antt =====
-- file_descriptor_writer.hpp, file_descriptor_writer.cpp and
-- platform/posix/file_descriptor_writer_posix.cpp: a buffer in front of a file descriptor. What the
-- system's write returns is a parameter: for the number of the call and the number of bytes it gives
-- how many are accepted, or `none` for -1. The state keeps what the descriptors have accepted and
-- which were closed. write_impl gets the text that the formatter has made.
pub mod Delivery
use chucho.Base.{
  ℕ, zero, suc, ◌+◌, ◌-◌, min, Bool, true, false, ◌&&◌, List, [], ◌∷◌, ◌++◌, Option, none, some,
  Text, if◌then◌else◌, ltb, ◌==◌, length, take, drop,
}

abbrev pub Accepts : Type 0
Accepts = ℕ → ℕ → Option ℕ

pub record FdWriter : Type 0 where
  pub buf : Text
  pub fd : Option ℕ
  pub flush_each : Bool
  pub allow_close : Bool
  pub calls : ℕ
  pub sent : List (ℕ × Text)
  pub closed : List ℕ

-- How an operation ends. A loop whose fuel runs out is unfinished.
pub data Outcome : Type 0 where
  returned threw : FdWriter → Outcome
  unfinished : Outcome

abbrev pub buf_size : ℕ
buf_size = 8192

unfoldable pub new_fd_writer : Option ℕ → Bool → FdWriter
new_fd_writer fd flush_each = record {
  buf = [];
  fd = fd;
  flush_each = flush_each;
  allow_close = true;
  calls = 0;
  sent = [];
  closed = [];
}

unfoldable pub flush : Accepts → FdWriter → Outcome
flush accepts w = elim w.fd [
  | none ↦ returned (record w { buf = [] })
  | some d ↦ elim (accepts w.calls (length w.buf)) [
    | none ↦ threw (record w { calls = w.calls + 1 })
    | some rc ↦ returned (record w {
      buf = drop rc w.buf;
      calls = w.calls + 1;
      sent = w.sent ++ (d, take rc w.buf) ∷ [];
    })
  ]
]

-- The writer when an exception of flush has been caught
abbrev pub caught : Outcome → FdWriter → FdWriter
caught (returned v) w = v
caught (threw v) w = v
caught unfinished w = w

unfoldable pub close : Accepts → FdWriter → FdWriter
unfolding flush
close accepts w = elim w.fd [
  | none ↦ w
  | some d ↦
      (let flushed = if ltb 0 (length w.buf) then caught (flush accepts w) w else w in
        record flushed {
          fd = none;
          closed = if w.allow_close then flushed.closed ++ d ∷ [] else flushed.closed;
        })
]

-- set_file_descriptor; `none` is its exception.
unfoldable pub set_file_descriptor : ℕ → FdWriter → Option FdWriter
set_file_descriptor d w = if ltb d 1 then none else some (record w { fd = some d })

abbrev pub to_copy : Text → FdWriter → ℕ
to_copy rest w = min (length rest) (buf_size - length w.buf)

-- The body of the loop of write_impl, with what is left of the text
unfoldable pub copy_some : Accepts → Text → FdWriter → Outcome
unfolding flush
copy_some accepts rest w =
    let copied = record w { buf = w.buf ++ take (to_copy rest w) rest } in
    if length copied.buf == buf_size then flush accepts copied else returned copied

unfoldable pub write_loop : Accepts → ℕ → Text → FdWriter → Outcome
unfolding copy_some
write_loop accepts fuel [] w = returned w
write_loop accepts zero (b ∷ bs) w = unfinished
write_loop accepts (suc fuel) (b ∷ bs) w =
    let rest = b ∷ bs in
    elim (copy_some accepts rest w) [
      | returned v ↦ write_loop accepts fuel (drop (to_copy rest w) rest) v
      | threw v ↦ threw v
      | unfinished ↦ unfinished
    ]

unfoldable pub write_text : Accepts → Text → FdWriter → Outcome
unfolding write_loop flush
write_text accepts msg w = elim (write_loop accepts (suc (length msg)) msg w) [
  | returned v ↦ if v.flush_each && ltb 0 (length v.buf) then flush accepts v else returned v
  | threw v ↦ threw v
  | unfinished ↦ unfinished
]
