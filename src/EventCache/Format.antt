-- ===== src/EventCache/Format.antt =====
-- serialize and unserialize. Integers are copied in the byte order of the machine, taken to be
-- little-endian, and are cut to the width of their field; a position in the buffer is the bytes
-- from there on.
pub mod RoundTrip
use chucho.Base.{
  ℕ, zero, suc, ◌+◌, ◌*◌, ◌/◌, ◌%◌, ◌^◌, List, [], ◌∷◌, ◌++◌, Option, none, some, Text, length,
  take, drop,
}
use chucho.Level.{Level, from_text}
use chucho.Event.{Event, Marker, marker, nil, marker_text}

-- set_ser_buf of an integer of `n` bytes
unfoldable pub int_bytes : ℕ → ℕ → Text
int_bytes zero v = []
int_bytes (suc n) v = (v % 256) ∷ int_bytes n (v / 256)

unfoldable pub bytes_int : Text → ℕ
bytes_int [] = 0
bytes_int (b ∷ bs) = b + 256 * bytes_int bs

-- A length in a field of `n` bytes, and the text.
unfoldable pub text_bytes : ℕ → Text → Text
unfolding int_bytes
text_bytes n s = int_bytes n (length s) ++ s

abbrev pub marker_bytes : Option Marker → Text
marker_bytes none = []
marker_bytes (some m) = marker_text m

-- serialized_size; `thread` is the text of std::this_thread::get_id().
unfoldable pub serialized_size : Text → Event → ℕ
serialized_size thread evt =
    4
    + (2 + length evt.logger)
    + (2 + length evt.level.name)
    + (4 + length evt.message)
    + 8
    + (2 + length evt.file_name)
    + 4
    + (2 + length evt.function_name)
    + 2
    + length (marker_bytes evt.event_marker)
    + 2
    + length thread

unfoldable pub serialize : Text → Event → Text
serialize thread evt =
    int_bytes 4 (serialized_size thread evt)
    ++ (text_bytes 2 evt.logger
        ++ (text_bytes 2 evt.level.name
            ++ (text_bytes 4 evt.message
                ++ (int_bytes 8 evt.time
                    ++ (text_bytes 2 evt.file_name
                        ++ (int_bytes 4 evt.line_number
                            ++ (text_bytes 2 evt.function_name
                                ++ (text_bytes 2 (marker_bytes evt.event_marker)
                                    ++ text_bytes 2 thread))))))))

-- Reading at `pos`, and going on behind what was read.
abbrev pub Read : Type 0 → Type 0
Read A = Text → A × Text

infixl 5 ◌>>=◌
abbrev pub ◌>>=◌ : {A B : Type 0} → Read A → (A → Read B) → Read B
◌>>=◌ m f s = f (m s).0 (m s).1

abbrev pub pure : {A : Type 0} → A → Read A
pure a s = (a, s)

-- get_mem_buf of an integer of `n` bytes
unfoldable pub get_int : ℕ → Read ℕ
unfolding bytes_int
get_int n s = (bytes_int (take n s), drop n s)

-- get_mem_buf_str
pub get_str : ℕ → Read Text
get_str n s = (take n s, drop n s)

pub get_text : ℕ → Read Text
unfolding get_int get_str
get_text n = do len ← get_int n; get_str len

-- `if (!mrk.empty()) omrk = mrk;`
abbrev pub read_marker : Text → Option Marker
read_marker [] = none
read_marker (c ∷ s) = some (marker (c ∷ s) nil)

-- The event, unless level::from_text throws. The size is that in the buffer.
abbrev pub made_event :
    List Level → Text → Text → Text → ℕ → Text → ℕ → Text → Text → Text → Option Event
made_event levels lgr lvl msg usecs fn line func mrk thr = elim (from_text lvl levels) [
  | none ↦ none
  | some l ↦ some (record {
    logger = lgr;
    level = l;
    message = msg;
    time = usecs;
    file_name = fn;
    line_number = line;
    function_name = func;
    event_marker = read_marker mrk;
    thread_id = some thr;
  })
]

unfoldable pub unserialize : List Level → Read (ℕ × Option Event)
unserialize levels = do
  sz ← get_int 4
  lgr ← get_text 2
  lvl ← get_text 2
  msg ← get_text 4
  usecs ← get_int 8
  fn ← get_text 2
  line ← get_int 4
  func ← get_text 2
  mrk ← get_text 2
  thr ← get_text 2
  pure (sz, made_event levels lgr lvl msg usecs fn line func mrk thr)
