-- ===== src/EventCache/Queue.antt =====
-- push, pop and cull. An event is pushed as the bytes that serialize makes of it. The directory of
-- the cache is the list of its files, a file's name its number; a file that is open for writing is
-- known by the position in it (tellp). No progress callback is set, and the calls of the file
-- system succeed. The mutex guard_ is held over each operation. The counts of bytes and events are
-- std::size_t in the code; they are taken not to reach 2^64 here. The file numbers wrap at 32 bits.
pub mod View
pub mod Files
pub mod Push
pub mod Cull
pub mod Pop
pub mod Fifo
pub mod Held
pub mod Run
use chucho.Base.{
  ℕ, zero, suc, ◌+◌, ◌-◌, ◌%◌, ◌^◌, max, min, Bool, true, false, ◌&&◌, ◌||◌, List, [], ◌∷◌, ◌++◌,
  Option, none, some, Text, if◌then◌else◌, ltb, leb, ◌==◌, length, take, drop, replicate,
}
use chucho.Level.{Level}
use chucho.Event.{Event}
use chucho.EventCache.Format.{bytes_int, get_int, unserialize}

-- event_cache_stats, as far as the cache keeps it
pub record Stats : Type 0 where
  pub current_size : ℕ
  pub largest_size : ℕ
  pub events_written : ℕ
  pub events_read : ℕ
  pub files_created : ℕ
  pub files_destroyed : ℕ
  pub largest_event_size : ℕ
  pub smallest_event_size : ℕ
  pub bytes_culled : ℕ
  pub cull_events : ℕ

pub record Cache : Type 0 where
  pub chunk_size : ℕ
  pub max_size : ℕ
  pub mem_chunk : Text
  pub read_pos : ℕ
  pub write_pos : Option ℕ
  pub write_file : Option ℕ
  pub files : List (ℕ × Text)
  pub current_sequence : ℕ
  pub mem_chunk_occupied : ℕ
  pub stats : Stats
  pub total_bytes_written : ℕ

abbrev pub zeros : ℕ → Text
zeros n = replicate n 0

-- The constructor; `none` is its exception.
abbrev pub fresh_cache : ℕ → ℕ → Cache
fresh_cache chunk_size max_size = record {
  chunk_size = chunk_size;
  max_size = max_size;
  mem_chunk = zeros chunk_size;
  read_pos = 0;
  write_pos = some 0;
  write_file = none;
  files = [];
  current_sequence = 0;
  mem_chunk_occupied = 0;
  stats = record {
    current_size = 0;
    largest_size = 0;
    events_written = 0;
    events_read = 0;
    files_created = 0;
    files_destroyed = 0;
    largest_event_size = 0;
    smallest_event_size = 2 ^ 64 - 1;
    bytes_culled = 0;
    cull_events = 0;
  };
  total_bytes_written = 0;
}

unfoldable pub new_cache : ℕ → ℕ → Option Cache
new_cache chunk_size max_size =
    if leb max_size chunk_size then none else some (fresh_cache chunk_size max_size)

-- std::memcpy of bytes to a position
unfoldable pub copied_to : ℕ → Text → Text → Text
copied_to pos bytes buf = take pos buf ++ (bytes ++ drop (pos + length bytes) buf)

-- The files of a directory
unfoldable pub remove_file : ℕ → List (ℕ × Text) → List (ℕ × Text)
remove_file n [] = []
remove_file n ((m, s) ∷ rest) =
    let others = remove_file n rest in if m == n then others else (m, s) ∷ others

unfoldable pub append_file : ℕ → Text → List (ℕ × Text) → List (ℕ × Text)
append_file n bytes [] = []
append_file n bytes ((m, s) ∷ rest) =
    let others = append_file n bytes rest in
    if m == n then (m, s ++ bytes) ∷ others else (m, s) ∷ others

-- std::ofstream on a name: the file is there and empty.
unfoldable pub create_file : ℕ → List (ℕ × Text) → List (ℕ × Text)
unfolding remove_file
create_file n files = remove_file n files ++ (n, []) ∷ []

-- find_oldest_file; `none` is the exception.
abbrev pub older : ℕ × Text → Option (ℕ × Text) → ℕ × Text
older f none = f
older f (some g) = if ltb g.0 f.0 then g else f

pub find_oldest_file : List (ℕ × Text) → Option (ℕ × Text)
find_oldest_file [] = none
find_oldest_file (f ∷ rest) = some (older f (find_oldest_file rest))

-- cull; `none` is the exception.
abbrev culled_by : ℕ → Stats → Stats
culled_by n s = record s {
  current_size = s.current_size - n;
  bytes_culled = s.bytes_culled + n;
  cull_events = s.cull_events + 1;
}

pub cull : Cache → Option Cache
unfolding find_oldest_file remove_file
cull c =
    if ltb 0 c.mem_chunk_occupied
    then (some (record c {
      mem_chunk = zeros c.chunk_size;
      mem_chunk_occupied = 0;
      stats = culled_by c.mem_chunk_occupied c.stats;
    }))
    else elim (find_oldest_file c.files) [
      | none ↦ none
      | some f ↦ some (record c {
        files = remove_file f.0 c.files;
        stats =
            culled_by (length f.1)
              (record c.stats { files_destroyed = c.stats.files_destroyed + 1 });
      })
    ]

-- The branches of push
unfoldable pub push_memory : ℕ → Text → Cache → Cache
unfolding copied_to
push_memory pos bytes c = record c {
  mem_chunk = copied_to pos bytes c.mem_chunk;
  write_pos = some (pos + length bytes);
  mem_chunk_occupied = c.mem_chunk_occupied + length bytes;
}

unfoldable pub start_file : Cache → Cache
unfolding create_file
start_file c =
    let n = (c.current_sequence + 1) % 2 ^ 32 in
    record c {
      files = create_file n c.files;
      current_sequence = n;
      write_file = some 0;
      stats = record c.stats { files_created = c.stats.files_created + 1 };
    }

abbrev pub has_room : Text → Cache → Bool
has_room bytes c = elim c.write_file [
  | none ↦ false
  | some pos ↦ leb (pos + length bytes) c.chunk_size
]

unfoldable pub write_bytes : Text → Cache → Cache
unfolding append_file
write_bytes bytes c = elim c.write_file [
  | none ↦ c
  | some pos ↦ record c {
    files = append_file c.current_sequence bytes c.files;
    write_file = some (pos + length bytes);
  }
]

unfoldable pub push_file : Text → Cache → Cache
unfolding start_file write_bytes
push_file bytes c =
    let c0 = record c { write_pos = none } in
    write_bytes bytes (if has_room bytes c0 then c0 else start_file c0)

unfoldable pub placed_bytes : Text → Cache → Cache
unfolding push_memory push_file
placed_bytes bytes c = elim c.write_pos [
  | none ↦ push_file bytes c
  | some pos ↦
      if leb (pos + length bytes) c.chunk_size then push_memory pos bytes c else push_file bytes c
]

-- The statistics of a push
unfoldable pub counted : ℕ → Cache → Cache
counted sz c =
    let s = c.stats in
    let size = s.current_size + sz in
    record c {
      stats = record s {
        current_size = size;
        events_written = s.events_written + 1;
        largest_size = if ltb s.largest_size size then size else s.largest_size;
        largest_event_size = if ltb s.largest_event_size sz then sz else s.largest_event_size;
        smallest_event_size = if ltb sz s.smallest_event_size then sz else s.smallest_event_size;
      };
      total_bytes_written = c.total_bytes_written + sz;
    }

-- push, behind serialize; `none` is the exception.
unfoldable pub push : Text → Cache → Option Cache
unfolding placed_bytes counted cull
push bytes c =
    let c1 = counted (length bytes) (placed_bytes bytes c) in
    if leb c1.max_size c1.stats.current_size then cull c1 else some c1

-- What pop returns: nothing in time, an exception, more bytes read than the chunk holds, or an
-- event.
pub data Popped : Type 0 where
  timed_out thrown overrun : Popped
  popped : Event → Popped

-- The oldest file goes to the memory.
pub load_file : ℕ × Text → Cache → Cache
unfolding remove_file
load_file f c =
    let loaded = record c {
      mem_chunk = f.1 ++ zeros (c.chunk_size - length f.1);
      read_pos = 0;
      mem_chunk_occupied = length f.1;
      files = remove_file f.0 c.files;
      stats = record c.stats { files_destroyed = c.stats.files_destroyed + 1 };
    } in
    elim c.write_file [
      | none ↦ loaded
      | some pos ↦
          if f.0 == c.current_sequence
          then record loaded { write_pos = some pos; write_file = none }
          else loaded
    ]

pub needs_file : Cache → Bool
unfolding bytes_int
needs_file c =
    leb (c.chunk_size - 4) c.read_pos || bytes_int (take 4 (drop c.read_pos c.mem_chunk)) == 0

-- What pop does with the size and the event that unserialize has read
pub taken : Cache → ℕ × Option Event → Popped × Cache
taken c (sz, none) = (thrown, c)
taken c (sz, some e) = (
  popped e,
  record c {
    read_pos = c.read_pos + sz;
    mem_chunk_occupied = c.mem_chunk_occupied - sz;
    stats = record c.stats {
      current_size = c.stats.current_size - sz;
      events_read = c.stats.events_read + 1;
    };
  },
)

pub take_event : List Level → Cache → Popped × Cache
unfolding taken
take_event levels c = taken c (unserialize levels (drop c.read_pos c.mem_chunk)).0

-- pop, when the wait has ended
pub pop : List Level → Cache → Popped × Cache
unfolding load_file needs_file take_event find_oldest_file
pop levels c =
    if c.stats.current_size == 0
    then (timed_out, c)
    else if needs_file c
    then elim (find_oldest_file c.files) [
      | none ↦ (thrown, c)
      | some f ↦
          if ltb c.chunk_size (length f.1) then (overrun, c) else take_event levels (load_file f c)
    ]
    else take_event levels c
