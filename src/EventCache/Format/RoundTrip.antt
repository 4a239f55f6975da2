-- ===== src/EventCache/Format/RoundTrip.antt =====
-- What is serialized is read back.
use native.Mathlib.Nat.{pow-suc}
use chucho.Base.{
  ℕ, zero, suc, ◌+◌, ◌/◌, ◌^◌, ◌<◌, ◌≡◌, refl, sym, ap, ◌∙◌, List, ◌++◌, some, Text, length, take,
  drop, arith, take-append-length, drop-append-length, length-append, append_assoc,
}
use chucho.Level.{Level, from_text}
use chucho.Event.{Event}
use chucho.EventCache.Format.{
  int_bytes, bytes_int, text_bytes, marker_bytes, serialized_size, serialize, Read, ◌>>=◌, get_int,
  get_str, get_text, read_marker, made_event, unserialize,
}

length-int_bytes : (n v : ℕ) → length (int_bytes n v) ≡ n
unfolding int_bytes
length-int_bytes zero v = refl
length-int_bytes (suc n) v = ap suc (length-int_bytes n (v / 256))

bytes_int-int_bytes : (n v : ℕ) → v < 256 ^ n → bytes_int (int_bytes n v) ≡ v
unfolding int_bytes bytes_int
bytes_int-int_bytes zero v h = omega arith
bytes_int-int_bytes (suc n) v h =
    omega (arith, bytes_int-int_bytes n (v / 256) (omega (arith, pow-suc 256 n)))

take_at : (n : ℕ) (s rest : Text) → n ≡ length s → take n (s ++ rest) ≡ s
take_at n s rest h = rw h (take-append-length s rest)

drop_at : (n : ℕ) (s rest : Text) → n ≡ length s → drop n (s ++ rest) ≡ rest
drop_at n s rest h = rw h (drop-append-length s rest)

pub get_int-int_bytes :
    (n v : ℕ) (rest : Text) → v < 256 ^ n → get_int n (int_bytes n v ++ rest) ≡ (v, rest)
unfolding get_int
get_int-int_bytes n v rest h =
    let whole : n ≡ length (int_bytes n v) = sym (length-int_bytes n v) in
    rw (
      take_at n (int_bytes n v) rest whole,
      drop_at n (int_bytes n v) rest whole,
      bytes_int-int_bytes n v h,
    )

get_str-append : (s rest : Text) → get_str (length s) (s ++ rest) ≡ (s, rest)
unfolding get_str
get_str-append s rest = rw (take-append-length s rest, drop-append-length s rest)

bind_lem :
    {A B : Type 0} (m : Read A) (f : A → Read B) (s : Text) {a : A} {rest : Text}
    → m s ≡ (a, rest)
    → (m >>= f) s ≡ f a rest
bind_lem m f s e = ap (λ p. f p.0 p.1) e

get_text-text_bytes :
    (n : ℕ) (s rest : Text) → length s < 256 ^ n → get_text n (text_bytes n s ++ rest) ≡ (s, rest)
unfolding get_text text_bytes
get_text-text_bytes n s rest h =
    ap (get_text n) (append_assoc (int_bytes n (length s)) s rest)
    ∙ bind_lem (get_int n) get_str _ (get_int-int_bytes n (length s) (s ++ rest) h)
    ∙ get_str-append s rest

-- The fields of an event fit in their places in the format.
pub record Fits (thread : Text) (evt : Event) : Type 0 where
  pub size : serialized_size thread evt < 2 ^ 32
  pub logger : length evt.logger < 2 ^ 16
  pub level : length evt.level.name < 2 ^ 16
  pub time : evt.time < 2 ^ 64
  pub file_name : length evt.file_name < 2 ^ 16
  pub line_number : evt.line_number < 2 ^ 32
  pub function_name : length evt.function_name < 2 ^ 16
  pub event_marker : length (marker_bytes evt.event_marker) < 2 ^ 16
  pub thread_id : length thread < 2 ^ 16

length-text_bytes : (n : ℕ) (s : Text) → length (text_bytes n s) ≡ n + length s
unfolding text_bytes
length-text_bytes n s =
    omega (arith, length-append (int_bytes n (length s)) s, length-int_bytes n (length s))

-- The size that is written first is the number of bytes that are written.
pub length-serialize :
    (thread : Text) (evt : Event) → length (serialize thread evt) ≡ serialized_size thread evt
unfolding serialize serialized_size
length-serialize thread evt = omega (arith, length-append {0}, length-text_bytes, length-int_bytes)

unserialize_parts :
    (levels : List Level) (thread rest : Text) (evt : Event)
    → Fits thread evt
    → unserialize levels (serialize thread evt ++ rest) ≡ (
      (
        serialized_size thread evt,
        made_event levels evt.logger evt.level.name evt.message evt.time evt.file_name
            evt.line_number evt.function_name
            (marker_bytes evt.event_marker)
            thread,
      ),
      rest,
    )
unfolding unserialize serialize
unserialize_parts levels thread rest evt f = rw (
  assoc,
  get_int-int_bytes 4 (serialized_size thread evt) _ f.size,
  get_text-text_bytes 2 evt.logger _ f.logger,
  get_text-text_bytes 2 evt.level.name _ f.level,
  get_text-text_bytes 4 evt.message _ message_fits,
  get_int-int_bytes 8 evt.time _ f.time,
  get_text-text_bytes 2 evt.file_name _ f.file_name,
  get_int-int_bytes 4 evt.line_number _ f.line_number,
  get_text-text_bytes 2 evt.function_name _ f.function_name,
  get_text-text_bytes 2 (marker_bytes evt.event_marker) _ f.event_marker,
  get_text-text_bytes 2 thread _ f.thread_id,
)
  where
    message_fits : length evt.message < 2 ^ 32
    message_fits = unfold serialized_size in omega (arith, f.size)

    assoc :
        serialize thread evt ++ rest
        ≡ int_bytes 4 (serialized_size thread evt)
          ++ (text_bytes 2 evt.logger
              ++ (text_bytes 2 evt.level.name
                  ++ (text_bytes 4 evt.message
                      ++ (int_bytes 8 evt.time
                          ++ (text_bytes 2 evt.file_name
                              ++ (int_bytes 4 evt.line_number
                                  ++ (text_bytes 2 evt.function_name
                                      ++ (text_bytes 2 (marker_bytes evt.event_marker)
                                          ++ (text_bytes 2 thread ++ rest)))))))))
    assoc = simp append_assoc

pub unserialize-serialize :
    (levels : List Level) (thread rest : Text) (evt : Event)
    → Fits thread evt
    → from_text evt.level.name levels ≡ some evt.level
    → unserialize levels (serialize thread evt ++ rest) ≡ (
      (
        length (serialize thread evt),
        some (record evt {
          event_marker = read_marker (marker_bytes evt.event_marker);
          thread_id = some thread;
        }),
      ),
      rest,
    )
unserialize-serialize levels thread rest evt f known =
    unserialize_parts levels thread rest evt f ∙ rw (known, made_event, length-serialize thread evt)
