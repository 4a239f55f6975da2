-- ===== src/EmailWriter.antt =====
-- email_writer.cpp and level_threshold_email_trigger.cpp: events wait in a queue of fixed size, and a
-- mail with them is sent when the trigger says so. The clock and the local calendar, fnv_64a_str and
-- whether curl_easy_perform succeeds are parameters. writer::write reports an exception and goes on.
pub mod Mails
pub mod Reading
use chucho.Base.{
  ℕ, zero, suc, ◌+◌, ◌-◌, ◌*◌, ◌/◌, ◌%◌, ◌^◌, Bool, true, false, List, [], ◌∷◌, ◌++◌, Option, none,
  some, Text, codes, if◌then◌else◌, ltb, leb, ◌==◌, length, take, drop, get_or, replicate, min, ℤ,
  pos, negsuc,
}
use chucho.TextUtil.Decimal.{decimal}
use chucho.Level.{Level, ge_level}
use chucho.Event.{Event}
use chucho.Pattern.{parse}
use chucho.Pattern.Format.{Env, format}

-- read_data and curl_read_cb, which gives bytes for at most sz * nitems
pub record ReadData : Type 0 where
  pub message : Text
  pub pos : ℕ

unfoldable pub curl_read_cb : ℕ → ℕ → ReadData → Text × ReadData
curl_read_cb sz nitems rd =
    let to_copy = min (length rd.message - rd.pos) (sz * nitems % 2 ^ 64) in
    if leb (length rd.message) rd.pos
    then ([], rd)
    else (take to_copy (drop rd.pos rd.message), record rd { pos = rd.pos + to_copy })

-- calendar::pieces
pub record Pieces : Type 0 where
  pub sec : ℕ
  pub minutes : ℕ
  pub hour : ℕ
  pub mday : ℕ
  pub mon : ℕ
  pub year : ℕ
  pub wday : ℕ

-- setw with a fill of zeros
abbrev pub filled : ℕ → Text → Text
filled width s = replicate (width - length s) b'0' ++ s

unfoldable pub hex_digits : ℕ → ℕ → Text
hex_digits zero n = []
hex_digits (suc fuel) n =
    let digit = if ltb (n % 16) 10 then b'0' + n % 16 else b'a' + (n % 16 - 10) in
    let higher = hex_digits fuel (n / 16) in if ltb n 16 then digit ∷ [] else higher ++ (digit ∷ [])

abbrev pub eng_day : List Text
eng_day =
    codes "Sun"
    ∷ (codes "Mon"
        ∷ (codes "Tue" ∷ (codes "Wed" ∷ (codes "Thu" ∷ (codes "Fri" ∷ (codes "Sat" ∷ []))))))

abbrev pub eng_mon : List Text
eng_mon =
    codes "Jan"
    ∷ (codes "Feb"
        ∷ (codes "Mar"
            ∷ (codes "Apr"
                ∷ (codes "May"
                    ∷ (codes "Jun"
                        ∷ (codes "Jul"
                            ∷ (codes "Aug"
                                ∷ (codes "Sep"
                                    ∷ (codes "Oct" ∷ (codes "Nov" ∷ (codes "Dec" ∷ [])))))))))))

-- The sign and the minutes of a time zone
abbrev pub zone_parts : ℤ → Text × ℕ
zone_parts (pos n) = (codes "+", n)
zone_parts (negsuc n) = (codes "-", suc n)

-- format_date, of the local time and the time zone's minutes
unfoldable pub format_date : Pieces → ℤ → Text
unfolding decimal
format_date p tz =
    let (sign, minutes) = zone_parts tz in
    get_or eng_day p.wday []
    ++ (codes ", "
        ++ (decimal p.mday
            ++ (codes " "
                ++ (get_or eng_mon p.mon []
                    ++ (codes " "
                        ++ (decimal (p.year + 1900)
                            ++ (codes " "
                                ++ (filled 2 (decimal p.hour)
                                    ++ (codes ":"
                                        ++ (filled 2 (decimal p.minutes)
                                            ++ (codes ":"
                                                ++ (filled 2 (decimal p.sec)
                                                    ++ (codes " "
                                                        ++ (sign
                                                            ++ (filled 2 (decimal (minutes / 60))
                                                            ++ filled 2
                                                            (decimal (minutes % 60)))))))))))))))))

pub record Mail : Type 0 where
  pub from : Text
  pub to : List Text
  pub subject : Text
  pub valid_regex : Text → Bool
  pub env : Event → Env
  pub formatted : Event → Text
  pub is_triggered : Event → Bool
  pub local : Event → Pieces
  pub zone : ℤ
  pub clock : Event → ℕ
  pub fnv_64a : Text → ℕ
  pub performs : Text → Bool

abbrev pub smtpl : Text
smtpl = codes "\r\n"

abbrev pub receivers : List Text → Text
receivers [] = []
receivers (t ∷ []) = codes "<" ++ (t ++ codes ">")
receivers (t ∷ u ∷ ts) = codes "<" ++ (t ++ (codes ">," ++ receivers (u ∷ ts)))

abbrev pub body : (Event → Text) → List Event → Text
body formatted [] = []
body formatted (e ∷ es) = formatted e ++ (smtpl ++ body formatted es)

-- format_message over the events of the queue, which it empties; `none` is a call through the null
-- piece of the subject's pattern
unfoldable pub format_message : Mail → Event → List Event → Option Text
unfolding format_date parse format hex_digits
format_message m evt evts = elim (format (m.env evt) (parse m.valid_regex m.subject) evt) [
  | none ↦ none
  | some subject ↦
      (let msg =
          codes "Date: "
          ++ (format_date (m.local evt) m.zone
              ++ (smtpl
                  ++ (codes "To: "
                      ++ (receivers m.to
                          ++ (smtpl
                              ++ (codes "From: <"
                                  ++ (m.from
                                      ++ (codes ">"
                                          ++ (smtpl
                                              ++ (codes "Subject: "
                                                  ++ (subject
                                                      ++ (smtpl
                                                          ++ (smtpl
                                                            ++ body m.formatted evts))))))))))))) in
        some (
          codes "Message-ID: "
          ++ (filled 16 (hex_digits 16 (m.fnv_64a msg))
              ++ (codes "-" ++ (filled 16 (hex_digits 16 (m.clock evt)) ++ (smtpl ++ msg))))))
]

-- fixed_size_queue::push; `none` is a pop of the empty queue
unfoldable pub make_room : ℕ → List Event → Option (List Event)
make_room max [] = if leb max 0 then none else some []
make_room max (e ∷ q) =
    let more = make_room max q in if leb max (length (e ∷ q)) then more else some (e ∷ q)

unfoldable pub push_event : ℕ → Event → List Event → Option (List Event)
unfolding make_room
push_event max evt q = elim (make_room max q) [
  | none ↦ none
  | some room ↦ some (room ++ (evt ∷ []))
]

pub record EmailWriter : Type 0 where
  pub evts : List Event
  pub max : ℕ
  pub sent : List Text

-- The constructors
unfoldable pub new_email_writer : ℕ → EmailWriter
new_email_writer buffer_size = record { evts = []; max = buffer_size; sent = [] }

-- level_threshold_email_trigger
unfoldable pub level_is_triggered : Level → Event → Bool
unfolding ge_level
level_is_triggered level evt = ge_level evt.level level

-- write_impl: whether it returns, or throws, and the writer; `none` where it is undefined
unfoldable pub write_mail : Mail → Event → EmailWriter → Option (Bool × EmailWriter)
unfolding push_event format_message
write_mail m evt w = elim (push_event w.max evt w.evts) [
  | none ↦ none
  | some evts ↦
      (if m.is_triggered evt
        then elim (format_message m evt evts) [
          | none ↦ none
          | some message ↦
              (let emptied = record w { evts = [] } in
                some (
                  m.performs message,
                  if m.performs message
                      then record emptied { sent = w.sent ++ (message ∷ []) }
                      else emptied,
                ))
        ]
        else some (true, record w { evts = evts }))
]

unfoldable pub write_mails : Mail → List Event → EmailWriter → Option EmailWriter
unfolding write_mail
write_mails m [] w = some w
write_mails m (evt ∷ evts) w = elim (write_mail m evt w) [
  | none ↦ none
  | some (returned, v) ↦ write_mails m evts v
]
