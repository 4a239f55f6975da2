-- ===== src/Tests/RollTests.antt =====
-- rolling_file_writer.cpp, email_writer.cpp and interval_file_roll_trigger_memento.cpp
use chucho.Base.{
  ℕ, ◌+◌, ◌%◌, ◌^◌, ◌≤◌, ◌≡◌, refl, true, false, List, [], ◌∷◌, ◌++◌, none, some, Text, codes,
  length, take, drop, get_elem?, arith, text_eq, pos,
}
use chucho.Roller.{active, numbered, Roller}
use chucho.FdWriter.{buf_size}
use chucho.Roller.Sized.{RollingWriter, write_sized_each, new_rolling_writer}
use chucho.Roller.Sized.Kept.{oldest_first, bytes_of, AllWithin, write_sized_each_contents}
use chucho.Policy.{
  SecurityPolicy, new_policy, validate_text, validate_integer, set_text, set_integer,
}
use chucho.TextUtil.{to_lower}
use chucho.TextUtil.Decimal.{decimal}
use chucho.Interval.{
  minute, IntervalMemento, new_interval_memento, parse_period, create_trigger, no_value,
}
use chucho.Interval.Every.{parse_period-unit_name}
use chucho.Event.{Event}
use chucho.Level.{Level, info_level, error_level}
use chucho.Pattern.{parse}
use chucho.Pattern.Format.{format}
use chucho.EmailWriter.{Mail, new_email_writer, write_mails, format_message, level_is_triggered}
use chucho.EmailWriter.Reading.{read_each, room, read_each-take}
use chucho.EmailWriter.Mails.{mails, write_mails_runs}

abbrev same_bytes : Text → Text
same_bytes content = content

abbrev three_numbers : Roller
three_numbers = record { last = 2; compressor = none }

abbrev lines : List Text
lines = codes "one" ∷ (codes "two" ∷ (codes "three" ∷ []))

write_sized_each_contents_example :
    (w : RollingWriter) × (content : Text) × (hist : List Text) × (write_sized_each same_bytes
        three_numbers 4 7 lines
        (new_rolling_writer 7 true)
      ≡ some w)
    × (w.files active ≡ some content)
    × ((k : ℕ) → k ≤ 2 → w.files (numbered k false) ≡ get_elem? hist k)
    × (oldest_first hist ++ (content ++ w.base.buf) ≡ bytes_of lines)
    × AllWithin (4 + buf_size + 5) (content ∷ hist)
write_sized_each_contents_example =
    write_sized_each_contents same_bytes three_numbers 4 7 5 true lines refl (omega arith)
      (omega arith, (omega arith, (omega arith, record {})))

abbrev limits : SecurityPolicy
limits = (new_interval_memento new_policy).1

abbrev no_interval : IntervalMemento
no_interval = record { period = none; count = none }

parse_period-unit_name_example :
    (parse_period limits (decimal 2 ++ (b' ' ∷ codes "MinUTeS")) no_interval
      ≡ some (record no_interval { period = some minute }))
    × (create_trigger (record no_interval { period = some minute }) ≡ no_value)
unfolding to_lower decimal validate_text validate_integer set_text set_integer text_eq
    new_interval_memento
parse_period-unit_name_example =
    parse_period-unit_name limits 2 (codes "MinUTeS") minute true no_interval refl (omega arith)
      refl refl refl

read_each-take_example :
    read_each ((1, 3) ∷ ((2, 1) ∷ [])) (record { message = codes "message"; pos = 1 })
    ≡ take (room ((1, 3) ∷ ((2, 1) ∷ []))) (drop 1 (codes "message"))
read_each-take_example = read_each-take (codes "message") ((1, 3) ∷ ((2, 1) ∷ [])) 1 (omega arith)

abbrev logged : Text → Level → Event
logged text lvl = record {
  logger = codes "app";
  level = lvl;
  message = text;
  time = 3;
  file_name = codes "a.cpp";
  line_number = 12;
  function_name = codes "main";
  event_marker = none;
  thread_id = none;
}

abbrev mailer : Mail
mailer = record {
  from = codes "a@b.org";
  to = codes "c@b.org" ∷ (codes "d@b.org" ∷ []);
  subject = codes "Trouble";
  valid_regex = λ s. true;
  env = λ e. (record {
    base_name = λ s. s;
    host_base_name = codes "here";
    host_full_name = codes "here.org";
    process_id = 9;
    milliseconds = 5;
    eol = codes "\n";
    this_thread = codes "1";
    context = λ key. key;
    utc_date = λ pattern time. pattern;
    local_date = λ pattern time. pattern;
    replaced = λ arguments evt. evt.message;
  });
  formatted = λ e. e.message;
  is_triggered = λ e. level_is_triggered error_level e;
  local = λ e. (record { sec = 1; minutes = 2; hour = 3; mday = 4; mon = 4; year = 126; wday = 1 });
  zone = pos 60;
  clock = λ e. 255;
  fnv_64a = λ s. length s % 2 ^ 64;
  performs = λ s. true;
}

abbrev four_events : List Event
four_events =
    logged (codes "a") info_level
    ∷ (logged (codes "b") info_level
        ∷ (logged (codes "c") error_level ∷ (logged (codes "d") info_level ∷ [])))

subject_formats :
    (e : Event)
    → (subject : Text) × (format (mailer.env e) (parse mailer.valid_regex mailer.subject) e
        ≡ some subject)
unfolding parse format
subject_formats e = (codes "Trouble", refl)

write_mails_runs_example :
    write_mails mailer four_events (new_email_writer 2)
    ≡ some (record {
      evts = logged (codes "d") info_level ∷ [];
      max = 2;
      sent = mails mailer 2 (
          (
            logged (codes "c") error_level,
            logged (codes "a") info_level
                ∷ (logged (codes "b") info_level ∷ (logged (codes "c") error_level ∷ [])),
          )
          ∷ []);
    })
unfolding level_is_triggered
write_mails_runs_example =
    write_mails_runs mailer 2 four_events (omega arith) subject_formats (λ message. refl)

-- The mail itself
mail_text :
    mails mailer 2 (
      (
        logged (codes "c") error_level,
        logged (codes "b") info_level ∷ (logged (codes "c") error_level ∷ []),
      )
      ∷ [])
    ≡ codes
        "Message-ID: 000000000000006a-00000000000000ff\r\nDate: Mon, 4 May 2026 03:02:01 +0100\r\nTo: <c@b.org>,<d@b.org>\r\nFrom: <a@b.org>\r\nSubject: Trouble\r\n\r\nb\r\nc\r\n"
      ∷ []
unfolding format_message
mail_text = refl
