-- ===== src/Writer/Filters.antt =====
-- The filters of a writer, asked in their order.
use chucho.Base.{
  ◌≡◌, ◌≢◌, refl, sym, ap, subst, ◌∙◌, Bool, true, false, List, [], ◌∷◌, ◌++◌, append-nil,
  append_assoc, Text, if◌then◌else◌, Bool-cases, inl, inr,
}
use chucho.Level.{Level, ge_level}
use chucho.Event.{Event}
use chucho.Writer.{
  Verdict, deny, neutral, accept, Filter, FilterState, level_threshold_filter, Host, Evaluated,
  evaluate, permits, WriterState, write, write_all,
}

-- The filters that an event finds neutral, all of them.
pub data AllNeutral (host : Host) (evt : Event) : List Filter → Type 0 where
  nil : AllNeutral host evt []
  cons :
      (f : Filter) (fs : List Filter)
      → (evaluate host f.state evt).verdict ≡ neutral
      → AllNeutral host evt fs
      → AllNeutral host evt (f ∷ fs)

abbrev pub evaluated : Host → Event → List Filter → List Filter
evaluated host evt [] = []
evaluated host evt (f ∷ fs) =
    record f { state = (evaluate host f.state evt).after } ∷ evaluated host evt fs

abbrev pub written_by : Host → Event → List Filter → List Event
written_by host evt [] = []
written_by host evt (f ∷ fs) = (evaluate host f.state evt).written ++ written_by host evt fs

-- Neutral filters at the front pass the event on: the answer is that of the filters behind them,
-- and every filter in front has been asked once.
pub permits-append :
    (host : Host) (evt : Event) (before behind : List Filter)
    → AllNeutral host evt before
    → permits host (before ++ behind) evt ≡ (
        let (permitted, filters, written) = permits host behind evt in
        (permitted, evaluated host evt before ++ filters, written_by host evt before ++ written))
unfolding permits
permits-append host evt [] behind nil = refl
permits-append host evt (f ∷ fs) behind (cons _ _ e h) =
    let rest = permits host behind evt in
    rw (e, permits, permits-append host evt fs behind h)
      (ap (λ w. (rest.0, evaluated host evt (f ∷ fs) ++ rest.1, w))
        (sym (append_assoc (evaluate host f.state evt).written (written_by host evt fs) rest.2)))

abbrev pub accepts : Verdict → Bool
accepts deny = false
accepts neutral = false
accepts accept = true

-- The first filter that is not neutral decides: the event is permitted if it accepts, and the
-- filters behind it are not asked.
pub permits_decided :
    (host : Host) (evt : Event) (before behind : List Filter) (f : Filter)
    → AllNeutral host evt before
    → (evaluate host f.state evt).verdict ≢ neutral
    → permits host (before ++ f ∷ behind) evt ≡ (
      accepts (evaluate host f.state evt).verdict,
      evaluated host evt before ++ record f { state = (evaluate host f.state evt).after } ∷ behind,
      written_by host evt before ++ (evaluate host f.state evt).written,
    )
unfolding permits
permits_decided host evt before behind f h k =
    permits-append host evt before (f ∷ behind) h
    ∙ rw (decided (evaluate host f.state evt).verdict refl) refl
  where
    decided :
        (v : Verdict)
        → (evaluate host f.state evt).verdict ≡ v
        → permits host (f ∷ behind) evt ≡ (
          accepts (evaluate host f.state evt).verdict,
          record f { state = (evaluate host f.state evt).after } ∷ behind,
          (evaluate host f.state evt).written,
        )
    decided deny e = rw (e, permits) refl
    decided neutral e = absurd (k e)
    decided accept e = rw (e, permits) refl

-- A writer with one filter, and what it becomes by what the filter answers.
abbrev pub single : Text → FilterState → List Event → WriterState
single name state output = record {
  filters = record { name = name; state = state } ∷ [];
  output = output;
}

abbrev pub outcome : Text → Event → List Event → Evaluated → WriterState
outcome name evt output e =
    let kept : List Filter = record { name = name; state = e.after } ∷ [] in
    let r : Bool × List Filter × List Event = elim e.verdict [
      | deny ↦ (false, kept, e.written)
      | accept ↦ (true, kept, e.written)
      | neutral ↦ (true, kept, e.written ++ [])
    ] in
    record { filters = r.1; output = output ++ (r.2 ++ (if r.0 then evt ∷ [] else [])) }

pub outcome_lem :
    (host : Host) (name : Text) (state : FilterState) (evt : Event) (output : List Event)
    (e : Evaluated)
    → evaluate host state evt ≡ e
    → write host evt (single name state output) ≡ outcome name evt output e
unfolding write permits
outcome_lem host name state evt output e p =
    subst (λ e. write host evt (single name state output) ≡ outcome name evt output e) p refl

-- The events that are at least of a level
abbrev pub reaching : Level → List Event → List Event
reaching l [] = []
reaching l (evt ∷ evts) = if ge_level evt.level l then evt ∷ reaching l evts else reaching l evts

threshold_evaluate :
    (host : Host) (l : Level) (evt : Event) (b : Bool)
    → ge_level evt.level l ≡ b
    → evaluate host (level_threshold_filter l) evt ≡ record {
      verdict = if b then neutral else deny;
      after = level_threshold_filter l;
      written = [];
    }
unfolding evaluate
threshold_evaluate host l evt b e = rw e refl

-- A writer with a level_threshold_filter alone writes the events that are at least of its level, in
-- their order.
write_all-threshold :
    (host : Host) (l : Level) (name : Text) (evts output : List Event)
    → write_all host evts (single name (level_threshold_filter l) output)
      ≡ single name (level_threshold_filter l) (output ++ reaching l evts)
unfolding write_all
write_all-threshold host l name [] output = rw (append-nil output) refl
write_all-threshold host l name (evt ∷ evts) output = elim (Bool-cases (ge_level evt.level l)) [
  | inl e ↦
      rw
        (
          e,
          outcome_lem host name (level_threshold_filter l) evt output _
              (threshold_evaluate host l evt true e),
        )
        (write_all-threshold host l name evts (output ++ evt ∷ [])
          ∙ rw (append_assoc output (evt ∷ []) (reaching l evts)) refl)
  | inr e ↦
      rw
        (
          e,
          outcome_lem host name (level_threshold_filter l) evt output _
              (threshold_evaluate host l evt false e),
        )
        (write_all-threshold host l name evts (output ++ []) ∙ rw (append-nil output) refl)
]
