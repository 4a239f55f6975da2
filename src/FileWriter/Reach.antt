-- ===== src/FileWriter/Reach.antt =====
-- The states that a file_writer reaches, and what holds of them.
use chucho.Base.{
  ℕ, suc, ◌+◌, ◌≤◌, ◌≡◌, refl, sym, ap, subst, Bool, true, false, Bool-cases, inl, inr, [], ◌∷◌,
  none, some, Text, text_eq, text_eq_iff, if◌then◌else◌, arith, length,
}
use chucho.FdWriter.{Accepts, FdWriter, new_fd_writer, Outcome, buf_size}
use chucho.FdWriter.Delivery.{Sound, Delivered, ended, failed, write_text-Delivered}
use chucho.FileWriter.{
  writeable, OnStart, System, FileWriter, three_seconds, tried, open_file, unopened,
  new_file_writer, ensure_access, FileOutcome, wrote, thrown, unended, around, write_event,
}
use chucho.FileWriter.Invariant.{
  Core, Keeps, Opens, unchanged, refused, bad_descriptor, now_open, open_file-Opens, Opens-Core,
}
use chucho.FileWriter.Access.{Watched, later-Watched, next_check, ensure_access-Watched}

-- write_impl ends, with or without an exception, in a writer with a property.
abbrev pub Ends : (FileWriter → Type 0) → FileOutcome → Type 0
Ends P (wrote v) = P v
Ends P (thrown v) = P v
Ends P unended = ⊥

-- A write to the descriptor changes nothing but the base.
pub data Based (w : FileWriter) (d : ℕ) : FileWriter → Type 0 where
  based :
      (b : FdWriter) → b.fd ≡ some d → length b.buf ≤ buf_size → Based w d (record w { base = b })

around-Based :
    (w : FileWriter) (d : ℕ) (msg : Text) (o : Outcome)
    → Delivered d (suc buf_size) w.base msg o
    → Ends (Based w d) (around w o)
around-Based w d msg _ (ended b b_open f less all) = based b b_open (omega (arith, less))
around-Based w d msg _ (failed b front left b_open f less room same all) =
    based b b_open (omega (arith, less))

Ends-map :
    (P Q : FileWriter → Type 0) (o : FileOutcome)
    → ((v : FileWriter) → P v → Q v)
    → Ends P o
    → Ends Q o
Ends-map P Q (wrote v) f h = f v h
Ends-map P Q (thrown v) f h = f v h
Ends-map P Q unended f h = h

pub Based-Watched :
    (limit : ℕ) (w : FileWriter) (d : ℕ)
    → w.is_open ≡ true
    → Watched limit w
    → (v : FileWriter) → Based w d v
    → Watched limit v
Based-Watched limit w d h s _ (based b b_open few) = record {
  core = record {
    fresh = λ e. cc ((s.core.fresh e).0);
    has_fd = λ e. (d, b_open);
    bounded = few;
    soon = s.core.soon;
  };
  sure = s.sure;
}

pub Based-Keeps :
    (u w : FileWriter) (d : ℕ) → Keeps u w → (v : FileWriter) → Based w d v → Keeps u v
Based-Keeps u w d k _ (based b b_open few) = record {
  same_name = k.same_name;
  still = k.still;
  more = k.more;
  appending = k.appending;
  same_openings = k.same_openings;
}

module _ (sys : System) (accepts : Accepts) (sound : Sound accepts) (w : FileWriter)
    (limit : ℕ) where
  -- A property that ensure_access gives and that a change of the base keeps
  pub write_event-Ends :
      (P : FileWriter → Type 0) (msg : Text)
      → Watched limit (ensure_access sys accepts w)
      → P (ensure_access sys accepts w)
      → ((d : ℕ)
          → (ensure_access sys accepts w).is_open ≡ true
          → (v : FileWriter) → Based (ensure_access sys accepts w) d v
          → P v)
      → Ends P (write_event sys accepts msg w)
  unfolding write_event
  write_event-Ends P msg s p f = elim (Bool-cases (ensure_access sys accepts w).is_open) [
    | inl h ↦
        (let (d, e) = s.core.has_fd h in
          rw (write_event, h)
            (Ends-map (Based (ensure_access sys accepts w) d) P _ (f d h) (
              around-Based (ensure_access sys accepts w) d msg _ (
                write_text-Delivered accepts d (ensure_access sys accepts w).base msg sound e
                  s.core.bounded))))
    | inr h ↦ rw (write_event, h) p
  ]

-- The constructor
abbrev pub nameless : System → OnStart → Bool → Text → FileWriter
nameless sys start flush_each file_name = record (unopened sys start flush_each file_name) {
  file_name = file_name;
}

pub new_file_writer-open_file :
    (sys : System) (start : OnStart) (flush_each : Bool) (file_name : Text)
    → new_file_writer sys start flush_each file_name
      ≡ open_file sys file_name (nameless sys start flush_each file_name)
unfolding new_file_writer unopened open_file text_eq
new_file_writer-open_file sys start flush_each [] = refl
new_file_writer-open_file sys start flush_each (c ∷ cs) =
    let same : text_eq (c ∷ cs) (c ∷ cs) ≡ true = (text_eq_iff (c ∷ cs) (c ∷ cs)).1 refl in
    ap
      (λ b. tried sys (c ∷ cs) (
        if b
        then nameless sys start flush_each (c ∷ cs)
        else record (nameless sys start flush_each (c ∷ cs)) {
          has_been_opened = false;
          file_name = c ∷ cs;
        }))
      (sym same)

Opens-Watched :
    (now : ℕ) (sys : System) (w v : FileWriter)
    → Core now w
    → now ≤ sys.opened_at
    → w.writeability ≡ none
    → Opens sys w v
    → Watched (sys.opened_at + three_seconds) v
Opens-Watched now sys w v c later e o = record {
  core = Opens-Core now sys w v c later o;
  sure = by_case v o;
}
  where
    by_case : (v : FileWriter) → Opens sys w v → v.writeability ≡ some writeable → v.is_open ≡ true
    by_case _ unchanged h = cc
    by_case _ refused h = cc
    by_case _ bad_descriptor h = cc
    by_case _ (now_open fd) h = refl

new_file_writer-Watched :
    (sys : System) (start : OnStart) (flush_each : Bool) (file_name : Text)
    → sys.now ≤ sys.opened_at
    → Watched (sys.opened_at + three_seconds) (new_file_writer sys start flush_each file_name)
unfolding unopened new_fd_writer
new_file_writer-Watched sys start flush_each file_name later =
    let u = nameless sys start flush_each file_name in
    let c : Core sys.now u = record {
      fresh = λ e. (refl, refl, refl);
      has_fd = λ e. absurd (cc);
      bounded = omega arith;
      soon = omega arith;
    } in
    subst (Watched (sys.opened_at + three_seconds))
      (sym (new_file_writer-open_file sys start flush_each file_name))
      (Opens-Watched sys.now sys u (open_file sys file_name u) c later refl (open_file-Opens sys u))

-- The states of a file_writer that is made and written to, each at the time when it is reached.
pub data Reach (accepts : Accepts) (start : OnStart) (flush_each : Bool) (file_name : Text)
    : ℕ → FileWriter → Type 0 where
  made :
      (sys : System)
      → sys.now ≤ sys.opened_at
      → Reach accepts start flush_each file_name sys.opened_at
          (new_file_writer sys start flush_each file_name)
  written :
      {t : ℕ} {w : FileWriter} (sys : System) (msg : Text) (v : FileWriter)
      → Reach accepts start flush_each file_name t w
      → t ≤ sys.now
      → sys.now ≤ sys.opened_at
      → Ends (λ u. u ≡ v) (write_event sys accepts msg w)
      → Reach accepts start flush_each file_name sys.opened_at v

Ends-both :
    (P : FileWriter → Type 0) (v : FileWriter) (o : FileOutcome)
    → Ends P o
    → Ends (λ u. u ≡ v) o
    → P v
Ends-both P v (wrote u) p e = subst P e p
Ends-both P v (thrown u) p e = subst P e p
Ends-both P v unended p e = absurd p

module _ (accepts : Accepts) (start : OnStart) (flush_each : Bool) (file_name : Text)
    (sound : Sound accepts) where
  pub Reach-Watched :
      (t : ℕ) (w : FileWriter)
      → Reach accepts start flush_each file_name t w
      → Watched (t + three_seconds + three_seconds) w
  Reach-Watched _ _ (made sys later) =
      later-Watched (sys.opened_at + three_seconds) (next_check sys) _ (omega arith)
        (new_file_writer-Watched sys start flush_each file_name later)
  Reach-Watched _ _ (written {t} {w} sys msg v r after later e) =
      let s = Reach-Watched t w r in
      let a =
        ensure_access-Watched sys accepts w later (t + three_seconds + three_seconds) s
          (omega arith) in
      Ends-both (Watched (next_check sys)) v (write_event sys accepts msg w)
        (write_event-Ends sys accepts sound w (next_check sys) (Watched (next_check sys)) msg a a
          (λ d h. Based-Watched (next_check sys) (ensure_access sys accepts w) d h a))
        e
