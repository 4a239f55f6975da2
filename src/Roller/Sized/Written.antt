-- ===== src/Roller/Sized/Written.antt =====
-- A write to the open file of a rolling_file_writer.
use chucho.Base.{
  ℕ, zero, suc, ◌≤◌, ◌≡◌, refl, sym, ap, ◌∙◌, Bool, true, false, ◌&&◌, [], ◌∷◌, ◌++◌, append_assoc,
  some, Text, if◌then◌else◌, ltb, ◌==◌, arith, length, take, drop, drop_all, take_all, Bool-cases,
  inl, inr,
}
use chucho.FdWriter.{
  FdWriter, Outcome, returned, threw, unfinished, buf_size, flush, close, copy_some, to_copy,
  write_loop, write_text,
}
use chucho.FdWriter.Delivery.{
  bytes_to, bytes_to-append, Sound, Delivered, ended, failed, write_text-Delivered,
}
use chucho.Roller.{active, numbered}
use chucho.Roller.Shift.{put_same, put_other}
use chucho.Roller.Rolled.{differs_active}
use chucho.Roller.Sized.{accepts_all, RollingWriter, content_of, settle, write_active}

pub accepts_all-Sound : Sound accepts_all
accepts_all-Sound = record { bounds = λ k n rc e h. ground arith }

-- An outcome on an open descriptor that is no exception
abbrev Quiet : ℕ → Outcome → Type 0
Quiet d (returned v) = v.fd ≡ some d
Quiet d (threw v) = ⊥
Quiet d unfinished = Unit

if-Quiet : (d : ℕ) (b : Bool) (x y : Outcome) → Quiet d x → Quiet d y → Quiet d (if b then x else y)
if-Quiet d true x y p q = p
if-Quiet d false x y p q = q

then-Quiet :
    (d : ℕ) (o : Outcome) (g : FdWriter → Outcome)
    → Quiet d o
    → ((v : FdWriter) → v.fd ≡ some d → Quiet d (g v))
    → Quiet d (elim o [ returned v ↦ g v | threw v ↦ threw v | unfinished ↦ unfinished ])
then-Quiet d (returned v) g q h = h v q
then-Quiet d (threw v) g q h = q
then-Quiet d unfinished g q h = tt

flush-Quiet : (d : ℕ) (w : FdWriter) → w.fd ≡ some d → Quiet d (flush accepts_all w)
unfolding flush
flush-Quiet d w h = rw (flush, h) h

copy_some-Quiet :
    (d : ℕ) (rest : Text) (w : FdWriter) → w.fd ≡ some d → Quiet d (copy_some accepts_all rest w)
unfolding copy_some
copy_some-Quiet d rest w h =
    let copied = record w { buf = w.buf ++ take (to_copy rest w) rest } in
    if-Quiet d (length copied.buf == buf_size) (flush accepts_all copied) (returned copied)
      (flush-Quiet d copied h) h

write_loop-Quiet :
    (d fuel : ℕ) (rest : Text) (w : FdWriter)
    → w.fd ≡ some d
    → Quiet d (write_loop accepts_all fuel rest w)
unfolding write_loop
write_loop-Quiet d fuel [] w h = h
write_loop-Quiet d zero (b ∷ bs) w h = tt
write_loop-Quiet d (suc fuel) (b ∷ bs) w h =
    then-Quiet d (copy_some accepts_all (b ∷ bs) w) _ (copy_some-Quiet d (b ∷ bs) w h)
      (λ v e. write_loop-Quiet d fuel (drop (to_copy (b ∷ bs) w) (b ∷ bs)) v e)

write_text-Quiet :
    (d : ℕ) (msg : Text) (w : FdWriter) → w.fd ≡ some d → Quiet d (write_text accepts_all msg w)
unfolding write_text
write_text-Quiet d msg w h =
    then-Quiet d (write_loop accepts_all (suc (length msg)) msg w) _
      (write_loop-Quiet d (suc (length msg)) msg w h)
      λ v e.
        if-Quiet d (v.flush_each && ltb 0 (length v.buf)) (flush accepts_all v) (returned v)
          (flush-Quiet d v e) e

no_length : (s : Text) → length s ≡ 0 → s ≡ []
no_length [] h = refl
no_length (c ∷ s) h = absurd (omega arith)

pub close_lem :
    (d : ℕ) (w : FdWriter)
    → w.fd ≡ some d
    → w.sent ≡ []
    → (bytes_to d (close accepts_all w).sent ≡ w.buf) × ((close accepts_all w).buf ≡ [])
unfolding close flush
close_lem d w h e = elim (Bool-cases (ltb 0 (length w.buf))) [
  | inl some_bytes ↦ (
    simp (close, flush, h, some_bytes, e)
        (bytes_to-append d [] (take (length w.buf) w.buf)
          ∙ take_all (length w.buf) w.buf (omega arith)),
    simp (close, flush, h, some_bytes) (drop_all (length w.buf) w.buf (omega arith)),
  )
  | inr no_bytes ↦ (
    simp (close, h, no_bytes, e) (sym (no_length w.buf (ground arith))),
    simp (close, h, no_bytes) (no_length w.buf (ground arith)),
  )
]

-- The writer is on an open file with a content
pub record Open (d : ℕ) (a : Text) (w : RollingWriter) : Type 0 where
  pub is_open : w.base.fd ≡ some d
  pub few : length w.base.buf ≤ buf_size
  pub settled : w.base.sent ≡ []
  pub holds : w.files active ≡ some a

-- Writing a text adds it behind the content and the buffer, and leaves the other files.
pub record Wrote (d : ℕ) (a : Text) (w : RollingWriter) (msg : Text) (v : RollingWriter)
    : Type 0 where
  pub content : Text
  pub opened : Open d content v
  pub all : content ++ v.base.buf ≡ (a ++ w.base.buf) ++ msg
  pub others : (k : ℕ) (z : Bool) → v.files (numbered k z) ≡ w.files (numbered k z)

pub write_active-Wrote :
    (d : ℕ) (a : Text) (w : RollingWriter) (msg : Text)
    → Open d a w
    → (v : RollingWriter) × (write_active d msg w ≡ some v) × Wrote d a w msg v
unfolding write_active
write_active-Wrote d a w msg o =
    by_outcome (write_text accepts_all msg w.base) refl (write_text-Quiet d msg w.base o.is_open)
      (write_text-Delivered accepts_all d w.base msg accepts_all-Sound o.is_open o.few)
  where
    by_outcome :
        (r : Outcome)
        → write_text accepts_all msg w.base ≡ r
        → Quiet d r
        → Delivered d (suc buf_size) w.base msg r
        → (v : RollingWriter) × (write_active d msg w ≡ some v) × Wrote d a w msg v
    by_outcome _ e q (ended v is_open f few all) = (
      settle d (record w { base = v }),
      rw (write_active, e) refl,
      record {
        content = a ++ bytes_to d v.sent;
        opened = record {
          is_open = is_open;
          few = omega (arith, few);
          settled = refl;
          holds =
              put_same active (some (content_of (w.files active) ++ bytes_to d v.sent)) w.files
              ∙ ap (λ c. some (content_of c ++ bytes_to d v.sent)) o.holds;
        };
        all =
            append_assoc a (bytes_to d v.sent) v.buf
            ∙ (ap (◌++◌ a) (all ∙ ap (λ s. (bytes_to d s ++ w.base.buf) ++ msg) o.settled)
                ∙ sym (append_assoc a w.base.buf msg));
        others = λ k z. put_other active (numbered k z) _ w.files (differs_active k z);
      },
    )
    by_outcome _ e q (failed v front left is_open f few room same all) = absurd q
