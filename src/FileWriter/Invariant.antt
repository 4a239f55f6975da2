-- ===== src/FileWriter/Invariant.antt =====
-- What holds of a file_writer behind each operation.
use chucho.Base.{
  ℕ, ◌+◌, ◌≤◌, ◌≡◌, refl, sym, ap, subst, ◌∙◌, true, false, not, ◌&&◌, Bool-cases, inl, inr, List,
  [], ◌∷◌, ◌++◌, append-nil, Option, none, some, text_eq_iff, ltb, arith, length, take, drop,
  length-drop,
}
use chucho.FdWriter.{
  Accepts, FdWriter, caught, returned, threw, buf_size, flush, close, set_file_descriptor,
}
use chucho.FileWriter.{
  writeable, Opening, System, FileWriter, three_seconds, at_end, open_impl, opened, named, tried,
  open_file, closed_file,
}

close_fd : (accepts : Accepts) (b : FdWriter) → (close accepts b).fd ≡ none
unfolding close
close_fd accepts b = by_fd b.fd refl
  where
    by_fd : (r : Option ℕ) → b.fd ≡ r → (close accepts b).fd ≡ none
    by_fd none e = simp (close, e)
    by_fd (some d) e = simp (close, e)

close-none : (accepts : Accepts) (b : FdWriter) → b.fd ≡ none → close accepts b ≡ b
unfolding close
close-none accepts b e = simp (close, e)

length-caught :
    (accepts : Accepts) (b : FdWriter) → length (caught (flush accepts b) b).buf ≤ length b.buf
unfolding flush
length-caught accepts b = by_fd b.fd refl (accepts b.calls (length b.buf)) refl
  where
    by_fd :
        (r : Option ℕ)
        → b.fd ≡ r
        → (a : Option ℕ) → accepts b.calls (length b.buf) ≡ a
        → length (caught (flush accepts b) b).buf ≤ length b.buf
    by_fd none e a f =
        let done : flush accepts b ≡ returned (record b { buf = [] }) = simp (flush, e) in
        omega (arith, ap (λ o. length (caught o b).buf) done)
    by_fd (some d) e none f =
        let done : flush accepts b ≡ threw (record b { calls = b.calls + 1 }) =
          simp (flush, e, f) in
        omega (arith, ap (λ o. length (caught o b).buf) done)
    by_fd (some d) e (some rc) f =
        let done : flush accepts b
            ≡ returned (record b {
              buf = drop rc b.buf;
              calls = b.calls + 1;
              sent = b.sent ++ (d, take rc b.buf) ∷ [];
            }) =
          simp (flush, e, f) in
        omega (arith, ap (λ o. length (caught o b).buf) done, length-drop rc b.buf)

length-close : (accepts : Accepts) (b : FdWriter) → length (close accepts b).buf ≤ length b.buf
unfolding close
length-close accepts b = by_fd b.fd refl
  where
    by_fd : (r : Option ℕ) → b.fd ≡ r → length (close accepts b).buf ≤ length b.buf
    by_fd none e = omega (arith, ap (λ c. length c.buf) (close-none accepts b e))
    by_fd (some d) e = elim (Bool-cases (ltb 0 (length b.buf))) [
      | inl h ↦
          (let done : (close accepts b).buf ≡ (caught (flush accepts b) b).buf =
              simp (close, e, h) in
            omega (arith, ap length done, length-caught accepts b))
      | inr h ↦
          (let done : (close accepts b).buf ≡ b.buf = simp (close, e, h) in
            omega (arith, ap length done))
    ]

-- What holds in the middle of an operation, up to a time
pub record Core (limit : ℕ) (w : FileWriter) : Type 0 where
  pub fresh :
      w.has_been_opened ≡ false → (w.is_open ≡ false) × (w.base.fd ≡ none) × (w.base.sent ≡ [])
  pub has_fd : w.is_open ≡ true → (d : ℕ) × (w.base.fd ≡ some d)
  pub bounded : length w.base.buf ≤ buf_size
  pub soon : w.next_access_check ≤ limit

abbrev pub AllAppend : List Opening → Type 0
AllAppend [] = Unit
AllAppend (o ∷ os) = (o.appends ≡ true) × AllAppend os

-- From a writer that has been open, to one of the same file whose openings since then append.
pub record Keeps (w v : FileWriter) : Type 0 where
  pub same_name : v.file_name ≡ w.file_name
  pub still : v.has_been_opened ≡ true
  pub more : List Opening
  pub appending : AllAppend more
  pub same_openings : v.openings ≡ w.openings ++ more

pub Keeps-refl : (w : FileWriter) → w.has_been_opened ≡ true → Keeps w w
Keeps-refl w h = record {
  same_name = refl;
  still = h;
  more = [];
  appending = tt;
  same_openings = sym (append-nil w.openings);
}

pub closed_file-Core :
    (limit : ℕ) (accepts : Accepts) (w : FileWriter)
    → Core limit w
    → Core limit (closed_file accepts w)
unfolding closed_file
closed_file-Core limit accepts w c = record {
  fresh = λ h. (
    refl,
    close_fd accepts w.base,
    ap (λ b. b.sent) (close-none accepts w.base (c.fresh h).1) ∙ (c.fresh h).2,
  );
  has_fd = λ h. absurd (cc);
  bounded = omega (arith, length-close accepts w.base, c.bounded);
  soon = c.soon;
}

abbrev opening_of : FileWriter → Opening
opening_of w = record { name = w.file_name; appends = at_end w; creates = w.allow_creation }

-- What open makes of a writer, on the writer's file
pub data Opens (sys : System) (w : FileWriter) : FileWriter → Type 0 where
  unchanged : Opens sys w w
  refused : Opens sys w (record w { is_open = false })
  bad_descriptor : Opens sys w (record w { openings = w.openings ++ opening_of w ∷ [] })
  now_open :
      (fd : ℕ)
      → Opens sys w (record w {
        base = record w.base { fd = some fd };
        next_access_check = sys.opened_at + three_seconds;
        writeability = some writeable;
        is_open = true;
        has_been_opened = true;
        openings = w.openings ++ opening_of w ∷ [];
      })

open_impl-Opens :
    (sys : System) (w : FileWriter) → Opens sys w (opened sys (open_impl sys w.file_name w))
unfolding open_impl set_file_descriptor
open_impl-Opens sys w = by_descriptor (sys.descriptor w.file_name w.allow_creation) refl
  where
    by_descriptor :
        (r : Option ℕ)
        → sys.descriptor w.file_name w.allow_creation ≡ r
        → Opens sys w (opened sys (open_impl sys w.file_name w))
    by_descriptor none e = rw (open_impl, e) refused
    by_descriptor (some fd) e = elim (Bool-cases (ltb fd 1)) [
      | inl bad ↦ rw (open_impl, e, set_file_descriptor, bad) bad_descriptor
      | inr good ↦ rw (open_impl, e, set_file_descriptor, good) (now_open fd)
    ]

pub named_same : (w : FileWriter) → named w.file_name w ≡ w
named_same w = rw ((text_eq_iff w.file_name w.file_name).1 refl) refl

pub open_file-Opens : (sys : System) (w : FileWriter) → Opens sys w (open_file sys w.file_name w)
unfolding open_file tried
open_file-Opens sys w =
    elim (Bool-cases (w.allow_creation && not (sys.creates_directories w.file_name))) [
      | inl h ↦
          (let done : open_file sys w.file_name w ≡ w = simp (open_file, named_same w, tried, h) in
            subst (Opens sys w) (sym done) unchanged)
      | inr h ↦
          (let done : open_file sys w.file_name w ≡ opened sys (open_impl sys w.file_name w) =
              simp (open_file, named_same w, tried, h) in
            subst (Opens sys w) (sym done) (open_impl-Opens sys w))
    ]

pub Opens-Core :
    (now : ℕ) (sys : System) (w v : FileWriter)
    → Core now w
    → now ≤ sys.opened_at
    → Opens sys w v
    → Core (sys.opened_at + three_seconds) v
Opens-Core now sys w _ c later unchanged = record {
  fresh = c.fresh;
  has_fd = c.has_fd;
  bounded = c.bounded;
  soon = omega (arith, c.soon);
}
Opens-Core now sys w _ c later refused = record {
  fresh = λ h. (refl, (c.fresh h).1, (c.fresh h).2);
  has_fd = λ h. absurd (cc);
  bounded = c.bounded;
  soon = omega (arith, c.soon);
}
Opens-Core now sys w _ c later bad_descriptor = record {
  fresh = c.fresh;
  has_fd = c.has_fd;
  bounded = c.bounded;
  soon = omega (arith, c.soon);
}
Opens-Core now sys w _ c later (now_open fd) = record {
  fresh = λ h. absurd (cc);
  has_fd = λ h. (fd, refl);
  bounded = c.bounded;
  soon = omega arith;
}

-- A writer whose file was open before only appends.
pub Opens-Keeps :
    (sys : System) (w v : FileWriter) → w.has_been_opened ≡ true → Opens sys w v → Keeps w v
Opens-Keeps sys w _ h unchanged = Keeps-refl w h
Opens-Keeps sys w _ h refused = record {
  same_name = refl;
  still = h;
  more = [];
  appending = tt;
  same_openings = sym (append-nil w.openings);
}
Opens-Keeps sys w _ h bad_descriptor = record {
  same_name = refl;
  still = h;
  more = opening_of w ∷ [];
  appending = (rw h refl, tt);
  same_openings = refl;
}
Opens-Keeps sys w _ h (now_open fd) = record {
  same_name = refl;
  still = refl;
  more = opening_of w ∷ [];
  appending = (rw h refl, tt);
  same_openings = refl;
}
