-- ===== src/FileWriter/Access.antt =====
-- ensure_access and write_impl keep the invariant of a file_writer.
use chucho.Base.{
  ℕ, ◌+◌, ◌≤◌, ◌≡◌, ◌≢◌, refl, sym, ap, subst, true, Bool-cases, inl, inr, [], append-nil, Option,
  none, some, if◌then◌else◌, leb, arith,
}
use chucho.FdWriter.{Accepts}
use chucho.FileWriter.{
  Writeability, non_existent, non_writeable, writeable, System, FileWriter, three_seconds,
  open_file, closed_file, lose_access, recreate, reopen, regain_access, check_access, ensure_access,
}
use chucho.FileWriter.Invariant.{
  Core, Keeps, Keeps-refl, closed_file-Core, open_file-Opens, Opens-Core, Opens-Keeps,
}

-- What holds between operations, up to a time of the next check
pub record Watched (limit : ℕ) (w : FileWriter) : Type 0 where
  pub core : Core limit w
  pub sure : w.writeability ≡ some writeable → w.is_open ≡ true

pub later-Watched : (n m : ℕ) (w : FileWriter) → n ≤ m → Watched n w → Watched m w
later-Watched n m w h s = record {
  core = record {
    fresh = s.core.fresh;
    has_fd = s.core.has_fd;
    bounded = s.core.bounded;
    soon = omega (arith, s.core.soon);
  };
  sure = s.sure;
}

later-Core : (n m : ℕ) (w : FileWriter) → n ≤ m → Core n w → Core m w
later-Core n m w h c = record {
  fresh = c.fresh;
  has_fd = c.has_fd;
  bounded = c.bounded;
  soon = omega (arith, c.soon);
}

-- What recreate and reopen do with a writer that is not open
abbrev marked : Writeability → FileWriter → FileWriter
marked x v = if v.is_open then v else record v { writeability = some x }

marked-Watched :
    (limit : ℕ) (x : Writeability) (v : FileWriter)
    → x ≢ writeable
    → Core limit v
    → Watched limit (marked x v)
marked-Watched limit x v h c = elim (Bool-cases v.is_open) [
  | inl is_open ↦
      subst (Watched limit)
        (sym (ap (λ b. if b then v else record v { writeability = some x }) is_open))
        (record { core = c; sure = λ e. is_open })
  | inr shut ↦
      subst (Watched limit)
        (sym (ap (λ b. if b then v else record v { writeability = some x }) shut))
        (record {
          core = record { fresh = c.fresh; has_fd = c.has_fd; bounded = c.bounded; soon = c.soon };
          sure = λ e. absurd (h (ap (λ r. elim r [ none ↦ x | some y ↦ y ]) e));
        })
]

marked-Keeps : (x : Writeability) (w v : FileWriter) → Keeps w v → Keeps w (marked x v)
marked-Keeps x w v k = elim (Bool-cases v.is_open) [
  | inl is_open ↦
      subst (Keeps w) (sym (ap (λ b. if b then v else record v { writeability = some x }) is_open))
        k
  | inr shut ↦
      subst (Keeps w) (sym (ap (λ b. if b then v else record v { writeability = some x }) shut))
        (record {
          same_name = k.same_name;
          still = k.still;
          more = k.more;
          appending = k.appending;
          same_openings = k.same_openings;
        })
]

closed_file-Keeps :
    (accepts : Accepts) (w : FileWriter)
    → w.has_been_opened ≡ true
    → Keeps w (closed_file accepts w)
unfolding closed_file
closed_file-Keeps accepts w h = record {
  same_name = refl;
  still = h;
  more = [];
  appending = tt;
  same_openings = sym (append-nil w.openings);
}

-- What check_access makes of a writer
data Checked (sys : System) (accepts : Accepts) (w : FileWriter) : FileWriter → Type 0 where
  as_before : Checked sys accepts w w
  shut_out :
      Checked sys accepts w (record (closed_file accepts w) { writeability = some non_writeable })
  made_again : Checked sys accepts w (recreate sys w)
  opened_again : Checked sys accepts w (reopen sys accepts w)

check_access-Checked :
    (sys : System) (accepts : Accepts) (w : FileWriter)
    → Checked sys accepts w (check_access sys accepts w)
unfolding check_access lose_access regain_access
check_access-Checked sys accepts w =
    by_case (sys.writeability_of w.file_name) w.writeability refl refl
  where
    found :
        (v : FileWriter)
        → check_access sys accepts w ≡ v
        → Checked sys accepts w v
        → Checked sys accepts w (check_access sys accepts w)
    found v e c = subst (Checked sys accepts w) (sym e) c

    by_case :
        (x : Writeability) (y : Option Writeability)
        → sys.writeability_of w.file_name ≡ x
        → w.writeability ≡ y
        → Checked sys accepts w (check_access sys accepts w)
    by_case non_writeable none e f = found w (simp (check_access, lose_access, e, f)) as_before
    by_case non_writeable (some non_writeable) e f =
        found w (simp (check_access, lose_access, e, f)) as_before
    by_case non_writeable (some non_existent) e f =
        found (record (closed_file accepts w) { writeability = some non_writeable })
          (simp (check_access, lose_access, e, f)) shut_out
    by_case non_writeable (some writeable) e f =
        found (record (closed_file accepts w) { writeability = some non_writeable })
          (simp (check_access, lose_access, e, f)) shut_out
    by_case non_existent y e f = found (recreate sys w) (simp (check_access, e)) made_again
    by_case writeable none e f = found w (simp (check_access, regain_access, e, f)) as_before
    by_case writeable (some writeable) e f =
        found w (simp (check_access, regain_access, e, f)) as_before
    by_case writeable (some non_writeable) e f =
        found (reopen sys accepts w) (simp (check_access, regain_access, e, f)) opened_again
    by_case writeable (some non_existent) e f =
        found (reopen sys accepts w) (simp (check_access, regain_access, e, f)) opened_again

-- The file of a writer that is closed is the same.
module _ (now : ℕ) (sys : System) (accepts : Accepts) (w : FileWriter)
    (later : now ≤ sys.opened_at) where
  reopen-Watched : Watched now w → Watched (sys.opened_at + three_seconds) (reopen sys accepts w)
  unfolding reopen closed_file
  reopen-Watched s =
      marked-Watched (sys.opened_at + three_seconds) non_writeable
        (open_file sys w.file_name (closed_file accepts w)) (λ e. cc)
        (Opens-Core now sys (closed_file accepts w) _ (closed_file-Core now accepts w s.core) later
          (open_file-Opens sys (closed_file accepts w)))

  reopen-Keeps : w.has_been_opened ≡ true → Keeps w (reopen sys accepts w)
  unfolding reopen closed_file
  reopen-Keeps h =
      let k =
        Opens-Keeps sys (closed_file accepts w) _ h (open_file-Opens sys (closed_file accepts w)) in
      marked-Keeps non_writeable w (open_file sys w.file_name (closed_file accepts w)) (record {
        same_name = k.same_name;
        still = k.still;
        more = k.more;
        appending = k.appending;
        same_openings = k.same_openings;
      })

  recreate-Watched : Watched now w → Watched (sys.opened_at + three_seconds) (recreate sys w)
  unfolding recreate
  recreate-Watched s =
      marked-Watched (sys.opened_at + three_seconds) non_existent (open_file sys w.file_name w)
        (λ e. cc) (Opens-Core now sys w _ s.core later (open_file-Opens sys w))

  recreate-Keeps : w.has_been_opened ≡ true → Keeps w (recreate sys w)
  unfolding recreate
  recreate-Keeps h =
      marked-Keeps non_existent w (open_file sys w.file_name w)
        (Opens-Keeps sys w _ h (open_file-Opens sys w))

  shut_out-Watched :
      Watched now w
      → Watched
          (sys.opened_at + three_seconds)
          (record (closed_file accepts w) { writeability = some non_writeable })
  unfolding closed_file
  shut_out-Watched s =
      let c =
        later-Core now (sys.opened_at + three_seconds) (closed_file accepts w)
          (omega (arith, later)) (closed_file-Core now accepts w s.core) in
      record {
        core = record { fresh = c.fresh; has_fd = c.has_fd; bounded = c.bounded; soon = c.soon };
        sure = λ e. cc;
      }

  shut_out-Keeps :
      w.has_been_opened ≡ true
      → Keeps w (record (closed_file accepts w) { writeability = some non_writeable })
  unfolding closed_file
  shut_out-Keeps h = record {
    same_name = refl;
    still = h;
    more = [];
    appending = tt;
    same_openings = sym (append-nil w.openings);
  }

  check_access-Watched :
      Watched now w → Watched (sys.opened_at + three_seconds) (check_access sys accepts w)
  check_access-Watched s = by_case _ (check_access-Checked sys accepts w)
    where
      by_case :
          (v : FileWriter) → Checked sys accepts w v → Watched (sys.opened_at + three_seconds) v
      by_case _ as_before =
          later-Watched now (sys.opened_at + three_seconds) w (omega (arith, later)) s
      by_case _ shut_out = shut_out-Watched s
      by_case _ made_again = recreate-Watched s
      by_case _ opened_again = reopen-Watched s

  check_access-Keeps : w.has_been_opened ≡ true → Keeps w (check_access sys accepts w)
  check_access-Keeps h = by_case _ (check_access-Checked sys accepts w)
    where
      by_case : (v : FileWriter) → Checked sys accepts w v → Keeps w v
      by_case _ as_before = Keeps-refl w h
      by_case _ shut_out = shut_out-Keeps h
      by_case _ made_again = recreate-Keeps h
      by_case _ opened_again = reopen-Keeps h

-- The time of the next check, behind an operation
abbrev pub next_check : System → ℕ
next_check sys = sys.opened_at + three_seconds + three_seconds

later_check-Watched :
    (limit : ℕ) (w : FileWriter)
    → Watched limit w
    → Watched
        (limit + three_seconds)
        (record w { next_access_check = w.next_access_check + three_seconds })
later_check-Watched limit w s = record {
  core = record {
    fresh = s.core.fresh;
    has_fd = s.core.has_fd;
    bounded = s.core.bounded;
    soon = omega (arith, s.core.soon);
  };
  sure = s.sure;
}

module _ (sys : System) (accepts : Accepts) (w : FileWriter)
    (forward : sys.now ≤ sys.opened_at) where
  pub ensure_access-Watched :
      (limit : ℕ)
      → Watched limit w
      → limit ≤ next_check sys
      → Watched (next_check sys) (ensure_access sys accepts w)
  unfolding ensure_access
  ensure_access-Watched limit s h = elim (Bool-cases (leb w.next_access_check sys.now)) [
    | inl due ↦
        (let at_now : Watched sys.now w = record {
          core = record {
            fresh = s.core.fresh;
            has_fd = s.core.has_fd;
            bounded = s.core.bounded;
            soon = ground arith;
          };
          sure = s.sure;
        } in
          rw (ensure_access, due)
            (later_check-Watched (sys.opened_at + three_seconds) (check_access sys accepts w)
              (check_access-Watched sys.now sys accepts w forward at_now)))
    | inr early ↦ rw (ensure_access, early) (later-Watched limit (next_check sys) w h s)
  ]

  pub ensure_access-Keeps : w.has_been_opened ≡ true → Keeps w (ensure_access sys accepts w)
  unfolding ensure_access
  ensure_access-Keeps h = elim (Bool-cases (leb w.next_access_check sys.now)) [
    | inl due ↦
        (let k = check_access-Keeps sys.now sys accepts w forward h in
          rw (ensure_access, due)
            (record {
              same_name = k.same_name;
              still = k.still;
              more = k.more;
              appending = k.appending;
              same_openings = k.same_openings;
            }))
    | inr early ↦ rw (ensure_access, early) (Keeps-refl w h)
  ]
