-- ===== src/Roller/Rolled.antt =====
-- The loop of a roll, and the roll.
use chucho.Base.{
  ℕ, zero, suc, ◌<◌, ◌≡◌, refl, ap, ◌∙◌, Bool, true, false, none, some, Text, arith, if◌then◌else◌,
  ◌==◌, ==_iff, subst, Bool-cases, inl, inr,
}
use chucho.Roller.{
  active, numbered, same_name, Files, put, remove, rename, Roller, is_compressed, get_name,
  compress, shift, roll_active, roll,
}
use chucho.Roller.Shift.{
  carried, move_up-Moved, put_same, put_other, rename-some, compress-some, kinds_differ,
}

number_differs :
    (j k : ℕ) (z y : Bool) → (j == k) ≡ false → same_name (numbered j z) (numbered k y) ≡ false
unfolding same_name
number_differs j k z y e = rw e refl

active_differs : (k : ℕ) (z : Bool) → same_name (numbered k z) active ≡ false
unfolding same_name
active_differs k z = refl

pub differs_active : (k : ℕ) (z : Bool) → same_name active (numbered k z) ≡ false
unfolding same_name
differs_active k z = refl

-- What the loop from n on leaves
record Shifted (packed : Text → Text) (r : Roller) (n : ℕ) (files shifted : Files) : Type 0 where
  next :
      (k : ℕ)
      → k < n
      → shifted (get_name r (suc k))
        ≡ carried packed (is_compressed r k) (is_compressed r (suc k)) (files (get_name r k))
  first : shifted (get_name r 0) ≡ none
  above : (k : ℕ) (z : Bool) → n < k → shifted (numbered k z) ≡ files (numbered k z)
  kept : shifted active ≡ files active

shift-Shifted :
    (packed : Text → Text) (r : Roller) (n : ℕ) (files : Files)
    → files (get_name r n) ≡ none
    → (shifted : Files) × (shift packed r n files ≡ some shifted) × Shifted packed r n files shifted
unfolding shift get_name
shift-Shifted packed r zero files free = (
  files,
  refl,
  record { next = λ k h. absurd (omega arith); first = free; above = λ k z h. refl; kept = refl },
)
shift-Shifted packed r (suc n) files free =
    let (moved, e, m) = move_up-Moved packed r n files free in
    let (shifted, f, s) = shift-Shifted packed r n moved m.left in
    let same = λ (k : ℕ) (z : Bool) (g : (suc n == k) ≡ false) (h : (n == k) ≡ false).
      m.others (numbered k z) (number_differs (suc n) k true z g)
        (number_differs (suc n) k false z g) (number_differs n k (is_compressed r n) z h) in
    (
      shifted,
      rw (shift, e) f,
      record {
        next = λ k h. (elim (Bool-cases (n == k)) [
          | inl g ↦
              subst
                (λ j.
                  shifted (get_name r (suc j))
                  ≡ carried packed (is_compressed r j) (is_compressed r (suc j))
                      (files (get_name r j)))
                ((==_iff n k).0 g)
                (s.above (suc n) (is_compressed r (suc n)) (omega arith) ∙ m.next)
          | inr g ↦
              s.next k (ground arith)
              ∙ ap (carried packed (is_compressed r k) (is_compressed r (suc k)))
                  (same k (is_compressed r k) (ground arith) g)
        ]);
        first = s.first;
        above = λ k z h. s.above k z (omega arith) ∙ same k z (ground arith) (ground arith);
        kept =
            s.kept
            ∙ m.others active (active_differs (suc n) true) (active_differs (suc n) false)
                (active_differs n (is_compressed r n));
      },
    )

-- What a roll leaves: the active file's content under the first number, each number's content under
-- the next one, compressed where the numbers begin to be compressed, and no active file.
pub record Rolled (packed : Text → Text) (r : Roller) (files rolled : Files) : Type 0 where
  pub first : rolled (get_name r 0) ≡ carried packed false (is_compressed r 0) (files active)
  pub next :
      (k : ℕ)
      → k < r.last
      → rolled (get_name r (suc k))
        ≡ carried packed (is_compressed r k) (is_compressed r (suc k)) (files (get_name r k))
  pub gone : rolled active ≡ none

-- The active file's way to the first number
record Placed (packed : Text → Text) (z : Bool) (files placed : Files) : Type 0 where
  first : placed (numbered 0 z) ≡ carried packed false z (files active)
  gone : placed active ≡ none
  others : (k : ℕ) (y : Bool) → placed (numbered (suc k) y) ≡ files (numbered (suc k) y)

place_plain :
    (packed : Text → Text) (content : Text) (files : Files)
    → files active ≡ some content
    → Placed packed false files (put (numbered 0 false) (some content) (put active none files))
place_plain packed content files e =
    let at = put active none files in
    record {
      first = rw e (put_same (numbered 0 false) (some content) at);
      gone =
          put_other (numbered 0 false) active (some content) at (active_differs 0 false)
          ∙ put_same active none files;
      others = λ k y.
          put_other (numbered 0 false) (numbered (suc k) y) (some content) at
            (number_differs 0 (suc k) false y (ground arith))
          ∙ put_other active (numbered (suc k) y) none files (differs_active (suc k) y);
    }

place_packed :
    (packed : Text → Text) (content : Text) (files at : Files)
    → files active ≡ some content
    → Placed packed false files at
    → Placed packed true files
        (put (numbered 0 false) none (put (numbered 0 true) (some (packed content)) at))
place_packed packed content files at e p =
    let on = put (numbered 0 true) (some (packed content)) at in
    record {
      first = rw e (
          put_other (numbered 0 false) (numbered 0 true) none on (kinds_differ 0)
          ∙ put_same (numbered 0 true) (some (packed content)) at);
      gone =
          put_other (numbered 0 false) active none on (active_differs 0 false)
          ∙ (put_other (numbered 0 true) active (some (packed content)) at (active_differs 0 true)
              ∙ p.gone);
      others = λ k y.
          put_other (numbered 0 false) (numbered (suc k) y) none on
            (number_differs 0 (suc k) false y (ground arith))
          ∙ (put_other (numbered 0 true) (numbered (suc k) y) (some (packed content)) at
                (number_differs 0 (suc k) true y (ground arith))
              ∙ p.others k y);
    }

place :
    (packed : Text → Text) (z : Bool) (content : Text) (files : Files)
    → files active ≡ some content
    → (placed : Files) × ((if z
          then compress packed 0 (rename active (numbered 0 false) files)
          else some (rename active (numbered 0 false) files))
        ≡ some placed)
      × Placed packed z files placed
place packed false content files e = (
  put (numbered 0 false) (some content) (put active none files),
  ap some (rename-some active (numbered 0 false) content files e),
  place_plain packed content files e,
)
place packed true content files e =
    let at = put (numbered 0 false) (some content) (put active none files) in
    (
      put (numbered 0 false) none (put (numbered 0 true) (some (packed content)) at),
      ap (compress packed 0) (rename-some active (numbered 0 false) content files e)
          ∙ compress-some packed 0 content at
              (put_same (numbered 0 false) (some content) (put active none files)),
      place_packed packed content files at e (place_plain packed content files e),
    )

pub roll-Rolled :
    (packed : Text → Text) (r : Roller) (files : Files) (content : Text)
    → files active ≡ some content
    → (rolled : Files) × (roll packed r files ≡ some rolled) × Rolled packed r files rolled
unfolding roll remove get_name
roll-Rolled packed r files content e =
    let last = numbered r.last (is_compressed r r.last) in
    let start = put last none files in
    let (shifted, f, s) = shift-Shifted packed r r.last start (put_same last none files) in
    let kept =
      s.kept ∙ put_other last active none files (active_differs r.last (is_compressed r r.last)) in
    let (placed, g, p) = place packed (is_compressed r 0) content shifted (kept ∙ e) in
    (
      placed,
      rw (roll, f, roll_active) g,
      record {
        first = p.first ∙ ap (carried packed false (is_compressed r 0)) kept;
        next = λ k h.
            p.others k (is_compressed r (suc k))
            ∙ (s.next k h
                ∙ ap (carried packed (is_compressed r k) (is_compressed r (suc k))) (
                    put_other last (numbered k (is_compressed r k)) none files (
                      number_differs r.last k (is_compressed r r.last) (is_compressed r k)
                        (ground arith))));
        gone = p.gone;
      },
    )
