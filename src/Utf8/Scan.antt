-- ===== src/Utf8/Scan.antt =====
-- What find_invalid finds: the end of the longest start of the text that has the shape of UTF-8.
use chucho.Base.{
  ℕ, zero, suc, ◌+◌, ◌-◌, ◌≤◌, ◌<◌, ◌≡◌, refl, sym, ◌∙◌, inl, inr, [], ◌∷◌, ◌++◌, none, some, Text,
  arith, length, take, drop, Option-cases, take-append-drop, length-drop, ◌↔◌, drop-append-length,
  ap, drop-drop, subst, take_split,
}
use chucho.Utf8.{advance, scan, find_invalid}
use chucho.Utf8.Grammar.{
  IsUtf8Shaped, end, char, NoChar, advance-NoChar, advance-IsChar, advance-le-length,
  advance-append,
}

-- The scan from `i` stops at a position inside the text, before which all is characters and at which
-- none starts.
abbrev pub StopsAt : ℕ → Text → ℕ → Type 0
StopsAt i s k =
    (i ≤ k) × (k < i + length s) × IsUtf8Shaped (take (k - i) s) × NoChar (drop (k - i) s)

scan_stop :
    (fuel i ch : ℕ) (rest : Text) → advance ch rest ≡ none → scan (suc fuel) i (ch ∷ rest) ≡ some i
unfolding scan
scan_stop fuel i ch rest e = rw (e, scan)

scan_step :
    (fuel i ch : ℕ) (rest : Text) (n : ℕ)
    → advance ch rest ≡ some n
    → scan (suc fuel) i (ch ∷ rest) ≡ scan fuel (i + n) (drop n (ch ∷ rest))
unfolding scan
scan_step fuel i ch rest n e = rw (e, scan)

StopsAt-step :
    (i ch : ℕ) (rest : Text) (n k : ℕ)
    → advance ch rest ≡ some n
    → StopsAt (i + n) (drop n (ch ∷ rest)) k
    → StopsAt i (ch ∷ rest) k
StopsAt-step i ch rest n k e (le, lt, u, stops) = (
  omega arith,
  omega (arith, advance-le-length ch rest n e, length-drop n (ch ∷ rest)),
  rw (take_split n (k - i) (ch ∷ rest) (omega arith)) (
      char _ _ _ (advance-IsChar ch rest n e) refl
        (subst (λ m. IsUtf8Shaped (take m (drop n (ch ∷ rest)))) same u)),
  subst NoChar (drop-drop (k - (i + n)) n (ch ∷ rest) ∙ ap (λ m. drop m (ch ∷ rest)) behind) stops,
)
  where
    same : k - (i + n) ≡ k - i - n
    same = omega arith

    behind : n + (k - (i + n)) ≡ k - i
    behind = omega arith

scan-StopsAt : (fuel i : ℕ) (s : Text) (k : ℕ) → scan fuel i s ≡ some k → StopsAt i s k
unfolding scan
scan-StopsAt zero i s k h = absurd (cc)
scan-StopsAt (suc fuel) i [] k h = absurd (cc)
scan-StopsAt (suc fuel) i (ch ∷ rest) k h = elim (Option-cases (advance ch rest)) [
  | inl e ↦
      let here : i ≡ k = cc (scan_stop fuel i ch rest e) in
      let none_taken : k - i ≡ 0 = omega arith in
      (omega arith, omega arith, rw none_taken end, rw none_taken (advance-NoChar ch rest e))
  | inr (n, e) ↦
      StopsAt-step i ch rest n k e
        (scan-StopsAt fuel (i + n) (drop n (ch ∷ rest)) k (sym (scan_step fuel i ch rest n e) ∙ h))
]

scan_complete : (fuel i : ℕ) (s : Text) → length s ≤ fuel → scan fuel i s ≡ none → IsUtf8Shaped s
unfolding scan
scan_complete zero i [] le h = end
scan_complete zero i (ch ∷ rest) le h = absurd (omega arith)
scan_complete (suc fuel) i [] le h = end
scan_complete (suc fuel) i (ch ∷ rest) le h = elim (Option-cases (advance ch rest)) [
  | inl e ↦ absurd (cc (scan_stop fuel i ch rest e))
  | inr (n, e) ↦ char _ _ _ (advance-IsChar ch rest n e) (sym (take-append-drop n (ch ∷ rest))) (
      scan_complete fuel (i + n) (drop n (ch ∷ rest))
        (omega (arith, advance-le-length ch rest n e, length-drop n (ch ∷ rest)))
        (sym (scan_step fuel i ch rest n e) ∙ h))
]

scan-IsUtf8Shaped : (fuel i : ℕ) {s : Text} → IsUtf8Shaped s → scan fuel i s ≡ none
unfolding scan
scan-IsUtf8Shaped zero i h = refl
scan-IsUtf8Shaped (suc fuel) i end = refl
scan-IsUtf8Shaped (suc fuel) i (char [] s w c e h) = absurd c
scan-IsUtf8Shaped (suc fuel) i (char (ch ∷ u) s w c e h) = rw e (
    scan_step fuel i ch (u ++ s) _ (advance-append ch u s c)
    ∙ rw (drop-append-length (ch ∷ u) s) (scan-IsUtf8Shaped fuel _ h))

-- find_invalid returns npos exactly on the texts that have the shape of UTF-8 from `pos` on.
pub find_invalid-none :
    (s : Text) (pos : ℕ) → (find_invalid s pos ≡ none) ↔ IsUtf8Shaped (drop pos s)
unfolding find_invalid
find_invalid-none s pos = (
  scan_complete (length s) pos (drop pos s) (omega (arith, length-drop pos s)),
  scan-IsUtf8Shaped (length s) pos,
)

-- Otherwise it returns a position at or after `pos` and inside the text; what lies between is
-- characters, the whole rest is not, and no character starts at the position.
pub find_invalid-some :
    (s : Text) (pos k : ℕ)
    → find_invalid s pos ≡ some k
    → (pos ≤ k)
      × (k < length s)
      × IsUtf8Shaped (take (k - pos) (drop pos s))
      × (¬ IsUtf8Shaped (drop pos s))
      × NoChar (drop k s)
find_invalid-some s pos k h = (
  stop.0,
  omega (arith, stop.0, stop.1, length-drop pos s),
  stop.2,
  λ u. cc ((find_invalid-none s pos).1 u),
  subst NoChar (drop-drop (k - pos) pos s ∙ ap (λ m. drop m s) behind) stop.3,
)
  where
    stop : StopsAt pos (drop pos s) k
    stop = unfold find_invalid in scan-StopsAt (length s) pos (drop pos s) k h

    behind : pos + (k - pos) ≡ k
    behind = omega (arith, stop.0)
