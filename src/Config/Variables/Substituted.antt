-- ===== src/Config/Variables/Substituted.antt =====
-- What resolve_variables puts in the place of each match.
use chucho.Base.{
  ℕ, suc, ◌+◌, ◌-◌, ◌%◌, ◌^◌, ◌≤◌, ◌<◌, ◌≡◌, refl, sym, ap, ◌∙◌, false, List, [], ◌∷◌, ◌++◌,
  append_assoc, Option, none, some, Text, arith, ltb, length, take, drop, length-append,
  length-take, length-drop, take-append-drop, take_split, min,
}
use chucho.Config.Variables.{Match, Lookup, value_of, replace_text, resolve_loop, resolve_variables}

-- The matches of a text of a length, from a position on: in order, and not over each other.
abbrev pub InOrder : ℕ → ℕ → List Match → Type 0
InOrder p n [] = p ≤ n
InOrder p n (m ∷ ms) = (p ≤ m.begin) × InOrder (m.begin + m.size) n ms

-- The text from a position on, with the value of each match that has one in its place.
abbrev pub substituted : Lookup → ℕ → Text → List Match → Text
substituted look p rest [] = rest
substituted look p rest (m ∷ ms) =
    take (m.begin - p) rest
    ++ ((elim (value_of look m) [
      | none ↦ take m.size (drop (m.begin - p) rest)
      | some value ↦ value
    ])
        ++ substituted look (m.begin + m.size) (drop (m.begin - p + m.size) rest) ms)

abbrev pub value_bytes : Lookup → List Match → ℕ
value_bytes look [] = 0
value_bytes look (m ∷ ms) =
    (elim (value_of look m) [ none ↦ 0 | some value ↦ length value ]) + value_bytes look ms

InOrder-le : (p n : ℕ) (ms : List Match) → InOrder p n ms → p ≤ n
InOrder-le p n [] h = h
InOrder-le p n (m ∷ ms) h = omega (arith, InOrder-le (m.begin + m.size) n ms h.1)

-- Positions behind a front
take_behind :
    (done rest : Text) (g : ℕ) → take (length done + g) (done ++ rest) ≡ done ++ take g rest
take_behind [] rest g = ap (λ n. take n rest) (omega arith)
take_behind (c ∷ done) rest g =
    let e : suc (length done) + g ≡ suc (length done + g) = omega arith in
    ap (λ n. take n (c ∷ (done ++ rest))) e ∙ ap (◌∷◌ c) (take_behind done rest g)

drop_behind : (done rest : Text) (g : ℕ) → drop (length done + g) (done ++ rest) ≡ drop g rest
drop_behind [] rest g = ap (λ n. drop n rest) (omega arith)
drop_behind (c ∷ done) rest g =
    let e : suc (length done) + g ≡ suc (length done + g) = omega arith in
    ap (λ n. drop n (c ∷ (done ++ rest))) e ∙ drop_behind done rest g

replace_behind :
    (done rest value : Text) (g n : ℕ)
    → g ≤ length rest
    → replace_text (length done + g) n value (done ++ rest)
      ≡ some ((done ++ (take g rest ++ value)) ++ drop (g + n) rest)
unfolding replace_text
replace_behind done rest value g n h =
    let inside : ltb (length (done ++ rest)) (length done + g) ≡ false =
      ground (arith, length-append done rest) in
    let after : length done + g + n ≡ length done + (g + n) = omega arith in
    simp (
      replace_text,
      inside,
      take_behind done rest g,
      after,
      drop_behind done rest (g + n),
      append_assoc,
    )

pieces_of :
    (done rest more : Text) (g n : ℕ)
    → (done ++ take (g + n) rest) ++ more ≡ done ++ (take g rest ++ (take n (drop g rest) ++ more))
pieces_of done rest more g n =
    let size : g + n - g ≡ n = omega arith in
    let split : take (g + n) rest ≡ take g rest ++ take n (drop g rest) =
      take_split g (g + n) rest (omega arith)
      ∙ ap (λ k. take g rest ++ take k (drop g rest)) size in
    rw split (simp append_assoc)

lengths_behind :
    (done rest value : Text) (g : ℕ)
    → length (done ++ (take g rest ++ value)) ≡ length done + min g (length rest) + length value
lengths_behind done rest value g = omega (
  arith,
  length-append done (take g rest ++ value),
  length-append (take g rest) value,
  length-take g rest,
)

module _ (look : Lookup) where
  bytes_of_value :
      (m : Match) (ms : List Match) (value : Text)
      → value_of look m ≡ some value
      → value_bytes look (m ∷ ms) ≡ length value + value_bytes look ms
  bytes_of_value m ms value e =
      ap (λ r. (elim r as (λ x. ℕ) [ none ↦ 0 | some v ↦ length v ]) + value_bytes look ms) e

  -- The loop, when it has come to position p of the text: what is done, and the rest.
  resolve_loop-substituted :
      (ms : List Match) (done rest : Text) (p n off : ℕ)
      → InOrder p n ms
      → p + length rest ≡ n
      → (p + off) % 2 ^ 64 ≡ length done
      → length done + length rest + value_bytes look ms < 2 ^ 64
      → n < 2 ^ 64
      → resolve_loop look ms (done ++ rest) off ≡ some (done ++ substituted look p rest ms)
  unfolding resolve_loop
  resolve_loop-substituted [] done rest p n off order whole here small text_small = refl
  resolve_loop-substituted (m ∷ ms) done rest p n off order whole here small text_small =
      by_value (value_of look m) refl
        (λ e.
          resolve_loop-substituted ms (done ++ take (m.begin - p + m.size) rest)
            (drop (m.begin - p + m.size) rest) (m.begin + m.size) n off order.1
            (omega (arith, ends, length-drop (m.begin - p + m.size) rest))
            (omega (
              arith,
              ends,
              length-append done (take (m.begin - p + m.size) rest),
              length-take (m.begin - p + m.size) rest,
            ))
            (omega (
              arith,
              ends,
              length-append done (take (m.begin - p + m.size) rest),
              length-take (m.begin - p + m.size) rest,
              length-drop (m.begin - p + m.size) rest,
            ))
            text_small)
        (λ value e.
          resolve_loop-substituted ms (done ++ (take (m.begin - p) rest ++ value))
            (drop (m.begin - p + m.size) rest) (m.begin + m.size) n
            ((off + (length value + (2 ^ 64 - m.size)) % 2 ^ 64) % 2 ^ 64) order.1
            (omega (arith, ends, length-drop (m.begin - p + m.size) rest))
            (omega (
              arith,
              ends,
              lengths_behind done rest value (m.begin - p),
              bytes_of_value m ms value e,
            ))
            (omega (
              arith,
              ends,
              lengths_behind done rest value (m.begin - p),
              length-drop (m.begin - p + m.size) rest,
              bytes_of_value m ms value e,
            ))
            text_small)
    where
      g : ℕ
      g = m.begin - p

      ends : m.begin + m.size ≤ n
      ends = InOrder-le (m.begin + m.size) n ms order.1

      by_value :
          (r : Option Text)
          → value_of look m ≡ r
          → (value_of look m ≡ none
              → resolve_loop look ms
                  ((done ++ take (g + m.size) rest) ++ drop (g + m.size) rest)
                  off
                ≡ some (
                    (done ++ take (g + m.size) rest)
                    ++ substituted look (m.begin + m.size) (drop (g + m.size) rest) ms))
          → ((value : Text)
              → value_of look m ≡ some value
              → resolve_loop look ms
                  ((done ++ (take g rest ++ value)) ++ drop (g + m.size) rest)
                  ((off + (length value + (2 ^ 64 - m.size)) % 2 ^ 64) % 2 ^ 64)
                ≡ some (
                    (done ++ (take g rest ++ value))
                    ++ substituted look (m.begin + m.size) (drop (g + m.size) rest) ms))
          → resolve_loop look (m ∷ ms) (done ++ rest) off
            ≡ some (done ++ substituted look p rest (m ∷ ms))
      by_value none e skipped replaced =
          let same : (done ++ take (g + m.size) rest) ++ drop (g + m.size) rest ≡ done ++ rest =
            append_assoc done (take (g + m.size) rest) (drop (g + m.size) rest)
            ∙ ap (◌++◌ done) (take-append-drop (g + m.size) rest) in
          rw (resolve_loop, e)
            (ap (λ t. resolve_loop look ms t off) (sym same)
              ∙ (skipped e
                  ∙ ap some (
                      pieces_of done rest
                        (substituted look (m.begin + m.size) (drop (g + m.size) rest) ms) g
                        m.size)))
      by_value (some value) e skipped replaced =
          let place : (m.begin + off) % 2 ^ 64 ≡ length done + g = omega (arith, ends) in
          let there = replace_behind done rest value g m.size (omega (arith, ends)) in
          rw (resolve_loop, e, place, there) (replaced value e ∙ ap some (simp append_assoc))

-- resolve_variables replaces each reference to a variable, or to the environment, that has a value by
-- its value, and leaves the rest of the text and the references without a value as they are; no
-- replacement is out of range, although later places are found by an offset that wraps. The matches
-- of the regular expression lie in the text, in order, and not over each other. The text and the values
-- together are shorter than 2^64 bytes.
pub resolve_variables-substituted :
    (matches : Text → List Match) (look : Lookup) (val : Text)
    → InOrder 0 (length val) (matches val)
    → length val + value_bytes look (matches val) < 2 ^ 64
    → resolve_variables matches look val ≡ some (substituted look 0 val (matches val))
unfolding resolve_variables
resolve_variables-substituted matches look val order small =
    resolve_loop-substituted look (matches val) [] val 0 (length val) 0 order (omega arith) refl
      (omega arith) (omega arith)
