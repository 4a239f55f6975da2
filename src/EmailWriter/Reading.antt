-- ===== src/EmailWriter/Reading.antt =====
-- curl_read_cb of email_writer.cpp.
use chucho.Base.{
  ℕ, zero, suc, ◌+◌, ◌-◌, ◌*◌, ◌%◌, ◌^◌, ◌≤◌, ◌≡◌, refl, sym, ap, ◌∙◌, List, [], ◌∷◌, ◌++◌, Text,
  arith, leb, length, take, drop, min, Bool-cases, inl, inr, length-drop, take_all, drop_all,
  drop-drop,
}
use chucho.EmailWriter.{ReadData, curl_read_cb}

-- The bytes of calls with these arguments, one after the other, and their room
abbrev pub read_each : List (ℕ × ℕ) → ReadData → Text
read_each [] rd = []
read_each ((sz, nitems) ∷ calls) rd =
    let (bytes, next) = curl_read_cb sz nitems rd in bytes ++ read_each calls next

abbrev pub room : List (ℕ × ℕ) → ℕ
room [] = 0
room ((sz, nitems) ∷ calls) = sz * nitems % 2 ^ 64 + room calls

take_first :
    {A : Type 0}
    → (xs : List A) (g r : ℕ)
    → take (min (length xs) g) xs ++ take r (drop (min (length xs) g) xs) ≡ take (g + r) xs
take_first [] g r =
    let e : min 0 g ≡ 0 = omega arith in
    rw e (take_all r [] (omega arith) ∙ sym (take_all (g + r) [] (omega arith)))
take_first (x ∷ xs) zero r =
    let e : min (suc (length xs)) 0 ≡ 0 = omega arith in
    let f : 0 + r ≡ r = omega arith in rw (e, f) refl
take_first (x ∷ xs) (suc g) r =
    let e : min (suc (length xs)) (suc g) ≡ suc (min (length xs) g) = omega arith in
    let f : suc g + r ≡ suc (g + r) = omega arith in rw (e, f) (ap (◌∷◌ x) (take_first xs g r))

-- However curl asks for the bytes of a mail, it gets its first bytes, each once and in order, as many as
-- it has room for, up to the whole message.
pub read_each-take :
    (message : Text) (calls : List (ℕ × ℕ)) (pos : ℕ)
    → pos ≤ length message
    → read_each calls (record { message = message; pos = pos })
      ≡ take (room calls) (drop pos message)
unfolding curl_read_cb
read_each-take message [] pos h = refl
read_each-take message ((sz, nitems) ∷ calls) pos h = elim (Bool-cases (leb (length message) pos)) [
  | inl e ↦
      let nothing : drop pos message ≡ [] = drop_all pos message (ground arith) in
      rw (curl_read_cb, e)
        (read_each-take message calls pos h
          ∙ rw nothing (
              take_all (room calls) [] (omega arith)
              ∙ sym (take_all (sz * nitems % 2 ^ 64 + room calls) [] (omega arith))))
  | inr e ↦
      let to_copy : ℕ = min (length message - pos) (sz * nitems % 2 ^ 64) in
      rw (curl_read_cb, e)
        (ap (λ t. take to_copy (drop pos message) ++ t)
            (read_each-take message calls (pos + to_copy) (omega arith)
              ∙ ap (take (room calls)) (sym (drop-drop to_copy pos message)))
          ∙ rw (sym (length-drop pos message))
              (take_first (drop pos message) (sz * nitems % 2 ^ 64) (room calls)))
]
