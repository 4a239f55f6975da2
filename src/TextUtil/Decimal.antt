-- ===== src/TextUtil/Decimal.antt =====
-- std::to_string of an unsigned number, and reading it back.
use chucho.Base.{
  ℕ, zero, suc, ◌+◌, ◌-◌, ◌*◌, ◌/◌, ◌%◌, ◌<◌, ◌≡◌, refl, ◌∙◌, true, false, [], ◌∷◌, ◌++◌, Text,
  arith, ltb, if◌then◌else◌, Bool-cases, inl, inr, subst,
}
use chucho.TextUtil.{is_digit, read_digits}

-- `fuel` bounds the number of digits; n + 1 is enough for n.
unfoldable pub decimal_digits : ℕ → ℕ → Text
decimal_digits zero n = []
decimal_digits (suc fuel) n =
    let higher = decimal_digits fuel (n / 10) ++ (b'0' + n % 10) ∷ [] in
    if ltb n 10 then (b'0' + n) ∷ [] else higher

unfoldable pub decimal : ℕ → Text
unfolding decimal_digits
decimal n = decimal_digits (suc n) n

abbrev pub AllDigits : Text → Type 0
AllDigits [] = Unit
AllDigits (c ∷ s) = (is_digit c ≡ true) × AllDigits s

AllDigits-append : (s t : Text) → AllDigits s → AllDigits t → AllDigits (s ++ t)
AllDigits-append [] t h k = k
AllDigits-append (c ∷ s) t h k = (h.0, AllDigits-append s t h.1 k)

-- The number that digits after `acc` stand for.
value : ℕ → Text → ℕ
value acc [] = acc
value acc (c ∷ s) = value (acc * 10 + (c - b'0')) s

value-append : (acc : ℕ) (s t : Text) → value acc (s ++ t) ≡ value (value acc s) t
unfolding value
value-append acc [] t = refl
value-append acc (c ∷ s) t = value-append (acc * 10 + (c - b'0')) s t

read_digits-append :
    (acc : ℕ) (s t : Text) → AllDigits s → read_digits acc (s ++ t) ≡ read_digits (value acc s) t
unfolding read_digits value
read_digits-append acc [] t h = refl
read_digits-append acc (c ∷ s) t h =
    rw (h.0, read_digits) (read_digits-append (acc * 10 + (c - b'0')) s t h.1)

digit_lem : (d : ℕ) → d < 10 → is_digit (b'0' + d) ≡ true
unfolding is_digit
digit_lem d h = ground arith

decimal_digits-AllDigits : (fuel n : ℕ) → AllDigits (decimal_digits fuel n)
unfolding decimal_digits
decimal_digits-AllDigits zero n = tt
decimal_digits-AllDigits (suc fuel) n = elim (Bool-cases (ltb n 10)) [
  | inl small ↦ rw small (digit_lem n (ground arith), tt)
  | inr large ↦ rw large (
      AllDigits-append _ _ (decimal_digits-AllDigits fuel (n / 10))
        (digit_lem (n % 10) (omega arith), tt))
]

value-decimal_digits : (fuel n : ℕ) → n < fuel → value 0 (decimal_digits fuel n) ≡ n
unfolding decimal_digits
value-decimal_digits zero n h = absurd (omega arith)
value-decimal_digits (suc fuel) n h = elim (Bool-cases (ltb n 10)) [
  | inl small ↦ rw small (unfold value in omega arith)
  | inr large ↦ rw large (
      value-append 0 (decimal_digits fuel (n / 10)) _
      ∙ rw (value-decimal_digits fuel (n / 10) (ground arith)) (unfold value in omega arith))
]

-- No digit stands at the front.
abbrev pub NoDigit : Text → Type 0
NoDigit [] = Unit
NoDigit (c ∷ s) = is_digit c ≡ false

read_digits_stop : (acc : ℕ) (s : Text) → NoDigit s → read_digits acc s ≡ (acc, s)
unfolding read_digits
read_digits_stop acc [] h = refl
read_digits_stop acc (c ∷ s) h = rw (h, read_digits)

pub decimal-AllDigits : (n : ℕ) → AllDigits (decimal n)
unfolding decimal
decimal-AllDigits n = decimal_digits-AllDigits (suc n) n

-- Reading a printed number gives the number, and leaves what follows it.
pub read_digits-decimal :
    (n : ℕ) (rest : Text) → NoDigit rest → read_digits 0 (decimal n ++ rest) ≡ (n, rest)
unfolding decimal
read_digits-decimal n rest h =
    read_digits-append 0 (decimal n) rest (decimal_digits-AllDigits (suc n) n)
    ∙ rw (value-decimal_digits (suc n) n (omega arith)) (read_digits_stop n rest h)

append_nonempty : (fuel n : ℕ) → (c : ℕ) × (s : Text) × (decimal_digits (suc fuel) n ≡ c ∷ s)
unfolding decimal_digits
append_nonempty fuel n = elim (Bool-cases (ltb n 10)) [
  | inl small ↦ (b'0' + n, [], rw small)
  | inr large ↦ rw large (front (decimal_digits fuel (n / 10)))
]
  where
    front : (t : Text) → (c : ℕ) × (s : Text) × (t ++ (b'0' + n % 10) ∷ [] ≡ c ∷ s)
    front [] = (b'0' + n % 10, [], refl)
    front (c ∷ t) = (c, t ++ (b'0' + n % 10) ∷ [], refl)

-- A printed number has a first digit.
pub decimal_first : (n : ℕ) → (c : ℕ) × (s : Text) × (decimal n ≡ c ∷ s) × (is_digit c ≡ true)
unfolding decimal
decimal_first n =
    let (c, s, e) = append_nonempty n n in (c, s, e, (subst AllDigits e (decimal-AllDigits n)).0)
