-- ===== src/Utf8/Grammar.antt =====
-- What utf8.cpp accepts, as a grammar that does not mention the scan: the shape of UTF-8, which is the
-- number of bytes that follow a first byte. Overlong forms, surrogates and what is above U+10FFFF have
-- that shape, though they are not UTF-8.
use chucho.Base.{
  ℕ, ◌≤◌, ◌≡◌, ◌≢◌, ap, ◌∙◌, [], ◌∷◌, ◌++◌, none, some, sym, Text, arith, length, take,
  append_assoc,
}
use chucho.Utf8.{advance}

abbrev pub Follows : ℕ → Type 0
Follows c = (0x80 ≤ c) × (c ≤ 0xbf)

-- The bytes of one character, by their shape
abbrev pub IsChar : Text → Type 0
IsChar [] = ⊥
IsChar (c ∷ []) = c ≤ 0x7f
IsChar (c ∷ a ∷ []) = (0xc0 ≤ c) × (c ≤ 0xdf) × Follows a
IsChar (c ∷ a ∷ b ∷ []) = (0xe0 ≤ c) × (c ≤ 0xef) × Follows a × Follows b
IsChar (c ∷ a ∷ b ∷ d ∷ []) = (0xf0 ≤ c) × (c ≤ 0xf4) × Follows a × Follows b × Follows d
IsChar (c ∷ a ∷ b ∷ d ∷ e ∷ rest) = ⊥

pub data IsUtf8Shaped : Text → Type 0 where
  end : IsUtf8Shaped []
  char : (u s w : Text) → IsChar u → w ≡ u ++ s → IsUtf8Shaped s → IsUtf8Shaped w

pub IsUtf8Shaped-append : {s t : Text} → IsUtf8Shaped s → IsUtf8Shaped t → IsUtf8Shaped (s ++ t)
IsUtf8Shaped-append end k = k
IsUtf8Shaped-append {t = t} (char u s w c e h) k =
    char u (s ++ t) _ c (ap (λ x. x ++ t) e ∙ append_assoc u s t) (IsUtf8Shaped-append h k)

pub advance-IsChar :
    (c : ℕ) (rest : Text) (n : ℕ) → advance c rest ≡ some n → IsChar (take n (c ∷ rest))
unfolding advance
advance-IsChar c [] n h = ground arith
advance-IsChar c (a ∷ []) n h = ground arith
advance-IsChar c (a ∷ b ∷ []) n h = ground arith
advance-IsChar c (a ∷ b ∷ d ∷ rest) n h = ground arith

pub advance-le-length :
    (c : ℕ) (rest : Text) (n : ℕ) → advance c rest ≡ some n → (1 ≤ n) × (n ≤ length (c ∷ rest))
unfolding advance
advance-le-length c rest n h = ground arith

-- No character starts a text.
abbrev pub NoChar : Text → Type 0
NoChar t = (u v : Text) → IsChar u → t ≢ u ++ v

-- A character is consumed whole, whatever follows it.
pub advance-append :
    (c : ℕ) (u s : Text) → IsChar (c ∷ u) → advance c (u ++ s) ≡ some (length (c ∷ u))
unfolding advance
advance-append c [] s h = ground arith
advance-append c (a ∷ []) s h = ground arith
advance-append c (a ∷ b ∷ []) s h = ground arith
advance-append c (a ∷ b ∷ d ∷ []) s h = ground arith
advance-append c (a ∷ b ∷ d ∷ e ∷ u) s h = absurd h

pub advance-NoChar : (c : ℕ) (rest : Text) → advance c rest ≡ none → NoChar (c ∷ rest)
advance-NoChar c rest h [] v is_char e = is_char
advance-NoChar c rest h (d ∷ u) v is_char e =
    let taken = advance-append d u v is_char in
    let same : advance d (u ++ v) ≡ advance c rest = cc in absurd (cc (sym same ∙ taken))
