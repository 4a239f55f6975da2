-- ===== src/Logger/Names.antt =====
-- The names of a logger's ancestors: none is empty, and each is shorter than the logger's name.
use chucho.Base.{
  ℕ, zero, suc, ◌+◌, ◌≤◌, ◌<◌, ◌≡◌, refl, ◌≢◌, List, [], ◌∷◌, Text, arith, length, length-append,
}
use chucho.TextUtil.{before_first_of, from_first_of}
use chucho.Logger.{push_piece, split_loop, split, pop_back, joined, ancestor_names, ancestors}

-- The bytes of some pieces, with a dot behind each.
weight : List Text → ℕ
weight [] = 0
weight (p ∷ ps) = length p + 1 + weight ps

from-before-length :
    (delim : ℕ) (s : Text) (d : ℕ) (rest : Text)
    → from_first_of delim s ≡ d ∷ rest
    → length (before_first_of delim s) + 1 + length rest ≡ length s
unfolding before_first_of from_first_of
from-before-length delim [] d rest h = cc
from-before-length delim (c ∷ s) d rest h = ground (arith, from-before-length delim s d rest)

pop_back-push_piece :
    (p : Text) (q : Text) (ps : List Text)
    → weight (pop_back (push_piece p (q ∷ ps))) ≤ length p + 1 + weight (pop_back (q ∷ ps))
unfolding push_piece pop_back weight
pop_back-push_piece [] q ps = omega arith
pop_back-push_piece (c ∷ p) q ps = omega arith

AllNonempty : List Text → Type 0
AllNonempty [] = Unit
AllNonempty (p ∷ ps) = (p ≢ []) × AllNonempty ps

-- There is a last piece.
abbrev IsCons : List Text → Type 0
IsCons [] = ⊥
IsCons (p ∷ ps) = Unit

push_piece-IsCons : (p : Text) (ps : List Text) → IsCons ps → IsCons (push_piece p ps)
unfolding push_piece
push_piece-IsCons [] ps h = h
push_piece-IsCons (c ∷ p) ps h = tt

pop_back-push_piece-AllNonempty :
    (p : Text) (ps : List Text)
    → IsCons ps
    → AllNonempty (pop_back ps)
    → AllNonempty (pop_back (push_piece p ps))
unfolding push_piece pop_back AllNonempty
pop_back-push_piece-AllNonempty [] ps i h = h
pop_back-push_piece-AllNonempty (c ∷ p) [] i h = absurd i
pop_back-push_piece-AllNonempty (c ∷ p) (q ∷ ps) i h = ((λ e. cc), h)

weight-push_piece :
    (p : Text) (ps : List Text)
    → IsCons ps
    → weight (pop_back (push_piece p ps)) ≤ length p + 1 + weight (pop_back ps)
weight-push_piece p [] i = absurd i
weight-push_piece p (q ∷ ps) i = pop_back-push_piece p q ps

-- What `split` gives: a last piece, before which the pieces are not empty and stand in the name.
abbrev IsSplit : Text → List Text → Type 0
IsSplit s ps = IsCons ps × AllNonempty (pop_back ps) × (weight (pop_back ps) ≤ length s)

split_loop-IsSplit : (fuel : ℕ) (s : Text) → length s < fuel → IsSplit s (split_loop fuel s)
unfolding split_loop
split_loop-IsSplit zero s h = absurd (omega arith)
split_loop-IsSplit (suc fuel) s h =
    go (from_first_of b'.' s) refl (λ r lt. split_loop-IsSplit fuel r lt)
  where
    go :
        (t : Text)
        → from_first_of b'.' s ≡ t
        → ((r : Text) → length r < fuel → IsSplit r (split_loop fuel r))
        → IsSplit s (split_loop (suc fuel) s)
    go [] e ih =
        rw (e, split_loop)
          (tt, unfold pop_back AllNonempty in tt, unfold pop_back weight in omega arith)
    go (d ∷ r) e ih =
        let size = from-before-length b'.' s d r e in
        let (cons, full, fits) = ih r (omega arith) in
        rw (e, split_loop)
          (
            push_piece-IsCons (before_first_of b'.' s) (split_loop fuel r) cons,
            pop_back-push_piece-AllNonempty (before_first_of b'.' s) (split_loop fuel r) cons full,
            omega (arith, weight-push_piece (before_first_of b'.' s) (split_loop fuel r) cons),
          )

-- A name that is not empty, of at most `n` bytes with a byte more.
abbrev pub Short : ℕ → Text → Type 0
Short n name = (name ≢ []) × (length name < n)

abbrev pub AllShort : ℕ → List Text → Type 0
AllShort n [] = Unit
AllShort n (name ∷ names) = Short n name × AllShort n names

room : Text → ℕ
room [] = 0
room (c ∷ name) = length (c ∷ name) + 1

joined-Short :
    (n : ℕ) (name a : Text)
    → a ≢ []
    → room name + (length a + 1) ≤ n
    → Short n (joined name a) × (room (joined name a) ≡ room name + (length a + 1))
unfolding room
joined-Short n [] [] h le = absurd (h refl)
joined-Short n [] (b ∷ a) h le = (((λ e. cc), omega arith), omega arith)
joined-Short n (c ∷ name) a h le = (
  ((λ e. cc), omega (arith, length-append name (b'.' ∷ a))),
  omega (arith, length-append name (b'.' ∷ a)),
)

ancestor_names-AllShort :
    (n : ℕ) (name : Text) (ps : List Text)
    → AllNonempty ps
    → room name + weight ps ≤ n
    → AllShort n (ancestor_names name ps)
unfolding ancestor_names AllNonempty weight
ancestor_names-AllShort n name [] h le = tt
ancestor_names-AllShort n name (a ∷ rest) h le =
    let (short, size) = joined-Short n name a h.0 (omega arith) in
    (short, ancestor_names-AllShort n (joined name a) rest h.1 (omega arith))

pub ancestors-AllShort : (name : Text) → AllShort (length name) (ancestors name)
unfolding ancestors
ancestors-AllShort name =
    let (cons, full, fits) = split_loop-IsSplit (suc (length name)) name (omega arith) in
    ancestor_names-AllShort (length name) [] (pop_back (split name)) full
      (unfold room in omega arith)

-- The parent's name: the last ancestor's, and the root's for a name with none.
abbrev pub last_or : Text → List Text → Text
last_or d [] = d
last_or d (n ∷ ns) = last_or n ns

unfoldable pub parent_name : Text → Text
unfolding ancestors
parent_name name = last_or [] (ancestors name)
