-- ===== src/Level/Registry.antt =====
-- The registry of levels as a map from names, in which case does not matter.
use chucho.Base.{
  ◌≡◌, refl, sym, Bool, true, false, List, [], ◌∷◌, Option, none, some, Text, text_eq, text_eq_iff,
  text_lt, text_lt_irrefl, text_lt_trans, text_lt_total, if◌then◌else◌, Bool-cases, inl, inr, subst,
}
use chucho.TextUtil.{to_lower}
use chucho.Level.{Level, level_name_less, insert, inserted, add, find_name, from_text}

abbrev pub key : Level → Text
key l = to_lower l.name

abbrev pub Above : Text → List Level → Type 0
Above k [] = Unit
Above k (x ∷ xs) = (text_lt k (key x) ≡ true) × Above k xs

-- The order that the set keeps.
abbrev pub IsSorted : List Level → Type 0
IsSorted [] = Unit
IsSorted (x ∷ xs) = Above (key x) xs × IsSorted xs

Above-trans : (k j : Text) (ls : List Level) → text_lt k j ≡ true → Above j ls → Above k ls
Above-trans k j [] h a = tt
Above-trans k j (x ∷ xs) h a = (text_lt_trans k j (key x) h a.0, Above-trans k j xs h a.1)

text_lt-apart : (k j : Text) → text_lt k j ≡ true → text_eq j k ≡ false
text_lt-apart k j h = elim (Bool-cases (text_eq j k)) [
  | inr e ↦ e
  | inl e ↦ cc (subst (λ x. text_lt k x ≡ true) ((text_eq_iff j k).0 e) h, text_lt_irrefl k)
]

find_name-Above : (k : Text) (ls : List Level) → Above k ls → find_name k ls ≡ none
unfolding find_name
find_name-Above k [] a = refl
find_name-Above k (x ∷ xs) a =
    rw (text_lt-apart k (key x) a.0, find_name) (find_name-Above k xs a.1)

insert-Above :
    (k : Text) (l : Level) (ls : List Level)
    → text_lt k (key l) ≡ true
    → Above k ls
    → Above k (insert l ls)
unfolding insert
insert-Above k l [] h a = (h, tt)
insert-Above k l (x ∷ xs) h a = elim (Bool-cases (level_name_less l x)) [
  | inl e ↦ rw (e, insert) (h, a)
  | inr e ↦ elim (Bool-cases (level_name_less x l)) [
    | inl f ↦ rw (e, insert) (rw (f, insert) (a.0, insert-Above k l xs h a.1))
    | inr f ↦ rw (e, insert) (rw (f, insert) a)
  ]
]

insert-IsSorted : (l : Level) (ls : List Level) → IsSorted ls → IsSorted (insert l ls)
unfolding insert
insert-IsSorted l [] s = (tt, tt)
insert-IsSorted l (x ∷ xs) s = elim (Bool-cases (level_name_less l x)) [
  | inl e ↦
      let lt : text_lt (key l) (key x) ≡ true = unfold level_name_less in e in
      rw (e, insert) ((lt, Above-trans (key l) (key x) xs lt s.0), s)
  | inr e ↦ elim (Bool-cases (level_name_less x l)) [
    | inl f ↦
        let lt : text_lt (key x) (key l) ≡ true = unfold level_name_less in f in
        rw (e, insert) (rw (f, insert) (insert-Above (key x) l xs lt s.0, insert-IsSorted l xs s.1))
    | inr f ↦ rw (e, insert) (rw (f, insert) s)
  ]
]

abbrev pub or_else {ℓ} : {A : Type ℓ} → Option A → Option A → Option A
or_else none o = o
or_else (some a) o = some a

abbrev pub is_none {ℓ} : {A : Type ℓ} → Option A → Bool
is_none none = true
is_none (some a) = false

-- Names that compare neither way are one name.
same_key : (l x : Level) → level_name_less l x ≡ false → level_name_less x l ≡ false → key x ≡ key l
unfolding level_name_less
same_key l x e f = (text_eq_iff (key x) (key l)).0 (text_lt_total (key x) (key l) f e)

or_else-none {ℓ} : {A : Type ℓ} (o : Option A) → or_else o none ≡ o
or_else-none none = refl
or_else-none (some a) = refl

find_name_head :
    (k : Text) (x : Level) (xs : List Level)
    → text_eq (key x) k ≡ true
    → find_name k (x ∷ xs) ≡ some x
unfolding find_name
find_name_head k x xs h = rw h

find_name_tail :
    (k : Text) (x : Level) (xs : List Level)
    → text_eq (key x) k ≡ false
    → find_name k (x ∷ xs) ≡ find_name k xs
unfolding find_name
find_name_tail k x xs h = rw h

-- Where the new level stands at the front, no other has its name.
find_name-front :
    (k : Text) (l : Level) (ls : List Level)
    → Above (key l) ls
    → find_name k (l ∷ ls) ≡ or_else (find_name k ls) (if text_eq (key l) k then some l else none)
find_name-front k l ls a = elim (Bool-cases (text_eq (key l) k)) [
  | inl h ↦
      let absent : find_name k ls ≡ none =
        subst (λ j. find_name j ls ≡ none) ((text_eq_iff (key l) k).0 h)
          (find_name-Above (key l) ls a) in
      rw (h, absent) (find_name_head k l ls h)
  | inr h ↦ rw (h, or_else-none (find_name k ls)) (find_name_tail k l ls h)
]

find_name-present :
    (k : Text) (l x : Level) (xs : List Level)
    → key x ≡ key l
    → find_name k (x ∷ xs)
      ≡ or_else (find_name k (x ∷ xs)) (if text_eq (key l) k then some l else none)
find_name-present k l x xs same = elim (Bool-cases (text_eq (key l) k)) [
  | inl h ↦ rw (find_name_head k x xs (subst (λ j. text_eq j k ≡ true) (sym same) h))
  | inr h ↦ rw (h, or_else-none (find_name k (x ∷ xs)))
]

find_name-cons :
    (k : Text) (x : Level) (ls xs : List Level) (o : Option Level)
    → find_name k ls ≡ or_else (find_name k xs) o
    → find_name k (x ∷ ls) ≡ or_else (find_name k (x ∷ xs)) o
find_name-cons k x ls xs o ih = elim (Bool-cases (text_eq (key x) k)) [
  | inl h ↦ rw (find_name_head k x ls h, find_name_head k x xs h)
  | inr h ↦ rw (find_name_tail k x ls h, find_name_tail k x xs h) ih
]

find_name-insert :
    (k : Text) (l : Level) (ls : List Level)
    → IsSorted ls
    → find_name k (insert l ls)
      ≡ or_else (find_name k ls) (if text_eq (key l) k then some l else none)
unfolding insert
find_name-insert k l [] s = find_name-front k l [] tt
find_name-insert k l (x ∷ xs) s = elim (Bool-cases (level_name_less l x)) [
  | inl e ↦
      let lt : text_lt (key l) (key x) ≡ true = unfold level_name_less in e in
      rw (e, insert) (find_name-front k l (x ∷ xs) (lt, Above-trans (key l) (key x) xs lt s.0))
  | inr e ↦ elim (Bool-cases (level_name_less x l)) [
    | inl f ↦
        rw (e, insert)
          (rw (f, insert) (find_name-cons k x (insert l xs) xs _ (find_name-insert k l xs s.1)))
    | inr f ↦ rw (e, insert) (rw (f, insert) (find_name-present k l x xs (same_key l x e f)))
  ]
]

inserted-find_name :
    (l : Level) (ls : List Level) → IsSorted ls → inserted l ls ≡ is_none (find_name (key l) ls)
unfolding inserted
inserted-find_name l [] s = unfold find_name in refl
inserted-find_name l (x ∷ xs) s = elim (Bool-cases (level_name_less l x)) [
  | inl e ↦
      let lt : text_lt (key l) (key x) ≡ true = unfold level_name_less in e in
      rw (e, inserted)
        (rw (find_name-Above (key l) (x ∷ xs) (lt, Above-trans (key l) (key x) xs lt s.0)) refl)
  | inr e ↦ elim (Bool-cases (level_name_less x l)) [
    | inl f ↦
        let lt : text_lt (key x) (key l) ≡ true = unfold level_name_less in f in
        rw (e, inserted)
          (rw (f, inserted)
            (rw (find_name_tail (key l) x xs (apart (key x) (key l) lt))
              (inserted-find_name l xs s.1)))
    | inr f ↦
        let same = same_key l x e f in
        rw (e, inserted)
          (rw (f, inserted) (rw (find_name_head (key l) x xs ((text_eq_iff _ _).1 same)) refl))
  ]
]
  where
    apart : (k j : Text) → text_lt k j ≡ true → text_eq k j ≡ false
    apart k j h = elim (Bool-cases (text_eq k j)) [
      | inr e ↦ e
      | inl e ↦
          absurd
            (cc (subst (λ y. text_lt k y ≡ true) (sym ((text_eq_iff k j).0 e)) h, text_lt_irrefl k))
    ]

-- level::add reports whether no level had the name. Afterwards a text finds what it found before,
-- or, if it found nothing and is the new name in any case of its letters, the new level; so a
-- level is never replaced. The order of the set is kept.
from_text-add :
    (l : Level) (levels : List Level) (text : Text)
    → IsSorted levels
    → ((add l levels).1 ≡ is_none (from_text l.name levels))
      × (from_text text (add l levels).0
          ≡ or_else
              (from_text text levels)
              (if text_eq (to_lower l.name) (to_lower text) then some l else none))
      × IsSorted (add l levels).0
unfolding add from_text
from_text-add l levels text s = (
  inserted-find_name l levels s,
  find_name-insert (to_lower text) l levels s,
  insert-IsSorted l levels s,
)
