-- ===== src/EventCache/Queue/Files.antt =====
-- The oldest file of those that are numbered in their order.
use chucho.Base.{
  ℕ, suc, ◌<◌, ◌≡◌, refl, sym, ap, ◌∙◌, true, false, List, [], ◌∷◌, ◌++◌, some, Text, arith, ltb,
  ◌==◌,
}
use chucho.EventCache.Queue.{older, remove_file, find_oldest_file}
use chucho.EventCache.Queue.View.{concat, numbered, numbered-append, files_of, spilled}

find_oldest_file-numbered :
    (n : ℕ) (f : List Text) (fs : List (List Text))
    → find_oldest_file (numbered n (f ∷ fs)) ≡ some (n, concat f)
unfolding find_oldest_file
find_oldest_file-numbered n f [] = refl
find_oldest_file-numbered n f (g ∷ gs) =
    let later : ltb (suc n) n ≡ false = ground arith in
    ap (λ o. some (older (n, concat f) o)) (find_oldest_file-numbered (suc n) g gs) ∙ rw later refl

remove_file-earlier :
    (k n : ℕ) (fs : List (List Text)) → k < n → remove_file k (numbered n fs) ≡ numbered n fs
unfolding remove_file
remove_file-earlier k n [] h = refl
remove_file-earlier k n (f ∷ fs) h =
    let other : (n == k) ≡ false = ground arith in
    rw (other, remove_file-earlier k (suc n) fs (omega arith)) refl

remove_file-first :
    (n : ℕ) (f : List Text) (fs : List (List Text))
    → remove_file n (numbered n (f ∷ fs)) ≡ numbered (suc n) fs
unfolding remove_file
remove_file-first n f fs =
    let same : (n == n) ≡ true = ground arith in
    rw (same, remove_file-earlier n (suc n) fs (omega arith)) refl

-- The files of a backlog, the oldest in front
pub find_oldest_file-front :
    (n : ℕ) (f : List Text) (front : List (List Text)) (last : List Text)
    → find_oldest_file (files_of n (spilled (f ∷ front) last)) ≡ some (n, concat f)
find_oldest_file-front n f front last =
    rw (sym (numbered-append n (f ∷ front) last))
      (find_oldest_file-numbered n f (front ++ last ∷ []))

pub remove_file-front :
    (n : ℕ) (f : List Text) (front : List (List Text)) (last : List Text)
    → remove_file n (files_of n (spilled (f ∷ front) last)) ≡ files_of (suc n) (spilled front last)
remove_file-front n f front last =
    rw (sym (numbered-append n (f ∷ front) last), sym (numbered-append (suc n) front last))
      (remove_file-first n f (front ++ last ∷ []))

pub find_oldest_file-last :
    (n : ℕ) (last : List Text)
    → find_oldest_file (files_of n (spilled [] last)) ≡ some (n, concat last)
find_oldest_file-last n last =
    rw (sym (numbered-append n [] last)) (find_oldest_file-numbered n last [])

pub remove_file-last :
    (n : ℕ) (last : List Text) → remove_file n (files_of n (spilled [] last)) ≡ []
remove_file-last n last = rw (sym (numbered-append n [] last)) (remove_file-first n last [])
