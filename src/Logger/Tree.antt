-- ===== src/Logger/Tree.antt =====
-- The map of names, and what makes a store of loggers well formed.
use chucho.Base.{
  ℕ, zero, suc, ◌<◌, ◌≡◌, refl, List, [], ◌∷◌, ◌++◌, Text, arith, length, Option, none, some,
  get_elem?, text_eq, text_eq_iff, if◌then◌else◌,
}
use chucho.Logger.{Logger, Store, lookup, assign, M, link}
use chucho.Logger.Names.{parent_name}

pub lookup-assign :
    (n m : Text) (i : ℕ) (es : List (Text × ℕ))
    → lookup m (assign n i es) ≡ (if text_eq n m then some i else lookup m es)
unfolding lookup assign
lookup-assign n m i [] = refl
lookup-assign n m i ((k, j) ∷ es) =
    ground (arith, text_eq_iff k n, text_eq_iff n m, text_eq_iff k m, lookup-assign n m i es)

pub get_elem?-append {ℓ} :
    {A : Type ℓ} (xs ys : List A) (i : ℕ) (x : A)
    → get_elem? xs i ≡ some x
    → get_elem? (xs ++ ys) i ≡ some x
get_elem?-append [] ys i x h = cc
get_elem?-append (y ∷ xs) ys zero x h = h
get_elem?-append (y ∷ xs) ys (suc i) x h = get_elem?-append xs ys i x h

pub get_elem?-length {ℓ} :
    {A : Type ℓ} (xs : List A) (x : A) → get_elem? (xs ++ x ∷ []) (length xs) ≡ some x
get_elem?-length [] x = refl
get_elem?-length (y ∷ xs) x = get_elem?-length xs x

pub get_elem?-lt {ℓ} :
    {A : Type ℓ} (xs : List A) (i : ℕ) (x : A) → get_elem? xs i ≡ some x → i < length xs
get_elem?-lt [] i x h = cc
get_elem?-lt (y ∷ xs) zero x h = omega arith
get_elem?-lt (y ∷ xs) (suc i) x h = omega (arith, get_elem?-lt xs i x h)

-- The root has no parent. Any other logger's parent is the logger of its name's parent, and was
-- made before it.
abbrev pub Linked : List (Text × ℕ) → Text → ℕ → Option ℕ → Type 0
Linked es [] i p = p ≡ none
Linked es (c ∷ n) i p =
    (k : ℕ) × (p ≡ some k) × (k < i) × (lookup (parent_name (c ∷ n)) es ≡ some k)

abbrev pub Entry : Store → Text → ℕ → Type 0
Entry s n i =
    (l : Logger) × (get_elem? s.heap i ≡ some l) × (l.name ≡ n) × Linked s.all_loggers n i l.parent

-- Each name leads to a logger of that name that is linked to its parent.
pub record WellFormed (s : Store) : Type 0 where
  pub entry : (n : Text) (i : ℕ) → lookup n s.all_loggers ≡ some i → Entry s n i

-- What was there is there, unchanged.
pub record Extends (s t : Store) : Type 0 where
  pub names : (n : Text) (i : ℕ) → lookup n s.all_loggers ≡ some i → lookup n t.all_loggers ≡ some i
  pub loggers : (i : ℕ) (l : Logger) → get_elem? s.heap i ≡ some l → get_elem? t.heap i ≡ some l

pub Extends-refl : (s : Store) → Extends s s
Extends-refl s = record { names = λ n i h. h; loggers = λ i l h. h }

pub Extends-trans : {s t u : Store} → Extends s t → Extends t u → Extends s u
Extends-trans a b = record {
  names = λ n i h. b.names n i (a.names n i h);
  loggers = λ i l h. b.loggers i l (a.loggers i l h);
}

pub Entry-Extends : {s t : Store} (n : Text) (i : ℕ) → Extends s t → Entry s n i → Entry t n i
Entry-Extends [] i x (l, at, name, link) = (l, x.loggers i l at, name, link)
Entry-Extends (c ∷ n) i x (l, at, name, (k, p, lt, up)) =
    (l, x.loggers i l at, name, (k, p, lt, x.names _ k up))

-- A call that ends with a logger for the name, in a store that is well formed and grown.
abbrev pub Outcome : M ℕ → Text → Store → Type 0
Outcome m n s =
    (i : ℕ) × (t : Store) × (m s ≡ some (i, t))
    × WellFormed t
    × Extends s t
    × (lookup n t.all_loggers ≡ some i)
