-- ===== src/Logger/Inheritance.antt =====
-- What a logger takes from its ancestors: its effective level, and writers for its events.
use chucho.Base.{
  ℕ, zero, suc, ◌<◌, ◌≡◌, ◌≢◌, refl, ◌∙◌, true, false, List, [], ◌∷◌, ◌++◌, Text, arith, none, some,
  get_elem?, Option-cases, Bool-cases, inl, inr,
}
use chucho.Level.{Level, off_level, ge_level}
use chucho.Logger.{Logger, Writer, Store, lookup, get_effective_level, permits, write}
use chucho.Logger.Names.{parent_name}
use chucho.Logger.Tree.{WellFormed}

-- The logger of a name.
abbrev pub Has : Store → Text → Logger → Type 0
Has s n l = (i : ℕ) × (lookup n s.all_loggers ≡ some i) × (get_elem? s.heap i ≡ some l)

-- The level that a name has by the tree of names: its own, or else that of the parent's name, or
-- OFF where the root has none.
pub data Inherits (s : Store) : Text → Level → Type 0 where
  own : {n : Text} {v : Level} → (l : Logger) → Has s n l → l.level ≡ some v → Inherits s n v
  off :
      {n : Text} {v : Level}
      → (l : Logger) → Has s n l
      → l.level ≡ none
      → n ≡ []
      → v ≡ off_level
      → Inherits s n v
  up :
      {n : Text} {v : Level}
      → (l : Logger) → Has s n l
      → n ≢ []
      → l.level ≡ none
      → Inherits s (parent_name n) v
      → Inherits s n v

level_own :
    (fuel i : ℕ) (s : Store) (l : Logger) (v : Level)
    → get_elem? s.heap i ≡ some l
    → l.level ≡ some v
    → get_effective_level (suc fuel) i s ≡ some v
unfolding get_effective_level
level_own fuel i s l v e f = ground arith

level_off :
    (fuel i : ℕ) (s : Store) (l : Logger)
    → get_elem? s.heap i ≡ some l
    → l.level ≡ none
    → l.parent ≡ none
    → get_effective_level (suc fuel) i s ≡ some off_level
unfolding get_effective_level
level_off fuel i s l e f g = ground arith

level_up :
    (fuel i : ℕ) (s : Store) (l : Logger) (p : ℕ)
    → get_elem? s.heap i ≡ some l
    → l.level ≡ none
    → l.parent ≡ some p
    → get_effective_level (suc fuel) i s ≡ get_effective_level fuel p s
unfolding get_effective_level
level_up fuel i s l p e f g = ground arith

-- In a well-formed store the loop up the parents ends, with the level that the names give.
pub get_effective_level-Inherits :
    (fuel : ℕ) (s : Store) (n : Text) (i : ℕ)
    → WellFormed s
    → lookup n s.all_loggers ≡ some i
    → i < fuel
    → (v : Level) × (get_effective_level fuel i s ≡ some v) × Inherits s n v
get_effective_level-Inherits zero s n i w at le = absurd (omega arith)
get_effective_level-Inherits (suc fuel) s [] i w at le =
    let (l, e, name, top) = w.entry [] i at in
    elim (Option-cases l.level) [
      | inr (v, f) ↦ (v, level_own fuel i s l v e f, own l (i, at, e) f)
      | inl f ↦ (off_level, level_off fuel i s l e f top, off l (i, at, e) f refl refl)
    ]
get_effective_level-Inherits (suc fuel) s (c ∷ n) i w at le =
    let (l, e, name, (p, g, lt, above)) = w.entry (c ∷ n) i at in
    let (v, f', inherits) =
      get_effective_level-Inherits fuel s (parent_name (c ∷ n)) p w above (omega arith) in
    elim (Option-cases l.level) [
      | inr (u, f) ↦ (u, level_own fuel i s l u e f, own l (i, at, e) f)
      | inl f ↦ (v, level_up fuel i s l p e f g ∙ f', up l (i, at, e) (λ e. cc) f inherits)
    ]

-- A logger permits a level exactly if it is at least the level that the logger has by its name.
permits-Inherits :
    (s : Store) (n : Text) (i : ℕ) (lvl : Level)
    → WellFormed s
    → lookup n s.all_loggers ≡ some i
    → (v : Level) × Inherits s n v × (permits i lvl s ≡ some (ge_level lvl v))
unfolding permits
permits-Inherits s n i lvl w at =
    let (v, e, inherits) = get_effective_level-Inherits (suc i) s n i w at (omega arith) in
    (v, inherits, rw (e, permits))

-- The writers that an event of a name goes to by the tree of names: the logger's own, and, unless it
-- is the root or does not write to its ancestors, those of the parent's name.
pub data Reaches (s : Store) : Text → List Writer → Type 0 where
  root :
      {n : Text} {ws : List Writer}
      → (l : Logger) → Has s n l
      → n ≡ []
      → ws ≡ l.writers
      → Reaches s n ws
  stop :
      {n : Text} {ws : List Writer}
      → (l : Logger) → Has s n l
      → l.writes_to_ancestors ≡ false
      → ws ≡ l.writers
      → Reaches s n ws
  pass :
      {n : Text} {ws : List Writer}
      → (l : Logger) (above : List Writer) → Has s n l
      → n ≢ []
      → l.writes_to_ancestors ≡ true
      → Reaches s (parent_name n) above
      → ws ≡ l.writers ++ above
      → Reaches s n ws

Has-unique : (s : Store) (n : Text) (l k : Logger) → Has s n l → Has s n k → l ≡ k
Has-unique s n l k (i, at, e) (j, at', e') = cc

-- The names give one list of writers.
Reaches-unique :
    (s : Store) (n : Text) (ws vs : List Writer) → Reaches s n ws → Reaches s n vs → ws ≡ vs
Reaches-unique s n ws vs (root l h top e) (root k h' top' e') =
    let same = Has-unique s n l k h h' in cc
Reaches-unique s n ws vs (root l h top e) (stop k h' no_write e') =
    let same = Has-unique s n l k h h' in cc
Reaches-unique s n ws vs (root l h top e) (pass k above h' below' writes r' e') =
    absurd (below' top)
Reaches-unique s n ws vs (stop l h no_write e) (root k h' top' e') =
    let same = Has-unique s n l k h h' in cc
Reaches-unique s n ws vs (stop l h no_write e) (stop k h' no_write' e') =
    let same = Has-unique s n l k h h' in cc
Reaches-unique s n ws vs (stop l h no_write e) (pass k above h' below' writes r' e') =
    let same = Has-unique s n l k h h' in let wrong : false ≡ true = cc in absurd cc
Reaches-unique s n ws vs (pass l above h below writes r e) (root k h' top' e') = absurd (below top')
Reaches-unique s n ws vs (pass l above h below writes r e) (stop k h' no_write e') =
    let same = Has-unique s n l k h h' in let wrong : false ≡ true = cc in absurd cc
Reaches-unique s n ws vs (pass l above h below writes r e) (pass k above' h' below' writes' r' e') =
    let same = Has-unique s n l k h h' in
    let rest = Reaches-unique s (parent_name n) above above' r r' in cc

write_root :
    (fuel i : ℕ) (s : Store) (l : Logger)
    → get_elem? s.heap i ≡ some l
    → l.parent ≡ none
    → write (suc fuel) i s ≡ some l.writers
unfolding write
write_root fuel i s l e g = ground arith

write_stop :
    (fuel i : ℕ) (s : Store) (l : Logger) (p : ℕ)
    → get_elem? s.heap i ≡ some l
    → l.parent ≡ some p
    → l.writes_to_ancestors ≡ false
    → write (suc fuel) i s ≡ some l.writers
unfolding write
write_stop fuel i s l p e g f = ground arith

write_pass :
    (fuel i : ℕ) (s : Store) (l : Logger) (p : ℕ) (above : List Writer)
    → get_elem? s.heap i ≡ some l
    → l.parent ≡ some p
    → l.writes_to_ancestors ≡ true
    → write fuel p s ≡ some above
    → write (suc fuel) i s ≡ some (l.writers ++ above)
unfolding write
write_pass fuel i s l p above e g f h = ground arith

-- In a well-formed store an event reaches the writers that the names give, in that order: the
-- logger's own, then those of the parent's name and so on, up to the root or to a logger that does
-- not write to its ancestors.
pub write-Reaches :
    (fuel : ℕ) (s : Store) (n : Text) (i : ℕ)
    → WellFormed s
    → lookup n s.all_loggers ≡ some i
    → i < fuel
    → (ws : List Writer) × (write fuel i s ≡ some ws) × Reaches s n ws
write-Reaches zero s n i w at le = absurd (omega arith)
write-Reaches (suc fuel) s [] i w at le =
    let (l, e, name, top) = w.entry [] i at in
    (l.writers, write_root fuel i s l e top, root l (i, at, e) refl refl)
write-Reaches (suc fuel) s (c ∷ n) i w at le =
    let (l, e, name, (p, g, lt, above_at)) = w.entry (c ∷ n) i at in
    let (above, f', reaches) =
      write-Reaches fuel s (parent_name (c ∷ n)) p w above_at (omega arith) in
    elim (Bool-cases l.writes_to_ancestors) [
      | inl f ↦ (
        l.writers ++ above,
        write_pass fuel i s l p above e g f f',
        pass l above (i, at, e) (λ e. cc) f reaches refl,
      )
      | inr f ↦ (l.writers, write_stop fuel i s l p e g f, stop l (i, at, e) f refl)
    ]
