-- ===== src/Logger/Writers.antt =====
-- The operations on one logger, and what they leave alone.
use chucho.Base.{
  ℕ, zero, suc, ◌≡◌, refl, sym, ap, ◌∙◌, Bool, List, [], ◌∷◌, ◌++◌, Text, arith, Option, none, some,
  get_elem?, text_eq, text_eq_iff, if◌then◌else◌, subst,
}
use mathlib.Core.Option
use chucho.Level.{Level}
use chucho.Logger.{
  Logger, Writer, Store, update, set_level, set_writes_to_ancestors, add_writer, clear_writers,
  reset, find_writer, get_writer, without_name, remove_writer,
}
use chucho.Logger.Tree.{Linked, WellFormed}

-- The operations of a logger's clients.
data Change : Type 0 where
  sets_level : Option Level → Change
  sets_writes_to_ancestors : Bool → Change
  adds_writer : Writer → Change
  removes_writer : Text → Change
  clears_writers : Change
  resets : Change

change : Change → Logger → Logger
change (sets_level lvl) = set_level lvl
change (sets_writes_to_ancestors val) = set_writes_to_ancestors val
change (adds_writer w) = add_writer w
change (removes_writer name) = remove_writer name
change clears_writers = clear_writers
change resets = reset

apply_change : Change → ℕ → Store → Store
unfolding change
apply_change c i s = record s { heap = update i (change c) s.heap }

change_place :
    (c : Change) (l : Logger) → ((change c l).name ≡ l.name) × ((change c l).parent ≡ l.parent)
unfolding change set_level set_writes_to_ancestors add_writer clear_writers reset remove_writer
change_place (sets_level lvl) l = (refl, refl)
change_place (sets_writes_to_ancestors val) l = (refl, refl)
change_place (adds_writer w) l = (refl, refl)
change_place (removes_writer name) l = (refl, refl)
change_place clears_writers l = (refl, refl)
change_place resets l = (refl, refl)

get_elem?-update :
    (c : Change) (i j : ℕ) (ls : List Logger) (l : Logger)
    → get_elem? ls j ≡ some l
    → (m : Logger) × (get_elem? (update i (change c) ls) j ≡ some m)
      × (m.name ≡ l.name)
      × (m.parent ≡ l.parent)
unfolding update
get_elem?-update c i j [] l h = cc
get_elem?-update c zero zero (k ∷ ls) l h =
    (change c l, ap (λ o. Option.map (change c) o) h, (change_place c l).0, (change_place c l).1)
get_elem?-update c zero (suc j) (k ∷ ls) l h = (l, h, refl, refl)
get_elem?-update c (suc i) zero (k ∷ ls) l h = (l, h, refl, refl)
get_elem?-update c (suc i) (suc j) (k ∷ ls) l h = get_elem?-update c i j ls l h

-- The operations on one logger leave the tree of loggers as it is.
apply_change-WellFormed :
    (c : Change) (i : ℕ) (s : Store) → WellFormed s → WellFormed (apply_change c i s)
unfolding apply_change
apply_change-WellFormed c i s w = record {
  entry = λ n j h.
      let (l, e, name, linked) = w.entry n j h in
      let (m, e', name', parent') = get_elem?-update c i j s.heap l e in
      (m, e', name' ∙ name, subst (λ p. Linked s.all_loggers n j p) (sym parent') linked);
}

find_writer-without_name :
    (name other : Text) (ws : List Writer)
    → find_writer other (without_name name ws)
      ≡ (if text_eq name other then none else find_writer other ws)
unfolding find_writer without_name
find_writer-without_name name other [] = ground arith
find_writer-without_name name other (w ∷ ws) = ground (
  arith,
  text_eq_iff w.name name,
  text_eq_iff w.name other,
  text_eq_iff name other,
  find_writer-without_name name other ws,
)

find_writer-append :
    (name : Text) (ws : List Writer) (w : Writer)
    → find_writer name (ws ++ w ∷ []) ≡ elim (find_writer name ws) [
      | some v ↦ some v
      | none ↦ if text_eq w.name name then some w else none
    ]
unfolding find_writer
find_writer-append name [] w = refl
find_writer-append name (v ∷ ws) w = ground (arith, find_writer-append name ws w)

-- get_writer finds the writer that was added first under the name. remove_writer takes every
-- writer of its name, and no other; after clear_writers and reset there is none.
get_writer_laws :
    (l : Logger) (w : Writer) (name other : Text)
    → (get_writer name (add_writer w l) ≡ elim (get_writer name l) [
      | some v ↦ some v
      | none ↦ if text_eq w.name name then some w else none
    ])
      × (get_writer other (remove_writer name l)
          ≡ (if text_eq name other then none else get_writer other l))
      × (get_writer name (clear_writers l) ≡ none)
      × (get_writer name (reset l) ≡ none)
unfolding get_writer add_writer remove_writer clear_writers reset
get_writer_laws l w name other =
    (find_writer-append name l.writers w, find_writer-without_name name other l.writers, refl, refl)
