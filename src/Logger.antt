-- ===== src/Logger.antt =====
-- logger.hpp and logger.cpp: the loggers, their names, and the tree that the names make.
-- Loggers are shared objects, so they stand in a heap and are known by their index; a pointer that
-- may be null is an `Option ℕ`. `all_loggers` maps a name to the index of its logger. The mutex
-- loggers_guard_ is held over `get`, so `get` is one function of the store.
pub mod Names
pub mod Tree
pub mod Construct
pub mod Hierarchy
pub mod Inheritance
pub mod Writers
use chucho.Base.{
  ◌≡◌, refl, ℕ, zero, suc, Bool, true, false, List, [], ◌∷◌, ◌++◌, map, Option, none, some, Text,
  codes, text_eq, text_lt, if◌then◌else◌, length, get_elem?,
}
use chucho.TextUtil.{before_first_of, from_first_of}
use chucho.Level.{Level, ge_level, info_level, off_level}

-- A writer of another component, with the name by which loggers know it.
pub record Writer : Type 0 where
  pub name : Text
  pub handle : ℕ

pub record Logger : Type 0 where
  pub name : Text
  pub level : Option Level
  pub parent : Option ℕ
  pub writers : List Writer
  pub writes_to_ancestors : Bool

pub record Store : Type 0 where
  pub heap : List Logger
  pub all_loggers : List (Text × ℕ)
  pub is_initialized : Bool

-- std::map, kept in the order of its keys
unfoldable pub lookup : Text → List (Text × ℕ) → Option ℕ
lookup n [] = none
lookup n ((m, i) ∷ rest) = if text_eq m n then some i else lookup n rest

pub assign : Text → ℕ → List (Text × ℕ) → List (Text × ℕ)
assign n i [] = (n, i) ∷ []
assign n i ((m, j) ∷ rest) =
    if text_eq m n
    then (n, i) ∷ rest
    else if text_lt n m
    then (n, i) ∷ (m, j) ∷ rest
    else (m, j) ∷ assign n i rest

-- split: a piece before a dot is kept if it is not empty, and what follows the last dot is kept.
push_piece : Text → List Text → List Text
push_piece [] pieces = pieces
push_piece (c ∷ p) pieces = (c ∷ p) ∷ pieces

-- The loop of `split` from `pos1` on; each round consumes a dot.
pub split_loop : ℕ → Text → List Text
unfolding push_piece
split_loop zero s = []
split_loop (suc fuel) s = elim (from_first_of b'.' s) [
  | [] ↦ s ∷ []
  | dot ∷ rest ↦ push_piece (before_first_of b'.' s) (split_loop fuel rest)
]

pub split : Text → List Text
unfolding split_loop
split name = split_loop (suc (length name)) name

-- std::vector::pop_back
pub pop_back : List Text → List Text
pop_back [] = []
pop_back (p ∷ []) = []
pop_back (p ∷ q ∷ ps) = p ∷ pop_back (q ∷ ps)

-- The names of the ancestors: the pieces are appended one by one, with dots between them.
abbrev pub joined : Text → Text → Text
joined [] a = a
joined (c ∷ name) a = (c ∷ name) ++ (b'.' ∷ a)

pub ancestor_names : Text → List Text → List Text
ancestor_names name [] = []
ancestor_names name (a ∷ rest) = joined name a ∷ ancestor_names (joined name a) rest

pub ancestors : Text → List Text
unfolding ancestor_names split pop_back
ancestors name = ancestor_names [] (pop_back (split name))

-- What may run out of fuel, or change the store.
abbrev pub M : Type 0 → Type 0
M A = Store → Option (A × Store)

infixl 5 ◌>>=◌
abbrev pub ◌>>=◌ : {A B : Type 0} → M A → (A → M B) → M B
◌>>=◌ m f s = elim (m s) [ none ↦ none | some (a, s') ↦ f a s' ]

abbrev pub pure : {A : Type 0} → A → M A
pure a s = some (a, s)

abbrev pub parent_of : ℕ → Store → Option ℕ
parent_of i s = elim (get_elem? s.heap i) [ none ↦ none | some l ↦ l.parent ]

-- A change of one object of the heap.
pub update : ℕ → (Logger → Logger) → List Logger → List Logger
update i f [] = []
update zero f (l ∷ ls) = f l ∷ ls
update (suc i) f (l ∷ ls) = l ∷ update i f ls

pub set_parent : ℕ → ℕ → Store → Store
unfolding update
set_parent i p s = record s { heap = update i (λ l. record l { parent = some p }) s.heap }

abbrev pub new_logger : Text → Option Level → Option ℕ → Logger
new_logger name lvl parent = record {
  name = name;
  level = lvl;
  parent = parent;
  writers = [];
  writes_to_ancestors = true;
}

-- The constructor, over the function that finds or makes a logger.
pub resolve : (Text → M ℕ) → List Text → M (List ℕ)
resolve get_impl [] s = some ([], s)
resolve get_impl (a ∷ rest) s = (do i ← get_impl a; is ← resolve get_impl rest; pure (i ∷ is)) s

-- `if (!resolved[0]->parent_) resolved[0]->parent_ = get_impl("")`
pub adopt_first : (Text → M ℕ) → ℕ → M (Unit {0})
adopt_first get_impl first s = elim (parent_of first s) [
  | some p ↦ some (tt, s)
  | none ↦ elim (get_impl [] s) [
    | none ↦ none
    | some (root, s') ↦ some (tt, set_parent first root s')
  ]
]

-- The loop over the other resolved ancestors.
pub adopt_rest : ℕ → List ℕ → Store → Store
adopt_rest previous [] s = s
adopt_rest previous (i ∷ is) s =
    adopt_rest i is (elim (parent_of i s) [ some p ↦ s | none ↦ set_parent i previous s ])

abbrev pub back : ℕ → List ℕ → ℕ
back first [] = first
back first (i ∷ is) = back i is

pub link : (Text → M ℕ) → Text → Option Level → List ℕ → M Logger
unfolding adopt_first adopt_rest
link get_impl [] lvl [] s = some (new_logger [] lvl none, s)
link get_impl (c ∷ name) lvl [] s =
    (do root ← get_impl []; pure (new_logger (c ∷ name) lvl (some root))) s
link get_impl name lvl (first ∷ rest) s = elim (adopt_first get_impl first s) [
  | none ↦ none
  | some (u, s') ↦ some (new_logger name lvl (some (back first rest)), adopt_rest first rest s')
]

pub construct : (Text → M ℕ) → Text → Option Level → M Logger
unfolding resolve link
construct get_impl name lvl = do
  resolved ← resolve get_impl (ancestors name)
  link get_impl name lvl resolved

-- std::map::insert, which keeps an entry that is there, and the use of its result
pub register : Text → Logger → M ℕ
register name lgr s = elim (lookup name s.all_loggers) [
  | some i ↦ some (i, record s { heap = s.heap ++ lgr ∷ [] })
  | none ↦ some (
    length s.heap,
    record s { heap = s.heap ++ lgr ∷ []; all_loggers = assign name (length s.heap) s.all_loggers },
  )
]

-- get_impl. Each call nested in it is for a shorter name, so the length of the name bounds them.
unfoldable pub get_impl : ℕ → Text → M ℕ
unfolding construct register
get_impl zero name s = none
get_impl (suc fuel) name s = elim (lookup name s.all_loggers) [
  | some i ↦ some (i, s)
  | none ↦ (do lgr ← construct (get_impl fuel) name none; register name lgr) s
]

-- initialize. `perform` is configuration::perform, where the style is AUTOMATIC, and is given the
-- root logger; it does nothing otherwise.
pub initialize : (ℕ → Store → Store) → Store → Store
unfolding assign
initialize perform s =
    let root = length s.heap in
    perform root (record {
      heap = s.heap ++ new_logger [] (some info_level) none ∷ [];
      all_loggers = assign [] root s.all_loggers;
      is_initialized = true;
    })

-- `if (!sd.is_initialized_) initialize();`
pub ensure_initialized : (ℕ → Store → Store) → Bool → Store → Store
unfolding initialize
ensure_initialized perform true s = s
ensure_initialized perform false s = initialize perform s

pub get : (ℕ → Store → Store) → Text → M ℕ
unfolding get_impl ensure_initialized
get perform name s =
    get_impl (suc (length name)) name (ensure_initialized perform s.is_initialized s)

pub get_existing_loggers : Store → List ℕ
get_existing_loggers s = map (λ e. e.1) s.all_loggers

-- get_effective_level: the loop up the parents. The fuel bounds their number.
pub get_effective_level : ℕ → ℕ → Store → Option Level
get_effective_level zero i s = none
get_effective_level (suc fuel) i s = elim (get_elem? s.heap i) [
  | none ↦ none
  | some l ↦ elim l.level [
    | some v ↦ some v
    | none ↦ elim l.parent [ none ↦ some off_level | some p ↦ get_effective_level fuel p s ]
  ]
]

-- permits; an index bounds the number of its ancestors.
pub permits : ℕ → Level → Store → Option Bool
unfolding get_effective_level
permits i lvl s = elim (get_effective_level (suc i) i s) [
  | none ↦ none
  | some v ↦ some (ge_level lvl v)
]

-- write: the writers that are given the event, in their order.
pub write : ℕ → ℕ → Store → Option (List Writer)
write zero i s = none
write (suc fuel) i s = elim (get_elem? s.heap i) [
  | none ↦ none
  | some l ↦ elim l.parent [
    | none ↦ some l.writers
    | some p ↦ elim l.writes_to_ancestors [
      | false ↦ some l.writers
      | true ↦ elim (write fuel p s) [ none ↦ none | some above ↦ some (l.writers ++ above) ]
    ]
  ]
]

-- The operations on one logger.
pub set_level : Option Level → Logger → Logger
set_level lvl l = record l { level = lvl }

pub set_writes_to_ancestors : Bool → Logger → Logger
set_writes_to_ancestors val l = record l { writes_to_ancestors = val }

pub add_writer : Writer → Logger → Logger
add_writer w l = record l { writers = l.writers ++ w ∷ [] }

pub clear_writers : Logger → Logger
clear_writers l = record l { writers = [] }

pub reset : Logger → Logger
reset l = record l { writers = []; level = none; writes_to_ancestors = true }

-- std::find_if by the name; `none` is the exception of get_writer.
pub find_writer : Text → List Writer → Option Writer
find_writer name [] = none
find_writer name (w ∷ ws) = if text_eq w.name name then some w else find_writer name ws

pub get_writer : Text → Logger → Option Writer
unfolding find_writer
get_writer name l = find_writer name l.writers

pub get_writer_names : Logger → List Text
get_writer_names l = map (λ w. w.name) l.writers

-- std::list::remove_if by the name
pub without_name : Text → List Writer → List Writer
without_name name [] = []
without_name name (w ∷ ws) =
    let rest = without_name name ws in if text_eq w.name name then rest else w ∷ rest

pub remove_writer : Text → Logger → Logger
unfolding without_name
remove_writer name l = record l { writers = without_name name l.writers }

abbrev empty_store : Store
empty_store = record { heap = []; all_loggers = []; is_initialized = false }

ancestors_abc : ancestors (codes "a..b.c") ≡ codes "a" ∷ codes "a.b" ∷ []
unfolding ancestors before_first_of from_first_of
ancestors_abc = refl
