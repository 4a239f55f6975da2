-- ===== src/Tests/LoggerTests.antt =====
-- logger.cpp
use chucho.Base.{
  ℕ, ◌≡◌, refl, subst, true, List, [], ◌∷◌, some, none, Text, codes, arith, text_eq, text_eq_iff,
  Bool-cases, inl, inr,
}
use chucho.TextUtil.{from_first_of, before_first_of}
use chucho.Logger.Names.{parent_name}
use chucho.Level.{Level, info_level}
use chucho.Logger.{
  Logger, Writer, Store, lookup, new_logger, ensure_initialized, get, get_impl, get_effective_level,
  write,
}
use chucho.Logger.Tree.{WellFormed, Entry, Extends, Extends-refl}
use chucho.Logger.Hierarchy.{get-Outcome, get_impl_twice}
use chucho.Logger.Inheritance.{Inherits, Reaches, get_effective_level-Inherits, write-Reaches}

-- A store after its initialization: the root at INFO, with a writer.
abbrev console : Writer
console = record { name = codes "console"; handle = 0 }

abbrev network : Writer
network = record { name = codes "network"; handle = 1 }

abbrev root : Logger
root = record (new_logger [] (some info_level) none) { writers = console ∷ [] }

abbrev net : Logger
net = record (new_logger (codes "net") none (some 0)) { writers = network ∷ [] }

abbrev started : Store
started = record {
  heap = root ∷ net ∷ [];
  all_loggers = ([], 0) ∷ (codes "net", 1) ∷ [];
  is_initialized = true;
}

net-Entry : Entry started (codes "net") 1
unfolding lookup text_eq parent_name from_first_of before_first_of
net-Entry = (net, refl, refl, (0, refl, omega arith, refl))

started-Entry : (n : Text) (i : ℕ) → lookup n started.all_loggers ≡ some i → Entry started n i
unfolding lookup text_eq
started-Entry [] i h =
    let first : 0 ≡ i = cc in subst (λ k. Entry started [] k) first (root, refl, refl, refl)
started-Entry (c ∷ n) i h = elim (Bool-cases (text_eq (codes "net") (c ∷ n))) [
  | inl e ↦
      let second : 1 ≡ i = ground (arith) in
      subst (λ k. Entry started (c ∷ n) k) second
        (subst (λ m. Entry started m 1) ((text_eq_iff (codes "net") (c ∷ n)).0 e) net-Entry)
  | inr e ↦ absurd (ground arith)
]

started-WellFormed : WellFormed started
started-WellFormed = record { entry = started-Entry }

get-Outcome_example :
    (i : ℕ) × (t : Store) × (get (λ root s. s) (codes "net.http") started ≡ some (i, t))
    × WellFormed t
    × Extends (ensure_initialized (λ root s. s) true started) t
    × (lookup (codes "net.http") t.all_loggers ≡ some i)
get-Outcome_example =
    get-Outcome (λ root s. s) (λ root s w. w) (codes "net.http") started started-WellFormed
      (λ e. cc)

net_at : lookup (codes "net") started.all_loggers ≡ some 1
unfolding lookup text_eq
net_at = refl

get_impl_net : get_impl 4 (codes "net") started ≡ some (1, started)
unfolding get_impl lookup text_eq
get_impl_net = refl

get_impl_twice_example : get_impl 4 (codes "net") started ≡ some (1, started)
get_impl_twice_example =
    get_impl_twice 4 (codes "net") started started started 1 (omega arith) started-WellFormed
      get_impl_net (Extends-refl started)

get_effective_level-Inherits_example :
    (v : Level) × (get_effective_level 2 1 started ≡ some v) × Inherits started (codes "net") v
get_effective_level-Inherits_example =
    get_effective_level-Inherits 2 started (codes "net") 1 started-WellFormed net_at (omega arith)

write-Reaches_example :
    (ws : List Writer) × (write 2 1 started ≡ some ws) × Reaches started (codes "net") ws
write-Reaches_example =
    write-Reaches 2 started (codes "net") 1 started-WellFormed net_at (omega arith)
