-- ===== src/Status.antt =====
-- status.hpp, status_manager.hpp and status_manager.cpp: the log that the library keeps of itself.
-- The mutexes guard each operation whole, so an operation is a function of the state. Time and text
-- of a status do not matter to the manager; they are carried along.
pub mod History
pub mod Observers
use chucho.Base.{
  ℕ, suc, ◌+◌, Bool, true, false, List, [], ◌∷◌, ◌++◌, map, Text, if◌then◌else◌, ltb, leb, length,
  tail, ◌==◌,
}

pub data Severity : Type 0 where
  info warning error : Severity

-- The order of the enumeration.
abbrev pub rank : Severity → ℕ
rank info = 0
rank warning = 1
rank error = 2

pub record Status : Type 0 where
  pub level : Severity
  pub origin : Text
  pub message : Text
  pub time : ℕ

-- An observer is known by its address. The manager makes one of its own at the start.
pub data Observer : Type 0 where
  warn_error : Observer
  client : ℕ → Observer

pub same_observer : Observer → Observer → Bool
same_observer warn_error warn_error = true
same_observer warn_error (client b) = false
same_observer (client a) warn_error = false
same_observer (client a) (client b) = a == b

pub record StatusManager : Type 0 where
  pub count : ℕ
  pub head_cache : List Status
  pub tail_cache : List Status
  pub level : Severity
  pub observers : List Observer

abbrev pub head_cache_max : ℕ
head_cache_max = 150

abbrev pub tail_cache_max : ℕ
tail_cache_max = 150

-- std::set<std::shared_ptr<status_observer>>::insert
insert : Observer → List Observer → List Observer
insert o [] = o ∷ []
insert o (p ∷ ps) = if same_observer p o then p ∷ ps else p ∷ insert o ps

erase : Observer → List Observer → List Observer
erase o [] = []
erase o (p ∷ ps) = if same_observer p o then ps else p ∷ erase o ps

-- The sole observer is dropped if it is the manager's own.
drop_default : List Observer → List Observer
drop_default (warn_error ∷ []) = []
drop_default os = os

-- add(std::shared_ptr<status_observer>)
pub add_observer : Observer → StatusManager → StatusManager
unfolding insert drop_default
add_observer obs m = record m { observers = insert obs (drop_default m.observers) }

pub remove_observer : Observer → StatusManager → StatusManager
unfolding erase
remove_observer obs m = record m { observers = erase obs m.observers }

pub init : StatusManager
unfolding add_observer
init =
    add_observer warn_error
      (record { count = 0; head_cache = []; tail_cache = []; level = info; observers = [] })

-- std::max, and std::max_element with `level_less`, of which only the level is used
abbrev pub max_level : Severity → Severity → Severity
max_level a b = if ltb (rank a) (rank b) then b else a

max_element : Severity → List Status → Severity
max_element best [] = best
max_element best (st ∷ sts) = max_element (max_level best st.level) sts

cache_max : List Status → Severity
unfolding max_element
cache_max [] = info
cache_max (st ∷ sts) = max_element st.level sts

adjust_level : StatusManager → StatusManager
unfolding cache_max
adjust_level m = record m { level = max_level (cache_max m.head_cache) (cache_max m.tail_cache) }

-- push_back, and pop_front where that made the deque too long
push_tail : ℕ → List Status → Status → List Status
push_tail max_size cache st =
    let pushed = cache ++ st ∷ [] in if ltb max_size (length pushed) then tail pushed else pushed

cache_status : StatusManager → Status → StatusManager
unfolding push_tail
cache_status m st =
    if ltb (length m.head_cache) head_cache_max
    then record m { head_cache = m.head_cache ++ st ∷ [] }
    else record m { tail_cache = push_tail tail_cache_max m.tail_cache st }

-- add(const status&): the new state, and the calls of status_reported in their order.
pub add : StatusManager → Status → StatusManager × List (Observer × Status)
unfolding cache_status adjust_level
add m st =
    let counted = record m { count = m.count + 1 } in
    (adjust_level (cache_status counted st), map (λ o. (o, st)) m.observers)

pub clear : StatusManager → StatusManager
clear m = record m { count = 0; head_cache = []; tail_cache = []; level = info }

pub get_all : StatusManager → List Status
get_all m = m.head_cache ++ m.tail_cache

-- The statuses that `print` writes, in their order.
at_least : Severity → List Status → List Status
at_least min_level [] = []
at_least min_level (st ∷ sts) =
    let rest = at_least min_level sts in
    if leb (rank min_level) (rank st.level) then st ∷ rest else rest

pub print : StatusManager → Severity → List Status
unfolding at_least
print m min_level = at_least min_level m.head_cache ++ at_least min_level m.tail_cache

-- A run of reports.
pub add_each : StatusManager → List Status → StatusManager
add_each m [] = m
add_each m (st ∷ sts) = add_each (add m st).0 sts
