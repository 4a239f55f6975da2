-- ===== src/Level.antt =====
-- level.hpp and level.cpp: the levels, their order, and the registry that finds them by name.
-- A level is an object of any class that derives from `level`; what the library asks of it are
-- its name, its syslog severity and its value. The levels' mutex guards each operation whole.
pub mod Registry
use chucho.Base.{
  ◌-◌, ◌^◌, Bool, true, false, List, [], ◌∷◌, Option, none, some, Text, codes, text_eq, text_lt,
  if◌then◌else◌, ℤ, pos, le_int, ◌&&◌,
}
use chucho.TextUtil.{to_lower}

-- syslog_constants.hpp, the severities that levels have
pub data Severity : Type 0 where
  emergency alert critical error warning notice informational debug : Severity

pub record Level : Type 0 where
  pub name : Text
  pub syslog_severity : Severity
  pub value : ℤ

abbrev pub trace_level : Level
trace_level = record { name = codes "TRACE"; syslog_severity = debug; value = pos 0 }

abbrev pub debug_level : Level
debug_level = record { name = codes "DEBUG"; syslog_severity = debug; value = pos 10000 }

abbrev pub info_level : Level
info_level = record { name = codes "INFO"; syslog_severity = informational; value = pos 20000 }

abbrev pub warn_level : Level
warn_level = record { name = codes "WARN"; syslog_severity = warning; value = pos 30000 }

abbrev pub error_level : Level
error_level = record { name = codes "ERROR"; syslog_severity = error; value = pos 40000 }

abbrev pub fatal_level : Level
fatal_level = record { name = codes "FATAL"; syslog_severity = emergency; value = pos 50000 }

abbrev pub off_level : Level
off_level = record { name = codes "OFF"; syslog_severity = emergency; value = pos (2 ^ 31 - 1) }

-- operator>=, operator<= and operator==
unfoldable pub ge_level : Level → Level → Bool
ge_level a b = le_int b.value a.value

unfoldable pub le_level : Level → Level → Bool
le_level a b = le_int a.value b.value

unfoldable pub eq_level : Level → Level → Bool
eq_level a b = le_int a.value b.value && le_int b.value a.value

-- level_name_less
pub level_name_less : Level → Level → Bool
unfolding to_lower
level_name_less a b = text_lt (to_lower a.name) (to_lower b.name)

-- std::set::insert on the levels, which stand in the order of `level_name_less`: the new set, and
-- whether the level was inserted.
pub insert : Level → List Level → List Level
unfolding level_name_less
insert l [] = l ∷ []
insert l (x ∷ xs) =
    if level_name_less l x
    then l ∷ x ∷ xs
    else if level_name_less x l
    then x ∷ insert l xs
    else x ∷ xs

pub inserted : Level → List Level → Bool
unfolding level_name_less
inserted l [] = true
inserted l (x ∷ xs) =
    if level_name_less l x then true else if level_name_less x l then inserted l xs else false

-- level::add
pub add : Level → List Level → List Level × Bool
unfolding insert inserted
add lvl all_levels = (insert lvl all_levels, inserted lvl all_levels)

-- std::find_if with the name in lower case
pub find_name : Text → List Level → Option Level
find_name down [] = none
find_name down (x ∷ xs) = if text_eq (to_lower x.name) down then some x else find_name down xs

-- level::from_text; `none` is the exception.
unfoldable pub from_text : Text → List Level → Option Level
unfolding find_name
from_text text all_levels = find_name (to_lower text) all_levels

-- The constructor of `levels`.
pub builtin_levels : List Level
unfolding insert
builtin_levels = insert off_level (
    insert fatal_level (
      insert error_level
        (insert warn_level (insert info_level (insert debug_level (insert trace_level []))))))
