-- ===== src/Tests/StatusTests.antt =====
-- status_manager.cpp
use chucho.Base.{◌≡◌, List, [], ◌∷◌, ◌++◌, take, drop, length, keep_last, codes}
use chucho.Status.{
  Status, info, warning, init, clear, get_all, add_each, head_cache_max, tail_cache_max,
}
use chucho.Status.History.{worst, add_each-clear}
use chucho.Status.Observers.{adds, removes, Change}

abbrev two_statuses : List Status
two_statuses =
    record { level = info; origin = codes "logger"; message = codes "made"; time = 1 }
    ∷ record { level = warning; origin = codes "file_writer"; message = codes "lost"; time = 2 }
    ∷ []

add_each-clear_example :
    let r = add_each (clear init) two_statuses in
    (get_all r
      ≡ take head_cache_max two_statuses
        ++ keep_last tail_cache_max (drop head_cache_max two_statuses))
    × (r.count ≡ length two_statuses)
    × (r.level ≡ worst (get_all r))
add_each-clear_example = add_each-clear init two_statuses

abbrev coming_and_going : List Change
coming_and_going = adds 1 ∷ adds 2 ∷ removes 1 ∷ []
