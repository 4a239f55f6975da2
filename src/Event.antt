-- ===== src/Event.antt =====
-- event.hpp and event.cpp, marker.hpp and marker.cpp: what is logged. A logger stands here by its
-- name, the time by its microseconds since the epoch. The stores of an event that the cache has
-- made are the texts of the file and the function themselves.
use chucho.Base.{ℕ, [], ◌++◌, Option, Text, codes, Bool, true, false}
use chucho.Level.{Level}

mutual
  pub data Marker : Type 0 where
    marker : Text → Markers → Marker

  pub data Markers : Type 0 where
    nil : Markers
    cons : Marker → Markers → Markers

abbrev pub separator : Bool → Text
separator true = []
separator false = codes ", "

-- operator<< of marker: the name, and the children in brackets if there are any. The children are
-- in the order of their set.
unfoldable mutual
  pub marker_text : Marker → Text
  marker_text (marker name nil) = name
  marker_text (marker name (cons m ms)) =
      name ++ (codes " [ " ++ (markers_text true (cons m ms) ++ codes " ]"))

  pub markers_text : Bool → Markers → Text
  markers_text first nil = []
  markers_text first (cons m ms) = separator first ++ (marker_text m ++ markers_text false ms)

pub record Event : Type 0 where
  pub logger : Text
  pub level : Level
  pub message : Text
  pub time : ℕ
  pub file_name : Text
  pub line_number : ℕ
  pub function_name : Text
  pub event_marker : Option Marker
  pub thread_id : Option Text
