-- ===== src/Tests/FileTests.antt =====
-- numbered_file_roller.cpp, sliding_numbered_file_roller.cpp and security_policy.cpp.
use chucho.Base.{
  ◌≡◌, ℕ, zero, Bool, arith, true, false, List, [], ◌∷◌, ◌++◌, none, some, Text, codes, length,
  if◌then◌else◌, ltb, pos,
}
use chucho.Roller.{active, numbered, Files, Roller}
use chucho.Roller.Rolled.{Rolled}
use chucho.Roller.Sliding.{fill}
use chucho.Roller.Sliding.Window.{window, fill-window}
use chucho.Policy.{Range, new_policy, find, valid, too_long, length_message, validate_text}
use chucho.Policy.Limits.{Call, text_calls, chosen, or_default, validate_text-text_calls}

abbrev two_files : Files
two_files active = some (codes "new")
two_files (numbered zero false) = some (codes "old")
two_files n = none

-- Compressed from the second number on
abbrev roller : Roller
roller = record { last = 3; compressor = some 2 }

abbrev packed : Text → Text
packed content = codes "gz" ++ content

abbrev calls : List (Call ℕ)
calls = (false, codes "k", 5) ∷ (true, codes "j", 9) ∷ (false, codes "k", 7) ∷ []

validate_text-text_calls_example :
    validate_text (codes "k") (codes "abcdef") (text_calls calls new_policy) ≡ (
      let max_len = or_default 2048 (chosen (codes "k") (find (codes "k") []) calls) in
      if ltb max_len (length (codes "abcdef"))
      then too_long (length_message (codes "abcdef") max_len)
      else valid (codes "abcdef"))
validate_text-text_calls_example =
    validate_text-text_calls (codes "k") (codes "abcdef") calls new_policy

abbrev ranges : List (Call Range)
ranges =
    (false, codes "k", record { low = pos 1; high = pos 5 })
    ∷ (true, codes "k", record { low = pos 2; high = pos 9 })
    ∷ []

-- Three files are kept; a file two behind the active one is compressed.
abbrev contents_of : ℕ → Text
contents_of k = k ∷ []

fill-window_example :
    (files : Files) × (fill
        (λ s. 90 ∷ s)
        contents_of
        (record { max_count = 3; compressor = some 2; cur_index = 0 })
        5
      ≡ (record { max_count = 3; compressor = some 2; cur_index = 5 }, some files))
    × ((k : ℕ) (z : Bool)
        → files (numbered k z) ≡ window (λ s. 90 ∷ s) contents_of 3 (some 2) 5 k z)
fill-window_example = fill-window (λ s. 90 ∷ s) contents_of 3 (some 2) 5 (omega arith) (omega arith)
