-- ===== src/Roller/Sliding/Window.antt =====
-- The files that a sliding_numbered_file_roller leaves.
use chucho.Base.{
  ℕ, zero, suc, ◌+◌, ◌-◌, ◌≤◌, ◌<◌, ◌≡◌, refl, ap, subst, ◌∙◌, Bool, true, false, ◌&&◌, ◌||◌,
  Bool-cases, inl, inr, Option, none, some, Text, arith, if◌then◌else◌, leb, ltb, ◌==◌, ==_iff,
}
use chucho.Roller.{numbered, same_bool, same_name, Files, put, remove, exists, compress}
use chucho.Roller.Sliding.{
  SlidingRoller, is_packed, get_file_name, get_active_file_name, remove_oldest, compress_next,
  slide, filled, rolled_once, fill,
}

-- Whether the file of an index is compressed when the files up to n have been active
abbrev pub packed_at : Option ℕ → ℕ → ℕ → Bool
packed_at none n k = false
packed_at (some least) n k = leb (k + least) n

-- Whether the name that roll removes is not that of the file, which is not compressed yet
abbrev pub never_removed : ℕ → Option ℕ → Bool
never_removed max_count none = false
never_removed max_count (some least) = least == max_count

-- The file of a name when the files up to n have been active: one of the last max_count files, or any
-- if none is removed, with the extension if it is compressed, and nothing else.
abbrev pub window : (Text → Text) → (ℕ → Text) → ℕ → Option ℕ → ℕ → ℕ → Bool → Option Text
window packed content max_count compressor n k z =
    if leb k n
      && (ltb n (k + max_count) || never_removed max_count compressor)
      && same_bool (packed_at compressor n k) z
    then some (if z then packed (content k) else content k)
    else none

abbrev pub Positive : Option ℕ → Type 0
Positive none = Unit
Positive (some least) = 0 < least

-- The same between the two parts of a roll
abbrev cut_window : (Text → Text) → (ℕ → Text) → ℕ → Option ℕ → ℕ → ℕ → Bool → Option Text
cut_window packed content max_count compressor n k z =
    if leb k n
      && (ltb (n + 1) (k + max_count) || never_removed max_count compressor)
      && same_bool (packed_at compressor n k) z
    then some (if z then packed (content k) else content k)
    else none

-- Behind the roll to n + 1
abbrev slid_window : (Text → Text) → (ℕ → Text) → ℕ → Option ℕ → ℕ → ℕ → Bool → Option Text
slid_window packed content max_count compressor n k z =
    if leb k n
      && (ltb (n + 1) (k + max_count) || never_removed max_count compressor)
      && same_bool (packed_at compressor (n + 1) k) z
    then some (if z then packed (content k) else content k)
    else none

module _ (packed : Text → Text) (content : ℕ → Text) (max_count n : ℕ) (files : Files) where
  remove_oldest-cut :
      (compressor : Option ℕ)
      → Positive compressor
      → ((j : ℕ) (y : Bool)
          → files (numbered j y) ≡ window packed content max_count compressor n j y)
      → (k : ℕ) (z : Bool)
      → remove_oldest
          (record { max_count = max_count; compressor = compressor; cur_index = n + 1 })
          files
          (numbered k z)
        ≡ cut_window packed content max_count compressor n k z
  unfolding remove_oldest put remove get_file_name is_packed same_name
  remove_oldest-cut none a h k true = let e = h k true in ground arith
  remove_oldest-cut none a h k false = let e = h k false in ground arith
  remove_oldest-cut (some least) a h k true = let e = h k true in ground arith
  remove_oldest-cut (some least) a h k false = let e = h k false in ground arith

  -- The file whose turn it is to be compressed
  module _ (least : ℕ)
      (h : (j : ℕ) (y : Bool)
        → files (numbered j y) ≡ cut_window packed content max_count (some least) n j y) where
    compress_next-there :
        least ≤ n + 1
        → 0 < least
        → least ≤ max_count
        → compress_next packed
            (record { max_count = max_count; compressor = some least; cur_index = n + 1 })
            files
          ≡ some (
              put (numbered (n + 1 - least) false) none (
                put
                  (numbered (n + 1 - least) true)
                  (some (packed (content (n + 1 - least))))
                  files))
    unfolding compress_next get_file_name exists compress
    compress_next-there early some_least inside =
        let found : files (numbered (n + 1 - least) false) ≡ some (content (n + 1 - least)) =
          h (n + 1 - least) false ∙ ground arith in
        let now : leb least (n + 1) ≡ true = ground arith in
        simp (compress_next, get_file_name, now, exists, found, compress)

    compress_next-gone :
        (leb least (n + 1) && leb least max_count) ≡ false
        → compress_next packed
            (record { max_count = max_count; compressor = some least; cur_index = n + 1 })
            files
          ≡ some files
    unfolding compress_next get_file_name exists
    compress_next-gone over = elim (Bool-cases (leb least (n + 1))) [
      | inr late ↦ simp (compress_next, late)
      | inl early ↦
          (let gone : files (numbered (n + 1 - least) false) ≡ none =
              h (n + 1 - least) false ∙ ground arith in
            simp (compress_next, get_file_name, early, exists, gone))
    ]

  compress_next-slid :
      (compressor : Option ℕ)
      → Positive compressor
      → ((j : ℕ) (y : Bool)
          → files (numbered j y) ≡ cut_window packed content max_count compressor n j y)
      → (g : Files) × (compress_next packed
            (record { max_count = max_count; compressor = compressor; cur_index = n + 1 })
            files
          ≡ some g)
        × ((k : ℕ) (z : Bool)
            → g (numbered k z) ≡ slid_window packed content max_count compressor n k z)
  unfolding compress_next get_file_name put same_name
  compress_next-slid none a h = (files, refl, h)
  compress_next-slid (some least) a h =
      elim (Bool-cases (leb least (n + 1) && leb least max_count)) [
        | inl turn ↦
            (_, compress_next-there least h (ground arith) a (ground arith), compressed turn)
        | inr over ↦ (files, compress_next-gone least h over, same over)
      ]
    where
      compressed :
          (leb least (n + 1) && leb least max_count) ≡ true
          → (k : ℕ) (z : Bool)
          → put
              (numbered (n + 1 - least) false)
              none
              (put (numbered (n + 1 - least) true) (some (packed (content (n + 1 - least)))) files)
              (numbered k z)
            ≡ slid_window packed content max_count (some least) n k z
      compressed turn k true = elim (Bool-cases (n + 1 - least == k)) [
        | inl e ↦
            subst
              (λ j.
                put (numbered (n + 1 - least) false) none
                  (put (numbered (n + 1 - least) true) (some (packed (content (n + 1 - least))))
                    files)
                  (numbered j true)
                ≡ slid_window packed content max_count (some least) n j true)
              ((==_iff (n + 1 - least) k).0 e) (ground (arith, a))
        | inr d ↦ let e = h k true in ground (arith, a)
      ]
      compressed turn k false = let e = h k false in ground (arith, a)

      same :
          (leb least (n + 1) && leb least max_count) ≡ false
          → (k : ℕ) (z : Bool)
          → files (numbered k z) ≡ slid_window packed content max_count (some least) n k z
      same over k true = let e = h k true in ground (arith, a)
      same over k false = let e = h k false in ground (arith, a)

module _ (packed : Text → Text) (content : ℕ → Text) (max_count : ℕ) (kept : 0 < max_count) where
  -- The next active file
  put-window :
      (compressor : Option ℕ) (n : ℕ) (g : Files)
      → Positive compressor
      → ((j : ℕ) (y : Bool)
          → g (numbered j y) ≡ slid_window packed content max_count compressor n j y)
      → (k : ℕ) (z : Bool)
      → put (numbered (n + 1) false) (some (content (n + 1))) g (numbered k z)
        ≡ window packed content max_count compressor (n + 1) k z
  unfolding put same_name
  put-window none n g a h k true = let e = h k true in ground arith
  put-window none n g a h k false = let e = h k false in ground arith
  put-window (some least) n g a h k true = let e = h k true in ground (arith, a)
  put-window (some least) n g a h k false = let e = h k false in ground (arith, a)

  first-window :
      (compressor : Option ℕ)
      → Positive compressor
      → (k : ℕ) (z : Bool)
      → put (numbered 0 false) (some (content 0)) (λ m. none) (numbered k z)
        ≡ window packed content max_count compressor 0 k z
  unfolding put same_name
  first-window none a k true = ground arith
  first-window none a zero false = ground arith
  first-window none a (suc k) false = ground arith
  first-window (some least) a k true = ground (arith, a)
  first-window (some least) a zero false = ground (arith, a)
  first-window (some least) a (suc k) false = ground (arith, a)

-- A rolling_file_writer with a new sliding_numbered_file_roller, whose files have rolled n times,
-- leaves exactly the last max_count files, the active one included, each with its whole content
-- under its own number: those that are as far behind the active one as the compressor's min_index
-- are compressed and have its extension. Where that min_index is max_count, no file is ever removed.
-- No exception is thrown. The directory is empty at first, and max_count and the compressor's
-- min_index are above zero.
pub fill-window :
    (packed : Text → Text) (content : ℕ → Text) (max_count : ℕ) (compressor : Option ℕ) (n : ℕ)
    → 0 < max_count
    → Positive compressor
    → (files : Files) × (fill packed content
          (record { max_count = max_count; compressor = compressor; cur_index = 0 })
          n
        ≡ (record { max_count = max_count; compressor = compressor; cur_index = n }, some files))
      × ((k : ℕ) (z : Bool)
          → files (numbered k z) ≡ window packed content max_count compressor n k z)
unfolding fill rolled_once filled slide get_active_file_name get_file_name
fill-window packed content max_count compressor zero kept a =
    (_, refl, first-window packed content max_count kept compressor a)
fill-window packed content max_count compressor (suc n) kept a =
    let (files, done, h) = fill-window packed content max_count compressor n kept a in
    let next : SlidingRoller = record {
      max_count = max_count;
      compressor = compressor;
      cur_index = n + 1;
    } in
    let (g, rolled, s) =
      compress_next-slid packed content max_count n (remove_oldest next files) compressor a
        (remove_oldest-cut packed content max_count n files compressor a h) in
    subst
      (λ m.
        (files : Files) × (fill packed content
            (record { max_count = max_count; compressor = compressor; cur_index = 0 }) (suc n)
          ≡ (record { max_count = max_count; compressor = compressor; cur_index = m }, some files))
        × ((k : ℕ) (z : Bool)
            → files (numbered k z) ≡ window packed content max_count compressor m k z))
      next_number
      (
        put (numbered (n + 1) false) (some (content (n + 1))) g,
        ap (rolled_once packed content) done ∙ ap (λ c. filled content (next, c)) rolled,
        put-window packed content max_count kept compressor n g a s,
      )
  where
    next_number : n + 1 ≡ suc n
    next_number = omega arith
