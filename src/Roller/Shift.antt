-- ===== src/Roller/Shift.antt =====
-- A roll moves the content of each number to the next one.
use chucho.Base.{
  ℕ, suc, ◌≡◌, refl, sym, ap, ◌∙◌, Bool, true, false, not, ◌&&◌, Option, none, some, Text, arith,
  if◌then◌else◌, ◌==◌, Option-cases, inl, inr,
}
use chucho.Roller.{
  Name, active, numbered, same_name, Files, put, exists, rename, Roller, is_compressed, get_name,
  compress, move_up,
}

same_name_refl : (n : Name) → same_name n n ≡ true
unfolding same_name
same_name_refl active = refl
same_name_refl (numbered k true) = ground arith
same_name_refl (numbered k false) = ground arith

-- What a content becomes on its way to a number: it is compressed where that number is the first
-- compressed one.
abbrev pub carried : (Text → Text) → Bool → Bool → Option Text → Option Text
carried packed from to none = none
carried packed false true (some content) = some (packed content)
carried packed true to (some content) = some content
carried packed false false (some content) = some content

pub put_same : (n : Name) (content : Option Text) (files : Files) → put n content files n ≡ content
unfolding put
put_same n content files = rw (same_name_refl n) refl

pub put_other :
    (n m : Name) (content : Option Text) (files : Files)
    → same_name n m ≡ false
    → put n content files m ≡ files m
unfolding put
put_other n m content files e = rw e refl

up_differs : (k : ℕ) (z y : Bool) → same_name (numbered k z) (numbered (suc k) y) ≡ false
unfolding same_name
up_differs k z y = let e : (k == suc k) ≡ false = ground arith in rw e refl

down_differs : (k : ℕ) (z y : Bool) → same_name (numbered (suc k) z) (numbered k y) ≡ false
unfolding same_name
down_differs k z y = let e : (suc k == k) ≡ false = ground arith in rw e refl

-- A directory after the content of the number k has gone to the next one; z and y tell which of the
-- two are compressed.
pub record Moved (packed : Text → Text) (k : ℕ) (z y : Bool) (files moved : Files) : Type 0 where
  pub next : moved (numbered (suc k) y) ≡ carried packed z y (files (numbered k z))
  pub left : moved (numbered k z) ≡ none
  pub others :
      (m : Name)
      → same_name (numbered (suc k) true) m ≡ false
      → same_name (numbered (suc k) false) m ≡ false
      → same_name (numbered k z) m ≡ false
      → moved m ≡ files m

-- The two ways in which a content goes up
renamed : ℕ → Bool → Bool → Text → Files → Files
unfolding put
renamed k z y content files =
    put (numbered (suc k) y) (some content) (put (numbered k z) none files)

packed_up : (Text → Text) → ℕ → Text → Files → Files
unfolding put renamed
packed_up packed k content files =
    put (numbered (suc k) false) none
      (put (numbered (suc k) true) (some (packed content)) (renamed k false false content files))

differs_of :
    (k : ℕ) (y : Bool) (m : Name)
    → same_name (numbered k true) m ≡ false
    → same_name (numbered k false) m ≡ false
    → same_name (numbered k y) m ≡ false
differs_of k true m g h = g
differs_of k false m g h = h

renamed-Moved :
    (packed : Text → Text) (k : ℕ) (z y : Bool) (content : Text) (files : Files)
    → carried packed z y (some content) ≡ some content
    → files (numbered k z) ≡ some content
    → Moved packed k z y files (renamed k z y content files)
unfolding renamed
renamed-Moved packed k z y content files c e = record {
  next =
      rw (put_same (numbered (suc k) y) (some content) (put (numbered k z) none files), e) (sym c);
  left =
      put_other (numbered (suc k) y) (numbered k z) (some content) (put (numbered k z) none files)
        (down_differs k y z)
      ∙ put_same (numbered k z) none files;
  others = λ m g h i.
      put_other (numbered (suc k) y) m (some content) (put (numbered k z) none files)
        (differs_of (suc k) y m g h)
      ∙ put_other (numbered k z) m none files i;
}

pub kinds_differ : (k : ℕ) → same_name (numbered k false) (numbered k true) ≡ false
unfolding same_name
kinds_differ k = let e : (k == k) ≡ true = ground arith in rw e refl

pub rename-some :
    (from to : Name) (content : Text) (files : Files)
    → files from ≡ some content
    → rename from to files ≡ put to (some content) (put from none files)
unfolding rename
rename-some from to content files e = rw (rename, e) refl

exists_some :
    (n : Name) (content : Text) (files : Files) → files n ≡ some content → exists n files ≡ true
unfolding exists
exists_some n content files e = rw (exists, e) refl

exists_none : (n : Name) (files : Files) → files n ≡ none → exists n files ≡ false
unfolding exists
exists_none n files e = rw (exists, e) refl

pub compress-some :
    (packed : Text → Text) (k : ℕ) (content : Text) (files : Files)
    → files (numbered k false) ≡ some content
    → compress packed k files
      ≡ some (put (numbered k false) none (put (numbered k true) (some (packed content)) files))
unfolding compress
compress-some packed k content files e = rw (compress, e) refl

packed_up-Moved :
    (packed : Text → Text) (k : ℕ) (content : Text) (files : Files)
    → files (numbered k false) ≡ some content
    → Moved packed k false true files (packed_up packed k content files)
unfolding packed_up
packed_up-Moved packed k content files e =
    let at = renamed k false false content files in
    let on = put (numbered (suc k) true) (some (packed content)) at in
    let below = renamed-Moved packed k false false content files refl e in
    record {
      next =
          put_other (numbered (suc k) false) (numbered (suc k) true) none on (kinds_differ (suc k))
          ∙ (put_same (numbered (suc k) true) (some (packed content)) at ∙ rw e refl);
      left =
          put_other (numbered (suc k) false) (numbered k false) none on (down_differs k false false)
          ∙ (put_other (numbered (suc k) true) (numbered k false) (some (packed content)) at
                (down_differs k true false)
              ∙ below.left);
      others = λ m g h i.
          put_other (numbered (suc k) false) m none on h
          ∙ (put_other (numbered (suc k) true) m (some (packed content)) at g
              ∙ below.others m g h i);
    }

-- The two branches of the loop's body
move_kind :
    (packed : Text → Text) (k : ℕ) (z y : Bool) (content : Text) (files : Files)
    → files (numbered k z) ≡ some content
    → (moved : Files) × ((if not z && y
          then compress packed (suc k) (rename (numbered k z) (numbered (suc k) false) files)
          else some (rename (numbered k z) (numbered (suc k) y) files))
        ≡ some moved)
      × Moved packed k z y files moved
unfolding renamed packed_up
move_kind packed k true y content files e = (
  renamed k true y content files,
  ap some (rename-some (numbered k true) (numbered (suc k) y) content files e),
  renamed-Moved packed k true y content files refl e,
)
move_kind packed k false false content files e = (
  renamed k false false content files,
  ap some (rename-some (numbered k false) (numbered (suc k) false) content files e),
  renamed-Moved packed k false false content files refl e,
)
move_kind packed k false true content files e =
    let at = renamed k false false content files in
    (
      packed_up packed k content files,
      ap (compress packed (suc k))
            (rename-some (numbered k false) (numbered (suc k) false) content files e)
          ∙ compress-some packed (suc k) content at (
              put_same (numbered (suc k) false) (some content) (put (numbered k false) none files)),
      packed_up-Moved packed k content files e,
    )

pub move_up-Moved :
    (packed : Text → Text) (r : Roller) (k : ℕ) (files : Files)
    → files (get_name r (suc k)) ≡ none
    → (moved : Files) × (move_up packed r k files ≡ some moved)
      × Moved packed k (is_compressed r k) (is_compressed r (suc k)) files moved
unfolding move_up get_name
move_up-Moved packed r k files free = elim (Option-cases (files (numbered k (is_compressed r k)))) [
  | inl e ↦ (
    files,
    rw (move_up, exists_none (numbered k (is_compressed r k)) files e) refl,
    record { next = rw e free; left = e; others = λ m g h i. refl },
  )
  | inr (content, e) ↦
      rw (move_up, exists_some (numbered k (is_compressed r k)) content files e)
        (move_kind packed k (is_compressed r k) (is_compressed r (suc k)) content files e)
]
