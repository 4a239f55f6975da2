-- ===== src/Config/Properties/Subsets.antt =====
-- What properties keep of the lines that they are read from, and what get_subset takes of them.
use chucho.Base.{
  ◌≡◌, refl, sym, ap, ◌∙◌, Bool, true, false, not, ◌&&◌, List, [], ◌∷◌, ◌++◌, append-nil,
  append_assoc, Option, none, some, Text, text_eq, text_eq_iff, text_lt, text_lt_irrefl,
  text_lt_trans, Bool-cases, inl, inr, if◌then◌else◌, ◌==◌, arith,
}
use chucho.Config.Properties.{
  Properties, insert_property, after_prefix, subset_from, get_subset, get, pop_return, read_line,
  read_lines,
}

-- No key is before a key, and the keys are in order
all_from : Text → Properties → Bool
all_from j [] = true
all_from j ((k, v) ∷ rest) = not (text_lt k j) && all_from j rest

sorted : Properties → Bool
sorted [] = true
sorted ((k, v) ∷ rest) = all_from k rest && sorted rest

all_from_lt :
    (k j : Text)
    → (ps : Properties) → text_lt k j ≡ true
    → all_from j ps ≡ true
    → all_from k ps ≡ true
unfolding all_from
all_from_lt k j [] h a = refl
all_from_lt k j ((m, v) ∷ ps) h a = ground (arith, text_lt_trans m k j, all_from_lt k j ps)

all_from-insert :
    (j k v : Text) (ps : Properties)
    → text_lt k j ≡ false
    → all_from j ps ≡ true
    → all_from j (insert_property k v ps) ≡ true
unfolding all_from insert_property
all_from-insert j k v [] h a = ground arith
all_from-insert j k v ((m, u) ∷ ps) h a = ground (arith, all_from-insert j k v ps)

text_lt_asym : (k j : Text) → text_lt k j ≡ true → text_lt j k ≡ false
text_lt_asym k j h = ground (arith, text_lt_trans j k j, text_lt_irrefl j)

sorted-insert :
    (k v : Text) (ps : Properties) → sorted ps ≡ true → sorted (insert_property k v ps) ≡ true
unfolding sorted insert_property all_from
sorted-insert k v [] s = refl
sorted-insert k v ((j, u) ∷ ps) s =
    ground
      (arith, text_lt_asym k j, all_from_lt k j ps, all_from-insert j k v ps, sorted-insert k v ps)

text_lt_equal : (m k j : Text) → text_eq m k ≡ true → text_lt m j ≡ text_lt k j
text_lt_equal m k j h = ap (λ t. text_lt t j) ((text_eq_iff m k).0 h)

get_equal : (k key : Text) (ps : Properties) → text_eq k key ≡ true → get key ps ≡ get k ps
get_equal k key ps h = ap (λ t. get t ps) (sym ((text_eq_iff k key).0 h))

get_below :
    (k j : Text) → (ps : Properties) → text_lt k j ≡ true → all_from j ps ≡ true → get k ps ≡ []
unfolding get all_from
get_below k j [] h a = refl
get_below k j ((m, v) ∷ ps) h a = ground (arith, text_lt_equal m k j, get_below k j ps)

get_cons-append :
    (b : Bool) (u : Text) (x y z : List Text)
    → x ≡ y ++ z
    → (if b then u ∷ x else x) ≡ (if b then u ∷ y else y) ++ z
get_cons-append true u x y z h = ap (◌∷◌ u) h
get_cons-append false u x y z h = h

get-insert :
    (key k v : Text) (ps : Properties)
    → sorted ps ≡ true
    → get key (insert_property k v ps) ≡ get key ps ++ (if text_eq k key then v ∷ [] else [])
unfolding get insert_property sorted all_from
get-insert key k v [] s = refl
get-insert key k v ((j, u) ∷ ps) s = elim (Bool-cases (text_lt k j)) [
  | inl h ↦ elim (Bool-cases (text_eq k key)) [
    | inl e ↦
        let here : all_from j ((j, u) ∷ ps) ≡ true = ground (arith, text_lt_irrefl j) in
        let gone : get key ((j, u) ∷ ps) ≡ [] =
          get_equal k key ((j, u) ∷ ps) e ∙ get_below k j ((j, u) ∷ ps) h here in
        rw (h, e, gone) refl
    | inr e ↦ rw (h, e) (sym (append-nil _))
  ]
  | inr h ↦ rw (h) (get_cons-append (text_eq j key) u _ _ _ (get-insert key k v ps (ground arith)))
]

after_prefix-text_eq :
    (prefix key k : Text)
    → (elim (after_prefix prefix k) [ none ↦ false | some rest ↦ text_eq rest key ])
      ≡ text_eq k (prefix ++ key)
unfolding after_prefix text_eq
after_prefix-text_eq [] key k = refl
after_prefix-text_eq (p ∷ ps) key [] = refl
after_prefix-text_eq (p ∷ ps) key (c ∷ k) = ground (arith, after_prefix-text_eq ps key k)

if_cons :
    (b : Bool) (xs : List Text) (v : Text) (ys : List Text)
    → (xs ++ (if b then v ∷ [] else [])) ++ ys ≡ xs ++ (if b then v ∷ ys else ys)
if_cons true xs v ys = simp append_assoc
if_cons false xs v ys = simp append_assoc

get-subset_from :
    (prefix key : Text) (ps result : Properties)
    → sorted result ≡ true
    → get key (subset_from prefix ps result) ≡ get key result ++ get (prefix ++ key) ps
unfolding subset_from get
get-subset_from prefix key [] result s = sym (append-nil _)
get-subset_from prefix key ((k, v) ∷ ps) result s =
    with_end (after_prefix prefix k) (after_prefix-text_eq prefix key k)
      (λ r t. get-subset_from prefix key ps r t)
  where
    with_end :
        (o : Option Text)
        → (elim o [ none ↦ false | some rest ↦ text_eq rest key ]) ≡ text_eq k (prefix ++ key)
        → ((r : Properties)
            → sorted r ≡ true
            → get key (subset_from prefix ps r) ≡ get key r ++ get (prefix ++ key) ps)
        → get key (elim o [
          | none ↦ subset_from prefix ps result
          | some rest ↦ subset_from prefix ps (insert_property rest v result)
        ])
          ≡ get key result
            ++ (if text_eq k (prefix ++ key)
                then v ∷ get (prefix ++ key) ps
                else get (prefix ++ key) ps)
    with_end none e more = rw (sym e) (more result s)
    with_end (some rest) e more =
        more (insert_property rest v result) (sorted-insert rest v result s)
        ∙ (ap (λ x. x ++ get (prefix ++ key) ps) (get-insert key rest v result s)
            ∙ rw (e)
                (if_cons (text_eq k (prefix ++ key)) (get key result) v (get (prefix ++ key) ps)))

-- Whether a text can be the key of a line, and the values that lines have for a key
abbrev pub is_key : Text → Bool
is_key [] = false
is_key (c ∷ s) = not (c == b'#')

abbrev pub line_values : (Text → Option (Text × Text)) → Text → List Text → List Text
line_values matched key [] = []
line_values matched key (line ∷ lines) =
    (elim (matched (pop_return line)) [
      | none ↦ []
      | some (k, v) ↦ if text_eq k key then v ∷ [] else []
    ])
    ++ line_values matched key lines

if_nil : (b : Bool) → ◌≡◌ {A = List Text} (if b then [] else []) []
if_nil true = refl
if_nil false = refl

none_kept :
    (b m : Bool) (v : Text)
    → (b ≡ true → m ≡ false)
    → (if b then (if m then v ∷ [] else []) ++ [] else []) ≡ []
none_kept true m v h = rw (h refl) refl
none_kept false m v h = refl

all_kept :
    (b m : Bool) (v : Text)
    → (m ≡ true → b ≡ true)
    → (if b then (if m then v ∷ [] else []) ++ [] else []) ≡ (if m then v ∷ [] else [])
all_kept true m v h = append-nil _
all_kept false true v h = let wrong : false ≡ true = h refl in cc
all_kept false false v h = refl

get-kept :
    (key k v : Text) (ps : Properties)
    → sorted ps ≡ true
    → get key
        (elim k [ [] ↦ ps | c ∷ cs ↦ if c == b'#' then ps else insert_property (c ∷ cs) v ps ])
      ≡ get key ps ++ (if is_key key then (if text_eq k key then v ∷ [] else []) ++ [] else [])
unfolding text_eq
get-kept [] [] v ps s = sym (append-nil _)
get-kept (d ∷ key) [] v ps s = rw (if_nil (not (d == b'#'))) (sym (append-nil _))
get-kept [] (c ∷ cs) v ps s = elim (Bool-cases (c == b'#')) [
  | inl h ↦ rw (h) (sym (append-nil _))
  | inr h ↦ rw (h) (get-insert [] (c ∷ cs) v ps s)
]
get-kept (d ∷ key) (c ∷ cs) v ps s = elim (Bool-cases (c == b'#')) [
  | inl h ↦
      rw (h, none_kept (not (d == b'#')) (c == d && text_eq cs key) v (λ e. ground arith))
        (sym (append-nil _))
  | inr h ↦
      rw (h, all_kept (not (d == b'#')) (c == d && text_eq cs key) v (λ e. ground arith))
        (get-insert (d ∷ key) (c ∷ cs) v ps s)
]

get-read_line :
    (matched : Text → Option (Text × Text)) (key line : Text) (ps : Properties)
    → sorted ps ≡ true
    → get key (read_line matched line ps)
      ≡ get key ps ++ (if is_key key then line_values matched key (line ∷ []) else [])
unfolding read_line
get-read_line matched key line ps s =
    elim (matched (pop_return line))
      as (λ o.
        get key (elim o [
          | none ↦ ps
          | some (k, v) ↦ elim k [
            | [] ↦ ps
            | c ∷ cs ↦ if c == b'#' then ps else insert_property (c ∷ cs) v ps
          ]
        ])
        ≡ get key ps
          ++ (if is_key key
              then (elim o [ none ↦ [] | some (k, v) ↦ if text_eq k key then v ∷ [] else [] ]) ++ []
              else [])) [
                | none ↦ rw (if_nil (is_key key)) (sym (append-nil _))
                | some (k, v) ↦ get-kept key k v ps s
              ]

if_append :
    (b : Bool) (w x y : List Text)
    → (w ++ (if b then x ++ [] else [])) ++ (if b then y else []) ≡ w ++ (if b then x ++ y else [])
if_append true w x y = simp (append_assoc, append-nil)
if_append false w x y = simp append-nil

read_line-sorted :
    (matched : Text → Option (Text × Text)) (line : Text) (ps : Properties)
    → sorted ps ≡ true
    → sorted (read_line matched line ps) ≡ true
unfolding read_line
read_line-sorted matched line ps s =
    elim (matched (pop_return line))
      as (λ o.
        sorted (elim o [
          | none ↦ ps
          | some (k, v) ↦ elim k [
            | [] ↦ ps
            | c ∷ cs ↦ if c == b'#' then ps else insert_property (c ∷ cs) v ps
          ]
        ])
        ≡ true) [ none ↦ s | some (k, v) ↦ keeps k v ]
  where
    keeps :
        (k v : Text)
        → sorted
            (elim k [ [] ↦ ps | c ∷ cs ↦ if c == b'#' then ps else insert_property (c ∷ cs) v ps ])
          ≡ true
    keeps [] v = s
    keeps (c ∷ cs) v = ground (arith, sorted-insert (c ∷ cs) v ps)

get-read_lines :
    (matched : Text → Option (Text × Text)) (key : Text) (lines : List Text) (ps : Properties)
    → sorted ps ≡ true
    → get key (read_lines matched lines ps)
      ≡ get key ps ++ (if is_key key then line_values matched key lines else [])
unfolding read_lines
get-read_lines matched key [] ps s = rw (if_nil (is_key key)) (sym (append-nil _))
get-read_lines matched key (line ∷ lines) ps s =
    get-read_lines matched key lines (read_line matched line ps)
      (read_line-sorted matched line ps s)
    ∙ (ap (λ x. x ++ (if is_key key then line_values matched key lines else []))
          (get-read_line matched key line ps s)
        ∙ if_append (is_key key) (get key ps) _ (line_values matched key lines))

-- What is read from lines, and then taken by a prefix, has for each key the values, in the order of the
-- lines, of the lines whose key is the prefix with that key behind it. It has none where that key would be
-- empty or a comment's, and a key that comes again keeps every value.
pub get-get_subset :
    (matched : Text → Option (Text × Text)) (lines : List Text) (prefix key : Text)
    → get key (get_subset prefix (read_lines matched lines []))
      ≡ (if is_key (prefix ++ key) then line_values matched (prefix ++ key) lines else [])
unfolding get_subset sorted get
get-get_subset matched lines prefix key =
    get-subset_from prefix key (read_lines matched lines []) [] refl
    ∙ get-read_lines matched (prefix ++ key) lines [] refl
