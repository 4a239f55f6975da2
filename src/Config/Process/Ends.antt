-- ===== src/Config/Process/Ends.antt =====
-- create_writer of config_file_configurator.cpp ends, for writers that hold writers in an order.
use chucho.Base.{
  ℕ, suc, ◌+◌, ◌≡◌, refl, sym, ap, subst, ◌∙◌, Bool, true, false, ◌&&◌, ◌||◌, List, [], ◌∷◌, ◌++◌,
  Text, codes, text_eq, text_eq_iff, Bool-cases, inl, inr, none, some, arith, if◌then◌else◌, length,
}
use chucho.Config.Properties.{Properties, get_subset, get_one}
use chucho.Config.Process.{
  Configurable, Calls, no_calls, child_call, Factories, Attempt, threw, unfinished, undefined, gave,
  ◌>>=◌, has_dot, dotted, get_factory, handle_value, finish_configurable, handle_values,
  create_configurable, handle_roller_entries, create_file_roller, is_generic, writer_key,
  handle_writer_entry, handle_writer_entries, writer_entries, create_writer,
}

abbrev pub is_finished : {A : Type 0} → Attempt A → Bool
is_finished threw = true
is_finished unfinished = false
is_finished undefined = false
is_finished (gave a) = true

pub bind-finished :
    {A B : Type 0}
    → (x : Attempt A) (h : A → Attempt B) → is_finished x ≡ true
    → ((a : A) → is_finished (h a) ≡ true)
    → is_finished (x >>= h) ≡ true
bind-finished threw h p q = refl
bind-finished unfinished h p q = p
bind-finished undefined h p q = p
bind-finished (gave a) h p q = q a

pub if-finished :
    {A : Type 0}
    → (b : Bool) (x y : Attempt A) → is_finished x ≡ true
    → is_finished y ≡ true
    → is_finished (if b then x else y) ≡ true
if-finished true x y p q = p
if-finished false x y p q = q

get_factory-finished :
    (f : Factories) (type name : Text) (props : Properties)
    → is_finished (get_factory f type name props) ≡ true
unfolding get_factory
get_factory-finished f type name props =
    elim (get_one (dotted type name) props)
      as (λ x.
        is_finished (elim x as (λ y. Attempt Text) [
          | none ↦ threw
          | some cls ↦ if f.has_factory cls then gave cls else threw
        ])
        ≡ true) [
          | none ↦ refl
          | some cls ↦ if-finished (f.has_factory cls) (gave cls) threw refl refl
        ]

pub handle_value-finished :
    (f : Factories) (cls k v : Text) (calls : Calls)
    → is_finished (handle_value f cls k v calls) ≡ true
unfolding handle_value
handle_value-finished f cls k v calls = ground arith

pub finish-finished :
    (f : Factories) (cls : Text) (calls : Calls)
    → is_finished (finish_configurable f cls calls) ≡ true
unfolding finish_configurable
finish-finished f cls calls = ground arith

handle_values-finished :
    (f : Factories) (cls : Text) (es : Properties) (calls : Calls)
    → is_finished (handle_values f cls es calls) ≡ true
unfolding handle_values
handle_values-finished f cls [] calls = refl
handle_values-finished f cls ((k, v) ∷ rest) calls =
    bind-finished (handle_value f cls k v calls) (handle_values f cls rest)
      (handle_value-finished f cls k v calls) (handle_values-finished f cls rest)

create_configurable-finished :
    (f : Factories) (type name : Text) (props : Properties)
    → is_finished (create_configurable f type name props) ≡ true
unfolding create_configurable
create_configurable-finished f type name props =
    bind-finished (get_factory f type name props) _ (get_factory-finished f type name props) λ cls.
      bind-finished
        (handle_values f cls (get_subset (dotted type name ++ (b'.' ∷ [])) props) no_calls) _
        (handle_values-finished f cls (get_subset (dotted type name ++ (b'.' ∷ [])) props) no_calls)
        (finish-finished f cls)

child-finished :
    (x : Attempt Configurable) (calls : Calls)
    → is_finished x ≡ true
    → is_finished (x >>= λ made. gave (child_call calls made)) ≡ true
child-finished x calls p = bind-finished x _ p (λ a. refl)

roller_entries-finished :
    (f : Factories) (props : Properties) (cls : Text) (es : Properties) (calls : Calls)
    → is_finished (handle_roller_entries f props cls es calls) ≡ true
unfolding handle_roller_entries
roller_entries-finished f props cls [] calls = refl
roller_entries-finished f props cls ((k, v) ∷ rest) calls =
    bind-finished
      (if text_eq k (codes "file_compressor")
        then (create_configurable f k v props >>= λ made. gave (child_call calls made))
        else handle_value f cls k v calls)
      _
      (if-finished (text_eq k (codes "file_compressor")) _ _
        (child-finished (create_configurable f k v props) calls
          (create_configurable-finished f k v props))
        (handle_value-finished f cls k v calls))
      (roller_entries-finished f props cls rest)

create_file_roller-finished :
    (f : Factories) (name : Text) (props : Properties)
    → is_finished (create_file_roller f name props) ≡ true
unfolding create_file_roller
create_file_roller-finished f name props =
    bind-finished (get_factory f (codes "file_roller") name props) _
      (get_factory-finished f (codes "file_roller") name props)
      λ cls.
        bind-finished
          (handle_roller_entries f props cls
            (get_subset (dotted (codes "file_roller") name ++ (b'.' ∷ [])) props) no_calls)
          _
          (roller_entries-finished f props cls
            (get_subset (dotted (codes "file_roller") name ++ (b'.' ∷ [])) props) no_calls)
          (finish-finished f cls)

-- The writers of some properties are all among some names
abbrev pub contains : List Text → Text → Bool
contains [] t = false
contains (name ∷ names) t = text_eq t name || contains names t

abbrev pub writers_within : List Text → Properties → Bool
writers_within names [] = true
writers_within names ((k, v) ∷ rest) =
    (if text_eq k writer_key then contains names v else true) && writers_within names rest

-- Each name's writers are all among the names after it
abbrev pub in_order : Properties → List Text → Bool
in_order props [] = true
in_order props (name ∷ rest) =
    writers_within rest (writer_entries name props) && in_order props rest

-- Two attempts that are the same, and end
abbrev pub Alike : {A : Type 0} → Attempt A → Attempt A → Type 0
Alike x y = (x ≡ y) × (is_finished y ≡ true)

pub bind-Alike :
    {A B : Type 0}
    → (x y : Attempt A) (g h : A → Attempt B) → Alike x y
    → ((a : A) → Alike (g a) (h a))
    → Alike (x >>= g) (y >>= h)
bind-Alike {A = A} {B = B} x y g h p q =
    subst (λ z. Alike (z >>= g) (y >>= h)) (sym (p.0)) (after y (p.1))
  where
    after : (y : Attempt A) → is_finished y ≡ true → Alike (y >>= g) (y >>= h)
    after threw r = (refl, refl)
    after unfinished r = (refl, r)
    after undefined r = (refl, r)
    after (gave a) r = q a

if-Alike :
    {A : Type 0}
    → (b : Bool) (x y z w : Attempt A) → (b ≡ true → Alike x y)
    → (b ≡ false → Alike z w)
    → Alike (if b then x else z) (if b then y else w)
if-Alike true x y z w p q = p refl
if-Alike false x y z w p q = q refl

-- Two ways to make a writer that agree on some names, and end there
abbrev Agree : List Text → (Text → Attempt Configurable) → (Text → Attempt Configurable) → Type 0
Agree names c d = (t : Text) → contains names t ≡ true → Alike (c t) (d t)

handle_writer_entry-Alike :
    (f : Factories) (c d : Text → Attempt Configurable) (props : Properties) (cls k v : Text)
    (calls : Calls)
    → (text_eq k writer_key ≡ true → Alike (c v) (d v))
    → Alike
        (handle_writer_entry f c props cls k v calls)
        (handle_writer_entry f d props cls k v calls)
unfolding handle_writer_entry
handle_writer_entry-Alike f c d props cls k v calls h =
    if-Alike (text_eq k (codes "file_roller")) _ _ _ _
      (λ _. (
        refl,
        child-finished (create_file_roller f v props) calls (create_file_roller-finished f v props),
      ))
      λ _.
        if-Alike (text_eq k writer_key) _ _ _ _
          (λ e. bind-Alike (c v) (d v) _ _ (h e) (λ a. (refl, refl)))
          λ _. (
            refl,
            if-finished (is_generic f k) _ _
                (child-finished (create_configurable f k v props) calls
                  (create_configurable-finished f k v props))
                (if-finished (has_dot k) _ _ refl (handle_value-finished f cls k v calls)),
          )

handle_writer_entries-Alike :
    (f : Factories) (names : List Text) (c d : Text → Attempt Configurable) (props : Properties)
    (cls : Text)
    → Agree names c d
    → (es : Properties) (calls : Calls) → writers_within names es ≡ true
    → Alike
        (handle_writer_entries f c props cls es calls)
        (handle_writer_entries f d props cls es calls)
unfolding handle_writer_entries
handle_writer_entries-Alike f names c d props cls h [] calls w = (refl, refl)
handle_writer_entries-Alike f names c d props cls h ((k, v) ∷ rest) calls w =
    bind-Alike (handle_writer_entry f c props cls k v calls)
      (handle_writer_entry f d props cls k v calls) _ _
      (handle_writer_entry-Alike f c d props cls k v calls (λ e. h v (ground arith)))
      (λ a. handle_writer_entries-Alike f names c d props cls h rest a (ground arith))

create_writer-Alike :
    (f : Factories) (props : Properties) (names : List Text) (name : Text) (m n : ℕ)
    → Agree names (create_writer f props m) (create_writer f props n)
    → writers_within names (writer_entries name props) ≡ true
    → Alike (create_writer f props (suc m) name) (create_writer f props (suc n) name)
unfolding create_writer
create_writer-Alike f props names name m n h w =
    bind-Alike (get_factory f writer_key name props) (get_factory f writer_key name props) _ _
      (refl, get_factory-finished f writer_key name props)
      λ cls.
        bind-Alike
          (handle_writer_entries f (create_writer f props m) props cls (writer_entries name props)
            no_calls)
          (handle_writer_entries f (create_writer f props n) props cls (writer_entries name props)
            no_calls)
          _ _
          (handle_writer_entries-Alike f names (create_writer f props m) (create_writer f props n)
            props cls h (writer_entries name props) no_calls w)
          (λ calls. (refl, finish-finished f cls calls))

-- Where the writers of a configuration can be put in an order, so that the writers that each one holds
-- come after it, create_writer ends for each of them: fuel for as many writers as the order has is enough,
-- and more of it changes nothing.
pub create_writer_ends :
    (f : Factories) (props : Properties) (order : List Text) (more : ℕ) (name : Text)
    → in_order props order ≡ true
    → contains order name ≡ true
    → (create_writer f props (more + length order) name ≡ create_writer f props (length order) name)
      × (is_finished (create_writer f props (length order) name) ≡ true)
create_writer_ends f props [] more name o h = cc
create_writer_ends f props (first ∷ rest) more name o h =
    let ends : (k : ℕ) (t : Text)
        → contains rest t ≡ true
        → Alike (create_writer f props (k + length rest) t)
            (create_writer f props (length rest) t) =
      λ k t c. create_writer_ends f props rest k t (ground arith) c in
    let one_more : more + suc (length rest) ≡ suc (more + length rest) = omega arith in
    elim (Bool-cases (text_eq name first)) [
      | inl e ↦
          rw (one_more, (text_eq_iff name first).0 e)
            (create_writer-Alike f props rest first (more + length rest) (length rest) (ends more)
              (ground arith))
      | inr e ↦
          let later : contains rest name ≡ true = ground arith in
          let p = ends (suc more) name later in
          let q = ends 1 name later in
          let at : ℕ → Attempt Configurable = λ n. create_writer f props n name in
          let one : at (suc (length rest)) ≡ at (length rest) =
            ap at {x = suc (length rest)} {y = 1 + length rest} (omega arith) ∙ q.0 in
          let many : at (more + suc (length rest)) ≡ at (length rest) =
            ap at {x = more + suc (length rest)} {y = suc more + length rest} (omega arith) ∙ p.0 in
          (many ∙ sym one, ap is_finished one ∙ q.1)
    ]
