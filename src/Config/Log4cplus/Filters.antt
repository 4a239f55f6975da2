-- ===== src/Config/Log4cplus/Filters.antt =====
-- The loop of add_filters in config_file_configurator.cpp.
use chucho.Base.{
  ℕ, zero, suc, ◌+◌, ◌≤◌, ◌<◌, ◌≡◌, refl, sym, ap, subst, ◌∙◌, true, [], ◌∷◌, ◌++◌, append-nil,
  Option, none, some, Text, codes, text_eq, text_eq_iff, arith, if◌then◌else◌, leb, length, Bool,
  false, Bool-cases, Option-cases, inl, inr,
}
use chucho.TextUtil.{read_digits}
use chucho.TextUtil.Decimal.{decimal, read_digits-decimal}
use chucho.Config.Properties.{Properties, get, get_one, get_subset}
use chucho.Config.Process.{
  Configurable, Calls, no_calls, filtered, Factories, Attempt, threw, unfinished, undefined, gave,
  ◌>>=◌, handle_value, finish_configurable,
}
use chucho.Config.Process.Ends.{
  is_finished, bind-finished, if-finished, handle_value-finished, finish-finished,
}
use chucho.Config.Log4cplus.{
  with_factory, as_filter, starts_with, factory_key, get_non_empty_subset, handle_filter_values,
  add_one_filter, add_filters_from,
}

-- Fuel has not run out.
abbrev pub in_fuel : {A : Type 0} → Attempt A → Bool
in_fuel threw = true
in_fuel unfinished = false
in_fuel undefined = true
in_fuel (gave a) = true

finished-in_fuel : {A : Type 0} (x : Attempt A) → is_finished x ≡ true → in_fuel x ≡ true
finished-in_fuel threw h = refl
finished-in_fuel unfinished h = h
finished-in_fuel undefined h = refl
finished-in_fuel (gave a) h = refl

bind-in_fuel :
    {A B : Type 0}
    → (x : Attempt A) (h : A → Attempt B) → in_fuel x ≡ true
    → ((a : A) → in_fuel (h a) ≡ true)
    → in_fuel (x >>= h) ≡ true
bind-in_fuel threw h p q = refl
bind-in_fuel unfinished h p q = p
bind-in_fuel undefined h p q = refl
bind-in_fuel (gave a) h p q = q a

if-in_fuel :
    {A : Type 0}
    → (b : Bool) (x y : Attempt A) → in_fuel x ≡ true
    → in_fuel y ≡ true
    → in_fuel (if b then x else y) ≡ true
if-in_fuel true x y p q = p
if-in_fuel false x y p q = q

bind_same :
    {A B : Type 0}
    → (x : Attempt A) (g h : A → Attempt B) → in_fuel x ≡ true
    → ((a : A) → (g a ≡ h a) × (in_fuel (h a) ≡ true))
    → ((x >>= g) ≡ (x >>= h)) × (in_fuel (x >>= h) ≡ true)
bind_same threw g h p q = (refl, refl)
bind_same unfinished g h p q = (refl, p)
bind_same undefined g h p q = (refl, refl)
bind_same (gave a) g h p q = q a

-- The entries whose key is a number from one on
numbered_from : ℕ → Properties → ℕ
numbered_from num [] = 0
numbered_from num ((k, v) ∷ rest) =
    if leb num (read_digits 0 k).0 then suc (numbered_from num rest) else numbered_from num rest

numbered_from-length : (num : ℕ) (ps : Properties) → numbered_from num ps ≤ length ps
unfolding numbered_from
numbered_from-length num [] = omega arith
numbered_from-length num ((k, v) ∷ ps) = ground (arith, numbered_from-length num ps)

numbered_from_next : (num : ℕ) (ps : Properties) → numbered_from (num + 1) ps ≤ numbered_from num ps
unfolding numbered_from
numbered_from_next num [] = omega arith
numbered_from_next num ((k, v) ∷ ps) = ground (arith, numbered_from_next num ps)

decimal_value : (num : ℕ) → (read_digits 0 (decimal num)).0 ≡ num
decimal_value num =
    ap (λ t. (read_digits 0 t).0) (sym (append-nil (decimal num)))
    ∙ ap (λ r. r.0) (read_digits-decimal num [] tt)

-- A number whose key is there is counted.
found_less :
    (num : ℕ) (ps : Properties) (v : Text)
    → get_one (decimal num) ps ≡ some v
    → numbered_from (num + 1) ps < numbered_from num ps
unfolding numbered_from get_one get
found_less num [] v h = absurd (ground arith)
found_less num ((k, u) ∷ ps) v h = elim (Bool-cases (text_eq k (decimal num))) [
  | inl e ↦
      let same : (read_digits 0 k).0 ≡ num =
        ap (λ t. (read_digits 0 t).0) ((text_eq_iff k (decimal num)).0 e) ∙ decimal_value num in
      ground (arith, numbered_from_next num ps)
  | inr e ↦
      let later : get_one (decimal num) ps ≡ some v =
        subst
          (λ b.
            (elim (if b then u ∷ get (decimal num) ps else get (decimal num) ps)
              as (λ x. Option Text) [ [] ↦ none | w ∷ ws ↦ some w ])
            ≡ some v)
          e h in
      ground (arith, found_less num ps v)
]

handle_filter_values-finished :
    (f : Factories) (cls type : Text) (ps : Properties) (calls : Calls)
    → is_finished (handle_filter_values f cls type ps calls) ≡ true
unfolding handle_filter_values
handle_filter_values-finished f cls type [] calls = refl
handle_filter_values-finished f cls type ((k, v) ∷ ps) calls =
    bind-finished (if starts_with type v then gave calls else handle_value f cls k v calls) _
      (if-finished (starts_with type v) (gave calls) (handle_value f cls k v calls) refl
        (handle_value-finished f cls k v calls))
      (handle_filter_values-finished f cls type ps)

subset-finished :
    (props : Properties) (prefix : Text) → is_finished (get_non_empty_subset props prefix) ≡ true
unfolding get_non_empty_subset
subset-finished props prefix = by_subset (get_subset prefix props)
  where
    by_subset :
        (es : Properties)
        → is_finished (elim es as (λ x. Attempt Properties) [ [] ↦ threw | e ∷ es ↦ gave (e ∷ es) ])
          ≡ true
    by_subset [] = refl
    by_subset (e ∷ es) = refl

made-in_fuel :
    (f : Factories) (flts : Properties) (name type cls : Text) (wrt : Configurable)
    → in_fuel (
        get_non_empty_subset flts (name ++ codes ".") >>= λ props.
        handle_filter_values f cls type props no_calls >>= λ calls.
        finish_configurable f cls calls >>= λ made.
        as_filter f cls made >>= λ filt. gave (filtered wrt filt))
      ≡ true
made-in_fuel f flts name type cls wrt =
    bind-in_fuel (get_non_empty_subset flts (name ++ codes ".")) _
      (finished-in_fuel _ (subset-finished flts (name ++ codes ".")))
      λ props.
        bind-in_fuel (handle_filter_values f cls type props no_calls) _
          (finished-in_fuel _ (handle_filter_values-finished f cls type props no_calls))
          λ calls.
            bind-in_fuel (finish_configurable f cls calls) _
              (finished-in_fuel _ (finish-finished f cls calls))
              λ made.
                bind-in_fuel (as_filter f cls made) _
                  (if-in_fuel (f.is_filter cls) (gave made) undefined refl refl) (λ filt. refl)

add_one_filter-in_fuel :
    (f : Factories) (flts : Properties) (name type : Text) (wrt : Configurable)
    → in_fuel (add_one_filter f flts name type wrt) ≡ true
unfolding add_one_filter
add_one_filter-in_fuel f flts name type wrt =
    if-in_fuel (text_eq type (codes "log4cplus::spi::DenyAllFilter")) _ _ refl (
      if-in_fuel (text_eq type (codes "log4cplus::spi::StringMatchFilter")) _ _ refl
        (by_key (factory_key type)))
  where
    by_key :
        (o : Option Text)
        → in_fuel (elim o as (λ x. Attempt Configurable) [
          | none ↦ gave wrt
          | some cls ↦ with_factory f cls (
              get_non_empty_subset flts (name ++ codes ".") >>= λ props.
              handle_filter_values f cls type props no_calls >>= λ calls.
              finish_configurable f cls calls >>= λ made.
              as_filter f cls made >>= λ filt. gave (filtered wrt filt))
        ])
          ≡ true
    by_key none = refl
    by_key (some cls) =
        if-in_fuel (f.has_factory cls) _ undefined (made-in_fuel f flts name type cls wrt) refl

add_filters_from-same :
    (f : Factories) (flts : Properties) (more fuel num : ℕ) (wrt : Configurable)
    → numbered_from num flts < fuel
    → (add_filters_from f flts (more + fuel) num wrt ≡ add_filters_from f flts fuel num wrt)
      × (in_fuel (add_filters_from f flts fuel num wrt) ≡ true)
unfolding add_filters_from
add_filters_from-same f flts more zero num wrt h = absurd (omega arith)
add_filters_from-same f flts more (suc fuel) num wrt h =
    let z : more + suc fuel ≡ suc (more + fuel) = omega arith in
    elim (Option-cases (get_one (decimal num) flts)) [
      | inl e ↦ rw (z, add_filters_from, e) (refl, refl)
      | inr (type, e) ↦
          rw (z, add_filters_from, e)
            (bind_same (add_one_filter f flts (decimal num) type wrt) _ _
              (add_one_filter-in_fuel f flts (decimal num) type wrt)
              (λ w.
                add_filters_from-same f flts more fuel (num + 1) w
                  (omega (arith, h, found_less num flts type e))))
    ]

-- The loop of add_filters ends: fuel for one round more than there are filter properties does not run
-- out, and more of it changes nothing, whether the loop ends with a writer, with an exception or at a
-- factory or a filter that an assert says is there.
pub add_filters_from_ends :
    (f : Factories) (flts : Properties) (more : ℕ) (wrt : Configurable)
    → (add_filters_from f flts (more + suc (length flts)) 1 wrt
        ≡ add_filters_from f flts (suc (length flts)) 1 wrt)
      × (in_fuel (add_filters_from f flts (suc (length flts)) 1 wrt) ≡ true)
add_filters_from_ends f flts more wrt =
    add_filters_from-same f flts more (suc (length flts)) 1 wrt
      (omega (arith, numbered_from-length 1 flts))
