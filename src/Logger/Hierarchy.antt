-- ===== src/Logger/Hierarchy.antt =====
-- logger::get: it ends, gives one logger for a name, makes the ancestors, and keeps the tree.
use chucho.Base.{
  ℕ, zero, suc, ◌<◌, ◌≡◌, refl, sym, ◌∙◌, subst, Bool, true, false, [], ◌∷◌, ◌++◌, Text, arith,
  length, Option, none, some, text_eq, text_eq_iff, Bool-cases, Option-cases, inl, inr,
}
use chucho.Level.{info_level}
use chucho.Logger.{
  Logger, Store, lookup, assign, new_logger, construct, register, get_impl, ensure_initialized, get,
}
use chucho.Logger.Tree.{
  lookup-assign, get_elem?-append, get_elem?-length, Linked, Entry, WellFormed, Extends,
  Extends-refl, Extends-trans, Entry-Extends, Outcome,
}
use chucho.Logger.Construct.{Fresh, construct-Built}

-- Registering a new logger.
allocated : Store → Logger → Store
allocated s l = record s { heap = s.heap ++ l ∷ [] }

allocated-Extends : (s : Store) (l : Logger) → Extends s (allocated s l)
unfolding allocated
allocated-Extends s l = record {
  names = λ n i h. h;
  loggers = λ i m h. get_elem?-append s.heap (l ∷ []) i m h;
}

assigned : Store → Text → Logger → Store
assigned s n l = record s {
  heap = s.heap ++ l ∷ [];
  all_loggers = assign n (length s.heap) s.all_loggers;
}

assigned-Extends :
    (s : Store) (n : Text) (l : Logger) → lookup n s.all_loggers ≡ none → Extends s (assigned s n l)
unfolding assigned
assigned-Extends s n l absent = record {
  names = λ m i h.
      lookup-assign n m (length s.heap) s.all_loggers ∙ (elim (Bool-cases (text_eq n m)) [
        | inl e ↦
            absurd
              (cc (h, subst (λ j. lookup j s.all_loggers ≡ none) ((text_eq_iff n m).0 e) absent))
        | inr e ↦ rw e h
      ]);
  loggers = λ i m h. get_elem?-append s.heap (l ∷ []) i m h;
}

Linked-Extends :
    (s t : Store) (n : Text) (i : ℕ) (p : Option ℕ)
    → Extends s t
    → Linked s.all_loggers n i p
    → Linked t.all_loggers n i p
Linked-Extends s t [] i p x h = h
Linked-Extends s t (c ∷ n) i p x (k, e, lt, up) = (k, e, lt, x.names _ k up)

allocated-WellFormed : (s : Store) (l : Logger) → WellFormed s → WellFormed (allocated s l)
unfolding allocated
allocated-WellFormed s l w = record {
  entry = λ m j h. Entry-Extends m j (allocated-Extends s l) (w.entry m j h);
}

assigned-WellFormed :
    (s : Store) (n : Text) (l : Logger)
    → WellFormed s
    → lookup n s.all_loggers ≡ none
    → Fresh s n l
    → WellFormed (assigned s n l)
unfolding assigned
assigned-WellFormed s n l w absent (name, linked) = record {
  entry = λ m j h.
      let found = sym (lookup-assign n m (length s.heap) s.all_loggers) ∙ h in
      elim (Bool-cases (text_eq n m)) [
        | inl e ↦ new_entry m j ((text_eq_iff n m).0 e) (rw e at found)
        | inr e ↦ Entry-Extends m j extends (w.entry m j (rw e at found))
      ];
}
  where
    extends : Extends s (assigned s n l)
    extends = assigned-Extends s n l absent

    own_entry : Entry (assigned s n l) n (length s.heap)
    own_entry = (
      l,
      get_elem?-length s.heap l,
      name,
      Linked-Extends s (assigned s n l) n _ l.parent extends linked,
    )

    new_entry :
        (m : Text) (j : ℕ) → n ≡ m → some (length s.heap) ≡ some j → Entry (assigned s n l) m j
    new_entry m j same at =
        let index : length s.heap ≡ j = cc in
        subst (λ k. Entry (assigned s n l) m k) index
          (subst (λ k. Entry (assigned s n l) k (length s.heap)) same own_entry)

register-Outcome :
    (s : Store) (n : Text) (l : Logger) → WellFormed s → Fresh s n l → Outcome (register n l) n s
unfolding register
register-Outcome s n l w fresh = elim (Option-cases (lookup n s.all_loggers)) [
  | inr (i, e) ↦ (
    i,
    allocated s l,
    rw (e, register) (unfold allocated in refl),
    allocated-WellFormed s l w,
    allocated-Extends s l,
    (allocated-Extends s l).names n i e,
  )
  | inl e ↦ (
    length s.heap,
    assigned s n l,
    rw (e, register) (unfold assigned in refl),
    assigned-WellFormed s n l w e fresh,
    assigned-Extends s n l e,
    unfold assigned in
        lookup-assign n n (length s.heap) s.all_loggers ∙ rw ((text_eq_iff n n).1 refl),
  )
]

get_impl_step :
    (fuel : ℕ) (n : Text) (s s1 t : Store) (l : Logger) (i : ℕ)
    → lookup n s.all_loggers ≡ none
    → construct (get_impl fuel) n none s ≡ some (l, s1)
    → register n l s1 ≡ some (i, t)
    → get_impl (suc fuel) n s ≡ some (i, t)
unfolding get_impl
get_impl_step fuel n s s1 t l i absent e f = ground arith

-- From a well-formed store, with fuel above the length of the name, get_impl ends with the one
-- logger of that name in a well-formed store that holds all that was there before.
pub get_impl-Outcome :
    (fuel : ℕ) (n : Text) (s : Store)
    → length n < fuel
    → WellFormed s
    → Outcome (get_impl fuel n) n s
unfolding get_impl
get_impl-Outcome zero n s le w = absurd (omega arith)
get_impl-Outcome (suc fuel) n s le w =
    let nested = λ (m : Text) (u : Store) (lt : length m < fuel) (v : WellFormed u).
      get_impl-Outcome fuel m u lt v in
    elim (Option-cases (lookup n s.all_loggers)) [
      | inr (i, e) ↦ (i, s, rw (e, get_impl), w, Extends-refl s, e)
      | inl e ↦
          let (p, s1, e1, w1, x1, fresh) =
            construct-Built fuel (get_impl fuel) nested n none s (omega arith) w in
          let (i, t, e2, w2, x2, at) = register-Outcome s1 n (new_logger n none p) w1 fresh in
          (
            i,
            t,
            get_impl_step fuel n s s1 t (new_logger n none p) i e e1 e2,
            w2,
            Extends-trans x1 x2,
            at,
          )
    ]

-- The store with the root logger and nothing else of that name, before the configuration.
with_root : Store → Store
with_root s = record {
  heap = s.heap ++ new_logger [] (some info_level) none ∷ [];
  all_loggers = assign [] (length s.heap) s.all_loggers;
  is_initialized = true;
}

with_root-WellFormed :
    (s : Store) → WellFormed s → lookup [] s.all_loggers ≡ none → WellFormed (with_root s)
unfolding with_root assigned
with_root-WellFormed s w absent = record {
  entry =
      (assigned-WellFormed s [] (new_logger [] (some info_level) none) w absent (refl, refl)).entry;
}

ensure_initialized-WellFormed :
    (perform : ℕ → Store → Store)
    → ((root : ℕ) (s : Store) → WellFormed s → WellFormed (perform root s))
    → (b : Bool) (s : Store) → WellFormed s
    → (b ≡ false → lookup [] s.all_loggers ≡ none)
    → WellFormed (ensure_initialized perform b s)
unfolding ensure_initialized with_root
ensure_initialized-WellFormed perform keeps true s w fresh = w
ensure_initialized-WellFormed perform keeps false s w fresh =
    keeps (length s.heap) _ (with_root-WellFormed s w (fresh refl))

-- logger::get ends, in a well-formed store, with the logger of the name. On the first call the
-- root logger is made and the configuration is performed; nothing that was in the store after
-- that is lost or changed. What the configuration does is a parameter that keeps stores well formed.
pub get-Outcome :
    (perform : ℕ → Store → Store)
    → ((root : ℕ) (s : Store) → WellFormed s → WellFormed (perform root s))
    → (n : Text) (s : Store) → WellFormed s
    → (s.is_initialized ≡ false → lookup [] s.all_loggers ≡ none)
    → (i : ℕ) × (t : Store) × (get perform n s ≡ some (i, t))
      × WellFormed t
      × Extends (ensure_initialized perform s.is_initialized s) t
      × (lookup n t.all_loggers ≡ some i)
unfolding get
get-Outcome perform keeps n s w fresh =
    get_impl-Outcome (suc (length n)) n (ensure_initialized perform s.is_initialized s)
      (omega arith) (ensure_initialized-WellFormed perform keeps s.is_initialized s w fresh)

get_impl-found :
    (fuel : ℕ) (n : Text) (i : ℕ) (s : Store)
    → lookup n s.all_loggers ≡ some i
    → get_impl (suc fuel) n s ≡ some (i, s)
unfolding get_impl
get_impl-found fuel n i s at = rw (at, get_impl)

-- A second call for the name gives the same logger and changes nothing, whatever loggers have been
-- made in between.
pub get_impl_twice :
    (fuel : ℕ) (n : Text) (s t u : Store) (i : ℕ)
    → length n < fuel
    → WellFormed s
    → get_impl fuel n s ≡ some (i, t)
    → Extends t u
    → get_impl fuel n u ≡ some (i, u)
get_impl_twice zero n s t u i le w e x = absurd (omega arith)
get_impl_twice (suc fuel) n s t u i le w e x =
    let (j, t', e', w', x', at) = get_impl-Outcome (suc fuel) n s le w in
    let same : j ≡ i = cc in
    let store : t' ≡ t = cc in
    get_impl-found fuel n i u (
      x.names n i (
        subst (λ v. lookup n v.all_loggers ≡ some i) store
          (subst (λ k. lookup n t'.all_loggers ≡ some k) same at)))
