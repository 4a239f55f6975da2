-- ===== src/Status/History.antt =====
-- Which statuses the manager holds after a history of reports, and at which level it stands.
use chucho.Base.{
  ℕ, suc, ◌+◌, ◌-◌, ◌≡◌, refl, sym, ap, ◌∙◌, List, [], ◌∷◌, ◌++◌, arith, ltb, length, take, drop,
  tail, keep_last, drop-append, take-append, take_all, drop_all, tail-drop, length-keep_last,
  length-append, length-take, append_assoc, append-nil, Bool-cases, inl, inr, subst, ltb→lt, lt→ltb,
  min, ◌<◌,
}
use chucho.Status.{
  Severity, info, warning, error, Status, StatusManager, head_cache_max, tail_cache_max, max_level,
  max_element, cache_max, adjust_level, push_tail, cache_status, add, clear, get_all, add_each,
}

-- The highest level in a list.
abbrev pub worst : List Status → Severity
worst [] = info
worst (st ∷ sts) = max_level st.level (worst sts)

max_level_assoc : (a b c : Severity) → max_level (max_level a b) c ≡ max_level a (max_level b c)
max_level_assoc info b c = ground arith
max_level_assoc warning info c = ground arith
max_level_assoc warning warning c = ground arith
max_level_assoc warning error c = ground arith
max_level_assoc error info c = ground arith
max_level_assoc error warning c = ground arith
max_level_assoc error error c = ground arith

max_element-worst :
    (best : Severity) (sts : List Status) → max_element best sts ≡ max_level best (worst sts)
unfolding max_element
max_element-worst info [] = refl
max_element-worst warning [] = refl
max_element-worst error [] = refl
max_element-worst best (st ∷ sts) =
    max_element-worst (max_level best st.level) sts ∙ max_level_assoc best st.level (worst sts)

cache_max-worst : (sts : List Status) → cache_max sts ≡ worst sts
unfolding cache_max
cache_max-worst [] = refl
cache_max-worst (st ∷ sts) = max_element-worst st.level sts

worst-append : (xs ys : List Status) → worst (xs ++ ys) ≡ max_level (worst xs) (worst ys)
worst-append [] ys = ground arith
worst-append (x ∷ xs) ys =
    ap (max_level x.level) (worst-append xs ys)
    ∙ sym (max_level_assoc x.level (worst xs) (worst ys))

push_tail-keep_last :
    (n : ℕ) (xs : List Status) (st : Status)
    → push_tail n (keep_last n xs) st ≡ keep_last n (xs ++ st ∷ [])
unfolding push_tail
push_tail-keep_last n xs st = elim (Bool-cases (ltb n (length pushed))) [
  | inl long ↦
      let same : suc (length xs - n) ≡ length (xs ++ st ∷ []) - n =
        omega (arith, size, new_length, ltb→lt n (length pushed) long) in
      rw long (
        ap tail joined
        ∙ tail-drop (length xs - n) (xs ++ st ∷ [])
        ∙ ap (λ k. drop k (xs ++ st ∷ [])) same)
  | inr short ↦
      let same : length xs - n ≡ length (xs ++ st ∷ []) - n = ground (arith, size, new_length) in
      rw short (joined ∙ ap (λ k. drop k (xs ++ st ∷ [])) same)
]
  where
    pushed : List Status
    pushed = keep_last n xs ++ st ∷ []

    joined : pushed ≡ drop (length xs - n) (xs ++ st ∷ [])
    joined = sym (drop-append (length xs - n) xs (st ∷ []) (omega arith))

    new_length : length (xs ++ st ∷ []) ≡ length xs + 1
    new_length = length-append xs (st ∷ [])

    size : length pushed ≡ min n (length xs) + 1
    size = omega (arith, length-append (keep_last n xs) (st ∷ []), length-keep_last n xs)

module _ (n : ℕ) (xs : List Status) (st : Status) where
  take_room : length (take n xs) < n → take n xs ++ st ∷ [] ≡ take n (xs ++ st ∷ [])
  take_room h =
      ap (λ l. l ++ st ∷ []) (take_all n xs (omega (arith, length-take n xs)))
      ∙ sym
          (take_all n (xs ++ st ∷ []) (omega (arith, length-take n xs, length-append xs (st ∷ []))))

  drop_room : length (take n xs) < n → drop n xs ≡ drop n (xs ++ st ∷ [])
  drop_room h =
      drop_all n xs (omega (arith, length-take n xs))
      ∙ sym
          (drop_all n (xs ++ st ∷ []) (omega (arith, length-take n xs, length-append xs (st ∷ []))))

  take_full : ¬ (length (take n xs) < n) → take n xs ≡ take n (xs ++ st ∷ [])
  take_full h = sym (take-append n xs (st ∷ []) (omega (arith, length-take n xs)))

  drop_full : ¬ (length (take n xs) < n) → drop n xs ++ st ∷ [] ≡ drop n (xs ++ st ∷ [])
  drop_full h = sym (drop-append n xs (st ∷ []) (omega (arith, length-take n xs)))

-- The two caches after the reports `seen`.
abbrev pub Caches : List Status → StatusManager → Type 0
Caches seen m =
    (m.head_cache ≡ take head_cache_max seen)
    × (m.tail_cache ≡ keep_last tail_cache_max (drop head_cache_max seen))

cache_status-Caches :
    (seen : List Status) (m : StatusManager) (st : Status)
    → Caches seen m
    → Caches (seen ++ st ∷ []) (cache_status m st)
unfolding cache_status
cache_status-Caches seen m st (h, t) =
    elim (Bool-cases (ltb (length m.head_cache) head_cache_max)) [
      | inl room ↦
          let below : length (take head_cache_max seen) < head_cache_max =
            subst (λ l. length l < head_cache_max) h (ltb→lt _ _ room) in
          (
            rw (room, cache_status) (rw h (take_room head_cache_max seen st below)),
            rw (room, cache_status)
                (rw t (ap (keep_last tail_cache_max) (drop_room head_cache_max seen st below))),
          )
      | inr full ↦
          let above : ¬ (length (take head_cache_max seen) < head_cache_max) =
            subst (λ l. ¬ (length l < head_cache_max)) h (λ lt. cc (full, lt→ltb _ _ lt)) in
          (
            rw (full, cache_status) (rw h (take_full head_cache_max seen st above)),
            rw (full, cache_status)
                (rw t (
                  push_tail-keep_last tail_cache_max (drop head_cache_max seen) st
                  ∙ ap (keep_last tail_cache_max) (drop_full head_cache_max seen st above))),
          )
    ]

count-cache_status : (m : StatusManager) (st : Status) → (cache_status m st).count ≡ m.count
unfolding cache_status
count-cache_status m st = ground arith

adjust_level-worst : (m : StatusManager) → (adjust_level m).level ≡ worst (get_all (adjust_level m))
unfolding adjust_level get_all
adjust_level-worst m =
    rw (cache_max-worst m.head_cache, cache_max-worst m.tail_cache)
      (sym (worst-append m.head_cache m.tail_cache))

-- What the manager holds after the reports `seen`.
pub record Holds (seen : List Status) (m : StatusManager) : Type 0 where
  pub caches : Caches seen m
  pub count : m.count ≡ length seen
  pub level : m.level ≡ worst (get_all m)

add-Holds :
    (seen : List Status) (m : StatusManager) (st : Status)
    → Holds seen m
    → Holds (seen ++ st ∷ []) (add m st).0
unfolding add
add-Holds seen m st h = record {
  caches = unfold adjust_level in cache_status-Caches seen counted st h.caches;
  count =
      unfold adjust_level in
      omega (arith, count-cache_status counted st, h.count, length-append seen (st ∷ []));
  level = adjust_level-worst (cache_status counted st);
}
  where
    counted : StatusManager
    counted = record m { count = m.count + 1 }

add_each-Holds :
    (seen sts : List Status) (m : StatusManager)
    → Holds seen m
    → Holds (seen ++ sts) (add_each m sts)
unfolding add_each
add_each-Holds seen [] m h = rw append-nil h
add_each-Holds seen (st ∷ sts) m h =
    subst (λ l. Holds l (add_each (add m st).0 sts)) (append_assoc seen (st ∷ []) sts)
      (add_each-Holds (seen ++ st ∷ []) sts (add m st).0 (add-Holds seen m st h))

clear-Holds : (m : StatusManager) → Holds [] (clear m)
unfolding clear get_all
clear-Holds m = record { caches = (refl, refl); count = refl; level = refl }

-- After `clear` and any reports, the manager holds the first 150 of them and, of the others, the
-- last 150; it has counted them all, and its level is the highest among those that it holds.
pub add_each-clear :
    (m : StatusManager) (sts : List Status)
    → let r = add_each (clear m) sts in
      (get_all r ≡ take head_cache_max sts ++ keep_last tail_cache_max (drop head_cache_max sts))
      × (r.count ≡ length sts)
      × (r.level ≡ worst (get_all r))
add_each-clear m sts =
    let h = add_each-Holds [] sts (clear m) (clear-Holds m) in
    (unfold get_all in rw (h.caches.0, h.caches.1), h.count, h.level)
