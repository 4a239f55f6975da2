-- ===== src/Logger/Construct.antt =====
-- The constructor of `logger`, over calls of get_impl for shorter names.
use chucho.Base.{
  ℕ, ◌≤◌, ◌<◌, ◌≡◌, refl, ap, ◌∙◌, ◌≢◌, List, [], ◌∷◌, Text, arith, length, Option, none, some,
}
use chucho.Level.{Level}
use chucho.Logger.{
  Logger, Store, lookup, ancestors, M, parent_of, new_logger, resolve, adopt_first, adopt_rest,
  back, link, construct,
}
use chucho.TextUtil.{from_first_of}
use chucho.Logger.Names.{AllShort, ancestors-AllShort, last_or, parent_name}
use chucho.Logger.Tree.{
  get_elem?-lt, Linked, WellFormed, Extends, Extends-refl, Extends-trans, Outcome,
}

-- What the constructor needs of the calls that are nested in it.
abbrev pub Gets : ℕ → (Text → M ℕ) → Type 0
Gets k g = (n : Text) (s : Store) → length n < k → WellFormed s → Outcome (g n) n s

-- The indices of the loggers that have the names.
abbrev Named : List (Text × ℕ) → List Text → List ℕ → Type 0
Named es [] [] = Unit
Named es [] (i ∷ is) = ⊥
Named es (n ∷ ns) [] = ⊥
Named es (n ∷ ns) (i ∷ is) = (lookup n es ≡ some i) × Named es ns is

resolve_step :
    (g : Text → M ℕ) (n : Text) (ns : List Text) (s s1 t : Store) (i : ℕ) (is : List ℕ)
    → g n s ≡ some (i, s1)
    → resolve g ns s1 ≡ some (is, t)
    → resolve g (n ∷ ns) s ≡ some (i ∷ is, t)
unfolding resolve
resolve_step g n ns s s1 t i is e f = ground arith

resolve-Named :
    (k : ℕ) (g : Text → M ℕ)
    → Gets k g
    → (ns : List Text) (s : Store) → AllShort k ns
    → WellFormed s
    → (is : List ℕ) × (t : Store) × (resolve g ns s ≡ some (is, t))
      × WellFormed t
      × Extends s t
      × Named t.all_loggers ns is
unfolding resolve
resolve-Named k g gets [] s h w = ([], s, refl, w, Extends-refl s, tt)
resolve-Named k g gets (n ∷ ns) s h w =
    let (i, s1, e1, w1, x1, at) = gets n s h.0.1 w in
    let (is, t, e2, w2, x2, named) = resolve-Named k g gets ns s1 h.1 w1 in
    (
      i ∷ is,
      t,
      resolve_step g n ns s s1 t i is e1 e2,
      w2,
      Extends-trans x1 x2,
      (x2.names n i at, named),
    )

-- Ancestors have parents already, so the constructor changes none of them.
parent_of-named :
    (s : Store) (n : Text) (i : ℕ)
    → WellFormed s
    → n ≢ []
    → lookup n s.all_loggers ≡ some i
    → (p : ℕ) × (parent_of i s ≡ some p)
parent_of-named s [] i w h at = absurd (h refl)
parent_of-named s (c ∷ n) i w h at =
    let (l, e, name, (k, p, lt, up)) = w.entry (c ∷ n) i at in (k, rw (e, parent_of) p)

adopt_first_lem :
    (g : Text → M ℕ) (s : Store) (n : Text) (i : ℕ)
    → WellFormed s
    → n ≢ []
    → lookup n s.all_loggers ≡ some i
    → adopt_first g i s ≡ some (tt, s)
unfolding adopt_first
adopt_first_lem g s n i w h at =
    let (p, e) = parent_of-named s n i w h at in rw (e, adopt_first) refl

adopt_rest_lem :
    (k : ℕ) (s : Store) (ns : List Text) (previous : ℕ) (is : List ℕ)
    → WellFormed s
    → AllShort k ns
    → Named s.all_loggers ns is
    → adopt_rest previous is s ≡ s
unfolding adopt_rest
adopt_rest_lem k s [] previous [] w h named = refl
adopt_rest_lem k s [] previous (i ∷ is) w h named = absurd named
adopt_rest_lem k s (n ∷ ns) previous [] w h named = absurd named
adopt_rest_lem k s (n ∷ ns) previous (i ∷ is) w h named =
    let (p, e) = parent_of-named s n i w h.0.0 named.0 in
    rw (e, adopt_rest) (adopt_rest_lem k s ns i is w h.1 named.1)

back-Named :
    (es : List (Text × ℕ)) (n : Text) (ns : List Text) (i : ℕ) (is : List ℕ)
    → lookup n es ≡ some i
    → Named es ns is
    → lookup (last_or n ns) es ≡ some (back i is)
back-Named es n [] i [] at named = at
back-Named es n [] i (j ∷ is) at named = absurd named
back-Named es n (m ∷ ns) i [] at named = absurd named
back-Named es n (m ∷ ns) i (j ∷ is) at named = back-Named es m ns j is named.0 named.1

-- A new logger that is linked to its parent.
abbrev pub Fresh : Store → Text → Logger → Type 0
Fresh s n l = (l.name ≡ n) × Linked s.all_loggers n (length s.heap) l.parent

pub lookup-lt :
    (s : Store) (n : Text) (i : ℕ)
    → WellFormed s
    → lookup n s.all_loggers ≡ some i
    → i < length s.heap
lookup-lt s n i w at = let (l, e, name, linked) = w.entry n i at in get_elem?-lt s.heap i l e

link_nested :
    (g : Text → M ℕ) (c : ℕ) (n : Text) (lvl : Option Level) (s t : Store) (root : ℕ)
    → g [] s ≡ some (root, t)
    → link g (c ∷ n) lvl [] s ≡ some (new_logger (c ∷ n) lvl (some root), t)
unfolding link
link_nested g c n lvl s t root e = ground arith

link_first :
    (g : Text → M ℕ) (n : Text) (lvl : Option Level) (s : Store) (i : ℕ) (is : List ℕ)
    → adopt_first g i s ≡ some (tt, s)
    → adopt_rest i is s ≡ s
    → link g n lvl (i ∷ is) s ≡ some (new_logger n lvl (some (back i is)), s)
unfolding link
link_first g [] lvl s i is e f = rw (e, link) (rw f refl)
link_first g (c ∷ n) lvl s i is e f = rw (e, link) (rw f refl)

-- What the constructor ends with.
abbrev pub Built : M Logger → Text → Option Level → Store → Type 0
Built m n lvl s =
    (p : Option ℕ) × (t : Store) × (m s ≡ some (new_logger n lvl p, t))
    × WellFormed t
    × Extends s t
    × Fresh t n (new_logger n lvl p)

link_nonempty-Built :
    (k : ℕ) (g : Text → M ℕ)
    → Gets k g
    → (c : ℕ) (n : Text) (lvl : Option Level) (s : Store) (ns : List Text) (is : List ℕ) → 0 < k
    → WellFormed s
    → AllShort k ns
    → Named s.all_loggers ns is
    → parent_name (c ∷ n) ≡ last_or [] ns
    → Built (link g (c ∷ n) lvl is) (c ∷ n) lvl s
link_nonempty-Built k g gets c n lvl s [] [] le w h named up =
    let (root, t, e, wt, x, at) = gets [] s le w in
    (
      some root,
      t,
      link_nested g c n lvl s t root e,
      wt,
      x,
      (refl, (root, refl, lookup-lt t [] root wt at, ap (λ m. lookup m t.all_loggers) up ∙ at)),
    )
link_nonempty-Built k g gets c n lvl s [] (i ∷ is) le w h named up = absurd named
link_nonempty-Built k g gets c n lvl s (m ∷ ns) [] le w h named up = absurd named
link_nonempty-Built k g gets c n lvl s (m ∷ ns) (i ∷ is) le w h named up =
    let at = back-Named s.all_loggers m ns i is named.0 named.1 in
    (
      some (back i is),
      s,
      link_first g (c ∷ n) lvl s i is (adopt_first_lem g s m i w h.0.0 named.0)
          (adopt_rest_lem k s ns i is w h.1 named.1),
      w,
      Extends-refl s,
      (
        refl,
        (
          back i is,
          refl,
          lookup-lt s (last_or m ns) (back i is) w at,
          ap (λ j. lookup j s.all_loggers) up ∙ at,
        ),
      ),
    )

link_root-Built :
    (g : Text → M ℕ) (lvl : Option Level) (s : Store) (is : List ℕ)
    → WellFormed s
    → Named s.all_loggers (ancestors []) is
    → Built (link g [] lvl is) [] lvl s
unfolding link ancestors from_first_of
link_root-Built g lvl s [] w named = (none, s, refl, w, Extends-refl s, (refl, refl))
link_root-Built g lvl s (i ∷ is) w named = absurd named

AllShort-le : (k j : ℕ) (ns : List Text) → j ≤ k → AllShort j ns → AllShort k ns
AllShort-le k j [] le h = tt
AllShort-le k j (n ∷ ns) le h = ((h.0.0, omega (arith, h.0.1)), AllShort-le k j ns le h.1)

link-Built :
    (k : ℕ) (g : Text → M ℕ)
    → Gets k g
    → (n : Text) (lvl : Option Level) (s : Store) (is : List ℕ) → length n ≤ k
    → WellFormed s
    → Named s.all_loggers (ancestors n) is
    → Built (link g n lvl is) n lvl s
link-Built k g gets [] lvl s is le w named = link_root-Built g lvl s is w named
link-Built k g gets (c ∷ n) lvl s is le w named =
    link_nonempty-Built k g gets c n lvl s (ancestors (c ∷ n)) is (omega arith) w
      (AllShort-le k _ _ le (ancestors-AllShort (c ∷ n))) named (unfold parent_name in refl)

construct_step :
    (g : Text → M ℕ) (n : Text) (lvl : Option Level) (s s1 t : Store) (is : List ℕ) (l : Logger)
    → resolve g (ancestors n) s ≡ some (is, s1)
    → link g n lvl is s1 ≡ some (l, t)
    → construct g n lvl s ≡ some (l, t)
unfolding construct
construct_step g n lvl s s1 t is l e f = ground arith

pub construct-Built :
    (k : ℕ) (g : Text → M ℕ)
    → Gets k g
    → (n : Text) (lvl : Option Level) (s : Store) → length n ≤ k
    → WellFormed s
    → Built (construct g n lvl) n lvl s
construct-Built k g gets n lvl s le w =
    let (is, s1, e1, w1, x1, named) =
      resolve-Named k g gets (ancestors n) s (AllShort-le k _ _ le (ancestors-AllShort n)) w in
    let (p, t, e2, w2, x2, fresh) = link-Built k g gets n lvl s1 is le w1 named in
    (p, t, construct_step g n lvl s s1 t is _ e1 e2, w2, Extends-trans x1 x2, fresh)
