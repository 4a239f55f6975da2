-- ===== src/Status/Observers.antt =====
-- Who hears of a status after observers have come and gone.
use chucho.Base.{
  ℕ, ◌≡◌, refl, sym, ap, ◌∙◌, Bool, true, false, not, ◌&&◌, ◌||◌, List, [], ◌∷◌, arith, ◌==◌,
  ==_iff, ◌⊎◌, inl, inr, Bool-cases, subst,
}
use chucho.Status.{
  Observer, warn_error, client, same_observer, StatusManager, insert, erase, drop_default,
  add_observer, remove_observer, init,
}

pub holds : Observer → List Observer → Bool
unfolding same_observer
holds o [] = false
holds o (p ∷ ps) = same_observer p o || holds o ps

abbrev Distinct : List Observer → Type 0
Distinct [] = Unit
Distinct (p ∷ ps) = (holds p ps ≡ false) × Distinct ps

same_observer-eq : (o p : Observer) → same_observer o p ≡ true → o ≡ p
unfolding same_observer
same_observer-eq warn_error warn_error h = refl
same_observer-eq warn_error (client b) h = cc
same_observer-eq (client a) warn_error h = cc
same_observer-eq (client a) (client b) h = ap client ((==_iff a b).0 h)

same_observer_refl : (o : Observer) → same_observer o o ≡ true
unfolding same_observer
same_observer_refl warn_error = refl
same_observer_refl (client a) = (==_iff a a).1 refl

same_observer_comm : (o p : Observer) → same_observer o p ≡ same_observer p o
unfolding same_observer
same_observer_comm warn_error warn_error = refl
same_observer_comm warn_error (client b) = refl
same_observer_comm (client a) warn_error = refl
same_observer_comm (client a) (client b) = ground arith

holds-insert :
    (o p : Observer) (os : List Observer)
    → holds p (insert o os) ≡ (same_observer o p || holds p os)
unfolding holds insert
holds-insert o p [] = refl
holds-insert o p (q ∷ os) = elim (Bool-cases (same_observer q o)) [
  | inl e ↦
      let same = same_observer-eq q o e in
      rw (e, insert)
        (subst
          (λ x.
            (same_observer q p || holds p os)
            ≡ (same_observer x p || (same_observer q p || holds p os)))
          same (ground arith))
  | inr e ↦ rw (e, insert) (ground (arith, holds-insert o p os))
]

insert-Distinct : (o : Observer) (os : List Observer) → Distinct os → Distinct (insert o os)
unfolding insert holds
insert-Distinct o [] d = (refl, tt)
insert-Distinct o (q ∷ os) d = elim (Bool-cases (same_observer q o)) [
  | inl e ↦ rw (e, insert) d
  | inr e ↦
      rw (e, insert)
        (holds-insert o q os ∙ rw (same_observer_comm o q, e) d.0, insert-Distinct o os d.1)
]

erase_head :
    (o p : Observer) (os : List Observer)
    → holds o os ≡ false
    → holds p os ≡ (not (same_observer o p) && (same_observer o p || holds p os))
erase_head o p os h = elim (Bool-cases (same_observer o p)) [
  | inl e ↦ rw e (subst (λ x. holds x os ≡ false) (same_observer-eq o p e) h)
  | inr e ↦ rw e
]

holds-erase :
    (o p : Observer) (os : List Observer)
    → Distinct os
    → holds p (erase o os) ≡ (not (same_observer o p) && holds p os)
unfolding holds erase
holds-erase o p [] d = ground arith
holds-erase o p (q ∷ os) d = elim (Bool-cases (same_observer q o)) [
  | inl e ↦
      let same = same_observer-eq q o e in
      rw (e, erase)
        (subst (λ x. holds p os ≡ (not (same_observer o p) && (same_observer x p || holds p os)))
          (sym same) (erase_head o p os (subst (λ x. holds x os ≡ false) same d.0)))
  | inr e ↦ rw (e, erase) (erase_kept (holds-erase o p os d.1) (Bool-cases (same_observer q p)) e)
]
  where
    erase_kept :
        holds p (erase o os) ≡ (not (same_observer o p) && holds p os)
        → (same_observer q p ≡ true) ⊎ (same_observer q p ≡ false)
        → same_observer q o ≡ false
        → (same_observer q p || holds p (erase o os))
          ≡ (not (same_observer o p) && (same_observer q p || holds p os))
    erase_kept ih (inl at) other =
        let apart : same_observer o p ≡ false =
          same_observer_comm o p
          ∙ subst (λ x. same_observer x o ≡ false) (same_observer-eq q p at) other in
        rw (at, apart)
    erase_kept ih (inr away) other = rw away ih

erase-Distinct : (o : Observer) (os : List Observer) → Distinct os → Distinct (erase o os)
unfolding erase holds
erase-Distinct o [] d = d
erase-Distinct o (q ∷ os) d = elim (Bool-cases (same_observer q o)) [
  | inl e ↦ rw (e, erase) d.1
  | inr e ↦
      rw (e, erase)
        (holds-erase o q os d.1 ∙ rw (same_observer_comm o q, e) d.0, erase-Distinct o os d.1)
]

-- A client comes or goes.
pub data Change : Type 0 where
  adds removes : ℕ → Change

pub change : Change → StatusManager → StatusManager
change (adds a) m = add_observer (client a) m
change (removes a) m = remove_observer (client a) m

pub change_each : List Change → StatusManager → StatusManager
unfolding change
change_each [] m = m
change_each (c ∷ cs) m = change_each cs (change c m)

-- Whether client `a` listens after the changes, if it did or did not before.
abbrev pub listens : ℕ → Bool → List Change → Bool
listens a was [] = was
listens a was (adds b ∷ cs) = listens a (b == a || was) cs
listens a was (removes b ∷ cs) = listens a (not (b == a) && was) cs

abbrev pub no_client_came : List Change → Bool
no_client_came [] = true
no_client_came (adds b ∷ cs) = false
no_client_came (removes b ∷ cs) = no_client_came cs

-- The manager's own observer is alone, or it is gone.
abbrev Settled : List Observer → Type 0
Settled os = (os ≡ warn_error ∷ []) ⊎ (Distinct os × (holds warn_error os ≡ false))

drop_default-gone :
    (os : List Observer)
    → Settled os
    → Distinct (drop_default os) × (holds warn_error (drop_default os) ≡ false)
unfolding drop_default holds
drop_default-gone os (inl e) = rw e (tt, refl)
drop_default-gone [] (inr d) = d
drop_default-gone (client a ∷ os) (inr d) = d
drop_default-gone (warn_error ∷ os) (inr (d, h)) = cc

drop_default-client :
    (os : List Observer) (a : ℕ) → holds (client a) (drop_default os) ≡ holds (client a) os
unfolding drop_default holds
drop_default-client [] a = refl
drop_default-client (client b ∷ os) a = refl
drop_default-client (warn_error ∷ []) a = refl
drop_default-client (warn_error ∷ o ∷ os) a = refl

Settled-Distinct : (os : List Observer) → Settled os → Distinct os
Settled-Distinct os (inl e) = rw e (unfold holds in (refl, tt))
Settled-Distinct os (inr (d, h)) = d

change-Settled :
    (c : Change) (m : StatusManager) → Settled m.observers → Settled (change c m).observers
unfolding change add_observer remove_observer
change-Settled (adds a) m s =
    let gone = drop_default-gone m.observers s in
    inr (
      insert-Distinct (client a) _ gone.0,
      holds-insert (client a) warn_error _ ∙ rw gone.1 (unfold same_observer in refl),
    )
change-Settled (removes a) m (inl e) = rw e (inl (unfold erase same_observer in refl))
change-Settled (removes a) m (inr (d, h)) = inr (
  erase-Distinct (client a) _ d,
  holds-erase (client a) warn_error _ d ∙ rw h (unfold same_observer in refl),
)

change-default :
    (c : Change) (m : StatusManager)
    → Settled m.observers
    → holds warn_error (change c m).observers
      ≡ (holds warn_error m.observers && no_client_came (c ∷ []))
unfolding change add_observer remove_observer same_observer
change-default (adds a) m s =
    let gone = drop_default-gone m.observers s in
    holds-insert (client a) warn_error _ ∙ rw gone.1 (ground arith)
change-default (removes a) m s =
    holds-erase (client a) warn_error _ (Settled-Distinct _ s) ∙ ground arith

change-client :
    (a : ℕ) (c : Change) (m : StatusManager)
    → Settled m.observers
    → holds (client a) (change c m).observers ≡ listens a (holds (client a) m.observers) (c ∷ [])
unfolding change add_observer remove_observer same_observer
change-client a (adds b) m s =
    holds-insert (client b) (client a) _ ∙ rw (drop_default-client m.observers a)
change-client a (removes b) m s = holds-erase (client b) (client a) _ (Settled-Distinct _ s)

change_each-default :
    (cs : List Change) (m : StatusManager)
    → Settled m.observers
    → holds warn_error (change_each cs m).observers
      ≡ (holds warn_error m.observers && no_client_came cs)
unfolding change_each
change_each-default [] m s = ground arith
change_each-default (adds b ∷ cs) m s =
    change_each-default cs (change (adds b) m) (change-Settled (adds b) m s)
    ∙ rw (change-default (adds b) m s) (ground arith)
change_each-default (removes b ∷ cs) m s =
    change_each-default cs (change (removes b) m) (change-Settled (removes b) m s)
    ∙ rw (change-default (removes b) m s) (ground arith)

change_each-client :
    (a : ℕ) (cs : List Change) (m : StatusManager)
    → Settled m.observers
    → holds (client a) (change_each cs m).observers ≡ listens a (holds (client a) m.observers) cs
unfolding change_each
change_each-client a [] m s = refl
change_each-client a (adds b ∷ cs) m s =
    change_each-client a cs (change (adds b) m) (change-Settled (adds b) m s)
    ∙ rw (change-client a (adds b) m s)
change_each-client a (removes b ∷ cs) m s =
    change_each-client a cs (change (removes b) m) (change-Settled (removes b) m s)
    ∙ rw (change-client a (removes b) m s)

init-Settled : init.observers ≡ warn_error ∷ []
unfolding init insert drop_default
init-Settled = refl

-- From the start, the manager's own observer listens exactly until the first client comes, and
-- does not return. A client listens exactly if its last change was to come.
change_each-init :
    (cs : List Change)
    → let os = (change_each cs init).observers in
      (holds warn_error os ≡ no_client_came cs)
      × ((a : ℕ) → holds (client a) os ≡ listens a false cs)
change_each-init cs = (
  change_each-default cs init (inl init-Settled)
      ∙ ap (λ os. holds warn_error os && no_client_came cs) init-Settled
      ∙ unfold holds same_observer in refl,
  λ a.
      change_each-client a cs init (inl init-Settled)
      ∙ ap (λ os. listens a (holds (client a) os) cs) init-Settled
      ∙ unfold holds same_observer in refl,
)
