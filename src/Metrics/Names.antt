-- ===== src/Metrics/Names.antt =====
-- The names in the table.
use oodar.Base.{
  ℕ, ◌≡◌, refl, sym, subst, Bool-cases, inl, inr, true, List, [], ◌∷◌, Option, none, some,
}
use oodar.Metrics.{
  MetricsSlot, is_named, on_used, on_free, plus_one, behind, or_full, or_free, or_same, incr_in,
  reset_in, name_is_safe,
}

-- Every slot in use has a safe name, which no export has to escape.
abbrev pub SafeNames : List MetricsSlot → Type 0
SafeNames [] = Unit
SafeNames (t ∷ ts) = (t.in_use ≡ true → name_is_safe t.name ≡ true) × SafeNames ts

SafeNames-behind :
    (t : MetricsSlot) (ts : List MetricsSlot) (o : Option (List MetricsSlot))
    → (t.in_use ≡ true → name_is_safe t.name ≡ true)
    → SafeNames ts
    → SafeNames (or_same ts o)
    → SafeNames (or_same (t ∷ ts) (behind t o))
SafeNames-behind t ts none here s s' = (here, s)
SafeNames-behind t ts (some ts') here s s' = (here, s')

SafeNames-on_used :
    (name : List ℕ) (f : ℕ → ℕ) (ts : List MetricsSlot)
    → SafeNames ts
    → SafeNames (or_same ts (on_used name f ts))
unfolding on_used
SafeNames-on_used name f [] s = s
SafeNames-on_used name f (t ∷ ts) (here, s) = elim (Bool-cases (is_named name t)) [
  | inl e ↦ rw (e) (here, s)
  | inr e ↦
      rw (e) (SafeNames-behind t ts (on_used name f ts) here s (SafeNames-on_used name f ts s))
]

passed_on :
    (name : List ℕ) (f : ℕ → ℕ) (t : MetricsSlot) (ts : List MetricsSlot)
    → t.in_use ≡ true
    → on_free name f (t ∷ ts) ≡ behind t (on_free name f ts)
unfolding on_free
passed_on name f t ts e = rw (e) refl

SafeNames-on_free :
    (name : List ℕ) (f : ℕ → ℕ) (ts : List MetricsSlot)
    → name_is_safe name ≡ true
    → SafeNames ts
    → SafeNames (or_same ts (on_free name f ts))
unfolding on_free
SafeNames-on_free name f [] safe s = s
SafeNames-on_free name f (t ∷ ts) safe (here, s) = elim (Bool-cases t.in_use) [
  | inl e ↦
      subst (λ o. SafeNames (or_same (t ∷ ts) o)) (sym (passed_on name f t ts e))
        (SafeNames-behind t ts (on_free name f ts) here s (SafeNames-on_free name f ts safe s))
  | inr e ↦ rw (e) ((λ used. safe), s)
]

SafeNames-or_full :
    (ts : List MetricsSlot) (o : Option (List MetricsSlot))
    → SafeNames (or_same ts o)
    → SafeNames (or_full ts o).1
SafeNames-or_full ts none s = s
SafeNames-or_full ts (some ts') s = s

SafeNames-or_free :
    (name : List ℕ) (ts : List MetricsSlot) (o : Option (List MetricsSlot))
    → name_is_safe name ≡ true
    → SafeNames ts
    → SafeNames (or_same ts o)
    → SafeNames (or_free name ts o).1
SafeNames-or_free name ts none safe s s' =
    SafeNames-or_full ts (on_free name plus_one ts) (SafeNames-on_free name plus_one ts safe s)
SafeNames-or_free name ts (some ts') safe s s' = s'

-- An increment and a reset, of whatever name, keep the names in the table safe.
pub SafeNames-incr_in :
    (name : List ℕ) (ts : List MetricsSlot)
    → SafeNames ts
    → SafeNames (incr_in name ts).1 × SafeNames (reset_in name ts).1
unfolding incr_in reset_in
SafeNames-incr_in name ts s = elim (Bool-cases (name_is_safe name)) [
  | inl safe ↦ rw (safe) (
    SafeNames-or_free name ts (on_used name plus_one ts) safe s
        (SafeNames-on_used name plus_one ts s),
    SafeNames-on_used name (λ v. 0) ts s,
  )
  | inr unsafe ↦ rw (unsafe) (s, s)
]
