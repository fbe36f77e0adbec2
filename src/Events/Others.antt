-- ===== src/Events/Others.antt =====
-- What a subscription leaves alone, and the sizes of the table.
use oodar.Base.{
  ℕ, suc, ◌≡◌, ◌≢◌, ◌≤◌, ◌<◌, refl, arith, ap, ltb, leb, if◌then◌else◌, true, false, ◌&&◌, List, [],
  ◌∷◌, ◌++◌, some, length, Bool-cases, inl, inr, if_of_false, length-append, if_elim,
}
use oodar.Events.{
  EventSlot, same_name, usable, add_listener, or_append, oo_event_subscribe, listeners_of,
}
use oodar.Events.Table.{
  NoNul, same_name-agree, same_name-same, Appended, missing, found, add_in-Looked,
}

module _ (name other : List ℕ) (nn : NoNul name) (no : NoNul other) (differ : name ≢ other) where
  not_both : (slot : List ℕ) → same_name slot name ≡ true → same_name slot other ≡ false
  not_both slot e = elim (Bool-cases (same_name slot other)) [
    | inl o ↦ absurd (differ (same_name-agree slot name other nn no e o))
    | inr o ↦ o
  ]

add_listener-name :
    {F : Type 0} (fn : F) (slot : EventSlot F) → (add_listener fn slot).name ≡ slot.name
unfolding add_listener
add_listener-name {F} fn slot =
    if_elim (λ (s : EventSlot F). s.name ≡ slot.name) (ltb (length slot.fns) 32) (λ _. refl)
      (λ _. refl)

module _ {F : Type 0} (name other : List ℕ) (nn : NoNul name) (no : NoNul other)
    (differ : name ≢ other) where
  Appended-others :
      (fn : F) (slots changed : List (EventSlot F))
      → Appended name fn slots changed
      → listeners_of other changed ≡ listeners_of other slots
  unfolding listeners_of
  Appended-others fn [] changed p = elim p [ ]
  Appended-others fn (slot ∷ slots) _ (Appended.here e) =
      rw
        (
          add_listener-name fn slot,
          if_of_false _ _ (not_both name other nn no differ slot.name e),
          if_of_false _ _ (not_both name other nn no differ slot.name e),
        )
        refl
  Appended-others fn (slot ∷ slots) (_ ∷ changed) (Appended.there e p) =
      ap (λ r. if same_name slot.name other then slot.fns else r)
        (Appended-others fn slots changed p)

  listeners_of-extra :
      (extra : EventSlot F) (slots : List (EventSlot F))
      → same_name extra.name other ≡ false
      → listeners_of other (slots ++ (extra ∷ [])) ≡ listeners_of other slots
  unfolding listeners_of
  listeners_of-extra extra [] e = if_of_false _ _ e
  listeners_of-extra extra (slot ∷ slots) e =
      ap (λ r. if same_name slot.name other then slot.fns else r) (listeners_of-extra extra slots e)

  -- A subscription under one name changes nothing for another, if neither holds a NUL byte.
  pub listeners_of-subscribe_ne :
      (fn : F) (slots : List (EventSlot F))
      → listeners_of other (oo_event_subscribe name (some fn) slots) ≡ listeners_of other slots
  unfolding oo_event_subscribe or_append
  listeners_of-subscribe_ne fn slots =
      if_elim (λ r. listeners_of other r ≡ listeners_of other slots) (usable name)
        (λ ok. elim (add_in-Looked name fn slots) [
          | missing n a ↦ rw n (
              if_elim (λ r. listeners_of other r ≡ listeners_of other slots) (leb 32 (length slots))
                (λ _. refl)
                λ _.
                  listeners_of-extra (record { name = name; fns = fn ∷ [] }) slots
                    (not_both name other nn no differ name (same_name-same name)))
          | found changed e p ↦ rw e (Appended-others fn slots changed p)
        ])
        (λ _. refl)

-- At most 32 names of at most 31 bytes, each with at most 32 listeners.
abbrev pub SlotsFit {ℓ} : {F : Type ℓ} → List (EventSlot F) → Type 0
SlotsFit [] = Unit
SlotsFit (slot ∷ slots) = (length slot.name < 32) × (length slot.fns ≤ 32) × SlotsFit slots

abbrev pub TableFits {ℓ} : {F : Type ℓ} → List (EventSlot F) → Type 0
TableFits slots = (length slots ≤ 32) × SlotsFit slots

module _ {F : Type 0} (name : List ℕ) (fn : F) where
  SlotsFit-append :
      (slots : List (EventSlot F))
      → length name < 32
      → SlotsFit slots
      → SlotsFit (slots ++ (record { name = name; fns = fn ∷ [] } ∷ []))
  SlotsFit-append [] short f = (short, omega arith, tt)
  SlotsFit-append (slot ∷ slots) short (a, b, f) = (a, b, SlotsFit-append slots short f)

  listener_fits :
      (slot : EventSlot F) → length slot.fns ≤ 32 → length (add_listener fn slot).fns ≤ 32
  unfolding add_listener
  listener_fits slot h =
      if_elim (λ (s : EventSlot F). length s.fns ≤ 32) (ltb (length slot.fns) 32)
        (λ room. ground (arith, length-append slot.fns (fn ∷ []))) (λ _. h)

  Appended-TableFits :
      (slots changed : List (EventSlot F))
      → Appended name fn slots changed
      → SlotsFit slots
      → (length changed ≡ length slots) × SlotsFit changed
  Appended-TableFits [] changed p f = elim p [ ]
  Appended-TableFits (slot ∷ slots) _ (Appended.here e) (a, b, f) =
      (refl, (rw (add_listener-name fn slot) a, listener_fits slot b, f))
  Appended-TableFits (slot ∷ slots) (_ ∷ changed) (Appended.there e p) (a, b, f) =
      let (l, g) = Appended-TableFits slots changed p f in (ap suc l, (a, b, g))

  -- A subscription keeps the table within its arrays: 32 names of at most 31 bytes and 32 listeners
  -- for each, whatever the name.
  pub TableFits-subscribe :
      (slots : List (EventSlot F))
      → TableFits slots
      → TableFits (oo_event_subscribe name (some fn) slots)
  unfolding oo_event_subscribe or_append usable
  TableFits-subscribe slots (few, f) =
      if_elim TableFits (ltb 0 (length name) && ltb (length name) 32)
        (λ ok. elim (add_in-Looked name fn slots) [
          | missing n a ↦ rw n (
              if_elim TableFits (leb 32 (length slots)) (λ _. (few, f))
                λ room. (
                  ground (arith, length-append slots (record { name = name; fns = fn ∷ [] } ∷ [])),
                  SlotsFit-append slots (ground arith) f,
                ))
          | found changed e p ↦
              let (l, g) = Appended-TableFits slots changed p f in rw e (omega (arith, l), g)
        ])
        (λ _. (few, f))
