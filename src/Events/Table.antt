-- ===== src/Events/Table.antt =====
-- The table of names and listeners.
use oodar.Base.{
  ℕ, ◌≡◌, ◌≢◌, ◌<◌, refl, arith, ap₂, ◌∙◌, leb, true, false, List, [], ◌∷◌, ◌++◌, Option, none,
  some, length, get_or, ==_iff, if_of_true, if_of_false, if_elim,
}
use oodar.Events.{
  EventSlot, strncmp_zero, same_name, usable, add_listener, behind, add_in, or_append,
  oo_event_subscribe, listeners_of,
}

-- No byte is 0.
abbrev pub NoNul : List ℕ → Type 0
NoNul [] = Unit
NoNul (c ∷ name) = (c ≢ 0) × NoNul name

-- Two names without a NUL that one slot has are equal.
prefixes_agree :
    (slot n m : List ℕ)
    → NoNul n
    → NoNul m
    → strncmp_zero slot n ≡ true
    → get_or slot (length n) 0 ≡ 0
    → strncmp_zero slot m ≡ true
    → get_or slot (length m) 0 ≡ 0
    → n ≡ m
unfolding strncmp_zero
prefixes_agree slot [] [] nn nm en zn em zm = refl
prefixes_agree [] [] (d ∷ m) nn (nd, nm) en zn em zm = absurd (ground (arith, nd))
prefixes_agree (s ∷ slot) [] (d ∷ m) nn (nd, nm) en zn em zm = absurd (ground (arith, nd))
prefixes_agree [] (c ∷ n) m (nc, nn) nm en zn em zm = absurd (ground (arith, nc))
prefixes_agree (s ∷ slot) (c ∷ n) [] (nc, nn) nm en zn em zm = absurd (ground (arith, nc))
prefixes_agree (s ∷ slot) (c ∷ n) (d ∷ m) (nc, nn) (nd, nm) en zn em zm =
    ap₂ ◌∷◌ (ground (arith, nc, nd))
      (prefixes_agree slot n m nn nm (ground (arith, nc, nd)) zn (ground (arith, nc, nd)) zm)

pub same_name-agree :
    (slot n m : List ℕ)
    → NoNul n
    → NoNul m
    → same_name slot n ≡ true
    → same_name slot m ≡ true
    → n ≡ m
unfolding same_name
same_name-agree slot n m nn nm en em =
    prefixes_agree slot n m nn nm (ground arith)
      (ground (arith, ==_iff (get_or slot (length n) 0) 0)) (ground arith)
      (ground (arith, ==_iff (get_or slot (length m) 0) 0))

strncmp_zero-same : (n : List ℕ) → strncmp_zero n n ≡ true
unfolding strncmp_zero
strncmp_zero-same [] = refl
strncmp_zero-same (c ∷ n) = ground (arith, strncmp_zero-same n, ==_iff c c)

get_or-length : (n : List ℕ) → get_or n (length n) 0 ≡ 0
get_or-length [] = refl
get_or-length (c ∷ n) = get_or-length n

pub same_name-same : (n : List ℕ) → same_name n n ≡ true
unfolding same_name
same_name-same n = rw (strncmp_zero-same n, get_or-length n) refl

module _ {F : Type 0} (name : List ℕ) where
  -- No slot has the name.
  abbrev pub Absent : List (EventSlot F) → Type 0
  Absent [] = Unit
  Absent (slot ∷ slots) = (same_name slot.name name ≡ false) × Absent slots

  listeners_of-append :
      (slots extra : List (EventSlot F))
      → Absent slots
      → listeners_of name (slots ++ extra) ≡ listeners_of name extra
  unfolding listeners_of
  listeners_of-append [] extra a = refl
  listeners_of-append (slot ∷ slots) extra (e, a) =
      if_of_false _ _ e ∙ listeners_of-append slots extra a

  listeners_of-Absent : (slots : List (EventSlot F)) → Absent slots → listeners_of name slots ≡ []
  unfolding listeners_of
  listeners_of-Absent [] a = refl
  listeners_of-Absent (slot ∷ slots) (e, a) = if_of_false _ _ e ∙ listeners_of-Absent slots a

  -- The listener went into the first slot with the name.
  pub data Appended (fn : F) : List (EventSlot F) → List (EventSlot F) → Type 0 where
    here :
        {slot : EventSlot F} {slots : List (EventSlot F)}
        → same_name slot.name name ≡ true
        → Appended fn (slot ∷ slots) (add_listener fn slot ∷ slots)
    there :
        {slot : EventSlot F} {slots changed : List (EventSlot F)}
        → same_name slot.name name ≡ false
        → Appended fn slots changed
        → Appended fn (slot ∷ slots) (slot ∷ changed)

  pub data Looked (fn : F) (slots : List (EventSlot F)) (r : Option (List (EventSlot F)))
      : Type 0 where
    missing : r ≡ none → Absent slots → Looked fn slots r
    found :
        (changed : List (EventSlot F))
        → r ≡ some changed
        → Appended fn slots changed
        → Looked fn slots r

  behind-Looked :
      (fn : F) (slot : EventSlot F) (slots : List (EventSlot F)) (r : Option (List (EventSlot F)))
      → same_name slot.name name ≡ false
      → Looked fn slots r
      → Looked fn (slot ∷ slots) (behind slot r)
  behind-Looked fn slot slots r e (missing n a) = rw n (missing refl (e, a))
  behind-Looked fn slot slots r e (found changed s p) =
      rw s (found (slot ∷ changed) refl (there e p))

  pub add_in-Looked : (fn : F) (slots : List (EventSlot F)) → Looked fn slots (add_in name fn slots)
  unfolding add_in
  add_in-Looked fn [] = missing refl tt
  add_in-Looked fn (slot ∷ slots) =
      if_elim (Looked fn (slot ∷ slots)) (same_name slot.name name)
        (λ e. found (add_listener fn slot ∷ slots) refl (here e))
        λ e. behind-Looked fn slot slots _ e (add_in-Looked fn slots)

  Appended-listeners :
      (fn : F) (slots changed : List (EventSlot F))
      → Appended fn slots changed
      → length (listeners_of name slots) < 32
      → listeners_of name changed ≡ listeners_of name slots ++ (fn ∷ [])
  unfolding listeners_of add_listener
  Appended-listeners fn [] changed p room = elim p [ ]
  Appended-listeners fn (slot ∷ slots) _ (here e) room =
      ground (arith, if_of_true slot.fns (listeners_of name slots) e)
  Appended-listeners fn (slot ∷ slots) (_ ∷ changed) (there e p) room =
      rw (if_of_false _ _ e, if_of_false _ _ e)
        (Appended-listeners fn slots changed p (rw (if_of_false _ _ e) at room))

  listeners_of-new :
      (fn : F) → listeners_of name (record { name = name; fns = fn ∷ [] } ∷ []) ≡ fn ∷ []
  unfolding listeners_of
  listeners_of-new fn = if_of_true _ _ (same_name-same name)

  -- Where the table and the slot of the name have room, a listener that subscribes under a usable name
  -- is the last of those that an emit of the name calls; those before it stay.
  pub listeners_of-subscribe :
      (fn : F) (slots : List (EventSlot F))
      → usable name ≡ true
      → length slots < 32
      → length (listeners_of name slots) < 32
      → listeners_of name (oo_event_subscribe name (some fn) slots)
        ≡ listeners_of name slots ++ (fn ∷ [])
  unfolding oo_event_subscribe or_append
  listeners_of-subscribe fn slots ok room slot_room = rw ok (elim (add_in-Looked fn slots) [
    | missing n a ↦
        rw
          (
            n,
            listeners_of-Absent slots a,
            if_of_false {c = leb 32 (length slots)} slots
                (slots ++ (record { name = name; fns = fn ∷ [] } ∷ [])) (ground arith),
          )
          (listeners_of-append slots (record { name = name; fns = fn ∷ [] } ∷ []) a
            ∙ listeners_of-new fn)
    | found changed e p ↦ rw e (Appended-listeners fn slots changed p slot_room)
  ])
