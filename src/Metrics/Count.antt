-- ===== src/Metrics/Count.antt =====
-- What a call does to the counters.
use oodar.Base.{ℕ, ◌≡◌, ◌≢◌, refl, sym, ap, ◌∙◌, arith}
use oodar.Base.{
  ◌⊎◌, Bool-cases, inl, inr, true, false, if◌then◌else◌, List, [], ◌∷◌, none, some, pos, negsuc,
}
use oodar.Str.Text.{bytes_equal, bytes_equal_same, bytes_equal_eq}
use oodar.Metrics.{
  MetricsSlot, is_named, lookup, on_used, on_free, plus_one, or_zero, incr_in, get_in, reset_in,
  name_is_safe,
}

-- A slot has one name.
is_named_apart :
    (name m : List ℕ) (t : MetricsSlot) → m ≢ name → is_named name t ≡ true → is_named m t ≡ false
is_named_apart name m t ne h = elim (Bool-cases (is_named m t)) [
  | inl e ↦ absurd (
      ne (
        sym (bytes_equal_eq t.name m (ground (arith, e)))
        ∙ bytes_equal_eq t.name name (ground (arith, h))))
  | inr e ↦ e
]

-- A name that no slot has, or the table with its slot changed and no other name touched.
pub data Changed (name : List ℕ) (f : ℕ → ℕ) (ts : List MetricsSlot) : Type 0 where
  missing : on_used name f ts ≡ none → lookup name ts ≡ none → Changed name f ts
  changed :
      (ts' : List MetricsSlot) (v : ℕ)
      → on_used name f ts ≡ some ts'
      → lookup name ts ≡ some v
      → lookup name ts' ≡ some (f v)
      → ((m : List ℕ) → m ≢ name → lookup m ts' ≡ lookup m ts)
      → Changed name f ts

head-Changed :
    (name : List ℕ) (f : ℕ → ℕ) (t : MetricsSlot) (ts : List MetricsSlot)
    → is_named name t ≡ true
    → Changed name f (t ∷ ts)
unfolding lookup on_used
head-Changed name f t ts e =
    changed (record t { value = f t.value } ∷ ts) t.value (rw (e) refl) (rw (e) refl) (rw (e) refl)
      (λ m ne. rw (is_named_apart name m t ne e) refl)

tail-Changed :
    (name : List ℕ) (f : ℕ → ℕ) (t : MetricsSlot) (ts : List MetricsSlot)
    → is_named name t ≡ false
    → Changed name f ts
    → Changed name f (t ∷ ts)
unfolding lookup on_used
tail-Changed name f t ts e (missing u l) = missing (rw (e, u) refl) (rw (e, l) refl)
tail-Changed name f t ts e (changed ts' v u l l' others) =
    changed (t ∷ ts') v (rw (e, u) refl) (rw (e, l) refl) (rw (e, l') refl)
      (λ m ne. ap (λ r. if is_named m t then some t.value else r) (others m ne))

on_used-Changed : (name : List ℕ) (f : ℕ → ℕ) (ts : List MetricsSlot) → Changed name f ts
unfolding lookup on_used
on_used-Changed name f [] = missing refl refl
on_used-Changed name f (t ∷ ts) = elim (Bool-cases (is_named name t)) [
  | inl e ↦ head-Changed name f t ts e
  | inr e ↦ tail-Changed name f t ts e (on_used-Changed name f ts)
]

-- No slot is free, or the table with one more name.
pub data Added (name : List ℕ) (f : ℕ → ℕ) (ts : List MetricsSlot) : Type 0 where
  full : on_free name f ts ≡ none → Added name f ts
  added :
      (ts' : List MetricsSlot)
      → on_free name f ts ≡ some ts'
      → lookup name ts' ≡ some (f 0)
      → ((m : List ℕ) → m ≢ name → lookup m ts' ≡ lookup m ts)
      → Added name f ts

other_name : (name m : List ℕ) → m ≢ name → bytes_equal name m ≡ false
other_name name m ne = elim (Bool-cases (bytes_equal name m)) [
  | inl e ↦ absurd (ne (sym (bytes_equal_eq name m e)))
  | inr e ↦ e
]

tail-Added :
    (name : List ℕ) (f : ℕ → ℕ) (t : MetricsSlot) (ts : List MetricsSlot)
    → t.in_use ≡ true
    → is_named name t ≡ false
    → Added name f ts
    → Added name f (t ∷ ts)
unfolding lookup on_free
tail-Added name f t ts used e (full u) = full (rw (used, u) refl)
tail-Added name f t ts used e (added ts' u l others) =
    added (t ∷ ts') (rw (used, u) refl) (rw (e, l) refl)
      (λ m ne. ap (λ r. if is_named m t then some t.value else r) (others m ne))

head-Added :
    (name : List ℕ) (f : ℕ → ℕ) (t : MetricsSlot) (ts : List MetricsSlot)
    → t.in_use ≡ false
    → Added name f (t ∷ ts)
unfolding lookup on_free
head-Added name f t ts free =
    added (record { name = name; value = f 0; in_use = true } ∷ ts) (rw (free) refl)
      (rw (bytes_equal_same name) refl) (λ m ne. rw (other_name name m ne, free) refl)

some_ne_none : (v : ℕ) → some v ≢ none
some_ne_none v e = cc

-- The slots passed on the way do not have the name.
head_not_named :
    (name : List ℕ) (t : MetricsSlot) (ts : List MetricsSlot)
    → lookup name (t ∷ ts) ≡ none
    → (is_named name t ≡ false) × (lookup name ts ≡ none)
unfolding lookup
head_not_named name t ts h = elim (Bool-cases (is_named name t)) [
  | inl e ↦ absurd (some_ne_none t.value (rw (e) at h))
  | inr e ↦ (e, rw (e) at h)
]

on_free-Added :
    (name : List ℕ) (f : ℕ → ℕ) (ts : List MetricsSlot) → lookup name ts ≡ none → Added name f ts
unfolding on_free
on_free-Added name f [] h = full refl
on_free-Added name f (t ∷ ts) h = elim (Bool-cases t.in_use) [
  | inl used ↦
      let (apart, rest) = head_not_named name t ts h in
      tail-Added name f t ts used apart (on_free-Added name f ts rest)
  | inr free ↦ head-Added name f t ts free
]

abbrev pub value_of : List ℕ → List MetricsSlot → ℕ
value_of name ts = or_zero (lookup name ts)

-- For a safe name: either the call counts, the value of the name is one more (modulo 2^64), and no
-- other name's value changes; or the name has no counter and every slot is in use, the call says no,
-- and the table is as before. For another name the call says no and the table is as before.
pub incr_in_lem :
    (name : List ℕ) (ts : List MetricsSlot)
    → (name_is_safe name ≡ true
        → (((incr_in name ts).0 ≡ true)
            × (value_of name (incr_in name ts).1 ≡ plus_one (value_of name ts))
            × ((m : List ℕ) → m ≢ name → value_of m (incr_in name ts).1 ≡ value_of m ts))
          ⊎ ((lookup name ts ≡ none)
              × (on_free name plus_one ts ≡ none)
              × (incr_in name ts ≡ (false, ts))))
      × (name_is_safe name ≡ false → incr_in name ts ≡ (false, ts))
unfolding incr_in
incr_in_lem name ts = (
  λ safe. elim (on_used-Changed name plus_one ts) [
    | changed ts' v u l l' others ↦
        inl (rw (safe, u) (refl, (rw (l', l) refl), λ m ne. ap or_zero (others m ne)))
    | missing u l ↦ elim (on_free-Added name plus_one ts l) [
      | full q ↦ inr (l, q, rw (safe, u, q) refl)
      | added ts' q l' others ↦
          inl (rw (safe, u, q) (refl, (rw (l', l) refl), λ m ne. ap or_zero (others m ne)))
    ]
  ],
  λ unsafe. rw (unsafe) refl,
)

-- After a reset of a safe name its value is 0, and no other name's value changed.
pub reset_in_lem :
    (name : List ℕ) (ts : List MetricsSlot)
    → name_is_safe name ≡ true
    → (get_in name (reset_in name ts).1 ≡ pos 0)
      × ((m : List ℕ) → m ≢ name → get_in m (reset_in name ts).1 ≡ get_in m ts)
unfolding reset_in get_in
reset_in_lem name ts safe = elim (on_used-Changed name (λ v. 0) ts) [
  | changed ts' v u l l' others ↦
      rw (safe, u)
        (
          rw (l') refl,
          λ m ne. ap (λ r. if name_is_safe m then pos (or_zero r) else negsuc 0) (others m ne),
        )
  | missing u l ↦ rw (safe, u) (rw (l) refl, λ m ne. refl)
]
