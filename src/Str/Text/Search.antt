-- ===== src/Str/Text/Search.antt =====
-- `oo_str_contains` and `oo_str_index_of`, over `memmem`: the first place where a text stands.
use oodar.Base.{ℕ, zero, suc, ◌+◌, ◌≤◌, ◌<◌, ltb, ◌==◌, if◌then◌else◌, ◌≡◌, refl, ap, arith}
use oodar.Base.{
  ap₂, length-drop, length-append, Bool, true, false, List, [], ◌∷◌, ◌++◌, length, drop, ℤ, pos,
  negsuc, Option, none, some, Bool-cases, Option-cases, inl, inr, ◌⊎◌, ◌&&◌,
}

-- `needle` stands at the head of `s`.
unfoldable pub at_head : List ℕ → List ℕ → Bool
at_head [] s = true
at_head (x ∷ needle) [] = false
at_head (x ∷ needle) (c ∷ s) = x == c && at_head needle s

-- The offset of the first occurrence, counted from `i`.
pub memmem : List ℕ → List ℕ → ℕ → Option ℕ
unfolding at_head
memmem needle [] i = none
memmem needle (c ∷ s) i =
    let rest = memmem needle s (i + 1) in if at_head needle (c ∷ s) then some i else rest

found_at : Option ℕ → ℤ
found_at none = negsuc 0
found_at (some i) = pos i

is_some : Option ℕ → Bool
is_some none = false
is_some (some i) = true

pub oo_str_index_of : List ℕ → List ℕ → ℤ
unfolding memmem found_at
oo_str_index_of hay needle =
    if length needle == 0
    then pos 0
    else if ltb (length hay) (length needle)
    then negsuc 0
    else found_at (memmem needle hay 0)

pub oo_str_contains : List ℕ → List ℕ → Bool
unfolding memmem is_some
oo_str_contains hay needle =
    if length needle == 0
    then true
    else if ltb (length hay) (length needle)
    then false
    else is_some (memmem needle hay 0)

-- `needle` stands in `hay` with `i` bytes before it.
abbrev pub Occurs : List ℕ → List ℕ → ℕ → Type 0
Occurs hay needle i = (rest : List ℕ) × (drop i hay ≡ needle ++ rest)

pub at_head-Occurs : (needle s : List ℕ) → at_head needle s ≡ true → Occurs s needle 0
unfolding at_head
at_head-Occurs [] s e = (s, refl)
at_head-Occurs (x ∷ needle) [] e = cc
at_head-Occurs (x ∷ needle) (c ∷ s) e =
    let (r, h) = at_head-Occurs needle s (ground arith) in
    let same : c ≡ x = ground arith in (r, ap₂ ◌∷◌ same h)

Occurs-at_head : (needle s rest : List ℕ) → s ≡ needle ++ rest → at_head needle s ≡ true
unfolding at_head
Occurs-at_head [] s rest e = refl
Occurs-at_head (x ∷ needle) [] rest e = cc
Occurs-at_head (x ∷ needle) (c ∷ s) rest e =
    let others : s ≡ needle ++ rest = cc in ground (arith, e, Occurs-at_head needle s rest others)

-- `needle` does not stand in `hay` before `d` bytes of it.
abbrev pub NotBefore : List ℕ → List ℕ → ℕ → Type 0
NotBefore hay needle d = (j : ℕ) → j < d → Occurs hay needle j → ⊥

NotBefore-cons :
    (x c : ℕ) (needle s : List ℕ) (d : ℕ)
    → at_head (x ∷ needle) (c ∷ s) ≡ false
    → NotBefore s (x ∷ needle) d
    → NotBefore (c ∷ s) (x ∷ needle) (suc d)
NotBefore-cons x c needle s d not_here before zero lt (r, o) =
    cc (Occurs-at_head (x ∷ needle) (c ∷ s) r o, not_here)
NotBefore-cons x c needle s d not_here before (suc j) lt o = before j (omega arith) o

memmem_found :
    (x : ℕ) (needle s : List ℕ) (i k : ℕ)
    → memmem (x ∷ needle) s i ≡ some k
    → (d : ℕ) × (i + d ≡ k) × Occurs s (x ∷ needle) d × NotBefore s (x ∷ needle) d
unfolding memmem
memmem_found x needle [] i k e = cc
memmem_found x needle (c ∷ s) i k e = elim (Bool-cases (at_head (x ∷ needle) (c ∷ s))) [
  | inl here ↦
      (0, ground (arith, e, here), at_head-Occurs (x ∷ needle) (c ∷ s) here, λ j lt o. elim lt [ ])
  | inr not_here ↦
      let (d, at, o, before) = memmem_found x needle s (i + 1) k (rw (not_here) at e) in
      (suc d, omega arith, o, NotBefore-cons x c needle s d not_here before)
]

memmem_missing :
    (x : ℕ) (needle s : List ℕ) (i j : ℕ)
    → memmem (x ∷ needle) s i ≡ none
    → Occurs s (x ∷ needle) j
    → ⊥
unfolding memmem
memmem_missing x needle [] i zero e (r, o) = cc o
memmem_missing x needle [] i (suc j) e (r, o) = cc o
memmem_missing x needle (c ∷ s) i zero e (r, o) =
    ground (arith, e, Occurs-at_head (x ∷ needle) (c ∷ s) r o)
memmem_missing x needle (c ∷ s) i (suc j) e o = elim (Bool-cases (at_head (x ∷ needle) (c ∷ s))) [
  | inl here ↦ cc (e, here)
  | inr not_here ↦ memmem_missing x needle s (i + 1) j (rw (not_here) at e) o
]

Occurs-fits : (hay needle : List ℕ) (j : ℕ) → Occurs hay needle j → length needle ≤ length hay
Occurs-fits hay needle j (r, o) =
    omega (arith, ap length o, length-drop j hay, length-append needle r)

-- For a text that is not empty: either `oo_str_index_of` gives the first place where it stands and
-- `oo_str_contains` says yes, or it stands nowhere, the index is -1 and `oo_str_contains` says no.
pub oo_str_index_of_lem :
    (x : ℕ) (needle hay : List ℕ)
    → ((i : ℕ) × (oo_str_index_of hay (x ∷ needle) ≡ pos i)
        × (oo_str_contains hay (x ∷ needle) ≡ true)
        × Occurs hay (x ∷ needle) i
        × NotBefore hay (x ∷ needle) i)
      ⊎ ((oo_str_index_of hay (x ∷ needle) ≡ negsuc 0)
          × (oo_str_contains hay (x ∷ needle) ≡ false)
          × ((j : ℕ) → Occurs hay (x ∷ needle) j → ⊥))
unfolding oo_str_index_of oo_str_contains
oo_str_index_of_lem x needle hay = elim (Bool-cases (ltb (length hay) (length (x ∷ needle)))) [
  | inl short ↦ inr (
    ground (arith, short),
    ground (arith, short),
    λ j o. ground (arith, short, Occurs-fits hay (x ∷ needle) j o),
  )
  | inr long ↦ elim (Option-cases (memmem (x ∷ needle) hay 0)) [
    | inl missing ↦ inr (
      ground (arith, long, missing),
      ground (arith, long, missing),
      λ j o. memmem_missing x needle hay 0 j missing o,
    )
    | inr (k, found) ↦
        let (d, at, o, before) = memmem_found x needle hay 0 k found in
        let same : k ≡ d = omega arith in
        inl (d, ground (arith, long, found, same), ground (arith, long, found), o, before)
  ]
]
