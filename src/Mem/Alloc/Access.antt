-- ===== src/Mem/Alloc/Access.antt =====
-- The eight bytes that `oo_write_int` and `oo_read_int` reach.
use oodar.Base.{
  ℕ, ◌+◌, ◌-◌, ◌*◌, ◌/◌, ◌%◌, ◌^◌, ◌≤◌, ◌<◌, ◌≡◌, refl, arith, ap, sym, ◌∙◌, subst, ltb, ◌==◌,
  ==_iff, not,
}
use oodar.Base.{List, [], ◌∷◌, some, Bool-cases, Option-cases, inl, inr, ◌⊎◌}
use oodar.Base.{
  if◌then◌else◌, ℤ, pos, negsuc, Run, returns, exits, ◌>>=◌, >>=-returns, returns-injective,
}
use oodar.Cap.Tokens.{CapKind, CapState}
use oodar.Cap.Gates.{oo_cap_require_kind}
use oodar.Mem.Alloc.{
  OoRawAllocHeader, RawHeap, raw_magic, chain, find_in, alloc_find_locked, access, put_word,
  word_at, oo_write_int, oo_read_int,
}

find_in_at :
    (target : ℕ) (hs : List OoRawAllocHeader) (h : OoRawAllocHeader)
    → find_in target hs ≡ some h
    → h.user_ptr ≡ target
unfolding find_in
find_in_at target [] h e = cc
find_in_at target (x ∷ hs) h e = elim (Bool-cases (x.user_ptr == target)) [
  | inl same ↦ ground (arith, e, same, ==_iff x.user_ptr target)
  | inr other ↦ find_in_at target hs h (rw (other) at e)
]

tested_inside :
    (ptr offset a : ℕ) (h : OoRawAllocHeader)
    → ◌≡◌ {A = Run ℕ}
        (if not (h.magic == raw_magic)
          then exits 1
          else if ltb h.block_size (offset + 8)
          then exits 1
          else returns (ptr + offset))
        (returns a)
    → (a ≡ ptr + offset) × (offset + 8 ≤ h.block_size)
tested_inside ptr offset a h e = elim (Bool-cases (h.magic == raw_magic)) [
  | inl good ↦ elim (Bool-cases (ltb h.block_size (offset + 8))) [
    | inl over ↦ cc (e, good, over)
    | inr within ↦ (sym (returns-injective (rw (good, within) at e)), ground (arith, within))
  ]
  | inr bad ↦ cc (e, bad)
]

-- An access that is let through is inside a block that the table has at that address.
access_inside :
    (s : RawHeap) (ptr offset a : ℕ)
    → access s ptr (pos offset) ≡ returns a
    → (h : OoRawAllocHeader) × (alloc_find_locked s ptr ≡ some h)
      × (h.user_ptr ≡ ptr)
      × (a ≡ ptr + offset)
      × (offset + 8 ≤ h.block_size)
unfolding access alloc_find_locked
access_inside s ptr offset a e = elim (Bool-cases (ptr == 0)) [
  | inl null ↦ cc (e, null)
  | inr address ↦ elim (Option-cases (find_in ptr (chain s ptr))) [
    | inl missing ↦ cc (e, address, missing)
    | inr (h, found) ↦
        let (at, room) = tested_inside ptr offset a h (rw (address, found) at e) in
        (h, found, find_in_at ptr (chain s ptr) h found, at, room)
  ]
]

put_at :
    (mem : ℕ → ℕ) (a v k j : ℕ) → k < 8 → j ≡ a + k → put_word mem a v j ≡ v / 2 ^ (8 * k) % 256
unfolding put_word
put_at mem a v k j lt e =
    let same : j - a ≡ k = omega arith in ground (arith, ap (λ (n : ℕ). v / 2 ^ (8 * n) % 256) same)

bytes_of :
    (v : ℕ)
    → v < 2 ^ 64
    → v % 256
        + (v / 2 ^ 8 % 256 * 2 ^ 8
            + (v / 2 ^ 16 % 256 * 2 ^ 16
                + (v / 2 ^ 24 % 256 * 2 ^ 24
                    + (v / 2 ^ 32 % 256 * 2 ^ 32
                        + (v / 2 ^ 40 % 256 * 2 ^ 40
                            + (v / 2 ^ 48 % 256 * 2 ^ 48 + v / 2 ^ 56 % 256 * 2 ^ 56))))))
      ≡ v
bytes_of v small = omega arith

word-put : (mem : ℕ → ℕ) (a v : ℕ) → v < 2 ^ 64 → word_at (put_word mem a v) a ≡ v
unfolding word_at
word-put mem a v small = omega (
  arith,
  bytes_of v small,
  put_at mem a v 0 a (omega arith) (omega arith),
  put_at mem a v 1 (a + 1) (omega arith) refl,
  put_at mem a v 2 (a + 2) (omega arith) refl,
  put_at mem a v 3 (a + 3) (omega arith) refl,
  put_at mem a v 4 (a + 4) (omega arith) refl,
  put_at mem a v 5 (a + 5) (omega arith) refl,
  put_at mem a v 6 (a + 6) (omega arith) refl,
  put_at mem a v 7 (a + 7) (omega arith) refl,
)

put_outside : (mem : ℕ → ℕ) (a v j : ℕ) → (j < a) ⊎ (a + 8 ≤ j) → put_word mem a v j ≡ mem j
unfolding put_word
put_outside mem a v j (inl below) = ground (arith, below)
put_outside mem a v j (inr above_it) = ground (arith, above_it)

-- A write that returns was to eight bytes inside a block of the table at that address; no other byte,
-- no chain and no counter changed.
pub write_inside :
    (caps : CapState) (token ptr val : ℕ) (offset : ℤ) (s : RawHeap) {s' : RawHeap}
    → oo_write_int caps token ptr offset val s ≡ returns s'
    → (o : ℕ) × (h : OoRawAllocHeader) × (offset ≡ pos o)
      × (alloc_find_locked s ptr ≡ some h)
      × (h.user_ptr ≡ ptr)
      × (o + 8 ≤ h.block_size)
      × ((j : ℕ) → (j < ptr + o) ⊎ (ptr + o + 8 ≤ j) → s'.mem j ≡ s.mem j)
      × (s'.table ≡ s.table)
      × (s'.bytes ≡ s.bytes)
      × (s'.quota ≡ s.quota)
unfolding oo_write_int access
write_inside caps token ptr val (negsuc n) s e =
    let (c, _, back) =
      >>=-returns (oo_cap_require_kind CapKind.alloc caps token)
        (λ c. access s ptr (negsuc n) >>= λ a. returns (record s { mem = put_word s.mem a val }))
        e in
    cc back
write_inside caps token ptr val (pos o) s {s'} e =
    let (c, _, back) =
      >>=-returns (oo_cap_require_kind CapKind.alloc caps token)
        (λ c. access s ptr (pos o) >>= λ a. returns (record s { mem = put_word s.mem a val })) e in
    let (a, reached, wrote) =
      >>=-returns (access s ptr (pos o)) (λ a. returns (record s { mem = put_word s.mem a val }))
        back in
    let (h, found, at, here, room) = access_inside s ptr o a reached in
    let same : record s { mem = put_word s.mem a val } ≡ s' = returns-injective wrote in
    (
      o,
      h,
      refl,
      found,
      at,
      room,
      λ j out.
          ap (λ t. t.mem j) (sym same)
          ∙ put_outside s.mem a val j (subst (λ k. (j < k) ⊎ (k + 8 ≤ j)) (sym here) out),
      ap (λ t. t.table) (sym same),
      ap (λ t. t.bytes) (sym same),
      ap (λ t. t.quota) (sym same),
    )

-- The tests do not look at the bytes.
access_again :
    (s : RawHeap) (mem : ℕ → ℕ) (ptr : ℕ) (offset : ℤ)
    → access (record s { mem = mem }) ptr offset ≡ access s ptr offset
unfolding access alloc_find_locked
access_again s mem ptr (negsuc n) = refl
access_again s mem ptr (pos o) = refl

read_back :
    (caps c : CapState) (token ptr val a : ℕ) (offset : ℤ) (s : RawHeap)
    → oo_cap_require_kind CapKind.alloc caps token ≡ returns c
    → access s ptr offset ≡ returns a
    → val < 2 ^ 64
    → oo_read_int caps token ptr offset (record s { mem = put_word s.mem a val }) ≡ returns val
unfolding oo_read_int
read_back caps c token ptr val a offset s opens reached small =
    rw
      (
        opens,
        access_again s (put_word s.mem a val) ptr offset ∙ reached,
        word-put s.mem a val small,
      )
      refl

-- After a write of a 64-bit value that returns, the read at the same place returns that value.
pub oo_read_int-oo_write_int :
    (caps : CapState) (token ptr val : ℕ) (offset : ℤ) (s : RawHeap) {s' : RawHeap}
    → val < 2 ^ 64
    → oo_write_int caps token ptr offset val s ≡ returns s'
    → oo_read_int caps token ptr offset s' ≡ returns val
unfolding oo_write_int oo_read_int access
oo_read_int-oo_write_int caps token ptr val offset s {s'} small e =
    let (c, opens, back) =
      >>=-returns (oo_cap_require_kind CapKind.alloc caps token)
        (λ c. access s ptr offset >>= λ a. returns (record s { mem = put_word s.mem a val })) e in
    let (a, reached, wrote) =
      >>=-returns (access s ptr offset) (λ a. returns (record s { mem = put_word s.mem a val }))
        back in
    let same : record s { mem = put_word s.mem a val } ≡ s' = returns-injective wrote in
    subst (λ t. oo_read_int caps token ptr offset t ≡ returns val) same
      (read_back caps c token ptr val a offset s opens reached small)
