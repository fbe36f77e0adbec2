-- ===== src/Lists/Quota.antt =====
-- The payload that an allocation gives, and the quota that it is charged to.
use oodar.Base.{
  ℕ, ◌+◌, ◌<◌, ◌≤◌, ◌≡◌, ◌≢◌, ◌*◌, ◌^◌, ◌%◌, refl, ap, subst, arith, ==_iff, Bool-cases, inl, inr,
  ◌⊎◌, add64, sub64,
}
use oodar.Base.{true, false, ltb, some, if◌then◌else◌, pos}
use oodar.Base.{returns, exits, returns-injective, ◌==◌}
use oodar.Lists.{Ledger, Lists, OoList, Family, put, oo_list_hdr_ok}
use oodar.Lists.Payload.{
  Given, oo_list_alloc_payload, over_quota, too_big, oo_list_release, releasable, dropped, dispose,
  each,
}
use oodar.Mem.Layout.{oo_list_block_bytes}

-- The state after an allocation: the payload with one reference, the others as they were.
pub record Placed {ℓ} {A H : Type ℓ} (g : Given A) (s : Ledger × Lists A H)
    (r : ℕ × (Ledger × Lists A H)) : Type ℓ where
  pub at : r.0 ≡ g.addr
  pub bits : ℕ
  pub block : r.1.1.block ≡ (λ j.
      if j == g.addr
      then some (record { ref_count = 1; flags = bits; items = g.items })
      else s.1.block j)
  pub held : r.1.1.held ≡ s.1.held

exits-returns {ℓ} : {B : Type ℓ} {b : B} {c : ℕ} → exits c ≢ returns b
exits-returns e = cc

module _ {ℓ} {A H : Type ℓ} where
  pub alloc-Placed :
      (elem n : ℕ) (g : Given A) (s : Ledger × Lists A H) (r : ℕ × (Ledger × Lists A H))
      → n ≢ 0
      → oo_list_alloc_payload elem n g s ≡ returns r
      → Placed g s r
  unfolding oo_list_alloc_payload
  alloc-Placed elem n g s r nz h = elim (Bool-cases (n == 0)) [
    | inl e ↦ absurd (nz ((==_iff n 0).0 e))
    | inr e ↦ elim (Bool-cases (too_big elem n)) [
      | inl f ↦ absurd (exits-returns (rw (e, f) at h))
      | inr f ↦ elim (Bool-cases g.in_arena) [
        | inl k ↦
            subst (Placed g s) (returns-injective (rw (e, f, k) at h))
              (record { at = refl; bits = 2; block = refl; held = refl })
        | inr k ↦ elim (Bool-cases (over_quota s.0 (oo_list_block_bytes (pos n) elem))) [
          | inl o ↦ absurd (exits-returns (rw (e, f, k, o) at h))
          | inr o ↦
              subst (Placed g s) (returns-injective (rw (e, f, k, o) at h))
                (record { at = refl; bits = 0; block = refl; held = refl })
        ]
      ]
    ]
  ]

  -- For a payload from the heap that is not empty, where neither the size nor the quota passes 63
  -- bits: the allocation ends the process where its charge of 64 bytes and the elements passes the
  -- quota, and is charged exactly that otherwise.
  pub alloc_charged :
      (elem n : ℕ) (g : Given A) (s : Ledger × Lists A H)
      → g.in_arena ≡ false
      → n ≢ 0
      → too_big elem n ≡ false
      → s.0.bytes < 2 ^ 63
      → s.0.quota < 2 ^ 63
      → (s.0.quota < s.0.bytes + (64 + n * elem) → oo_list_alloc_payload elem n g s ≡ exits 1)
        × (s.0.bytes + (64 + n * elem) ≤ s.0.quota
            → oo_list_alloc_payload elem n g s
              ≡ returns (
                g.addr,
                put g.addr
                    (some (record { ref_count = 1; flags = 0; items = g.items }))
                    (record { quota = s.0.quota; bytes = s.0.bytes + (64 + n * elem) }, s.1),
              ))
  unfolding oo_list_alloc_payload over_quota oo_list_block_bytes
  alloc_charged elem n g s heap nz fits b63 q63 = (
    λ over. ground (arith, ==_iff n 0),
    λ room.
        let some_elements : (n == 0) ≡ false = ground (arith, ==_iff n 0) in
        let positive : ltb s.0.bytes (2 ^ 63) ≡ true = ground arith in
        let enough : ltb s.0.quota (s.0.bytes + (64 + n * elem)) ≡ false = ground arith in
        let sum : (s.0.bytes + (64 + n * elem)) % 2 ^ 64 ≡ s.0.bytes + (64 + n * elem) =
          omega arith in
        rw (some_elements, fits, heap, positive, enough)
          (ap
            (λ x. returns (
              g.addr,
              put g.addr (some (record { ref_count = 1; flags = 0; items = g.items }))
                  (record { quota = s.0.quota; bytes = x }, s.1),
            ))
            sum),
  )

charge_and_back : (b c quota : ℕ) → quota < 2 ^ 63 → b + c ≤ quota → sub64 (add64 b c) c ≡ b
charge_and_back b c quota lt room = omega arith

module _ {A H : Type 0} (fam : Family A H) (n : ℕ) (g : Given A) (s : Ledger × Lists A H)
    (small : n ≤ 2 ^ 28) (far : 16 ≤ g.addr) (quota_lt : s.0.quota < 2 ^ 63)
    (bytes_lt : s.0.bytes < 2 ^ 63) (heap_only : fam.unchecked ≡ true → g.in_arena ≡ false) where
  -- The handle of the payload, before an element stands in it.
  abbrev pub handle : ℕ → OoList
  handle a = record { addr = a; len = 0; capacity = n }

  -- What an allocation and the release of its payload leave.
  pub record Balanced (r : ℕ × (Ledger × Lists A H)) : Type 0 where
    pub within_quota : (r.1.0 ≡ s.0) ⊎ (r.1.0.bytes ≤ s.0.quota)
    pub charge_back : (oo_list_release fam (handle r.0) r.1).0 ≡ s.0
    pub others :
        (a : ℕ) → a ≢ g.addr → (oo_list_release fam (handle r.0) r.1).1.block a ≡ s.1.block a

  -- The payload that the allocation puts down, by its flags, and the ledger that it leaves.
  abbrev placed_with : ℕ → Ledger → ℕ × (Ledger × Lists A H)
  placed_with flags t = (
    g.addr,
    put g.addr (some (record { ref_count = 1; flags = flags; items = g.items })) (t, s.1),
  )

  empty-Balanced : Balanced (0, s)
  unfolding oo_list_release releasable oo_list_hdr_ok
  empty-Balanced = record {
    within_quota = inl refl;
    charge_back = ground arith;
    others = λ a ne. ground arith;
  }

  arena-Balanced : g.in_arena ≡ true → Balanced (placed_with 2 s.0)
  unfolding oo_list_release releasable oo_list_hdr_ok dropped
  arena-Balanced arena = record {
    within_quota = inl refl;
    charge_back = ground (arith, heap_only, arena, ==_iff g.addr g.addr);
    others = λ a ne. ground (arith, heap_only, arena, ==_iff a g.addr, ==_iff g.addr g.addr);
  }

  heap-Balanced :
      n ≢ 0
      → over_quota s.0 (oo_list_block_bytes (pos n) fam.elem_size) ≡ false
      → Balanced (
          placed_with 0
            (record s.0 { bytes = add64 s.0.bytes (oo_list_block_bytes (pos n) fam.elem_size) }))
  unfolding oo_list_release releasable oo_list_hdr_ok dropped dispose each over_quota
  heap-Balanced nz room =
      let c = oo_list_block_bytes (pos n) fam.elem_size in
      let charged : Ledger = record s.0 { bytes = add64 s.0.bytes c } in
      record {
        within_quota = inr (ground arith);
        charge_back =
            subst
              (λ x.
                (oo_list_release fam (handle g.addr) (placed_with 0 charged).1).0
                ≡ record { quota = s.0.quota; bytes = x })
              (charge_and_back s.0.bytes c s.0.quota quota_lt (ground arith))
              (ground (arith, ==_iff g.addr g.addr));
        others = λ a ne. ground (arith, ==_iff a g.addr, ==_iff g.addr g.addr);
      }

  -- For a capacity that a header allows, at most 2^28, an address that a header fits before, a ledger
  -- of less than 2^63 bytes and quota, and a payload of the heap where the release of the family has no
  -- header check: where the allocation of a payload returns, the ledger is as it was or its bytes are
  -- within the quota, and the release of a handle to it without elements leaves the ledger as it was
  -- before the allocation, and every other payload.
  pub release-alloc :
      (r : ℕ × (Ledger × Lists A H))
      → oo_list_alloc_payload fam.elem_size n g s ≡ returns r
      → Balanced r
  unfolding oo_list_alloc_payload
  release-alloc r h = elim (Bool-cases (n == 0)) [
    | inl e ↦ subst Balanced (returns-injective (rw e at h)) empty-Balanced
    | inr e ↦ elim (Bool-cases (too_big fam.elem_size n)) [
      | inl f ↦ absurd (exits-returns (rw (e, f) at h))
      | inr f ↦ elim (Bool-cases g.in_arena) [
        | inl k ↦ subst Balanced (returns-injective (rw (e, f, k) at h)) (arena-Balanced k)
        | inr k ↦ elim (Bool-cases (over_quota s.0 (oo_list_block_bytes (pos n) fam.elem_size))) [
          | inl o ↦ absurd (exits-returns (rw (e, f, k, o) at h))
          | inr o ↦
              subst Balanced (returns-injective (rw (e, f, k, o) at h))
                (heap-Balanced (ground (arith, ==_iff n 0)) o)
        ]
      ]
    ]
  ]
