-- ===== src/Lists/Count.antt =====
-- The reference count of a payload: retain, release, and the read that stands between them.
use oodar.Base.{ℕ, suc, ◌<◌, ◌≡◌, refl, arith, ==_iff}
use oodar.Base.{true, none, some, get_elem?}
use oodar.Base.{returns, exits, ℤ, pos}
use oodar.Lists.{Ledger, OoListBlock, OoList, Lists, Family, within, oo_list_hdr_ok}
use oodar.Lists.Payload.{oo_list_retain, oo_list_release, releasable, dropped}
use oodar.Lists.Holds.{listed, shown, get_elem?-upto}
use oodar.Lists.Ops.{oo_list_get, get_at, read_at, index}

module _ {A H : Type 0} (fam : Family A H) where
  -- The handle passes the header check, its payload has n references, and no static or arena flag.
  pub record Counted (s : Ledger × Lists A H) (l : OoList) (n : ℕ) : Type 0 where
    pub checks : oo_list_hdr_ok s.1.block l ≡ true
    pub b : OoListBlock A
    pub found : s.1.block l.addr ≡ some b
    pub counts : b.ref_count ≡ n

  -- For a counted payload with fewer than a million references, a release after a retain leaves every
  -- payload as it was.
  pub release-retain_list :
      (s : Ledger × Lists A H) (l : OoList) (n a : ℕ)
      → Counted s l n
      → n < 1000000
      → (oo_list_release fam l (oo_list_retain fam l s)).1.block a ≡ s.1.block a
  unfolding oo_list_release oo_list_retain releasable dropped oo_list_hdr_ok
  release-retain_list s l n a c few = ground (arith, c.checks, c.found, c.counts, ==_iff a l.addr)

  -- A call on what the elements refer to, between a retain and a release.
  between_block :
      (s : Ledger × Lists A H) (l : OoList) (n a : ℕ) (f : Ledger × H → Ledger × H)
      → Counted s l n
      → n < 1000000
      → (oo_list_release fam l (within f (oo_list_retain fam l s))).1.block a ≡ s.1.block a
  unfolding oo_list_release oo_list_retain releasable dropped oo_list_hdr_ok
  between_block s l n a f c few = ground (arith, c.checks, c.found, c.counts, ==_iff a l.addr)

  between_held :
      (s : Ledger × Lists A H) (l : OoList) (n : ℕ) (f : Ledger × H → Ledger × H)
      → Counted s l n
      → n < 1000000
      → (
        (oo_list_release fam l (within f (oo_list_retain fam l s))).0,
        (oo_list_release fam l (within f (oo_list_retain fam l s))).1.held,
      )
        ≡ f (s.0, s.1.held)
  unfolding oo_list_release oo_list_retain releasable dropped oo_list_hdr_ok
  between_held s l n f c few = ground (arith, c.checks, c.found, c.counts, ==_iff l.addr l.addr)

  retained_found :
      (s : Ledger × Lists A H) (l : OoList) (n : ℕ) (c : Counted s l n)
      → (oo_list_retain fam l s).1.block l.addr
        ≡ some (record c.b { ref_count = suc c.b.ref_count })
  unfolding oo_list_retain oo_list_hdr_ok
  retained_found s l n c = ground (arith, c.checks, c.found, c.counts, ==_iff l.addr l.addr)

  get_listed :
      (s : Ledger × Lists A H) (l : OoList) (n : ℕ) (c : Counted s l n) (k : ℕ)
      → k < l.len
      → get_elem? (listed s.1.block l) k ≡ some (c.b.items k)
  unfolding listed shown
  get_listed s l n c k lt = rw (c.found) (get_elem?-upto l.len k c.b.items lt)

  -- For a counted payload with fewer than a million references: a get at an index inside the list
  -- returns the element there, leaves every payload as it was, and retains the element; a get at any
  -- other index ends the process.
  pub oo_list_get_lem :
      (s : Ledger × Lists A H) (l : OoList) (n : ℕ) (c : Counted s l n)
      → n < 1000000
      → ((k : ℕ)
          → k < l.len
          → (t : Ledger × Lists A H) × ((oo_list_get fam l (pos k) s ≡ returns (c.b.items k, t))
              × (get_elem? (listed s.1.block l) k ≡ some (c.b.items k))
              × ((a : ℕ) → t.1.block a ≡ s.1.block a)
              × ((t.0, t.1.held) ≡ fam.keep (c.b.items k) (s.0, s.1.held))))
        × ((i : ℤ) → index i l.len ≡ none → oo_list_get fam l i s ≡ exits 1)
  unfolding oo_list_get get_at read_at
  oo_list_get_lem s l n c few = (
    λ k lt.
        let inside : index (pos k) l.len ≡ some k = ground (arith, lt) in
        (
          oo_list_release fam l (within (fam.keep (c.b.items k)) (oo_list_retain fam l s)),
          (
            rw (inside) (rw (retained_found s l n c) refl),
            get_listed s l n c k lt,
            λ a. between_block s l n a (fam.keep (c.b.items k)) c few,
            between_held s l n (fam.keep (c.b.items k)) c few,
          ),
        ),
    λ i out. rw (out) refl,
  )
