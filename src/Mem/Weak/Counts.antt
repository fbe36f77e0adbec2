-- ===== src/Mem/Weak/Counts.antt =====
-- The life of one control block: its owners and weak references against its two counts.
use oodar.Base.{ℕ, zero, suc, ◌<◌, ◌-◌, ◌^◌, ◌≡◌, ◌≢◌, refl, arith, ==_iff}
use oodar.Base.{true, ltb, List, Option, none, some}
use oodar.Mem.Weak.{
  OoControlBlock, OoWeakRef, WeakHeap, run_dtor, init_at, create_at, retain_at, release_at,
  weak_create_at, upgrade_at, weak_retain_at, weak_release_at, oo_weak_is_alive,
  oo_weak_strong_count, oo_weak_weak_count,
}

-- A weak reference that holds the block at `a` for its payload.
abbrev pub handle : ℕ → ℕ → OoWeakRef
handle a payload = record { payload = payload; ctrl = a }

-- A block at the address `a` for a payload, neither of them NULL, with its destructor, made in `start`.
module _ (a payload : ℕ) (dtor : Option ℕ) (start : WeakHeap) where
  -- The states that n strong owners and m weak references can be in: only an owner retains, releases
  -- or makes a weak reference, and only a weak reference upgrades. Each count stays below 2^32 - 2.
  pub data Owners : ℕ → ℕ → WeakHeap → Type 0 where
    created : Owners 1 0 (create_at a dtor start).1
    retained :
        {n m : ℕ} {s : WeakHeap}
        → Owners (suc n) m s
        → suc n < 2 ^ 32 - 2
        → Owners (suc (suc n)) m (retain_at a s)
    released : {n m : ℕ} {s : WeakHeap} → Owners (suc n) m s → Owners n m (release_at a payload s)
    weakened :
        {n m : ℕ} {s : WeakHeap}
        → Owners (suc n) m s
        → m < 2 ^ 32 - 3
        → Owners (suc n) (suc m) (weak_create_at payload a s).1
    upgraded :
        {n m : ℕ} {s : WeakHeap}
        → Owners (suc n) (suc m) s
        → suc n < 2 ^ 32 - 2
        → Owners (suc (suc n)) (suc m) (upgrade_at (handle a payload) s).1
    weak_retained :
        {n m : ℕ} {s : WeakHeap}
        → Owners n (suc m) s
        → suc m < 2 ^ 32 - 3
        → Owners n (suc (suc m)) (weak_retain_at (handle a payload) s)
    weak_released :
        {n m : ℕ} {s : WeakHeap}
        → Owners n (suc m) s
        → Owners n m (weak_release_at (handle a payload) s).1

  -- The block of n owners and m weak references: the owners hold one weak count together, and nothing
  -- is left without both.
  abbrev pub block_of : ℕ → ℕ → Option OoControlBlock
  block_of (suc n) m =
      some (record { strong_count = suc n; weak_count = suc m; flags = 0; epoch = 0; dtor = dtor })
  block_of zero (suc m) =
      some (record { strong_count = 0; weak_count = suc m; flags = 0; epoch = 0; dtor = dtor })
  block_of zero zero = none

  -- The destructors that ran: this block's once it has no owner.
  abbrev pub ran_of : ℕ → List (ℕ × ℕ)
  ran_of (suc n) = start.ran
  ran_of zero = run_dtor dtor payload start.ran

  pub Owners-bounds : {n m : ℕ} {s : WeakHeap} → Owners n m s → (n < 2 ^ 32 - 1) × (m < 2 ^ 32 - 2)
  Owners-bounds created = (omega arith, omega arith)
  Owners-bounds (retained o lt) = (omega arith, (Owners-bounds o).1)
  Owners-bounds (released o) = let (x, y) = Owners-bounds o in (omega arith, y)
  Owners-bounds (weakened o lt) = ((Owners-bounds o).0, omega arith)
  Owners-bounds (upgraded o lt) = (omega arith, (Owners-bounds o).1)
  Owners-bounds (weak_retained o lt) = ((Owners-bounds o).0, omega arith)
  Owners-bounds (weak_released o) = let (x, y) = Owners-bounds o in (x, omega arith)

  module _ (na : a ≢ 0) (np : payload ≢ 0) where
    -- For a block at an address that is not 0, for a payload that is not NULL: in every state that n
    -- owners and m weak references can be in, the block has the counts of them, it is freed exactly
    -- where there are none, and its destructor ran once where there is no owner and not before.
    pub Owners-block_of :
        {n m : ℕ} {s : WeakHeap} → Owners n m s → (s.ctrl a ≡ block_of n m) × (s.ran ≡ ran_of n)
    unfolding create_at init_at retain_at release_at weak_create_at upgrade_at weak_retain_at
        weak_release_at
    Owners-block_of created = (ground (arith, ==_iff a 0, ==_iff a a), ground (arith, ==_iff a 0))
    Owners-block_of (retained o lt) =
        let (x, y) = Owners-block_of o in
        let (few, few_weak) = Owners-bounds o in
        (
          ground (arith, x, few, few_weak, ==_iff a a, ==_iff a 0, ==_iff payload 0),
          ground (arith, x, y, ==_iff a 0, ==_iff payload 0),
        )
    Owners-block_of (released {n = zero} {m = zero} o) =
        let (x, y) = Owners-block_of o in
        let (few, few_weak) = Owners-bounds o in
        (
          ground (arith, x, few, few_weak, ==_iff a a, ==_iff a 0, ==_iff payload 0),
          ground (arith, x, y, ==_iff a 0, ==_iff payload 0),
        )
    Owners-block_of (released {n = zero} {m = suc m} o) =
        let (x, y) = Owners-block_of o in
        let (few, few_weak) = Owners-bounds o in
        (
          ground (arith, x, few, few_weak, ==_iff a a, ==_iff a 0, ==_iff payload 0),
          ground (arith, x, y, ==_iff a 0, ==_iff payload 0),
        )
    Owners-block_of (released {n = suc n} o) =
        let (x, y) = Owners-block_of o in
        let (few, few_weak) = Owners-bounds o in
        (
          ground (arith, x, few, few_weak, ==_iff a a, ==_iff a 0, ==_iff payload 0),
          ground (arith, x, y, ==_iff a 0, ==_iff payload 0),
        )
    Owners-block_of (weakened o lt) =
        let (x, y) = Owners-block_of o in
        let (few, few_weak) = Owners-bounds o in
        (
          ground (arith, x, few, few_weak, ==_iff a a, ==_iff a 0, ==_iff payload 0),
          ground (arith, x, y, ==_iff a 0, ==_iff payload 0),
        )
    Owners-block_of (upgraded o lt) =
        let (x, y) = Owners-block_of o in
        let (few, few_weak) = Owners-bounds o in
        (
          ground (arith, x, few, few_weak, ==_iff a a, ==_iff a 0, ==_iff payload 0),
          ground (arith, x, y, ==_iff a 0, ==_iff payload 0),
        )
    Owners-block_of (weak_retained {n = zero} o lt) =
        let (x, y) = Owners-block_of o in
        let (few, few_weak) = Owners-bounds o in
        (
          ground (arith, x, few, few_weak, ==_iff a a, ==_iff a 0, ==_iff payload 0),
          ground (arith, x, y, ==_iff a 0, ==_iff payload 0),
        )
    Owners-block_of (weak_retained {n = suc n} o lt) =
        let (x, y) = Owners-block_of o in
        let (few, few_weak) = Owners-bounds o in
        (
          ground (arith, x, few, few_weak, ==_iff a a, ==_iff a 0, ==_iff payload 0),
          ground (arith, x, y, ==_iff a 0, ==_iff payload 0),
        )
    Owners-block_of (weak_released {n = zero} {m = zero} o) =
        let (x, y) = Owners-block_of o in
        let (few, few_weak) = Owners-bounds o in
        (
          ground (arith, x, few, few_weak, ==_iff a a, ==_iff a 0, ==_iff payload 0),
          ground (arith, x, y, ==_iff a 0, ==_iff payload 0),
        )
    Owners-block_of (weak_released {n = zero} {m = suc m} o) =
        let (x, y) = Owners-block_of o in
        let (few, few_weak) = Owners-bounds o in
        (
          ground (arith, x, few, few_weak, ==_iff a a, ==_iff a 0, ==_iff payload 0),
          ground (arith, x, y, ==_iff a 0, ==_iff payload 0),
        )
    Owners-block_of (weak_released {n = suc n} o) =
        let (x, y) = Owners-block_of o in
        let (few, few_weak) = Owners-bounds o in
        (
          ground (arith, x, few, few_weak, ==_iff a a, ==_iff a 0, ==_iff payload 0),
          ground (arith, x, y, ==_iff a 0, ==_iff payload 0),
        )

    -- In every such state with a weak reference, an upgrade of it gives NULL and changes nothing where
    -- there is no owner, and the payload otherwise.
    pub upgrade_at_lem :
        {n m : ℕ} {s : WeakHeap}
        → Owners n (suc m) s
        → (n ≡ 0 → upgrade_at (handle a payload) s ≡ (0, s))
          × (n ≢ 0 → (upgrade_at (handle a payload) s).0 ≡ payload)
    unfolding upgrade_at
    upgrade_at_lem {n = zero} o =
        let (x, y) = Owners-block_of o in (λ z. ground (arith, x, na, np), λ ne. absurd (ne refl))
    upgrade_at_lem {n = suc n} o =
        let (x, y) = Owners-block_of o in
        let (few, few_weak) = Owners-bounds o in
        (λ z. absurd (omega arith), λ ne. ground (arith, x, na, np, few))

    -- A weak reference of the block is alive exactly where there is an owner, and the two counts that
    -- it tells are those of the owners and of the weak references.
    pub weak_counts :
        {n m : ℕ} {s : WeakHeap}
        → Owners n (suc m) s
        → (oo_weak_is_alive s (handle a payload) ≡ ltb 0 n)
          × (oo_weak_strong_count s (handle a payload) ≡ n)
          × (oo_weak_weak_count s (handle a payload) ≡ suc m)
    unfolding oo_weak_is_alive oo_weak_strong_count oo_weak_weak_count
    weak_counts {n = zero} o =
        let (x, y) = Owners-block_of o in
        (ground (arith, x, na), ground (arith, x, na), ground (arith, x, na))
    weak_counts {n = suc n} o =
        let (x, y) = Owners-block_of o in
        (ground (arith, x, na), ground (arith, x, na), ground (arith, x, na))

    -- In every such state without an owner but with a weak reference, one more release makes the block
    -- look alive to it.
    pub released_twice :
        {m : ℕ} {s : WeakHeap}
        → Owners 0 (suc m) s
        → oo_weak_is_alive (release_at a payload s) (handle a payload) ≡ true
    unfolding oo_weak_is_alive release_at
    released_twice o = let (x, y) = Owners-block_of o in ground (arith, x, na, ==_iff a a)
