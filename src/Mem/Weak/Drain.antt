-- ===== src/Mem/Weak/Drain.antt =====
-- Every owner and every weak reference releases in the end.
use oodar.Base.{ℕ, zero, suc, ◌≡◌, ◌≢◌, Option, none}
use oodar.Mem.Weak.{WeakHeap, release_at, weak_release_at, run_dtor}
use oodar.Mem.Weak.Counts.{Owners, released, weak_released, handle, Owners-block_of}

module _ (a payload : ℕ) where
  pub release_owners : ℕ → WeakHeap → WeakHeap
  release_owners zero s = s
  release_owners (suc n) s = release_owners n (release_at a payload s)

  pub release_references : ℕ → WeakHeap → WeakHeap
  release_references zero s = s
  release_references (suc m) s = release_references m (weak_release_at (handle a payload) s).1

  module _ (dtor : Option ℕ) (start : WeakHeap) where
    owners_gone :
        (n m : ℕ) (s : WeakHeap)
        → Owners a payload dtor start n m s
        → Owners a payload dtor start 0 m (release_owners n s)
    unfolding release_owners
    owners_gone zero m s o = o
    owners_gone (suc n) m s o = owners_gone n m (release_at a payload s) (released o)

    references_gone :
        (m : ℕ) (s : WeakHeap)
        → Owners a payload dtor start 0 m s
        → Owners a payload dtor start 0 0 (release_references m s)
    unfolding release_references
    references_gone zero s o = o
    references_gone (suc m) s o =
        references_gone m (weak_release_at (handle a payload) s).1 (weak_released o)

    -- From every state of n owners and m weak references of a block: once each of them has released,
    -- the owners first, the block is freed, and its destructor ran exactly once.
    pub release_owners-drains :
        (n m : ℕ) (s : WeakHeap)
        → a ≢ 0
        → payload ≢ 0
        → Owners a payload dtor start n m s
        → ((release_references m (release_owners n s)).ctrl a ≡ none)
          × ((release_references m (release_owners n s)).ran ≡ run_dtor dtor payload start.ran)
    release_owners-drains n m s na np o =
        Owners-block_of a payload dtor start na np
          (references_gone m (release_owners n s) (owners_gone n m s o))
