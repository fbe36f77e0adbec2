-- ===== src/Mem/Weak/Tests.antt =====
-- Runs of the weak references, and the instances of their theorems.
use oodar.Base.{ℕ, ◌≡◌, ◌≢◌, arith, true, none, some, [], ◌∷◌}
use oodar.Mem.Weak.{
  WeakHeap, create_at, release_at, weak_create_at, retain_at, upgrade_at, oo_weak_is_alive,
}
use oodar.Mem.Weak.Counts.{
  Owners, created, retained, released, weakened, handle, block_of, ran_of, Owners-block_of,
  upgrade_at_lem, released_twice,
}
use oodar.Mem.Weak.Drain.{release_owners, release_references, release_owners-drains}

abbrev nothing : WeakHeap
nothing = record { ctrl = λ a. none; ran = [] }

-- A block at 32 for the payload 96 with the destructor 1, a second owner and a weak reference.
abbrev held : WeakHeap
held = (weak_create_at 96 32 (retain_at 32 (create_at 32 (some 1) nothing).1)).1

held-Owners : Owners 32 96 (some 1) nothing 2 1 held
held-Owners = weakened (retained created (omega arith)) (omega arith)

-- The owners are gone.
abbrev orphaned : WeakHeap
orphaned = release_at 32 96 (release_at 32 96 held)

orphaned-Owners : Owners 32 96 (some 1) nothing 0 1 orphaned
orphaned-Owners = released (released held-Owners)

Owners-block_of_example :
    (orphaned.ctrl 32 ≡ block_of 32 96 (some 1) nothing 0 1)
    × (orphaned.ran ≡ ran_of 32 96 (some 1) nothing 0)
Owners-block_of_example =
    Owners-block_of 32 96 (some 1) nothing (λ e. omega (arith, e)) (λ e. omega (arith, e))
      orphaned-Owners

upgrade_at_lem_test :
    (◌≡◌ {A = ℕ} 0 0 → upgrade_at (handle 32 96) orphaned ≡ (0, orphaned))
    × (◌≢◌ {A = ℕ} 0 0 → (upgrade_at (handle 32 96) orphaned).0 ≡ 96)
upgrade_at_lem_test =
    upgrade_at_lem 32 96 (some 1) nothing (λ e. omega (arith, e)) (λ e. omega (arith, e))
      orphaned-Owners

released_twice_test : oo_weak_is_alive (release_at 32 96 orphaned) (handle 32 96) ≡ true
released_twice_test =
    released_twice 32 96 (some 1) nothing (λ e. omega (arith, e)) (λ e. omega (arith, e))
      orphaned-Owners

release_owners-drains_test :
    ((release_references 32 96 1 (release_owners 32 96 2 held)).ctrl 32 ≡ none)
    × ((release_references 32 96 1 (release_owners 32 96 2 held)).ran ≡ (1, 96) ∷ [])
release_owners-drains_test =
    release_owners-drains 32 96 (some 1) nothing 2 1 held (λ e. omega (arith, e))
      (λ e. omega (arith, e)) held-Owners
