-- ===== src/Lists/Tests.antt =====
-- Runs of the list operations, and the instances of their theorems.
use oodar.Base.{
  ℕ, ◌+◌, ◌*◌, ◌^◌, ◌<◌, ◌≤◌, ◌≡◌, ◌≢◌, refl, arith, false, none, some, pos, ℤ, [], ◌∷◌, ◌++◌,
}
use oodar.Base.{
  Run, returns, exits, aborts, ◌==◌, if◌then◌else◌, set, take, drop, get_elem?, subst,
  returns-injective,
}
use oodar.Lists.{Ledger, OoListBlock, OoList, Lists, put, list_new, oo_list_hdr_ok, oo_list_owned}
use oodar.Lists.Payload.{
  Given, oo_list_alloc_payload, over_quota, oo_list_retain, oo_list_release, each, dispose, dropped,
  releasable,
}
use oodar.Lists.Ops.{
  grow, new_capacity, index, push_in_place, push_copied, oo_list_push, oo_list_get, set_in_place,
  set_copied, set_at, each_but, oo_list_set,
}
use oodar.Lists.Slice.{slice_loop, oo_list_slice}
use oodar.Lists.Slice.Laws.{Fresh, oo_list_slice_lem}
use oodar.Lists.Holds.{listed, live}
use oodar.Lists.Push.{oo_list_push_lem}
use oodar.Lists.Set.{oo_list_set_lem}
use oodar.Lists.Count.{Counted, oo_list_get_lem}
use oodar.Lists.Quota.{alloc_charged, Balanced, release-alloc}
use oodar.Lists.Kinds.{ilist, ll, arena_get_counts, release-push_new}
use oodar.Mem.Layout.{oo_list_block_bytes}

abbrev outcome : {A : Type 0} → A → Run A → A
outcome d (returns a) = a
outcome d (exits n) = d
outcome d aborts = d

-- New payloads of the heap, 1024 apart.
abbrev given : ℕ → Given ℕ
given i = record { in_arena = false; addr = 4096 + 1024 * i; items = λ j. 0 }

abbrev numbers : OoListBlock ℕ
numbers = record { ref_count = 2; flags = 0; items = λ j. j + 5 }

-- A list 5, 6, 7 with two owners.
abbrev store : Ledger × Lists ℕ (Unit {0})
store = (
  record { quota = 4096; bytes = 128 },
  record { block = λ a. if a == 64 then some numbers else none; held = tt },
)

abbrev shared : OoList
shared = record { addr = 64; len = 3; capacity = 8 }

abbrev after_push : OoList × (Ledger × Lists ℕ (Unit {0}))
unfolding oo_list_push push_in_place push_copied new_capacity grow oo_list_alloc_payload over_quota
    oo_list_block_bytes oo_list_owned oo_list_retain each
after_push = outcome (list_new, store) (oo_list_push ilist (given 0) shared 9 store)

oo_list_push_lem_example :
    (listed after_push.1.1.block after_push.0 ≡ listed store.1.block shared ++ (9 ∷ []))
    × (listed after_push.1.1.block shared ≡ listed store.1.block shared)
    × ((a : ℕ) → a ≢ 64 → a ≢ 4096 → after_push.1.1.block a ≡ store.1.block a)
unfolding oo_list_push push_in_place push_copied new_capacity grow oo_list_alloc_payload over_quota
    oo_list_block_bytes oo_list_owned oo_list_retain each after_push
oo_list_push_lem_example =
    oo_list_push_lem ilist (given 0) shared 9 store after_push
      (live numbers (λ e. omega (arith, e)) refl) (λ e. omega (arith, e)) refl

abbrev after_set : OoList × (Ledger × Lists ℕ (Unit {0}))
unfolding oo_list_set set_at set_in_place set_copied oo_list_alloc_payload over_quota
    oo_list_block_bytes oo_list_owned oo_list_retain each_but
after_set = outcome (list_new, store) (oo_list_set ilist (given 0) shared (pos 1) 9 store)

oo_list_set_lem_example :
    (listed after_set.1.1.block after_set.0 ≡ set (listed store.1.block shared) 1 9)
    × (oo_list_owned store.1.block 64 ≡ false
        → listed after_set.1.1.block shared ≡ listed store.1.block shared)
    × ((a : ℕ) → a ≢ 64 → a ≢ 4096 → after_set.1.1.block a ≡ store.1.block a)
unfolding oo_list_set set_at set_in_place set_copied oo_list_alloc_payload over_quota
    oo_list_block_bytes oo_list_owned oo_list_retain each_but after_set
oo_list_set_lem_example =
    oo_list_set_lem ilist (given 0) shared 1 9 store after_set (omega arith)
      (live numbers (λ e. omega (arith, e)) refl) (λ e. omega (arith, e)) refl

abbrev counted_twice : Counted ilist store shared 2
unfolding oo_list_hdr_ok
counted_twice = record { checks = refl; b = numbers; found = refl; counts = refl }

oo_list_get_lem_example :
    ((k : ℕ)
      → k < 3
      → (t : Ledger × Lists ℕ (Unit {0})) × ((oo_list_get ilist shared (pos k) store
            ≡ returns (k + 5, t))
          × (get_elem? (listed store.1.block shared) k ≡ some (k + 5))
          × ((a : ℕ) → t.1.block a ≡ store.1.block a)
          × (◌≡◌ {A = Ledger × Unit {0}} (t.0, t.1.held) (store.0, tt))))
    × ((i : ℤ) → index i 3 ≡ none → oo_list_get ilist shared i store ≡ exits 1)
unfolding counted_twice
oo_list_get_lem_example = oo_list_get_lem ilist store shared 2 counted_twice (omega arith)

-- The two pushes of the slice below: the first one takes a payload, the second finds room in it.
given-Fresh : Fresh ilist given shared 1 2 list_new store
unfolding Fresh oo_list_push push_in_place push_copied new_capacity grow oo_list_alloc_payload
    over_quota oo_list_block_bytes oo_list_owned oo_list_retain each oo_list_release releasable
    dropped dispose oo_list_hdr_ok
given-Fresh = (
  λ e. omega (arith, e),
  refl,
  λ p pushed.
      subst (λ p. Fresh ilist given shared 2 1 p.0 (oo_list_release ilist list_new p.1))
        (returns-injective pushed) (λ e. omega (arith, e), refl, λ p e. tt),
)

abbrev after_slice : OoList × (Ledger × Lists ℕ (Unit {0}))
unfolding oo_list_slice slice_loop oo_list_push push_in_place push_copied new_capacity grow
    oo_list_alloc_payload over_quota oo_list_block_bytes oo_list_owned oo_list_retain each
    oo_list_release releasable dropped dispose oo_list_hdr_ok
after_slice = outcome (list_new, store) (oo_list_slice ilist given shared (pos 1) (pos 9) store)

oo_list_slice_lem_example :
    (listed after_slice.1.1.block after_slice.0 ≡ take 2 (drop 1 (listed store.1.block shared)))
    × (listed after_slice.1.1.block shared ≡ listed store.1.block shared)
unfolding oo_list_slice slice_loop oo_list_push push_in_place push_copied new_capacity grow
    oo_list_alloc_payload over_quota oo_list_block_bytes oo_list_owned oo_list_retain each
    oo_list_release releasable dropped dispose oo_list_hdr_ok after_slice
oo_list_slice_lem_example =
    oo_list_slice_lem ilist given shared numbers (λ e. cc) (pos 1) (pos 9) store after_slice
      given-Fresh (λ e. omega (arith, e)) refl refl

alloc_charged_test :
    (4096 < 128 + (64 + 8 * 16) → oo_list_alloc_payload 8 16 (given 0) store ≡ exits 1)
    × (128 + (64 + 16 * 8) ≤ 4096
        → oo_list_alloc_payload 8 16 (given 0) store
          ≡ returns (
            4096,
            put 4096
                (some (record { ref_count = 1; flags = 0; items = λ j. 0 }))
                (record { quota = 4096; bytes = 128 + (64 + 16 * 8) }, store.1),
          ))
alloc_charged_test =
    alloc_charged 8 16 (given 0) store refl (λ e. omega (arith, e)) refl (omega arith) (omega arith)

-- A payload for 16 elements of 8 bytes: 192 bytes are charged.
abbrev sixteen : ℕ × (Ledger × Lists ℕ (Unit {0}))
sixteen = (
  4096,
  put 4096 (some (record { ref_count = 1; flags = 0; items = λ j. 0 }))
      (record { quota = 4096; bytes = 320 }, store.1),
)

sixteen_bounds : (16 ≤ 2 ^ 28) × (16 ≤ 4096) × (4096 < 2 ^ 63) × (128 < 2 ^ 63)
sixteen_bounds = (omega arith, omega arith, omega arith, omega arith)

release-alloc_example :
    Balanced ilist 16
      (given 0)
      store
      sixteen_bounds.0
      sixteen_bounds.1
      sixteen_bounds.2
      sixteen_bounds.3
      (λ e. refl)
      sixteen
release-alloc_example =
    release-alloc ilist 16 (given 0) store sixteen_bounds.0 sixteen_bounds.1 sixteen_bounds.2
      sixteen_bounds.3 (λ e. refl) sixteen
      (unfold oo_list_alloc_payload over_quota oo_list_block_bytes in refl)

abbrev in_arena : OoListBlock OoList
in_arena = record { ref_count = 1; flags = 2; items = λ j. shared }

abbrev nested : Ledger × Lists OoList (Lists ℕ (Unit {0}))
nested = (store.0, record { block = λ a. if a == 640 then some in_arena else none; held = store.1 })

abbrev outer : OoList
outer = record { addr = 640; len = 1; capacity = 8 }

arena_get_counts_test :
    (t : Ledger × Lists OoList (Lists ℕ (Unit {0}))) × (oo_list_get (ll ilist) outer (pos 0) nested
      ≡ returns (shared, t))
    × (t.1.block 640 ≡ some (record { ref_count = 2; flags = 2; items = λ j. shared }))
arena_get_counts_test =
    arena_get_counts ilist nested outer in_arena 0 (λ e. omega (arith, e)) refl refl
      (λ e. omega (arith, e)) (omega arith) (omega arith)

release-push_new_test :
    (r : OoList × (Ledger × Lists ℕ (Unit {0}))) × (oo_list_push ilist (given 0) list_new 7 store
      ≡ returns r)
    × (r.1.0.bytes ≡ 256)
    × ((oo_list_release ilist r.0 r.1).0.bytes ≡ 128)
    × ((oo_list_release ilist r.0 r.1).1.block r.0.addr ≡ none)
release-push_new_test =
    release-push_new (given 0) 7 store refl (omega arith) (omega arith) (omega arith)
