-- ===== src/Mem/Alloc/Tests.antt =====
-- Runs of the heap, and the instances of its theorems.
use oodar.Base.{
  ℕ, ◌+◌, ◌≤◌, ◌<◌, ◌≡◌, ◌≢◌, refl, arith, [], ◌∷◌, some, set, replicate, ◌⊎◌, pos, returns, exits,
}
use oodar.Cap.Tokens.{CapKind}
use oodar.Cap.Sample.{counted, counted_opens}
use oodar.Mem.Alloc.{
  OoRawAllocHeader, RawHeap, total_for, header_of, alloc_find_locked, find_in, oo_alloc, oo_free,
  oo_write_int, oo_read_int, access, put_word, alloc_block, unlink, unlinked,
}
use oodar.Mem.Alloc.Ledger.{Charged, placed, oo_alloc_charges, oo_free_charges, oo_free-oo_alloc}
use oodar.Mem.Alloc.Access.{write_inside, oo_read_int-oo_write_int}

-- A quota of 1000 bytes, 200 of them charged by lists.
abbrev fresh : RawHeap
fresh = record { quota = 1000; bytes = 200; table = replicate 1024 []; mem = λ a. 7 }

abbrev key : ℕ
key = counted.token CapKind.alloc

-- One block of 100 bytes behind 4096.
abbrev one_block : RawHeap
one_block = record {
  quota = 1000;
  bytes = 360;
  table = set (replicate 1024 []) 259 (header_of 4096 100 ∷ []);
  mem = λ a. 7;
}

fresh-Charged : Charged 200 fresh
fresh-Charged = record { chains = refl; balance = refl }

one_block-Charged : Charged 200 one_block
unfolding total_for
one_block-Charged = record { chains = refl; balance = refl }

rounds_up : total_for 100 ≡ 160
unfolding total_for
rounds_up = refl

allocates : oo_alloc counted key (pos 100) (some 4096) fresh ≡ returns (4144, placed 4096 100 fresh)
unfolding oo_alloc alloc_block total_for
allocates = rw (counted_opens CapKind.alloc) refl

frees :
    oo_free counted key 4144 one_block
    ≡ returns (record one_block { bytes = 200; table = set one_block.table 259 [] })
unfolding oo_free unlink unlinked total_for
frees = rw (counted_opens CapKind.alloc) refl

writes :
    oo_write_int counted key 4144 (pos 92) 5 one_block
    ≡ returns (record one_block { mem = put_word one_block.mem 4236 5 })
unfolding oo_write_int access alloc_find_locked find_in
writes = rw (counted_opens CapKind.alloc) refl

-- The last eight bytes start at 92.
write_refused : oo_write_int counted key 4144 (pos 93) 5 one_block ≡ exits 1
unfolding oo_write_int access alloc_find_locked find_in
write_refused = rw (counted_opens CapKind.alloc) refl

oo_alloc_charges_example :
    Charged 200 (placed 4096 100 fresh)
    × (◌≢◌ {A = ℕ} 4144 0 → (placed 4096 100 fresh).bytes ≤ (placed 4096 100 fresh).quota)
oo_alloc_charges_example =
    oo_alloc_charges counted key 200 4144 (pos 100) (some 4096) fresh fresh-Charged allocates

oo_free_charges_test :
    Charged 200 (record one_block { bytes = 200; table = set one_block.table 259 [] })
    × (◌≤◌ 200 360)
oo_free_charges_test = oo_free_charges counted key 200 4144 one_block one_block-Charged frees

oo_free-oo_alloc_test :
    (s1 : RawHeap) × (oo_alloc counted key (pos 100) (some 4096) fresh ≡ returns (4096 + 48, s1))
    × (s2 : RawHeap) × (oo_free counted key (4096 + 48) s1 ≡ returns s2)
    × (s2.bytes ≡ fresh.bytes)
    × (s2.table ≡ fresh.table)
    × (s2.quota ≡ fresh.quota)
unfolding total_for
oo_free-oo_alloc_test =
    oo_free-oo_alloc counted key 100 4096 fresh (counted_opens CapKind.alloc) (omega arith)
      (omega arith) (omega arith) refl

write_inside_example :
    (o : ℕ) × (h : OoRawAllocHeader) × (pos 92 ≡ pos o)
    × (alloc_find_locked one_block 4144 ≡ some h)
    × (h.user_ptr ≡ 4144)
    × (o + 8 ≤ h.block_size)
    × ((j : ℕ)
        → (j < 4144 + o) ⊎ (4144 + o + 8 ≤ j)
        → put_word one_block.mem 4236 5 j ≡ one_block.mem j)
    × (one_block.table ≡ one_block.table)
    × (one_block.bytes ≡ one_block.bytes)
    × (one_block.quota ≡ one_block.quota)
write_inside_example = write_inside counted key 4144 5 (pos 92) one_block writes

oo_read_int-oo_write_int_test :
    oo_read_int counted key 4144 (pos 92) (record one_block { mem = put_word one_block.mem 4236 5 })
    ≡ returns 5
oo_read_int-oo_write_int_test =
    oo_read_int-oo_write_int counted key 4144 5 (pos 92) one_block (omega arith) writes
