-- ===== src/Mem/Layout/Laws.antt =====
-- What the layouts amount to.
use oodar.Base.{ℕ, ◌+◌, ◌^◌, ◌≤◌, ◌<◌, ◌≡◌, refl, arith, ◌==◌}
use oodar.Base.{true, Bool-cases, inl, inr, List, [], ◌∷◌, ◌++◌}
use oodar.Mem.Layout.{fields, sizes, oo_soa_layout, page_round, oo_mmap_size_ok}

fields-append :
    (s t : List ℕ)
    → fields (s ++ (b',' ∷ t)) ≡ ((fields s).0, (fields s).1 ++ ((fields t).0 ∷ (fields t).1))
unfolding fields
fields-append [] t = refl
fields-append (c ∷ s) t = elim (Bool-cases (c == b',')) [
  | inl comma ↦ rw (comma, fields-append s t) refl
  | inr other ↦ rw (other, fields-append s t) refl
]

sizes-append : (fs gs : List (List ℕ)) → sizes (fs ++ gs) ≡ sizes fs + sizes gs
unfolding sizes
sizes-append [] gs = omega arith
sizes-append (f ∷ fs) gs = omega (arith, sizes-append fs gs)

-- A row whose fields are those of two texts takes the bytes of both: joining two texts with a comma
-- adds their layouts.
pub soa_layout_comma :
    (s t : List ℕ) → oo_soa_layout (s ++ (b',' ∷ t)) ≡ oo_soa_layout s + oo_soa_layout t
unfolding oo_soa_layout sizes
soa_layout_comma s t =
    rw (fields-append s t) (omega (arith, sizes-append (fields s).1 ((fields t).0 ∷ (fields t).1)))

-- The size that a large payload of at least one byte and at most 4 GiB is mapped with passes the test
-- that frees it, holds the payload, and wastes less than a page.
pub page_round_lem :
    (n : ℕ)
    → 0 < n
    → n ≤ 2 ^ 32
    → (oo_mmap_size_ok (page_round n) ≡ true) × (n ≤ page_round n) × (page_round n < n + 4096)
unfolding page_round oo_mmap_size_ok
page_round_lem n some_bytes small = ground arith
