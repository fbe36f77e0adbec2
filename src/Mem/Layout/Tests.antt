-- ===== src/Mem/Layout/Tests.antt =====
-- Runs of the layouts, and the instances of their theorems.
use oodar.Base.{ℕ, ◌-◌, ◌^◌, ◌+◌, ◌≤◌, ◌<◌, ◌≡◌, refl, arith, true, List, [], ◌∷◌, ◌++◌, pos}
use oodar.Mem.Layout.{
  fields, after_colon, number, field_size, sizes, oo_soa_layout, oo_dod_layout, page_round,
  oo_mmap_size_ok,
}
use oodar.Mem.Layout.Laws.{soa_layout_comma, page_round_lem}

-- "x:24" and "y".
abbrev wide : List ℕ
wide = b'x' ∷ b':' ∷ b'2' ∷ b'4' ∷ []

abbrev bare : List ℕ
bare = b'y' ∷ []

row_of_32 : oo_soa_layout (wide ++ (b',' ∷ bare)) ≡ 32
unfolding oo_soa_layout fields after_colon number field_size sizes
row_of_32 = refl

dod_bound : (oo_dod_layout (pos (2 ^ 60)) ≡ 0) × (oo_dod_layout (pos (2 ^ 60 - 1)) ≡ 2 ^ 63 - 8)
unfolding oo_dod_layout
dod_bound = (refl, refl)

soa_layout_comma_test :
    oo_soa_layout (wide ++ (b',' ∷ bare)) ≡ oo_soa_layout wide + oo_soa_layout bare
soa_layout_comma_test = soa_layout_comma wide bare

page_round_lem_test :
    (oo_mmap_size_ok (page_round 1048640) ≡ true)
    × (1048640 ≤ page_round 1048640)
    × (page_round 1048640 < 1048640 + 4096)
page_round_lem_test = page_round_lem 1048640 (omega arith) (omega arith)
