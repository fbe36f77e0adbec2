-- ===== src/Str/Ref/Tests.antt =====
-- Runs of retain and release, and the instances of their theorems.
use oodar.Base.{ℕ, suc, ◌≡◌, ◌≢◌, refl, arith, none, some, pos}
use oodar.Str.Ref.{OoStr, StrHeap, update, oo_str_hdr_ok, oo_str_retain, oo_str_release}
use oodar.Str.Ref.Laws.{Owned, release-retain, million_is_final, release_lem}

abbrev text : OoStr
text = record { addr = 64; len = pos 5 }

abbrev with_count : ℕ → StrHeap
with_count n = update (λ a. none) 64 (some (record { ref_count = n; flags = 0 }))

owned_twice : Owned (with_count 2) text 2
unfolding oo_str_hdr_ok
owned_twice = record {
  checks = refl;
  hd = record { ref_count = 2; flags = 0 };
  found = refl;
  counts = refl;
}

owned_a_million : Owned (with_count 1000000) text 1000000
unfolding oo_str_hdr_ok
owned_a_million = record {
  checks = refl;
  hd = record { ref_count = 1000000; flags = 0 };
  found = refl;
  counts = refl;
}

release-retain_test : oo_str_release (oo_str_retain (with_count 2) text) text 64 ≡ with_count 2 64
release-retain_test = release-retain (with_count 2) text 2 64 owned_twice (omega arith)

million_is_final_test :
    oo_str_release (oo_str_retain (with_count 1000000) text) text
    ≡ oo_str_retain (with_count 1000000) text
million_is_final_test = million_is_final (with_count 1000000) text owned_a_million

release_lem_test :
    (suc 0 ≡ 0 → oo_str_release (with_count 2) text 64 ≡ none)
    × (suc 0 ≢ 0
        → oo_str_release (with_count 2) text 64 ≡ some (record { ref_count = 1; flags = 0 }))
    × ((a : ℕ) → a ≢ 64 → oo_str_release (with_count 2) text a ≡ with_count 2 a)
unfolding owned_twice
release_lem_test = release_lem (with_count 2) text 1 owned_twice
