-- ===== src/Gpu/Sizes.antt =====
-- The bins: a bin holds what was asked for, and is the smallest that does.
use oodar.Base.{
  ℕ, zero, suc, ◌+◌, ◌*◌, ◌^◌, ◌≡◌, ◌≤◌, ◌<◌, ◌⊎◌, inl, inr, refl, arith, ltb, if_elim, ap, ◌∙◌,
  sym, subst,
}
use native.Mathlib.Nat.{pow-suc}
use oodar.Gpu.{bin_loop, oo_gpu_size_to_bin, oo_gpu_bin_to_size}

-- The bin is below `bin + left`, its size holds `bytes` if the last one does, and the bin before it
-- does not.
record Fits (bytes last r : ℕ) : Type 0 where
  inside : r ≤ last
  covers : bytes ≤ 64 * 2 ^ last → bytes ≤ 64 * 2 ^ r
  least : (r ≡ 0) ⊎ (32 * 2 ^ r < bytes)

double : (bin : ℕ) → 2 ^ (bin + 1) ≡ 2 * 2 ^ bin
double bin = ap (λ (n : ℕ). 2 ^ n) (add_one bin) ∙ omega (arith, pow-suc 2 bin)
  where
    add_one : (n : ℕ) → n + 1 ≡ suc n
    add_one n = omega arith

bin_loop-Fits :
    (left bin cur bytes last : ℕ)
    → bin + left ≡ last
    → cur ≡ 64 * 2 ^ bin
    → (bin ≡ 0) ⊎ (32 * 2 ^ bin < bytes)
    → Fits bytes last (bin_loop left bin cur bytes)
unfolding bin_loop
bin_loop-Fits zero bin cur bytes last s e low =
    let same : bin ≡ last = omega arith in
    record {
      inside = omega arith;
      covers = λ h. subst (λ n. bytes ≤ 64 * 2 ^ n) (sym same) h;
      least = low;
    }
bin_loop-Fits (suc left) bin cur bytes last s e low =
    if_elim (Fits bytes last) (ltb cur bytes)
      (λ more.
        bin_loop-Fits left (bin + 1) (cur * 2) bytes last (omega arith) (omega (arith, double bin))
          (inr (ground (arith, double bin))))
      λ enough. record { inside = omega arith; covers = λ h. ground arith; least = low }

-- A request of up to 2^30 bytes gets one of the 32 bins, whose blocks have at least that size; and
-- unless it is the first bin, the blocks of the bin before are too small.
pub size_to_bin_lem :
    (bytes : ℕ)
    → bytes ≤ 2 ^ 30
    → (oo_gpu_size_to_bin bytes < 32)
      × (bytes ≤ oo_gpu_bin_to_size (oo_gpu_size_to_bin bytes))
      × ((oo_gpu_size_to_bin bytes ≡ 0)
          ⊎ (oo_gpu_bin_to_size (oo_gpu_size_to_bin bytes) < 2 * bytes))
unfolding oo_gpu_size_to_bin oo_gpu_bin_to_size
size_to_bin_lem bytes h =
    let f = bin_loop-Fits 31 0 64 bytes 31 refl refl (inl refl) in
    (
      omega (arith, f.inside),
      f.covers (omega arith),
      elim f.least [ inl z ↦ inl z | inr l ↦ inr (omega (arith, l)) ],
    )
