-- ===== src/Limb/Laws.antt =====
-- What a limb and its carry, borrow, high half or remainder amount to.
use oodar.Base.{ℕ, ◌+◌, ◌*◌, ◌/◌, ◌%◌, ◌^◌, ◌≤◌, ◌<◌, ◌≡◌, ◌↔◌, ap, arith, negsuc, pos}
use native.Mathlib.Nat.{
  mod-lt, mod-eq_of_lt, div-add-mod', div-eq_of_lt, mul-add-div_right, mul-add-mod_self_right,
  div-lt_iff_lt-mul,
}
use oodar.Limb.{bit, oo_limb_add, oo_limb_sub, oo_limb_mul, oo_limb_div, oo_limb_cmp}

-- For limbs below 2^64 and any carry in, the limb and its carry are the whole sum, the carry is 0
-- or 1, and the limb fits.
pub add_exact :
    (a b cin : ℕ)
    → a < 2 ^ 64
    → b < 2 ^ 64
    → let (r, cout) = oo_limb_add a b cin in
      (cout * 2 ^ 64 + r ≡ a + b + bit cin) × (cout ≤ 1) × (r < 2 ^ 64)
unfolding oo_limb_add
add_exact a b cin ha hb = ground arith

-- For limbs below 2^64 and any borrow in, the limb and its borrow are the whole difference, the
-- borrow is 0 or 1, and the limb fits.
pub sub_exact :
    (a b bin : ℕ)
    → a < 2 ^ 64
    → b < 2 ^ 64
    → let (r, bout) = oo_limb_sub a b bin in
      (r + b + bit bin ≡ a + bout * 2 ^ 64) × (bout ≤ 1) × (r < 2 ^ 64)
unfolding oo_limb_sub
sub_exact a b bin ha hb = ground arith

mul_fits : (a b c : ℕ) → a < 2 ^ 64 → b < 2 ^ 64 → c < 2 ^ 64 → a * b + c < 2 ^ 128
mul_fits a b c ha hb hc = grind arith

-- For limbs and a carry below 2^64, the low and high halves are the whole product with the carry
-- added, and both fit a limb.
pub mul_exact :
    (a b cin : ℕ)
    → a < 2 ^ 64
    → b < 2 ^ 64
    → cin < 2 ^ 64
    → let (lo, hi) = oo_limb_mul a b cin in
      (hi * 2 ^ 64 + lo ≡ a * b + cin) × (hi < 2 ^ 64) × (lo < 2 ^ 64)
unfolding oo_limb_mul
mul_exact a b cin ha hb hc = omega (arith, mul_fits a b cin ha hb hc)

quotient_fits : (hi lo d : ℕ) → hi < d → lo < 2 ^ 64 → (hi * 2 ^ 64 + lo) / d < 2 ^ 64
quotient_fits hi lo d hh hl =
    (div-lt_iff_lt-mul {k = d} {x = hi * 2 ^ 64 + lo} {y = 2 ^ 64} (omega arith)).1 (omega arith)

-- With a high limb below the divisor, and the low limb and the divisor below 2^64, quotient and
-- remainder give the dividend back, the remainder is below the divisor, and the quotient fits a
-- limb.
pub div_exact :
    (hi lo divisor : ℕ)
    → hi < divisor
    → lo < 2 ^ 64
    → divisor < 2 ^ 64
    → let (q, r) = oo_limb_div hi lo divisor in
      (q * divisor + r ≡ hi * 2 ^ 64 + lo) × (r < divisor) × (q < 2 ^ 64)
unfolding oo_limb_div
div_exact hi lo divisor hh hl hd = ground (
  arith,
  quotient_fits hi lo divisor hh hl,
  mod-lt (hi * 2 ^ 64 + lo) {m = divisor} (omega arith),
  div-add-mod' (hi * 2 ^ 64 + lo) divisor,
  mod-eq_of_lt {n = (hi * 2 ^ 64 + lo) / divisor} {m = 2 ^ 64},
  mod-eq_of_lt {n = (hi * 2 ^ 64 + lo) % divisor} {m = 2 ^ 64},
)

-- For limbs below 2^64 and a carry below the second one, dividing their product with the carry by
-- the second gives the first and the carry back.
pub div-mul :
    (a b c : ℕ)
    → a < 2 ^ 64
    → b < 2 ^ 64
    → c < b
    → let (lo, hi) = oo_limb_mul a b c in oo_limb_div hi lo b ≡ (a, c)
unfolding oo_limb_div
div-mul a b c ha hb hc =
    let whole = mul_exact a b c ha hb (omega arith) in
    ground (
      arith,
      whole,
      ap (λ (n : ℕ). n / b) whole.0,
      ap (λ (n : ℕ). n % b) whole.0,
      mul-add-div_right {m = b} (omega arith) a c,
      mul-add-mod_self_right a b c,
      div-eq_of_lt hc,
      mod-eq_of_lt hc,
    )

-- The comparison is -1, 0 or 1 exactly where the first limb is below, equal to or above the second.
pub cmp_order :
    (a b : ℕ)
    → ((oo_limb_cmp a b ≡ negsuc 0) ↔ (a < b))
      × ((oo_limb_cmp a b ≡ pos 0) ↔ (a ≡ b))
      × ((oo_limb_cmp a b ≡ pos 1) ↔ (b < a))
unfolding oo_limb_cmp
cmp_order a b = ground arith
