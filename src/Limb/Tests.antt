-- ===== src/Limb/Tests.antt =====
-- Runs of the limb primitives, and the instances of their theorems.
use oodar.Base.{ℕ, ◌≡◌, refl, ◌^◌, ◌-◌, ◌+◌, ◌*◌, ◌≤◌, ◌<◌, ◌↔◌, arith, pos, negsuc}
use oodar.Limb.{bit, oo_limb_add, oo_limb_sub, oo_limb_mul, oo_limb_div, oo_limb_cmp}
use oodar.Limb.Laws.{add_exact, sub_exact, mul_exact, div_exact, div-mul, cmp_order}

abbrev top : ℕ
top = 2 ^ 64 - 1

add_carries : oo_limb_add top 1 5 ≡ (1, 1)
unfolding oo_limb_add
add_carries = refl

sub_borrows : oo_limb_sub 0 1 0 ≡ (top, 1)
unfolding oo_limb_sub
sub_borrows = refl

add_exact_test :
    let (r, cout) = oo_limb_add top 1 5 in
    (cout * 2 ^ 64 + r ≡ top + 1 + bit 5) × (cout ≤ 1) × (r < 2 ^ 64)
add_exact_test = add_exact top 1 5 (omega arith) (omega arith)

sub_exact_test :
    let (r, bout) = oo_limb_sub 0 1 0 in
    (r + 1 + bit 0 ≡ 0 + bout * 2 ^ 64) × (bout ≤ 1) × (r < 2 ^ 64)
sub_exact_test = sub_exact 0 1 0 (omega arith) (omega arith)

mul_exact_test :
    let (lo, hi) = oo_limb_mul top top top in
    (hi * 2 ^ 64 + lo ≡ top * top + top) × (hi < 2 ^ 64) × (lo < 2 ^ 64)
mul_exact_test = mul_exact top top top (omega arith) (omega arith) (omega arith)

div_exact_test :
    let (q, r) = oo_limb_div 3 17 10 in (q * 10 + r ≡ 3 * 2 ^ 64 + 17) × (r < 10) × (q < 2 ^ 64)
div_exact_test = div_exact 3 17 10 (omega arith) (omega arith) (omega arith)

div-mul_test : let (lo, hi) = oo_limb_mul top 10 7 in oo_limb_div hi lo 10 ≡ (top, 7)
div-mul_test = div-mul top 10 7 (omega arith) (omega arith) (omega arith)

cmp_order_test :
    ((oo_limb_cmp 3 top ≡ negsuc 0) ↔ (3 < top))
    × ((oo_limb_cmp 3 top ≡ pos 0) ↔ (◌≡◌ {A = ℕ} 3 top))
    × ((oo_limb_cmp 3 top ≡ pos 1) ↔ (top < 3))
cmp_order_test = cmp_order 3 top
