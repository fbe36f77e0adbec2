-- ===== src/Limb.antt =====
-- core/math/math.c, the multi-limb primitives. A `long long` that the code casts to `unsigned long
-- long` at once is its bit pattern, a number below 2 ^ 64; `unsigned __int128` arithmetic wraps at
-- 2 ^ 128. The results are pairs: the returned limb, then what goes through the pointer.
pub mod Laws
mod Tests
use oodar.Base.{ℕ, ◌+◌, ◌-◌, ◌*◌, ◌/◌, ◌%◌, ◌^◌, ltb, ◌==◌, if◌then◌else◌}
use oodar.Base.{ℤ, pos, negsuc}

abbrev u128 : ℕ → ℕ
u128 n = n % 2 ^ 128

-- `x ? 1 : 0`
abbrev pub bit : ℕ → ℕ
bit x = if x == 0 then 0 else 1

pub oo_limb_add : ℕ → ℕ → ℕ → ℕ × ℕ
oo_limb_add a b cin = let sum = u128 (u128 (a + b) + bit cin) in (sum % 2 ^ 64, sum / 2 ^ 64)

pub oo_limb_sub : ℕ → ℕ → ℕ → ℕ × ℕ
oo_limb_sub a b bin =
    let diff = u128 (u128 (a + 2 ^ 128 - b) + 2 ^ 128 - bit bin) in
    (diff % 2 ^ 64, bit (diff / 2 ^ 64))

pub oo_limb_mul : ℕ → ℕ → ℕ → ℕ × ℕ
oo_limb_mul a b cin = let prod = u128 (u128 (a * b) + cin) in (prod % 2 ^ 64, prod / 2 ^ 64)

-- `(hi << 64) | lo` is a sum, since `lo` fits the 64 bits that the shift clears.
pub oo_limb_div : ℕ → ℕ → ℕ → ℕ × ℕ
oo_limb_div hi lo divisor =
    if divisor == 0
    then (0, 0)
    else (let num = hi * 2 ^ 64 + lo in (num / divisor % 2 ^ 64, num % divisor % 2 ^ 64))

pub oo_limb_cmp : ℕ → ℕ → ℤ
oo_limb_cmp a b = if ltb a b then negsuc 0 else if ltb b a then pos 1 else pos 0
