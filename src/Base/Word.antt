-- ===== src/Base/Word.antt =====
-- 64-bit unsigned arithmetic, with its wrap written out.
use Prim.Native.Nat.{ℕ, ◌+◌, ◌-◌, ◌*◌, ◌/◌, ◌%◌, ◌^◌}

abbrev pub u64 : ℕ → ℕ
u64 n = n % 2 ^ 64

abbrev pub add64 : ℕ → ℕ → ℕ
add64 a b = (a + b) % 2 ^ 64

abbrev pub sub64 : ℕ → ℕ → ℕ
sub64 a b = (a + 2 ^ 64 - b) % 2 ^ 64

-- `(x + 63) & ~63ULL`: the mask clears the six low bits.
abbrev pub align64 : ℕ → ℕ
align64 x = (x + 63) % 2 ^ 64 / 64 * 64
