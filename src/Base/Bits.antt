-- ===== src/Base/Bits.antt =====
-- `&` and `~` at every width, from the recursion on binary digits that the native operation means.
use Prim.Native.Nat.{
  ℕ, zero, suc, ◌+◌, ◌-◌, ◌*◌, ◌/◌, ◌%◌, ◌^◌, ◌≤◌, ◌<◌, min, bit_and, digits, bit_and-bitwise,
}
use mathlib.Core.Path.{◌≡◌, refl, ap, ◌∙◌}
use mathlib.Core.Logic.{◌↔◌}
use native.Mathlib.Nat.{pow-suc, one-le-pow}
use native.Mathlib.Omega.{arith}

-- `bit_and` with its fuel, which is the first number there.
abbrev common : ℕ → ℕ → ℕ → ℕ
common fuel = digits (λ y. 0) min fuel

one_more : (fuel a b : ℕ) → a ≤ fuel → common (suc fuel) a b ≡ common fuel a b
one_more zero zero b enough = refl
one_more zero (suc a) b enough = absurd (omega arith)
one_more (suc fuel) zero b enough = refl
one_more (suc fuel) (suc a) b enough =
    omega (arith, one_more fuel (suc a / 2) (b / 2) (omega arith))

more : (extra fuel all a b : ℕ) → a ≤ fuel → all ≡ extra + fuel → common all a b ≡ common fuel a b
more zero fuel all a b enough e = ap (λ n. common n a b) (omega arith)
more (suc extra) fuel zero a b enough e = absurd (omega arith)
more (suc extra) fuel (suc all) a b enough e =
    one_more all a b (omega arith) ∙ more extra fuel all a b enough (omega arith)

-- The lowest digit and the others, one by one.
pub bit_and-halves : (a b : ℕ) → bit_and a b ≡ 2 * bit_and (a / 2) (b / 2) + min (a % 2) (b % 2)
bit_and-halves zero b = omega (arith, bit_and-bitwise 0 (b / 2), bit_and-bitwise 0 b)
bit_and-halves (suc a) b =
    let half : ℕ = suc a / 2 in
    let same = more (a - half) half a half (b / 2) (omega arith) (omega arith) in
    omega (arith, same, bit_and-bitwise half (b / 2), bit_and-bitwise (suc a) b)

-- `~x` in `w` bits.
abbrev pub complement : ℕ → ℕ → ℕ
complement w x = 2 ^ w - 1 - x

-- No bit of `c` outside `p` says the same as `p & c == c`, at every width.
pub subset_iff :
    (w p c : ℕ) → p < 2 ^ w → c < 2 ^ w → (bit_and c (complement w p) ≡ 0) ↔ (bit_and p c ≡ c)
subset_iff zero p c hp hc =
    ground (arith, bit_and-halves p c, bit_and-halves c (complement 0 p), bit_and-bitwise 0 0)
subset_iff (suc w) p c hp hc = ground (
  arith,
  pow-suc 2 w,
  one-le-pow w 2,
  bit_and-halves p c,
  bit_and-halves c (complement (suc w) p),
  subset_iff w (p / 2) (c / 2) (omega (arith, pow-suc 2 w)) (omega (arith, pow-suc 2 w)),
)

-- Being a subset of the bits is transitive.
pub subset_trans :
    (w a b c : ℕ)
    → a < 2 ^ w
    → b < 2 ^ w
    → c < 2 ^ w
    → bit_and a b ≡ b
    → bit_and b c ≡ c
    → bit_and a c ≡ c
subset_trans zero a b c ha hb hc p q = ground (arith, bit_and-halves a c, bit_and-bitwise 0 0)
subset_trans (suc w) a b c ha hb hc p q = ground (
  arith,
  pow-suc 2 w,
  bit_and-halves a b,
  bit_and-halves b c,
  bit_and-halves a c,
  subset_trans w (a / 2) (b / 2) (c / 2) (omega (arith, pow-suc 2 w)) (omega (arith, pow-suc 2 w))
      (omega (arith, pow-suc 2 w)) (omega (arith, bit_and-halves a b))
      (omega (arith, bit_and-halves b c)),
)

-- A subset meets nothing that the set does not meet.
pub disjoint_mono :
    (w a b k : ℕ) → a < 2 ^ w → b < 2 ^ w → bit_and b a ≡ a → bit_and b k ≡ 0 → bit_and a k ≡ 0
disjoint_mono zero a b k ha hb p q = ground (arith, bit_and-halves a k, bit_and-bitwise 0 (k / 2))
disjoint_mono (suc w) a b k ha hb p q = ground (
  arith,
  pow-suc 2 w,
  bit_and-halves b a,
  bit_and-halves b k,
  bit_and-halves a k,
  disjoint_mono w (a / 2) (b / 2) (k / 2) (omega (arith, pow-suc 2 w)) (omega (arith, pow-suc 2 w))
      (omega (arith, bit_and-halves b a)) (omega (arith, bit_and-halves b k)),
)
