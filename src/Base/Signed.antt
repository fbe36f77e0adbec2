-- ===== src/Base/Signed.antt =====
-- Signed integers over the native numbers, under the library's names: the `long long` values whose
-- sign the program looks at.
use Prim.Native.Nat.{ℕ, ◌-◌, ◌%◌, ◌^◌}
use mathlib.Core.Bool.{Bool, true, false}
use mathlib.Core.Option.{Option, none, some}
use package.oodar.Base.Tests.{ltb, leb, if◌then◌else◌}

-- `negsuc n` is -(n + 1).
pub data ℤ : Type 0 where
  pos : ℕ → ℤ
  negsuc : ℕ → ℤ

-- `x < 0`
abbrev pub is_negative : ℤ → Bool
is_negative (pos n) = false
is_negative (negsuc n) = true

-- A number that is not negative; 0 for one that is.
abbrev pub pos_part : ℤ → ℕ
pos_part (pos n) = n
pos_part (negsuc n) = 0

-- `k < x` for a constant `k ≥ 0`
abbrev pub above : ℕ → ℤ → Bool
above k (pos n) = ltb k n
above k (negsuc n) = false

-- `x <= 0`
abbrev pub is_nonpositive : ℤ → Bool
is_nonpositive (pos n) = leb n 0
is_nonpositive (negsuc n) = true

-- The bits of a `long long` that `(int)` keeps.
abbrev pub low_word : ℤ → ℕ
low_word (pos n) = n % 2 ^ 32
low_word (negsuc n) = 2 ^ 32 - 1 - n % 2 ^ 32

-- `int s = (int)x; if (s < 0 || s >= slots)`: the index, or `none` for the refusal.
abbrev pub slot_of : ℕ → ℤ → Option ℕ
slot_of slots x = if ltb (low_word x) slots then some (low_word x) else none
