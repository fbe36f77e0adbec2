-- ===== src/Str/Text.antt =====
-- core/str/str_ops.c, str_tok.c, str_from_int.c and the concatenation of str.c, as functions from
-- bytes to bytes. A string is the list of its bytes; a null `data` or a negative `len` is the empty
-- list. Whether a result was interned, taken over from the argument or copied does not show here.
pub mod Concat
pub mod Search
pub mod Split
pub mod Trim
pub mod Utf8
pub mod TokLine
mod Tests
use oodar.Base.{ℕ, zero, suc, ◌+◌, ◌-◌, ltb, leb, ◌==◌, if◌then◌else◌, ◌&&◌, ◌||◌, not}
use oodar.Base.{◌≡◌, refl, ap, ap₂, arith, ==_iff}
use oodar.Base.{Bool, true, false, List, [], ◌∷◌, length, take, drop, ℤ, pos, negsuc, min, pos_part}

-- `memcmp(a, b, n) == 0` where both have `n` bytes.
unfoldable pub bytes_equal : List ℕ → List ℕ → Bool
bytes_equal [] [] = true
bytes_equal [] (y ∷ ys) = false
bytes_equal (x ∷ xs) [] = false
bytes_equal (x ∷ xs) (y ∷ ys) = x == y && bytes_equal xs ys

pub bytes_equal_same : (a : List ℕ) → bytes_equal a a ≡ true
unfolding bytes_equal
bytes_equal_same [] = refl
bytes_equal_same (c ∷ a) = ground (arith, bytes_equal_same a, ==_iff c c)

pub bytes_equal_eq : (a b : List ℕ) → bytes_equal a b ≡ true → a ≡ b
unfolding bytes_equal
bytes_equal_eq [] [] h = refl
bytes_equal_eq [] (y ∷ b) h = cc
bytes_equal_eq (x ∷ a) [] h = cc
bytes_equal_eq (x ∷ a) (y ∷ b) h =
    ap₂ ◌∷◌ (ground (arith, h, ==_iff x y)) (bytes_equal_eq a b (ground (arith, h)))

pub oo_str_eq : List ℕ → List ℕ → Bool
unfolding bytes_equal
oo_str_eq a b = length a == length b && bytes_equal a b

pub oo_str_starts_with : List ℕ → List ℕ → Bool
unfolding bytes_equal
oo_str_starts_with s pre =
    if length pre == 0
    then true
    else if ltb (length s) (length pre)
    then false
    else bytes_equal (take (length pre) s) pre

pub oo_str_ends_with : List ℕ → List ℕ → Bool
unfolding bytes_equal
oo_str_ends_with s suf =
    if length suf == 0
    then true
    else if ltb (length s) (length suf)
    then false
    else bytes_equal (drop (length s - length suf) s) suf

-- `none` is the -1 of an index out of range.
pub oo_byte_at : List ℕ → ℤ → ℤ
oo_byte_at s (negsuc n) = negsuc 0
oo_byte_at [] (pos i) = negsuc 0
oo_byte_at (c ∷ s) (pos zero) = pos c
oo_byte_at (c ∷ s) (pos (suc i)) = oo_byte_at s (pos i)

pub oo_ord : List ℕ → ℤ
unfolding oo_byte_at
oo_ord s = oo_byte_at s (pos 0)

-- A start below 0 is 0, and an end beyond the length is the length.
pub oo_byte_slice : List ℕ → ℤ → ℤ → List ℕ
oo_byte_slice s start (negsuc n) = []
oo_byte_slice s start (pos n) =
    let lo = pos_part start in
    let hi = min n (length s) in
    if ltb hi lo || leb (length s) lo then [] else take (hi - lo) (drop lo s)
