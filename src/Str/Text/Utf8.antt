-- ===== src/Str/Text/Utf8.antt =====
-- Code points: `oo_chars_len`, `oo_char_at` and `oo_str_slice` of str_ops.c. The scans step by the
-- width that the first byte of a character announces; `skip` bytes of a character are still ahead.
-- `flagged` is the ASCII flag of the header, which the short ways look at. A null `data`, which each of
-- these functions refuses first, is not among the values here.
pub mod Laws
use Prim.Native.Nat.{bit_and}
use oodar.Base.{ℕ, zero, suc, ◌+◌, ◌-◌, ltb, leb, ◌==◌, if◌then◌else◌, ◌&&◌, ◌||◌, not}
use oodar.Base.{
  Bool, true, false, List, [], ◌∷◌, length, take, drop, get_or, ℤ, pos, negsuc, Option, none, some,
  Run, returns, exits,
}

-- `(c < 0x80) ? 1 : (((c & 0xE0) == 0xC0) ? 2 : (((c & 0xF0) == 0xE0) ? 3 : 4))`
unfoldable pub width : ℕ → ℕ
width c =
    if ltb c 0x80
    then 1
    else if bit_and c 0xE0 == 0xC0
    then 2
    else if bit_and c 0xF0 == 0xE0
    then 3
    else 4

-- `while (i < len) { i += width; n++; }`
pub count_chars : ℕ → ℕ → List ℕ → ℕ
unfolding width
count_chars skip n [] = n
count_chars (suc skip) n (c ∷ s) = count_chars skip n s
count_chars zero n (c ∷ s) = count_chars (width c - 1) (n + 1) s

-- The bytes below 0x80 in front, at most `limit` of them.
pub ascii_prefix : ℕ → List ℕ → ℕ
ascii_prefix zero s = 0
ascii_prefix (suc limit) [] = 0
ascii_prefix (suc limit) (c ∷ s) =
    let rest = ascii_prefix limit s in if ltb c 0x80 then suc rest else 0

pub oo_chars_len : Bool → List ℕ → ℕ
unfolding count_chars ascii_prefix
oo_chars_len flagged s =
    if flagged
    then length s
    else (let i = ascii_prefix (length s) s in
        if i == length s then length s else count_chars zero i (drop i s))

-- `while (i < len) { if (n == char_idx) return i; i += width; n++; } return n == char_idx ? i : -1`
pub index_loop : ℕ → ℕ → ℕ → ℕ → List ℕ → Option ℕ
unfolding width
index_loop char_idx skip n i [] = if n == char_idx then some (i + skip) else none
index_loop char_idx (suc skip) n i (c ∷ s) = index_loop char_idx skip n (i + 1) s
index_loop char_idx zero n i (c ∷ s) =
    let rest = index_loop char_idx (width c - 1) (n + 1) (i + 1) s in
    if n == char_idx then some i else rest

pub utf8_byte_index : Bool → List ℕ → ℤ → Option ℕ
unfolding index_loop ascii_prefix
utf8_byte_index flagged s (negsuc n) = none
utf8_byte_index flagged s (pos n) =
    if flagged || length s == 0
    then (if leb n (length s) then some n else none)
    else if ltb n (length s)
    then (let i = ascii_prefix n s in
        if i == n && ltb (get_or s i 0) 0x80 then some n else index_loop n zero i i (drop i s))
    else index_loop n zero 0 0 s

-- `if (c >= 0xF0) 4 else if (c >= 0xE0) 3 else if (c >= 0xC0) 2`, else 1
pub char_bytes : ℕ → ℕ
char_bytes c = if leb 0xF0 c then 4 else if leb 0xE0 c then 3 else if leb 0xC0 c then 2 else 1

-- The offset of the bytes that are copied, and their number. A text ends with a byte 0 behind it.
copied : List ℕ → Option ℕ → Run (ℕ × ℕ)
unfolding char_bytes
copied s none = exits 1
copied s (some b) = returns (b, char_bytes (get_or s b 0))

pub oo_char_at : Bool → List ℕ → ℤ → Run (ℕ × ℕ)
unfolding utf8_byte_index copied
oo_char_at flagged s idx = copied s (utf8_byte_index flagged s idx)

-- `while (i <= len)`: the offset at which `target` characters were passed; `none` where the last
-- character is cut off or there are fewer.
unfoldable pub offset_of : ℕ → ℕ → ℕ → ℕ → List ℕ → Option ℕ
unfolding width
offset_of target zero cp i [] = if cp == target then some i else none
offset_of target (suc skip) cp i [] = none
offset_of target (suc skip) cp i (c ∷ s) = offset_of target skip cp (i + 1) s
offset_of target zero cp i (c ∷ s) =
    let rest = offset_of target (width c - 1) (cp + 1) (i + 1) s in
    if cp == target then some i else rest

pub between : List ℕ → Option ℕ → Option ℕ → List ℕ
between s (some bs) (some be) = take (be - bs) (drop bs s)
between s _ _ = []

-- `start` and `end` are not negative from here on.
pub slice_chars : List ℕ → ℕ → ℕ → List ℕ
unfolding between offset_of ascii_prefix
slice_chars s start end =
    if length s == 0 || (ltb end start || ltb (length s) start)
    then []
    else if leb end (length s) && ascii_prefix end s == end
    then between s (some start) (some end)
    else between s (offset_of start zero 0 0 s) (offset_of end zero 0 0 s)

pub oo_str_slice : List ℕ → ℤ → ℤ → List ℕ
unfolding slice_chars
oo_str_slice s (pos start) (pos end) = slice_chars s start end
oo_str_slice s _ _ = []
