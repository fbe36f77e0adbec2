-- ===== src/Mem/Layout.antt =====
-- core/mem/arena_soa.c, arena_dod.c and the size rules of align.c. A `long long` total that overflows
-- is undefined in C; the layouts here are the exact sums.
pub mod Laws
mod Tests
use oodar.Base.{
  ℕ, zero, suc, ◌+◌, ◌-◌, ◌*◌, ◌/◌, ◌%◌, ◌^◌, ltb, leb, ◌==◌, if◌then◌else◌, ◌&&◌, ◌||◌, not,
}
use oodar.Base.{Bool, true, false, List, [], ◌∷◌, Option, none, some, ℤ, pos, negsuc}

-- `n > LLONG_MAX / 8` gives 0, as does a negative count.
pub oo_dod_layout : ℤ → ℕ
oo_dod_layout (negsuc n) = 0
oo_dod_layout (pos n) = if ltb ((2 ^ 63 - 1) / 8) n then 0 else n * 8

-- A mapping has whole pages, at least one and at most 4 GiB.
pub oo_mmap_size_ok : ℕ → Bool
oo_mmap_size_ok map_sz = not (ltb map_sz 4096 || ltb (2 ^ 32) map_sz) && (map_sz % 4096 == 0)

pub oo_payload_aligned : ℕ → Bool
oo_payload_aligned p = not (p == 0) && p % 64 == 0

unfoldable pub oo_list_block_bytes : ℤ → ℕ → ℕ
oo_list_block_bytes (negsuc n) elem = 0
oo_list_block_bytes (pos n) elem = if n == 0 then 0 else 64 + n * elem

-- `map_sz = (n + 4095) & ~4095UL`
pub page_round : ℕ → ℕ
page_round n = (n + 4095) % 2 ^ 64 / 4096 * 4096

-- The fields of a text that commas separate: the first, and the others.
pub fields : List ℕ → List ℕ × List (List ℕ)
fields [] = ([], [])
fields (c ∷ s) =
    let rest = fields s in if c == b',' then ([], rest.0 ∷ rest.1) else (c ∷ rest.0, rest.1)

-- What stands behind the last colon of a field.
pub after_colon : List ℕ → Option (List ℕ)
after_colon [] = none
after_colon (c ∷ s) = elim (after_colon s) [
  | some t ↦ some t
  | none ↦ if c == b':' then some s else none
]

-- The digits of a text as a number; other characters are passed over.
pub number : ℕ → List ℕ → ℕ
number v [] = v
number v (c ∷ s) = number (if leb b'0' c && leb c b'9' then v * 10 + (c - b'0') else v) s

-- A field without a number, or with the number 0, is 8 bytes; an empty one is none.
pub field_size : List ℕ → ℕ
unfolding after_colon number
field_size [] = 0
field_size (c ∷ s) = elim (after_colon (c ∷ s)) [
  | none ↦ 8
  | some t ↦ let v = number 0 t in if v == 0 then 8 else v
]

sizes : List (List ℕ) → ℕ
unfolding field_size
sizes [] = 0
sizes (f ∷ fs) = field_size f + sizes fs

pub oo_soa_layout : List ℕ → ℕ
unfolding fields field_size sizes
oo_soa_layout spec = let (f, fs) = fields spec in field_size f + sizes fs
