-- ===== src/Str/Ref.antt =====
-- core/str/str.c: the reference count of a string payload. A heap gives the header that stands before
-- the payload at an address; nothing stands there once the payload was freed. The atomic operations
-- of one call are one step.
pub mod Laws
mod Tests
use oodar.Base.{ℕ, zero, suc, ◌+◌, ◌-◌, ◌%◌, ◌^◌, ltb, leb, ◌==◌, if◌then◌else◌, ◌&&◌, ◌||◌, not}
use oodar.Base.{Bool, true, false, Option, none, some, ℤ, pos, negsuc, List, [], ◌∷◌}

pub record OoStrHeader : Type 0 where
  pub ref_count : ℕ
  pub flags : ℕ

-- The address of the payload, 0 for NULL, and the length.
pub record OoStr : Type 0 where
  pub addr : ℕ
  pub len : ℤ

abbrev pub StrHeap : Type 0
StrHeap = ℕ → Option OoStrHeader

-- Writes, or frees, the header at an address.
abbrev pub update : StrHeap → ℕ → Option OoStrHeader → StrHeap
update h a o j = if j == a then o else h j

-- `len < 0 || len > (1LL << 28)` refuses.
abbrev pub len_ok : ℤ → Bool
len_ok (pos n) = leb n (2 ^ 28)
len_ok (negsuc n) = false

-- `OO_FLAG_STATIC` is the lowest flag, and the tombstone has every flag.
abbrev pub counted_header : Option OoStrHeader → Bool
counted_header none = false
counted_header (some hd) =
    not (hd.ref_count == 0)
    && (not (hd.ref_count == 2 ^ 32 - 1)
        && (leb hd.ref_count 1000000 && (not (hd.flags % 2 == 1) && not (hd.flags == 2 ^ 32 - 1))))

pub oo_str_hdr_ok : StrHeap → OoStr → Bool
oo_str_hdr_ok h s =
    not (s.addr == 0) && (len_ok s.len && (leb 16 s.addr && counted_header (h s.addr)))

-- `sizeof(OoStrHeader)` is 8.
abbrev bump_by : ℕ → Option OoStrHeader → Option OoStrHeader
bump_by n none = none
bump_by n (some hd) = some (record hd { ref_count = (hd.ref_count + n) % 2 ^ 32 })

pub oo_str_retain : StrHeap → OoStr → StrHeap
unfolding oo_str_hdr_ok
oo_str_retain h s = if oo_str_hdr_ok h s then update h s.addr (bump_by 1 (h s.addr)) else h

-- The count that was 1 frees the payload.
abbrev less_one : Option OoStrHeader → Option OoStrHeader
less_one none = none
less_one (some hd) =
    if hd.ref_count == 1
    then none
    else some (record hd { ref_count = (hd.ref_count + 2 ^ 32 - 1) % 2 ^ 32 })

pub oo_str_release : StrHeap → OoStr → StrHeap
unfolding oo_str_hdr_ok
oo_str_release h s = if oo_str_hdr_ok h s then update h s.addr (less_one (h s.addr)) else h
