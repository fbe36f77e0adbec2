-- ===== src/Mem/Alloc.antt =====
-- core/mem/alloc.c: blocks of the heap under the ambient quota, with their headers in 1024 chains by
-- address, and the checked access to their bytes. The quota is the one that
-- `oo_list_quota_init_public` read before the first call; lists charge the same counter.
pub mod Ledger
pub mod Access
mod Tests
use oodar.Base.{
  ℕ, zero, suc, ◌+◌, ◌-◌, ◌*◌, ◌/◌, ◌%◌, ◌^◌, ltb, leb, ◌==◌, if◌then◌else◌, ◌&&◌, ◌||◌, not,
}
use oodar.Base.{Bool, true, false, List, [], ◌∷◌, Option, none, some, get_or, set}
use oodar.Base.{ℤ, pos, negsuc, Run, returns, exits, ◌>>=◌}
use oodar.Cap.Tokens.{CapKind, CapState}
use oodar.Cap.Gates.{oo_cap_require_kind}

pub record OoRawAllocHeader : Type 0 where
  pub total_size : ℕ
  pub block_size : ℕ
  pub magic : ℕ
  pub user_ptr : ℕ

-- `oo_list_ambient_quota`, `oo_list_ambient_bytes`, `g_alloc_table`, and the bytes at the addresses.
pub record RawHeap : Type 0 where
  pub quota : ℕ
  pub bytes : ℕ
  pub table : List (List OoRawAllocHeader)
  pub mem : ℕ → ℕ

abbrev pub raw_magic : ℕ
raw_magic = 0x4F4F414C4C4F4331

-- A size outside 0 to 1 GiB counts as 0.
abbrev pub raise_of : ℤ → ℕ
raise_of (pos n) = if ltb (2 ^ 30) n then 0 else n
raise_of (negsuc n) = 0

-- The sum stops at `LLONG_MAX`.
pub raised : ℕ → ℕ → ℕ
raised quota n = if ltb (2 ^ 63 - 1 - quota) n then 2 ^ 63 - 1 else quota + n

pub oo_alloc_bytes : CapState → ℕ → ℤ → RawHeap → Run (ℕ × RawHeap)
unfolding raised
oo_alloc_bytes caps token n s = do
  c ← oo_cap_require_kind CapKind.alloc caps token
  returns (raise_of n, record s { quota = raised s.quota (raise_of n) })

-- A size above the quota gives nothing back.
pub lowered : ℕ → ℤ → ℕ
lowered quota (negsuc n) = quota
lowered quota (pos p) = if leb p quota then quota - p else quota

pub oo_free_bytes : CapState → ℕ → ℤ → RawHeap → Run RawHeap
unfolding lowered
oo_free_bytes caps token p s = do
  c ← oo_cap_require_kind CapKind.alloc caps token
  returns (record s { quota = lowered s.quota p })

-- The header takes 48 bytes, and the whole is rounded up to 16.
unfoldable pub total_for : ℕ → ℕ
total_for size = let t = 48 + size in if t % 16 == 0 then t else t + (16 - t % 16)

abbrev pub bucket : ℕ → ℕ
bucket addr = addr / 16 % 1024

abbrev pub chain : RawHeap → ℕ → List OoRawAllocHeader
chain s addr = get_or s.table (bucket addr) []

abbrev pub header_of : ℕ → ℕ → OoRawAllocHeader
header_of raw size = record {
  total_size = total_for size;
  block_size = size;
  magic = raw_magic;
  user_ptr = raw + 48;
}

-- `memset(raw, 0, total_sz)`; the header's own bytes are kept apart, in the chain.
pub zeroed : (ℕ → ℕ) → ℕ → ℕ → ℕ → ℕ
zeroed mem a n j = if leb a j && ltb j (a + n) then 0 else mem j

-- `raw` is what `posix_memalign` gave.
pub alloc_block : Option ℕ → ℕ → RawHeap → Run (ℕ × RawHeap)
unfolding zeroed
alloc_block raw size s =
    if ltb s.quota (s.bytes + total_for size)
    then exits 1
    else returns (elim raw [
      | none ↦ (0, s)
      | some a ↦ (
        a + 48,
        record s {
          bytes = s.bytes + total_for size;
          table = set s.table (bucket (a + 48)) (header_of a size ∷ chain s (a + 48));
          mem = zeroed s.mem a (total_for size);
        },
      )
    ])

pub oo_alloc : CapState → ℕ → ℤ → Option ℕ → RawHeap → Run (ℕ × RawHeap)
unfolding alloc_block
oo_alloc caps token size raw s = do
  c ← oo_cap_require_kind CapKind.alloc caps token
  elim size [
    | negsuc n ↦ returns (0, s)
    | pos n ↦ if n == 0 || ltb (2 ^ 30) n then returns (0, s) else alloc_block raw n s
  ]

-- The chain without its first header at `target`, with the size that goes back; `none` for no such
-- header.
pub unlink : ℕ → List OoRawAllocHeader → Option (ℕ × List OoRawAllocHeader)
unlink target [] = none
unlink target (h ∷ hs) =
    if h.user_ptr == target
    then some (h.total_size, hs)
    else elim (unlink target hs) [ none ↦ none | some (n, rest) ↦ some (n, h ∷ rest) ]

-- The counter stops at 0.
pub unlinked : ℕ → Option (ℕ × List OoRawAllocHeader) → RawHeap → RawHeap
unlinked target none s = s
unlinked target (some (n, rest)) s = record s {
  bytes = s.bytes - n;
  table = set s.table (bucket target) rest;
}

pub oo_free : CapState → ℕ → ℕ → RawHeap → Run RawHeap
unfolding unlink unlinked
oo_free caps token target s = do
  c ← oo_cap_require_kind CapKind.alloc caps token
  returns (if target == 0 then s else unlinked target (unlink target (chain s target)) s)

pub find_in : ℕ → List OoRawAllocHeader → Option OoRawAllocHeader
find_in target [] = none
find_in target (h ∷ hs) = if h.user_ptr == target then some h else find_in target hs

pub alloc_find_locked : RawHeap → ℕ → Option OoRawAllocHeader
unfolding find_in
alloc_find_locked s target = find_in target (chain s target)

-- The tests that `oo_write_int` and `oo_read_int` share: the address of the eight bytes.
pub access : RawHeap → ℕ → ℤ → Run ℕ
unfolding alloc_find_locked
access s ptr (negsuc n) = exits 1
access s ptr (pos offset) = if ptr == 0 then exits 1 else elim (alloc_find_locked s ptr) [
  | none ↦ exits 1
  | some h ↦
      if not (h.magic == raw_magic)
      then exits 1
      else if ltb h.block_size (offset + 8)
      then exits 1
      else returns (ptr + offset)
]

-- Eight bytes in the machine's order, the lowest first.
pub put_word : (ℕ → ℕ) → ℕ → ℕ → ℕ → ℕ
put_word mem a v j = if leb a j && ltb j (a + 8) then v / 2 ^ (8 * (j - a)) % 256 else mem j

pub word_at : (ℕ → ℕ) → ℕ → ℕ
word_at mem a =
    mem a
    + (mem (a + 1) * 2 ^ 8
        + (mem (a + 2) * 2 ^ 16
            + (mem (a + 3) * 2 ^ 24
                + (mem (a + 4) * 2 ^ 32
                    + (mem (a + 5) * 2 ^ 40 + (mem (a + 6) * 2 ^ 48 + mem (a + 7) * 2 ^ 56))))))

pub oo_write_int : CapState → ℕ → ℕ → ℤ → ℕ → RawHeap → Run RawHeap
unfolding access put_word
oo_write_int caps token ptr offset val s = do
  c ← oo_cap_require_kind CapKind.alloc caps token
  a ← access s ptr offset
  returns (record s { mem = put_word s.mem a val })

pub oo_read_int : CapState → ℕ → ℕ → ℤ → RawHeap → Run ℕ
unfolding access word_at
oo_read_int caps token ptr offset s = do
  c ← oo_cap_require_kind CapKind.alloc caps token
  a ← access s ptr offset
  returns (word_at s.mem a)
