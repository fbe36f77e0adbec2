-- ===== src/Mem/Arena.antt =====
-- core/mem/arena.c and arena_checkpoint.c: 32 bump arenas in one table, the stack of checkpoints,
-- and the payload frames inside an arena. Each call holds the mutexes for as long as it looks at a
-- slot, so a call is one step here. `OoArenaBlockHdr`s are kept by their offset in the slot, the
-- memory behind them is not modelled. `mmap` hands in a base address, or nothing.
pub mod Payload
pub mod Checkpoint
pub mod Bounds
mod Tests
use Prim.Native.String.{String}
use oodar.Base.{
  ℕ, zero, suc, ◌+◌, ◌-◌, ◌*◌, ◌/◌, ◌%◌, ◌^◌, ltb, leb, ◌==◌, if◌then◌else◌, ◌&&◌, ◌||◌, not,
}
use oodar.Base.{
  Bool, true, false, List, [], ◌∷◌, Option, none, some, length, get_or, set, replicate,
}
use oodar.Base.{ℤ, pos, negsuc, is_negative, above, slot_of, pos_part, add64, sub64, align64}
use oodar.Base.{Run, returns, exits, ◌>>=◌, ◌>>◌}
use oodar.Cap.Tokens.{CapKind, CapState}
use oodar.Cap.Gates.{oo_cap_is_arena, oo_cap_is_alloc}

-- `OoArenaBlockHdr`; the magic number is there exactly where a header is.
pub record OoArenaBlockHdr : Type 0 where
  pub cur : ℕ
  pub prev : ℕ
  pub end : ℕ
  pub dead : Bool

-- A slot of `g_ar`. `base` is the mapped address, 0 for NULL; `hdr` is the header at an offset.
pub record OoArena : Type 0 where
  pub live : Bool
  pub base : ℕ
  pub capacity : ℕ
  pub off : ℕ
  pub gen : ℕ
  pub top_cur : ℕ
  pub hdr : ℕ → Option OoArenaBlockHdr

-- `(size_t)-1`
abbrev pub no_top : ℕ
no_top = 2 ^ 64 - 1

abbrev pub arena_slots : ℕ
arena_slots = 32

abbrev pub idle : OoArena
idle = record {
  live = false;
  base = 0;
  capacity = 0;
  off = 0;
  gen = 0;
  top_cur = no_top;
  hdr = λ i. none;
}

-- An `OoCk` of the checkpoint stack.
pub record OoCk : Type 0 where
  pub id : ℕ
  pub ck_off : ℕ
  pub ck_gen : ℕ
  pub ck_top : ℕ

-- `g_ar`, `g_ck` with the top first, and `g_active_arena_slot` of the calling thread.
pub record Arenas : Type 0 where
  pub slots : List OoArena
  pub checkpoints : List OoCk
  pub active : Option ℕ

-- An `OoResS` whose text is one of the code's literals, or the decimal text of a number.
pub data Res : Type 0 where
  ok : ℕ → Res
  done : Res
  err : String → Res

abbrev pub slot : Arenas → ℕ → OoArena
slot s i = get_or s.slots i idle

abbrev pub put : Arenas → ℕ → OoArena → Arenas
put s i a = record s { slots = set s.slots i a }

pub oo_arena_need : CapState → ℕ → Run (Unit {0})
oo_arena_need caps token =
    if oo_cap_is_arena caps token || oo_cap_is_alloc caps token then returns tt else exits 1

-- The first slot that is not live, counted from `i`.
pub ar_alloc_slot : List OoArena → ℕ → Option ℕ
ar_alloc_slot [] i = none
ar_alloc_slot (a ∷ rest) i =
    let next = ar_alloc_slot rest (i + 1) in if a.live then next else some i

pub created : Option ℕ → ℕ → ℕ → Arenas → Res × Arenas
created none mem bytes s = (err "arena_create: no slot", s)
created (some i) mem bytes s = (
  ok i,
  put s i (record (slot s i) {
    base = mem;
    capacity = bytes;
    off = 0;
    top_cur = no_top;
    live = true;
    gen = add64 (slot s i).gen 1;
    hdr = λ j. none;
  }),
)

-- With no slot free the mapping is given back, and the table stays.
pub mapped : Option ℕ → ℕ → Arenas → Res × Arenas
unfolding created
mapped none bytes s = (err "arena_create: oom", s)
mapped (some mem) bytes s = created (ar_alloc_slot s.slots 0) mem bytes s

-- Nothing is mapped where the size is refused. Pinning the thread to a core changes no state here.
pub oo_arena_create : CapState → ℕ → ℤ → Option ℕ → Arenas → Run (Res × Arenas)
unfolding mapped
oo_arena_create caps token bytes mem s = do
  oo_arena_need caps token
  returns (
      if above 63 bytes && not (above (2 ^ 30) bytes)
      then mapped mem (pos_part bytes) s
      else (err "arena_create: bad size", s))

pub attached : Option ℕ → Arenas → Res × Arenas
attached none s = (err "arena_attach failed", s)
attached (some i) s =
    if (slot s i).live then (done, record s { active = some i }) else (err "arena_attach failed", s)

pub oo_arena_attach : CapState → ℕ → ℤ → Arenas → Run (Res × Arenas)
unfolding attached
oo_arena_attach caps token id s = do
  oo_arena_need caps token
  returns (attached (slot_of arena_slots id) s)

pub oo_arena_detach : CapState → ℕ → Arenas → Run (Res × Arenas)
oo_arena_detach caps token s = do
  oo_arena_need caps token
  returns (done, record s { active = none })

-- `if (a->off & 63) a->off = (a->off + 63) & ~63ULL;` comes before the test, and stays where the test
-- fails; `a->cap - a->off` wraps.
pub bump : ℕ → OoArena → Res × OoArena
bump n a =
    let off = if a.off % 64 == 0 then a.off else align64 a.off in
    if ltb (sub64 a.capacity off) n
    then (err "arena_alloc: full", record a { off = off })
    else (ok off, record a { off = add64 off n })

pub alloc_in : Option ℕ → ℕ → Arenas → Res × Arenas
alloc_in none n s = (err "arena_alloc: bad id", s)
alloc_in (some i) n s =
    if ltb (2 ^ 26) n
    then (err "arena_alloc: bad n", s)
    else if not (slot s i).live
    then (err "arena_alloc: bad id", s)
    else (let (r, a) = bump n (slot s i) in (r, put s i a))

-- A size of 0 attaches, and a negative one detaches.
pub oo_arena_alloc : CapState → ℕ → ℤ → ℤ → Arenas → Run (Res × Arenas)
unfolding alloc_in oo_arena_attach oo_arena_detach
oo_arena_alloc caps token id (negsuc n) s = do
  oo_arena_need caps token
  oo_arena_detach caps token s
oo_arena_alloc caps token id (pos zero) s = do
  oo_arena_need caps token
  oo_arena_attach caps token id s
oo_arena_alloc caps token id (pos (suc n)) s = do
  oo_arena_need caps token
  returns (alloc_in (slot_of arena_slots id) (suc n) s)

-- `oo_arena_on_destroy`: the thread's active slot is cleared if it is this one.
pub oo_arena_on_destroy : ℕ → Arenas → Arenas
oo_arena_on_destroy i s = record (put s i (record (slot s i) { top_cur = no_top })) {
  active = elim s.active [ none ↦ none | some j ↦ if j == i then none else some j ];
}

-- `madvise(MADV_DONTNEED)` zeroes the pages, and so the headers in them.
pub reset_in : Option ℕ → Arenas → Res × Arenas
unfolding oo_arena_on_destroy
reset_in none s = (err "arena_reset: bad id", s)
reset_in (some i) s = if not (slot s i).live then (err "arena_reset: bad id", s) else (
  done,
  oo_arena_on_destroy i
      (put s i (record (slot s i) { off = 0; top_cur = no_top; hdr = λ j. none })),
)

pub oo_arena_reset : CapState → ℕ → ℤ → Arenas → Run (Res × Arenas)
unfolding reset_in
oo_arena_reset caps token id s = do
  oo_arena_need caps token
  returns (reset_in (slot_of arena_slots id) s)

pub destroy_in : Option ℕ → Arenas → Res × Arenas
unfolding oo_arena_on_destroy
destroy_in none s = (err "arena_destroy: bad id", s)
destroy_in (some i) s = if not (slot s i).live then (err "arena_destroy: bad id", s) else (
  done,
  oo_arena_on_destroy i (
      put s i (record (slot s i) {
        base = 0;
        live = false;
        capacity = 0;
        off = 0;
        top_cur = no_top;
        hdr = λ j. none;
      })),
)

pub oo_arena_destroy : CapState → ℕ → ℤ → Arenas → Run (Res × Arenas)
unfolding destroy_in
oo_arena_destroy caps token id s = do
  oo_arena_need caps token
  returns (destroy_in (slot_of arena_slots id) s)

-- The reset between two passes of a compiler is the reset.
pub oo_arena_pass_reset : CapState → ℕ → ℤ → Arenas → Run (Res × Arenas)
unfolding oo_arena_reset
oo_arena_pass_reset caps token id s = oo_arena_reset caps token id s
