-- ===== src/Mem/Arena/Payload.antt =====
-- The payload frames of arena_checkpoint.c: a block of 64 bytes of header before each payload.
pub mod Frames
pub mod Pop
use oodar.Base.{
  ℕ, zero, suc, ◌+◌, ◌-◌, ◌*◌, ◌/◌, ◌%◌, ◌^◌, ltb, leb, ◌==◌, if◌then◌else◌, ◌&&◌, ◌||◌, not,
}
use oodar.Base.{Bool, true, false, List, [], ◌∷◌, Option, none, some, length, get_or, set}
use oodar.Base.{add64, sub64, align64}
use oodar.Mem.Arena.{OoArena, OoArenaBlockHdr, Arenas, slot, put, no_top, arena_slots}

abbrev pub put_hdr : (ℕ → Option OoArenaBlockHdr) → ℕ → OoArenaBlockHdr → ℕ → Option OoArenaBlockHdr
put_hdr m k h j = if j == k then some h else m j

-- The frame in one slot: the payload's address and the slot, or `none` for NULL.
unfoldable pub alloc_frame : OoArena → ℕ → Option (ℕ × OoArena)
alloc_frame a payload_sz =
    let cur = align64 a.off in
    let end_off = add64 (add64 cur 64) payload_sz in
    if not a.live || a.base == 0
    then none
    else if ltb a.capacity end_off
    then none
    else some (
      a.base + cur + 64,
      record a {
        off = align64 end_off;
        top_cur = cur;
        hdr =
            put_hdr a.hdr cur (record { cur = cur; prev = a.top_cur; end = end_off; dead = false });
      },
    )

pub framed : ℕ → Option (ℕ × OoArena) → Arenas → Option ℕ × Arenas
framed i none s = (none, s)
framed i (some (p, a)) s = (some p, put s i a)

-- The slot is the `int` that `oo_arena_active_id` gave, so not negative here.
pub oo_arena_alloc_payload : ℕ → ℕ → Arenas → Option ℕ × Arenas
unfolding alloc_frame framed
oo_arena_alloc_payload i payload_sz s =
    if leb arena_slots i || ltb (2 ^ 30) payload_sz
    then (none, s)
    else framed i (alloc_frame (slot s i) payload_sz) s

-- `while (a->top_cur != -1)`: dead frames are popped off the top. Each pop follows `prev` to a
-- lower frame, so the fuel is a bound on the number of frames.
pub pop_dead : ℕ → OoArena → OoArena
pop_dead zero a = a
pop_dead (suc fuel) a = if a.top_cur == no_top then a else elim (a.hdr a.top_cur) [
  | none ↦ a
  | some h ↦
      let rest = pop_dead fuel (record a { off = h.cur; top_cur = h.prev }) in
      if h.dead then rest else a
]

-- The address lies in the slot's mapping.
abbrev pub holds : OoArena → ℕ → Bool
holds a addr = a.live && (not (a.base == 0) && ltb (sub64 addr a.base) a.capacity)

-- The block starts 64 bytes below. The slot that holds the address, after the frame died; `none` where no frame starts there.
pub free_frame : ℕ → OoArena → ℕ → Option OoArena
unfolding pop_dead
free_frame fuel a addr = elim (a.hdr (sub64 addr (a.base + 64))) [
  | none ↦ none
  | some h ↦ some (
      pop_dead fuel
        (record a { hdr = put_hdr a.hdr (sub64 addr (a.base + 64)) (record h { dead = true }) }))
]

pub freed : ℕ → Option OoArena → Arenas → Bool × Arenas
freed i none s = (false, s)
freed i (some a) s = (true, put s i a)

pub free_from : ℕ → List OoArena → ℕ → ℕ → Arenas → Bool × Arenas
unfolding free_frame freed
free_from fuel [] i addr s = (false, s)
free_from fuel (a ∷ rest) i addr s =
    let next = free_from fuel rest (i + 1) addr s in
    if holds a addr then freed i (free_frame fuel a addr) s else next

pub oo_arena_free_payload : ℕ → ℕ → Arenas → Bool × Arenas
unfolding free_from
oo_arena_free_payload fuel p s = if p == 0 then (false, s) else free_from fuel s.slots 0 p s

contains_from : List OoArena → ℕ → Bool
contains_from [] addr = false
contains_from (a ∷ rest) addr = holds a addr || contains_from rest addr

pub oo_arena_contains_ptr : ℕ → Arenas → Bool
unfolding contains_from
oo_arena_contains_ptr p s = if p == 0 then false else contains_from s.slots p
