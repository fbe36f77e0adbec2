-- ===== src/Mem/Arena/Checkpoint.antt =====
-- The checkpoint stack of arena_checkpoint.c, at most 8 deep, its top first.
pub mod Rewind
use oodar.Base.{ℕ, zero, suc, ◌+◌, ltb, leb, ◌==◌, if◌then◌else◌, ◌||◌, not}
use oodar.Base.{Bool, true, false, List, [], ◌∷◌, Option, none, some, length}
use oodar.Base.{ℤ, slot_of, Run, returns, ◌>>=◌}
use oodar.Cap.Tokens.{CapKind, CapState}
use oodar.Cap.Gates.{oo_cap_require_kind}
use oodar.Mem.Arena.{OoArena, OoCk, Arenas, slot, put, arena_slots}

-- `off`, `gen` and `top_cur` of a live slot.
pub oo_arena_snap : ℕ → Arenas → Option OoCk
oo_arena_snap i s =
    let a = slot s i in
    if leb arena_slots i || not a.live
    then none
    else some (record { id = i; ck_off = a.off; ck_gen = a.gen; ck_top = a.top_cur })

-- Refused where the slot died, was created anew, or is too small.
pub oo_arena_restore : OoCk → Arenas → Bool × Arenas
oo_arena_restore k s =
    let a = slot s k.id in
    if leb arena_slots k.id
    then (false, s)
    else if not a.live || (not (a.gen == k.ck_gen) || ltb a.capacity k.ck_off)
    then (false, s)
    else (true, put s k.id (record a { off = k.ck_off; top_cur = k.ck_top }))

-- The index of the new checkpoint, or `none` for -1.
pub pushed : Option OoCk → Arenas → Option ℕ × Arenas
pushed none s = (none, s)
pushed (some k) s =
    if ltb (length s.checkpoints) 8
    then (some (length s.checkpoints), record s { checkpoints = k ∷ s.checkpoints })
    else (none, s)

pub snap_of : Option ℕ → Arenas → Option OoCk
unfolding oo_arena_snap
snap_of none s = none
snap_of (some i) s = oo_arena_snap i s

-- A gate that returns leaves the store as it was, so it is not passed on.
unfoldable pub oo_checkpoint : CapState → ℕ → ℤ → Arenas → Run (Option ℕ × Arenas)
unfolding pushed snap_of
oo_checkpoint caps token v s = do
  c ← oo_cap_require_kind CapKind.arena caps token
  returns (pushed (snap_of (slot_of arena_slots v) s) s)

-- The checkpoint is off the stack even where it cannot be restored; 0 says so, and also names slot 0.
pub popped : List OoCk → Arenas → ℕ × Arenas
unfolding oo_arena_restore
popped [] s = (0, s)
popped (k ∷ rest) s =
    let (good, s') = oo_arena_restore k (record s { checkpoints = rest }) in
    if good then (k.id, s') else (0, s')

pub oo_rollback : CapState → ℕ → Arenas → Run (ℕ × Arenas)
unfolding popped
oo_rollback caps token s = do
  c ← oo_cap_require_kind CapKind.arena caps token
  returns (popped s.checkpoints s)
