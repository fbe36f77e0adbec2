-- ===== src/Mem/Arena/Payload/Frames.antt =====
-- Payload frames: where they lie, and that freeing the last one takes it back.
use oodar.Base.{
  ℕ, zero, suc, ◌+◌, ◌^◌, ◌≤◌, ◌<◌, ◌≡◌, ◌≢◌, refl, arith, ap, subst, ◌∙◌, ==_iff, Option-cases,
  inl, inr,
}
use oodar.Base.{Bool, true, false, some, align64, sub64, add64}
use oodar.Mem.Arena.{OoArena, OoArenaBlockHdr}
use oodar.Mem.Arena.Payload.{alloc_frame, free_frame, pop_dead, holds, put_hdr}

-- The top frame, if there is one, is alive.
abbrev pub TopAlive : OoArena → Type 0
TopAlive a = (h : OoArenaBlockHdr) → a.hdr a.top_cur ≡ some h → h.dead ≡ false

pop_alive : (fuel : ℕ) (a : OoArena) → TopAlive a → pop_dead fuel a ≡ a
unfolding pop_dead
pop_alive zero a alive = refl
pop_alive (suc fuel) a alive = elim (Option-cases (a.hdr a.top_cur)) [
  | inl e ↦ ground (arith, e)
  | inr (h, e) ↦ ground (arith, e, alive h e)
]

-- The slot with the new frame on top, and the frame's header.
abbrev pub frame_hdr : OoArena → ℕ → Bool → OoArenaBlockHdr
frame_hdr a sz d = record {
  cur = align64 a.off;
  prev = a.top_cur;
  end = add64 (add64 (align64 a.off) 64) sz;
  dead = d;
}

abbrev pub with_frame : OoArena → ℕ → OoArena
with_frame a sz = record a {
  off = align64 (add64 (add64 (align64 a.off) 64) sz);
  top_cur = align64 a.off;
  hdr = put_hdr a.hdr (align64 a.off) (frame_hdr a sz false);
}

frame_shape :
    (a : OoArena) (sz p : ℕ) {a' : OoArena}
    → alloc_frame a sz ≡ some (p, a')
    → (a.live ≡ true)
      × (a.base ≢ 0)
      × (add64 (add64 (align64 a.off) 64) sz ≤ a.capacity)
      × (p ≡ a.base + align64 a.off + 64)
      × (a' ≡ with_frame a sz)
unfolding alloc_frame
frame_shape a sz p h = ground arith

-- The slot after the frame died, before anything is popped; and after the frame is popped.
abbrev dying : OoArena → ℕ → OoArena
dying a sz = record (with_frame a sz) {
  hdr = put_hdr (with_frame a sz).hdr (align64 a.off) (frame_hdr a sz true);
}

abbrev unwound : OoArena → ℕ → OoArena
unwound a sz = record (dying a sz) { off = align64 a.off; top_cur = a.top_cur }

unwound-TopAlive :
    (a : OoArena) (sz : ℕ) → a.top_cur ≢ align64 a.off → TopAlive a → TopAlive (unwound a sz)
unwound-TopAlive a sz fresh alive h e = alive h (ground arith)

pop_dying :
    (fuel sz : ℕ) (a : OoArena)
    → a.off ≤ 2 ^ 31
    → a.top_cur ≢ align64 a.off
    → TopAlive a
    → pop_dead (suc fuel) (dying a sz) ≡ unwound a sz
unfolding pop_dead
pop_dying fuel sz a ho fresh alive =
    ground (arith, pop_alive fuel (unwound a sz) (unwound-TopAlive a sz fresh alive))

abbrev FreesAt : ℕ → ℕ → OoArena → OoArenaBlockHdr → ℕ → Type 0
FreesAt fuel addr a h k =
    a.hdr k ≡ some h
    → free_frame fuel a addr
      ≡ some (pop_dead fuel (record a { hdr = put_hdr a.hdr k (record h { dead = true }) }))

free_hit :
    (fuel addr k : ℕ) (a : OoArena) (h : OoArenaBlockHdr)
    → sub64 addr (a.base + 64) ≡ k
    → a.hdr k ≡ some h
    → free_frame fuel a addr
      ≡ some (pop_dead fuel (record a { hdr = put_hdr a.hdr k (record h { dead = true }) }))
unfolding free_frame
free_hit fuel addr k a h e at_k = subst (FreesAt fuel addr a h) e hit at_k
  where
    hit : FreesAt fuel addr a h (sub64 addr (a.base + 64))
    hit found = rw (found, free_frame) refl

offset_back : (b c : ℕ) → c ≤ 2 ^ 31 + 64 → b + 2 ^ 32 ≤ 2 ^ 64 → sub64 (b + c + 64) (b + 64) ≡ c
offset_back b c hc hb = omega arith

free_dying :
    (fuel sz : ℕ) (a : OoArena)
    → a.off ≤ 2 ^ 31
    → a.base + 2 ^ 32 ≤ 2 ^ 64
    → free_frame (suc fuel) (with_frame a sz) (a.base + align64 a.off + 64)
      ≡ some (pop_dead (suc fuel) (dying a sz))
free_dying fuel sz a ho hb =
    free_hit (suc fuel) (a.base + align64 a.off + 64) (align64 a.off) (with_frame a sz)
      (frame_hdr a sz false) (offset_back a.base (align64 a.off) (omega arith) hb)
      (rw ((==_iff (align64 a.off) (align64 a.off)).1 refl))

-- For a payload of 1 byte to 1 GiB in a slot whose bump pointer is at most 2 GiB, whose mapping
-- does not reach the end of the address space, and whose top frame is alive and not where the new
-- one starts: the slot holds the payload's address, and freeing it takes its frame off the top, so
-- that the bump pointer is where the frame began and the top frame is the one before.
pub free-alloc :
    (fuel sz p : ℕ) (a : OoArena) {a' : OoArena}
    → sz ≤ 2 ^ 30
    → a.off ≤ 2 ^ 31
    → a.base + 2 ^ 32 ≤ 2 ^ 64
    → a.top_cur ≢ align64 a.off
    → TopAlive a
    → 0 < sz
    → alloc_frame a sz ≡ some (p, a')
    → (holds a' p ≡ true)
      × (a'' : OoArena) × (free_frame (suc fuel) a' p ≡ some a'')
      × (a''.off ≡ align64 a.off)
      × (a''.top_cur ≡ a.top_cur)
free-alloc fuel sz p a {a'} hs ho hb fresh alive some_bytes h =
    let (live, mapped, room, where_p, shape) = frame_shape a sz p h in
    (
      rw (shape, where_p) (ground arith),
      unwound a sz,
      rw (shape, where_p)
          (free_dying fuel sz a ho hb ∙ ap some (pop_dying fuel sz a ho fresh alive)),
      refl,
      refl,
    )
