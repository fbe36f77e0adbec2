-- ===== src/Mem/Arena/Tests.antt =====
-- Runs of the arenas, and the instances of their theorems.
use oodar.Base.{ℕ, ◌≡◌, refl, ◌+◌, ◌%◌, ◌≤◌, ◌<◌, arith, pos, replicate}
use oodar.Base.{Bool, true, false, List, [], ◌∷◌, none, some, returns}
use oodar.Cap.Tokens.{CapKind}
use oodar.Cap.Tokens.Laws.{index_of}
use oodar.Cap.Gates.{oo_cap_is_arena, oo_cap_is_alloc, oo_cap_require_kind}
use oodar.Cap.Sample.{counted, counted_opens}
use oodar.Mem.Arena.{OoArena, OoCk, Arenas, slot, put, idle, no_top}
use oodar.Mem.Arena.{
  ok, ar_alloc_slot, alloc_in, bump, oo_arena_need, oo_arena_create, oo_arena_alloc,
}
use oodar.Mem.Arena.Payload.{alloc_frame, free_frame, holds}
use oodar.Mem.Arena.Payload.{pop_dead, put_hdr}
use oodar.Mem.Arena.Payload.Pop.{Linked, bottom, frame, Unwound, pop_dead-Unwound}
use oodar.Mem.Arena.{OoArenaBlockHdr}
use oodar.Mem.Arena.Payload.Frames.{TopAlive, with_frame, free-alloc}
use oodar.Mem.Arena.Checkpoint.{oo_checkpoint, oo_rollback}
use oodar.Mem.Arena.Checkpoint.Rewind.{rollback-checkpoint, stale_rollback}
use oodar.Mem.Arena.Bounds.{Fits, alloc_within, alloc_escapes}

abbrev empty : Arenas
empty = record { slots = replicate 32 idle; checkpoints = []; active = none }

-- An arena of 4096 bytes with 70 of them used, and one of 100 bytes.
abbrev used : ℕ → OoArena
used cap_bytes = record idle { live = true; base = 4096; capacity = cap_bytes; off = 70; gen = 1 }

abbrev roomy : Arenas
roomy = put empty 0 (used 4096)

abbrev ragged : Arenas
ragged = put empty 0 (used 100)

creates_slot_0 :
    oo_arena_create counted 18 (pos 64) (some 8192) empty
    ≡ returns (ok 0, put empty 0 (record idle { live = true; base = 8192; capacity = 64; gen = 1 }))
unfolding oo_arena_create oo_arena_need oo_cap_is_arena oo_cap_is_alloc index_of ar_alloc_slot
creates_slot_0 = refl

allocates :
    oo_arena_alloc counted 18 (pos 0) (pos 100) roomy
    ≡ returns (ok 128, put roomy 0 (record (used 4096) { off = 228 }))
unfolding oo_arena_alloc oo_arena_need oo_cap_is_arena oo_cap_is_alloc index_of alloc_in bump
allocates = refl

alloc_within_example :
    (128 % 64 ≡ 0)
    × (70 ≤ 128)
    × (128 + 100 ≤ 4096)
    × ((slot (put roomy 0 (record (used 4096) { off = 228 })) 0).off ≡ 128 + 100)
    × Fits (record (used 4096) { off = 228 })
alloc_within_example =
    alloc_within counted 18 0 99 128 (pos 0) roomy refl (omega arith) (omega arith) allocates

needs : oo_arena_need counted 18 ≡ returns tt
unfolding oo_arena_need oo_cap_is_arena oo_cap_is_alloc index_of
needs = refl

-- 1000 bytes are granted at offset 128 of an arena of 100.
alloc_escapes_test :
    (o : ℕ) × (s' : Arenas) × (oo_arena_alloc counted 18 (pos 0) (pos 1000) ragged
      ≡ returns (ok o, s'))
    × (100 < o)
alloc_escapes_test =
    alloc_escapes counted 18 0 999 (pos 0) ragged refl (omega arith) needs refl (omega arith)
      (omega arith) (omega arith) (omega arith)

frames : alloc_frame (used 4096) 10 ≡ some (4288, with_frame (used 4096) 10)
unfolding alloc_frame
frames = refl

nothing_on_top : TopAlive (used 4096)
nothing_on_top h e = cc

free-alloc_test :
    (holds (with_frame (used 4096) 10) 4288 ≡ true)
    × (a : OoArena) × (free_frame 1 (with_frame (used 4096) 10) 4288 ≡ some a)
    × (a.off ≡ 128)
    × (a.top_cur ≡ no_top)
free-alloc_test =
    free-alloc 0 10 4288 (used 4096) (omega arith) (omega arith) (omega arith) (omega arith)
      nothing_on_top (omega arith) frames

arena_gate : oo_cap_require_kind CapKind.arena counted 18 ≡ returns counted
unfolding index_of
arena_gate = counted_opens CapKind.arena

abbrev mark : OoCk
mark = record { id = 0; ck_off = 70; ck_gen = 1; ck_top = no_top }

checkpoints_slot_0 :
    oo_checkpoint counted 18 (pos 0) roomy
    ≡ returns (some 0, record roomy { checkpoints = mark ∷ [] })
unfolding oo_checkpoint
checkpoints_slot_0 = rw arena_gate refl

-- The slot after more allocations.
abbrev later : Arenas
later = record (put roomy 0 (record (used 4096) { off = 900; top_cur = 832 })) {
  checkpoints = mark ∷ [];
}

rollback-checkpoint_example :
    (t : Arenas) × (oo_rollback counted 18 later ≡ returns (0, t))
    × ((slot t 0).off ≡ 70)
    × ((slot t 0).top_cur ≡ no_top)
    × (t.checkpoints ≡ [])
rollback-checkpoint_example =
    rollback-checkpoint counted 18 0 0 (pos 0) roomy later refl (omega arith) (omega arith)
      (omega arith) checkpoints_slot_0 refl (record { live = refl; gen = refl; capacity = refl })

abbrev reborn : Arenas
reborn = record (put roomy 0 (record (used 4096) { gen = 2 })) { checkpoints = mark ∷ [] }

stale_rollback_test :
    oo_rollback counted 18 reborn ≡ returns (0, record reborn { checkpoints = [] })
stale_rollback_test = stale_rollback counted counted 18 mark [] reborn arena_gate refl (omega arith)

-- Four frames, at 0, 128, 256 and 384: the second is alive, and the first and those above are dead.
abbrev frame_at : ℕ → ℕ → Bool → OoArenaBlockHdr
frame_at cur prev dead = record { cur = cur; prev = prev; end = cur + 74; dead = dead }

abbrev four_frames : OoArena
four_frames = record (used 4096) {
  off = 512;
  top_cur = 384;
  hdr =
      put_hdr
        (put_hdr
          (put_hdr (put_hdr (λ i. none) 0 (frame_at 0 no_top true)) 128 (frame_at 128 0 false)) 256
          (frame_at 256 128 true))
        384 (frame_at 384 256 true);
}

abbrev frames_of_four : List OoArenaBlockHdr
frames_of_four =
    frame_at 384 256 true
    ∷ frame_at 256 128 true
    ∷ frame_at 128 0 false
    ∷ frame_at 0 no_top true
    ∷ []

four_frames-Linked : Linked four_frames.hdr four_frames.top_cur frames_of_four
four_frames-Linked =
    frame _ (λ z. omega (arith, z)) refl
      (frame _ (λ z. omega (arith, z)) refl
        (frame _ (λ z. omega (arith, z)) refl (frame _ (λ z. omega (arith, z)) refl bottom)))

pop_dead-Unwound_example : Unwound four_frames (pop_dead 4 four_frames) frames_of_four
pop_dead-Unwound_example =
    pop_dead-Unwound 4 four_frames frames_of_four four_frames-Linked (omega arith)

second_left : (pop_dead 4 four_frames).off ≡ 256
second_left = pop_dead-Unwound_example.off_back
