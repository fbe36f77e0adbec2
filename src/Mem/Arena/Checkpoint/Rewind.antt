-- ===== src/Mem/Arena/Checkpoint/Rewind.antt =====
-- Checkpoints: what a rollback brings back, and when it refuses.
use oodar.Base.{ℕ, ◌≤◌, ◌<◌, ◌≡◌, ◌≢◌, refl, arith, ap, ◌∙◌}
use oodar.Base.{
  true, some, ℤ, List, ◌∷◌, returns, slot_of, length, get_or, set, get_or-set_self, >>=-returns,
  returns-injective,
}
use oodar.Cap.Tokens.{CapKind, CapState}
use oodar.Cap.Gates.{oo_cap_require_kind}
use oodar.Mem.Arena.{OoArena, OoCk, Arenas, slot, put, arena_slots, idle}
use oodar.Mem.Arena.Checkpoint.{oo_checkpoint, oo_rollback, pushed, popped, snap_of}

-- `t` came from `s` by steps that keep slot `i`'s mapping: same generation, capacity and liveness.
pub record SameMapping (i : ℕ) (s t : Arenas) : Type 0 where
  pub live : (slot t i).live ≡ (slot s i).live
  pub gen : (slot t i).gen ≡ (slot s i).gen
  pub capacity : (slot t i).capacity ≡ (slot s i).capacity

pushed_lem :
    (i k : ℕ) (s : Arenas) {s1 : Arenas}
    → i < 32
    → pushed (snap_of (some i) s) s ≡ (some k, s1)
    → ((slot s i).live ≡ true)
      × (s1.slots ≡ s.slots)
      × (k ≡ length s.checkpoints)
      × (k < 8)
      × (s1.checkpoints
          ≡ record {
            id = i;
            ck_off = (slot s i).off;
            ck_gen = (slot s i).gen;
            ck_top = (slot s i).top_cur;
          }
            ∷ s.checkpoints)
unfolding pushed snap_of
pushed_lem i k s hi h = ground arith

restore_lem :
    (i : ℕ) (a : OoArena) (rest : List OoCk) (t : Arenas)
    → i < 32
    → i < length t.slots
    → t.checkpoints ≡ record { id = i; ck_off = a.off; ck_gen = a.gen; ck_top = a.top_cur } ∷ rest
    → (slot t i).live ≡ true
    → (slot t i).gen ≡ a.gen
    → a.off ≤ (slot t i).capacity
    → popped t.checkpoints t ≡ (
      i,
      put
          (record t { checkpoints = rest })
          i
          (record (slot t i) { off = a.off; top_cur = a.top_cur }),
    )
unfolding popped
restore_lem i a rest t hi len top live gen fits = rw top (ground arith)

-- A checkpoint of a slot was taken, with its bump pointer inside its capacity, and later the stack
-- of checkpoints is as it was then. If the slot is still alive with the same generation and
-- capacity, the rollback returns the slot, its bump pointer and top frame are those of the
-- checkpoint, and the checkpoint is off the stack.
pub rollback-checkpoint :
    (caps : CapState) (token i k : ℕ) (v : ℤ) (s t : Arenas) {s1 : Arenas}
    → slot_of arena_slots v ≡ some i
    → i < 32
    → i < length t.slots
    → (slot s i).off ≤ (slot s i).capacity
    → oo_checkpoint caps token v s ≡ returns (some k, s1)
    → t.checkpoints ≡ s1.checkpoints
    → SameMapping i s t
    → (t' : Arenas) × (oo_rollback caps token t ≡ returns (i, t'))
      × ((slot t' i).off ≡ (slot s i).off)
      × ((slot t' i).top_cur ≡ (slot s i).top_cur)
      × (t'.checkpoints ≡ s.checkpoints)
unfolding oo_checkpoint oo_rollback
rollback-checkpoint caps token i k v s t {s1} hid small len fits h stack same =
    let (c, gate, rest) = >>=-returns (oo_cap_require_kind CapKind.arena caps token) _ h in
    let made = pushed_lem i k s small (rw hid at (returns-injective rest)) in
    let a : OoArena = record (slot t i) { off = (slot s i).off; top_cur = (slot s i).top_cur } in
    let back =
      restore_lem i (slot s i) s.checkpoints t small len (stack ∙ made.4) (same.live ∙ made.0)
        same.gen (omega (arith, same.capacity)) in
    let there : get_or (set t.slots i a) i idle ≡ a = get_or-set_self t.slots i a idle len in
    (
      put (record t { checkpoints = s.checkpoints }) i a,
      rw gate (ap returns back),
      ap (λ (x : OoArena). x.off) there,
      ap (λ (x : OoArena). x.top_cur) there,
      refl,
    )

refuse_lem :
    (k : OoCk) (rest : List OoCk) (t : Arenas)
    → t.checkpoints ≡ k ∷ rest
    → (slot t k.id).gen ≢ k.ck_gen
    → popped t.checkpoints t ≡ (0, record t { checkpoints = rest })
unfolding popped
refuse_lem k rest t top ne = rw top (ground arith)

-- With a token that passes the gate, where the slot of the last checkpoint was created anew since,
-- the rollback changes no arena: it answers 0 and only drops the checkpoint.
pub stale_rollback :
    (caps c : CapState) (token : ℕ) (k : OoCk) (rest : List OoCk) (t : Arenas)
    → oo_cap_require_kind CapKind.arena caps token ≡ returns c
    → t.checkpoints ≡ k ∷ rest
    → (slot t k.id).gen ≢ k.ck_gen
    → oo_rollback caps token t ≡ returns (0, record t { checkpoints = rest })
unfolding oo_rollback
stale_rollback caps c token k rest t gate top ne = rw gate (ap returns (refuse_lem k rest t top ne))
