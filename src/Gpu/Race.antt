-- ===== src/Gpu/Race.antt =====
-- A free in two parts, with an allocation of another thread between them.
use oodar.Base.{
  ℕ, zero, suc, ◌+◌, ◌-◌, ◌%◌, ◌^◌, ◌≡◌, ◌≢◌, ◌<◌, refl, arith, ap, ◌∙◌, ltb, ◌==◌, Bool, true,
  false, not, List, [], ◌∷◌, Option, none, some, get_or, set, length, drop, get_or-set_self,
  length-set, if_of_true, if_of_false, ==_iff,
}
use oodar.Gpu.{
  OoGpuBlock, GpuPool, no_block, block_at, put_block, push_free, free_handle, hand_out_at, hand_out,
  take_block, alloc_from, gpu_alloc_in, free_locked, free_begin, free_end, ptr_of, get_ptr_in,
  oo_gpu_size_to_bin, oo_gpu_bin_to_size,
}

-- A handle of the block, that may be freed.
pub record Freeable (p : GpuPool) (h i : ℕ) : Type 0 where
  pub runtime : p.hip_ok ≡ true
  pub handle : get_or p.handles h none ≡ some i
  pub used : (block_at p i).is_in_use ≡ true
  pub idle : (block_at p i).in_flight_copies ≡ 0
  pub placed : i < length p.blocks
  pub binned : (block_at p i).bin_index < length p.bins

block_at-put_block :
    (p : GpuPool) (i : ℕ) (b : OoGpuBlock) → i < length p.blocks → block_at (put_block i b p) i ≡ b
unfolding block_at put_block
block_at-put_block p i b l = get_or-set_self p.blocks i b no_block l

block_at-free_end :
    (p : GpuPool) (i ptr : ℕ)
    → i < length p.blocks
    → block_at (free_end i ptr p) i ≡ record (block_at p i) { gpu_ptr = 0 }
unfolding block_at put_block free_end
block_at-free_end p i ptr l = get_or-set_self p.blocks i _ no_block l

-- The pool after the locked part.
abbrev pub begun : GpuPool → ℕ → ℕ → GpuPool
begun p h i =
    let b = block_at p i in
    record (push_free b.bin_index i (put_block i (record b { is_in_use = false }) p)) {
      handles = set p.handles h none;
      total_active = (p.total_active + 2 ^ 64 - b.capacity_bytes) % 2 ^ 64;
    }

free_begin-Freeable :
    (p : GpuPool) (h i : ℕ)
    → Freeable p h i
    → free_begin h p ≡ (some (i, (block_at p i).gpu_ptr), begun p h i)
unfolding free_begin free_locked
free_begin-Freeable p h i f =
    if_of_false {c = not p.hip_ok} _ _ (ap not f.runtime)
    ∙ ap (λ o. free_locked o h p) f.handle
    ∙ if_of_false {c = not (block_at p i).is_in_use} _ _ (ap not f.used)
    ∙ if_of_false {c = ltb 0 (block_at p i).in_flight_copies} _ _ (ap (λ n. ltb 0 n) f.idle)

free_handle-some :
    (h k : ℕ) (hs : List (Option ℕ))
    → k < length hs
    → get_or hs k none ≡ none
    → (j : ℕ) × (free_handle h hs ≡ some (h + j)) × (j < length hs)
unfolding free_handle
free_handle-some h k [] l e = elim l [ ]
free_handle-some h k (none ∷ hs) l e = (0, ap some (omega arith), omega arith)
free_handle-some h zero (some x ∷ hs) l e = absurd (cc)
free_handle-some h (suc k) (some x ∷ hs) l e =
    let (j, f, m) = free_handle-some (h + 1) k hs (omega arith) e in
    (suc j, f ∙ ap some (omega arith), omega (arith, m))

-- A freed handle can be given out again.
handle_left :
    (h : ℕ) (hs : List (Option ℕ))
    → 0 < h
    → h < length hs
    → get_or hs h none ≡ none
    → (j : ℕ) × (free_handle 1 (drop 1 hs) ≡ some j) × (0 < j) × (j < length hs)
handle_left h [] p l e = elim l [ ]
handle_left zero (x ∷ hs) p l e = elim p [ ]
handle_left (suc k) (x ∷ hs) p l e =
    let (j, f, m) = free_handle-some 1 k hs (omega arith) e in
    (1 + j, f, omega arith, omega (arith, m))

module _ (p : GpuPool) (h i bytes : ℕ) (ptr : Option ℕ) (room : Bool) (f : Freeable p h i)
    (mapped : (block_at p i).gpu_ptr ≢ 0) (pos_h : 0 < h) (low_h : h < length p.handles)
    (same_bin : oo_gpu_size_to_bin bytes ≡ (block_at p i).bin_index) where
  abbrev q : GpuPool
  q = begun p h i

  abbrev bin : ℕ
  bin = (block_at p i).bin_index

  block_after : block_at q i ≡ record (block_at p i) { is_in_use = false }
  unfolding block_at push_free put_block
  block_after = get_or-set_self p.blocks i _ no_block f.placed

  listed : get_or q.bins bin [] ≡ i ∷ get_or p.bins bin []
  unfolding push_free put_block
  listed = get_or-set_self p.bins bin _ [] f.binned

  freed_handle : get_or q.handles h none ≡ none
  freed_handle = get_or-set_self p.handles h none none low_h

  still_mapped : ((block_at q i).gpu_ptr == 0) ≡ false
  still_mapped = rw block_after (ground (arith, mapped))

  -- The pool when the other thread has its block.
  abbrev given : GpuPool
  given =
      put_block i (take_block (block_at q i))
        (record q { bins = set q.bins bin (get_or p.bins bin []) })

  alloc_gives :
      (j : ℕ)
      → free_handle 1 (drop 1 q.handles) ≡ some j
      → gpu_alloc_in ptr room bytes q ≡ hand_out_at (some j) i bin (oo_gpu_bin_to_size bin) given
  unfolding gpu_alloc_in alloc_from hand_out
  alloc_gives j e =
      ap (λ b. alloc_from ptr room (get_or q.bins b []) b (oo_gpu_bin_to_size b) q) same_bin
      ∙ ap (λ l. alloc_from ptr room l bin (oo_gpu_bin_to_size bin) q) listed
      ∙ if_of_false {c = (block_at q i).gpu_ptr == 0} _ _ still_mapped
      ∙ ap (λ o. hand_out_at o i bin (oo_gpu_bin_to_size bin) given) (kept_handles ∙ e)
    where
      kept_handles : free_handle 1 (drop 1 given.handles) ≡ free_handle 1 (drop 1 q.handles)
      kept_handles = unfold put_block in refl

  -- The state once the first thread has finished its free.
  abbrev finished : ℕ → GpuPool
  finished j =
      free_end i (block_at p i).gpu_ptr
        (hand_out_at (some j) i bin (oo_gpu_bin_to_size bin) given).1

  placed_given : i < length given.blocks
  unfolding put_block push_free
  placed_given = omega (
    arith,
    length-set (begun p h i).blocks i (take_block (block_at q i)),
    length-set p.blocks i (record (block_at p i) { is_in_use = false }),
    f.placed,
  )

  block_given : block_at given i ≡ take_block (block_at q i)
  block_given = block_at-put_block q_taken i (take_block (block_at q i)) placed_taken
    where
      q_taken : GpuPool
      q_taken = record q { bins = set q.bins bin (get_or p.bins bin []) }

      placed_taken : i < length q_taken.blocks
      placed_taken =
          unfold put_block push_free in
          omega
            (arith, length-set p.blocks i (record (block_at p i) { is_in_use = false }), f.placed)

  block_finished :
      (j : ℕ) → block_at (finished j) i ≡ record (take_block (block_at q i)) { gpu_ptr = 0 }
  block_finished j =
      block_at-free_end (hand_out_at (some j) i bin (oo_gpu_bin_to_size bin) given).1 i
        (block_at p i).gpu_ptr (unfold hand_out_at in placed_given)
      ∙ ap (λ (b : OoGpuBlock). record b { gpu_ptr = 0 }) (same_blocks ∙ block_given)
    where
      same_blocks :
          block_at (hand_out_at (some j) i bin (oo_gpu_bin_to_size bin) given).1 i
          ≡ block_at given i
      same_blocks = unfold hand_out_at block_at in refl

  given_handle : (j : ℕ) → j < length p.handles → get_or (finished j).handles j none ≡ some i
  unfolding free_end hand_out_at put_block push_free
  given_handle j l =
      get_or-set_self (set p.handles h none) j (some i) none
        (omega (arith, length-set p.handles h none))

  kept_runtime : (j : ℕ) → (finished j).hip_ok ≡ true
  unfolding free_end hand_out_at put_block push_free
  kept_runtime j = f.runtime

  ptr_finished : (j : ℕ) → j < length p.handles → get_ptr_in j (finished j) ≡ 0
  unfolding get_ptr_in ptr_of take_block
  ptr_finished j l =
      if_of_true {c = (finished j).hip_ok} _ _ (kept_runtime j)
      ∙ ap (λ o. ptr_of o (finished j)) (given_handle j l)
      ∙ ap (λ (b : OoGpuBlock). b.gpu_ptr) (block_finished j)

  freed_by_end :
      (t : GpuPool)
      → (free_end i (block_at p i).gpu_ptr t).device_freed ≡ (block_at p i).gpu_ptr ∷ t.device_freed
  unfolding free_end put_block
  freed_by_end t =
      if_of_false {c = (block_at p i).gpu_ptr == 0} _ _
        (ground (arith, mapped, ==_iff (block_at p i).gpu_ptr 0))

  -- Where one thread frees a handle of a block that is mapped, and another one allocates from the same
  -- bin after the first has given the mutex back and before it has finished, then the second gets a
  -- handle of that very block, and once the first has finished the block is in use with a null pointer,
  -- and `hipFree` was called, as the last time, with the pointer that the block had.
  pub freed_in_use :
      (free_begin h p ≡ (some (i, (block_at p i).gpu_ptr), begun p h i))
      × ((r : ℕ × GpuPool) × (gpu_alloc_in ptr room bytes (begun p h i) ≡ r)
          × (r.0 ≢ 0)
          × (get_or (free_end i (block_at p i).gpu_ptr r.1).handles r.0 none ≡ some i)
          × ((block_at (free_end i (block_at p i).gpu_ptr r.1) i).is_in_use ≡ true)
          × (get_ptr_in r.0 (free_end i (block_at p i).gpu_ptr r.1) ≡ 0)
          × ((free_end i (block_at p i).gpu_ptr r.1).device_freed
              ≡ (block_at p i).gpu_ptr ∷ r.1.device_freed))
  unfolding take_block
  freed_in_use =
      let (j, e, positive, l) =
        handle_left h q.handles pos_h (omega (arith, length-set p.handles h none, low_h))
          freed_handle in
      let low : j < length p.handles = omega (arith, length-set p.handles h none, l) in
      (
        free_begin-Freeable p h i f,
        (
          hand_out_at (some j) i bin (oo_gpu_bin_to_size bin) given,
          alloc_gives j e,
          unfold hand_out_at in λ z. omega (arith, positive, z),
          unfold hand_out_at in given_handle j low,
          unfold hand_out_at in ap (λ (b : OoGpuBlock). b.is_in_use) (block_finished j),
          unfold hand_out_at in ptr_finished j low,
          freed_by_end (hand_out_at (some j) i bin (oo_gpu_bin_to_size bin) given).1,
        ),
      )
