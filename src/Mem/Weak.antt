-- ===== src/Mem/Weak.antt =====
-- core/mem/weak.c and weak.h: control blocks with their strong and weak counts, and weak references.
-- A control block stands at an address, and none is left where it was freed. The destructors that ran
-- are kept with their payloads, the newest first. The atomic operations of one call are one step.
pub mod Counts
pub mod Drain
pub mod Gated
mod Tests
use oodar.Base.{ℕ, ◌+◌, ◌-◌, ◌%◌, ◌^◌, ltb, ◌==◌, if◌then◌else◌, ◌&&◌, ◌||◌, not}
use oodar.Base.{Bool, true, false, List, [], ◌∷◌, Option, none, some}

-- `dtor` is `none` for NULL.
pub record OoControlBlock : Type 0 where
  pub strong_count : ℕ
  pub weak_count : ℕ
  pub flags : ℕ
  pub epoch : ℕ
  pub dtor : Option ℕ

pub record WeakHeap : Type 0 where
  pub ctrl : ℕ → Option OoControlBlock
  pub ran : List (ℕ × ℕ)

-- The addresses, 0 for NULL.
pub record OoWeakRef : Type 0 where
  pub payload : ℕ
  pub ctrl : ℕ

abbrev pub put : ℕ → Option OoControlBlock → WeakHeap → WeakHeap
put a o s = record s { ctrl = λ j. if j == a then o else s.ctrl j }

abbrev pub up : ℕ → ℕ
up n = (n + 1) % 2 ^ 32

abbrev pub down : ℕ → ℕ
down n = (n + 2 ^ 32 - 1) % 2 ^ 32

abbrev pub tombstone : ℕ
tombstone = 2 ^ 32 - 1

abbrev pub initial : Option ℕ → OoControlBlock
initial dtor = record { strong_count = 1; weak_count = 1; flags = 0; epoch = 0; dtor = dtor }

unfoldable pub init_at : ℕ → Option ℕ → WeakHeap → WeakHeap
init_at a dtor s = if a == 0 then s else put a (some (initial dtor)) s

-- `a` is what `calloc` gave, 0 where it failed.
unfoldable pub create_at : ℕ → Option ℕ → WeakHeap → ℕ × WeakHeap
create_at a dtor s = if a == 0 then (0, s) else (a, init_at a dtor s)

-- `sc == 0 || sc == UINT32_MAX || (fl & OO_FLAG_STATIC) || fl == 0xFFFFFFFFu` keeps the count.
abbrev retained_block : Option OoControlBlock → Option OoControlBlock
retained_block none = none
retained_block (some b) =
    if b.strong_count == 0
      || (b.strong_count == 2 ^ 32 - 1 || (b.flags % 2 == 1 || b.flags == tombstone))
    then some b
    else some (record b { strong_count = b.strong_count + 1 })

unfoldable pub retain_at : ℕ → WeakHeap → WeakHeap
retain_at a s = if a == 0 then s else put a (retained_block (s.ctrl a)) s

abbrev pub run_dtor : Option ℕ → ℕ → List (ℕ × ℕ) → List (ℕ × ℕ)
run_dtor none payload ran = ran
run_dtor (some f) payload ran = (f, payload) ∷ ran

-- `__atomic_fetch_sub(&weak_count, 1)`; the count that was 1 frees the block.
abbrev pub weak_dropped : OoControlBlock → Option OoControlBlock
weak_dropped b =
    if b.weak_count == 1 then none else some (record b { weak_count = down b.weak_count })

abbrev strong_dropped : ℕ → ℕ → WeakHeap → Option OoControlBlock → WeakHeap
strong_dropped a payload s none = s
strong_dropped a payload s (some b) =
    if b.flags % 2 == 1 || b.flags == tombstone
    then s
    else (if b.strong_count == 1
        then put a (weak_dropped (record b { strong_count = 0 }))
            (record s { ran = run_dtor b.dtor payload s.ran })
        else put a (some (record b { strong_count = down b.strong_count })) s)

unfoldable pub release_at : ℕ → ℕ → WeakHeap → WeakHeap
release_at a payload s = if a == 0 then s else strong_dropped a payload s (s.ctrl a)

abbrev pub oo_weak_new : OoWeakRef
oo_weak_new = record { payload = 0; ctrl = 0 }

-- The weak count is raised first, and lowered again where no strong owner is left.
abbrev weak_created : ℕ → ℕ → WeakHeap → Option OoControlBlock → OoWeakRef × WeakHeap
weak_created payload a s none = (oo_weak_new, s)
weak_created payload a s (some b) =
    let raised = record b { weak_count = up b.weak_count } in
    if b.strong_count == 0
    then (oo_weak_new, put a (weak_dropped raised) s)
    else (record { payload = payload; ctrl = a }, put a (some raised) s)

unfoldable pub weak_create_at : ℕ → ℕ → WeakHeap → OoWeakRef × WeakHeap
weak_create_at payload a s =
    if a == 0 || payload == 0 then (oo_weak_new, s) else weak_created payload a s (s.ctrl a)

-- The upgrade does not look at the static flag.
abbrev upgraded : OoWeakRef → WeakHeap → Option OoControlBlock → ℕ × WeakHeap
upgraded ref s none = (0, s)
upgraded ref s (some b) =
    if b.strong_count == 0 || (b.strong_count == 2 ^ 32 - 1 || b.flags == tombstone)
    then (0, s)
    else (ref.payload, put ref.ctrl (some (record b { strong_count = b.strong_count + 1 })) s)

unfoldable pub upgrade_at : OoWeakRef → WeakHeap → ℕ × WeakHeap
upgrade_at ref s =
    if ref.ctrl == 0 || ref.payload == 0 then (0, s) else upgraded ref s (s.ctrl ref.ctrl)

abbrev weak_raised : Option OoControlBlock → Option OoControlBlock
weak_raised none = none
weak_raised (some b) = some (record b { weak_count = up b.weak_count })

unfoldable pub weak_retain_at : OoWeakRef → WeakHeap → WeakHeap
weak_retain_at ref s = if ref.ctrl == 0 then s else put ref.ctrl (weak_raised (s.ctrl ref.ctrl)) s

-- The count that was 1 frees the block only where no strong owner is left.
abbrev weak_lowered : Option OoControlBlock → Option OoControlBlock
weak_lowered none = none
weak_lowered (some b) =
    if b.weak_count == 1 && b.strong_count == 0
    then none
    else some (record b { weak_count = down b.weak_count })

-- The reference itself becomes NULL.
unfoldable pub weak_release_at : OoWeakRef → WeakHeap → OoWeakRef × WeakHeap
weak_release_at ref s =
    if ref.ctrl == 0
    then (ref, s)
    else (oo_weak_new, put ref.ctrl (weak_lowered (s.ctrl ref.ctrl)) s)

abbrev alive_block : Option OoControlBlock → Bool
alive_block none = false
alive_block (some b) = not (b.flags == tombstone) && ltb 0 b.strong_count

unfoldable pub oo_weak_is_alive : WeakHeap → OoWeakRef → Bool
oo_weak_is_alive s ref = not (ref.ctrl == 0) && alive_block (s.ctrl ref.ctrl)

unfoldable pub oo_weak_expired : WeakHeap → OoWeakRef → Bool
oo_weak_expired s ref = not (oo_weak_is_alive s ref)

abbrev strong_of : Option OoControlBlock → ℕ
strong_of none = 0
strong_of (some b) = b.strong_count

unfoldable pub oo_weak_strong_count : WeakHeap → OoWeakRef → ℕ
oo_weak_strong_count s ref = if ref.ctrl == 0 then 0 else strong_of (s.ctrl ref.ctrl)

-- Without the one that the strong owners hold together.
abbrev weak_of : Option OoControlBlock → ℕ
weak_of none = 0
weak_of (some b) =
    if ltb 0 b.strong_count && ltb 0 b.weak_count then b.weak_count - 1 else b.weak_count

unfoldable pub oo_weak_weak_count : WeakHeap → OoWeakRef → ℕ
oo_weak_weak_count s ref = if ref.ctrl == 0 then 0 else weak_of (s.ctrl ref.ctrl)
