-- ===== src/Gpu.antt =====
-- hw/gpu/gpu/gpu_pool.c and the sizes of gpu.c: the pool of device buffers. A block is named by its
-- place in the list of all blocks, a null pointer is 0, and what `hipMalloc` and `malloc` gave is an
-- argument. A free holds the mutex in its first part only, so it is two steps.
pub mod Sizes
pub mod Race
mod Tests
use oodar.Base.{
  ℕ, zero, suc, ◌+◌, ◌-◌, ◌*◌, ◌%◌, ◌^◌, ltb, ◌==◌, if◌then◌else◌, Bool, true, false, not, ◌||◌,
  ◌&&◌, List, [], ◌∷◌, ◌++◌, Option, none, some, get_or, set, length, drop, ℤ, pos, negsuc, Run,
  returns, ◌>>=◌,
}
use oodar.Cap.Tokens.{CapState, CapKind}
use oodar.Cap.Gates.{oo_cap_require_kind}

pub record OoGpuBlock : Type 0 where
  pub gpu_ptr : ℕ
  pub capacity_bytes : ℕ
  pub bin_index : ℕ
  pub is_in_use : Bool
  pub in_flight_copies : ℕ

-- The blocks in the order in which they were made; the 32 free lists; the 1024 handles; the two
-- totals; what `hipFree` was called with; and whether `oo_gpu_init` found the runtime.
pub record GpuPool : Type 0 where
  pub blocks : List OoGpuBlock
  pub bins : List (List ℕ)
  pub handles : List (Option ℕ)
  pub total_allocated : ℕ
  pub total_active : ℕ
  pub device_freed : List ℕ
  pub hip_ok : Bool

abbrev pub pool_bins : ℕ
pool_bins = 32

-- The loop, with the number of bins that are left.
unfoldable pub bin_loop : ℕ → ℕ → ℕ → ℕ → ℕ
bin_loop zero bin cur bytes = bin
bin_loop (suc left) bin cur bytes =
    let on = bin_loop left (bin + 1) (cur * 2) bytes in if ltb cur bytes then on else bin

unfoldable pub oo_gpu_size_to_bin : ℕ → ℕ
oo_gpu_size_to_bin bytes = bin_loop 31 0 64 bytes

unfoldable pub oo_gpu_bin_to_size : ℕ → ℕ
oo_gpu_bin_to_size bin = 64 * 2 ^ bin

abbrev pub no_block : OoGpuBlock
no_block = record {
  gpu_ptr = 0;
  capacity_bytes = 0;
  bin_index = 0;
  is_in_use = false;
  in_flight_copies = 0;
}

unfoldable pub block_at : GpuPool → ℕ → OoGpuBlock
block_at p i = get_or p.blocks i no_block

unfoldable pub put_block : ℕ → OoGpuBlock → GpuPool → GpuPool
put_block i b p = record p { blocks = set p.blocks i b }

unfoldable pub push_free : ℕ → ℕ → GpuPool → GpuPool
push_free bin i p = record p { bins = set p.bins bin (i ∷ get_or p.bins bin []) }

-- The first handle from `h` on that is not taken.
unfoldable pub free_handle : ℕ → List (Option ℕ) → Option ℕ
free_handle h [] = none
free_handle h (none ∷ rest) = some h
free_handle h (some i ∷ rest) = free_handle (h + 1) rest

-- A handle for the block, or the block back into its free list.
unfoldable pub hand_out_at : Option ℕ → ℕ → ℕ → ℕ → GpuPool → ℕ × GpuPool
hand_out_at (some h) i bin size p = (
  h,
  record p { handles = set p.handles h (some i); total_active = (p.total_active + size) % 2 ^ 64 },
)
hand_out_at none i bin size p =
    (0, push_free bin i (put_block i (record (block_at p i) { is_in_use = false }) p))

unfoldable pub hand_out : ℕ → ℕ → ℕ → GpuPool → ℕ × GpuPool
hand_out i bin size p = hand_out_at (free_handle 1 (drop 1 p.handles)) i bin size p

unfoldable pub take_block : OoGpuBlock → OoGpuBlock
take_block b = record b { is_in_use = true; in_flight_copies = 0 }

-- A block from the free list whose device memory is gone.
unfoldable pub refill : Option ℕ → ℕ → ℕ → ℕ → GpuPool → ℕ × GpuPool
refill none i bin size p =
    (0, push_free bin i (put_block i (record (take_block (block_at p i)) { is_in_use = false }) p))
refill (some ptr) i bin size p =
    hand_out i bin size
      (record (put_block i
        (record (take_block (block_at p i)) { gpu_ptr = ptr; capacity_bytes = size }) p) {
          total_allocated = (p.total_allocated + size) % 2 ^ 64;
        })

-- A new block; `room` says whether `malloc` gave memory for it.
unfoldable pub make_block : Option ℕ → Bool → ℕ → ℕ → GpuPool → ℕ × GpuPool
make_block none room bin size p = (0, p)
make_block (some ptr) false bin size p = (0, record p { device_freed = ptr ∷ p.device_freed })
make_block (some ptr) true bin size p = hand_out (length p.blocks) bin size (record p {
  blocks =
      p.blocks
      ++ (record {
        gpu_ptr = ptr;
        capacity_bytes = size;
        bin_index = bin;
        is_in_use = true;
        in_flight_copies = 0;
      }
          ∷ []);
  total_allocated = (p.total_allocated + size) % 2 ^ 64;
})

unfoldable pub alloc_from : Option ℕ → Bool → List ℕ → ℕ → ℕ → GpuPool → ℕ × GpuPool
alloc_from ptr room [] bin size p = make_block ptr room bin size p
alloc_from ptr room (i ∷ rest) bin size p =
    let p' = record p { bins = set p.bins bin rest } in
    if (block_at p i).gpu_ptr == 0
    then refill ptr i bin size p'
    else hand_out i bin size (put_block i (take_block (block_at p i)) p')

-- Behind the tests; `hipMalloc` gave `ptr`.
unfoldable pub gpu_alloc_in : Option ℕ → Bool → ℕ → GpuPool → ℕ × GpuPool
gpu_alloc_in ptr room bytes p =
    let bin = oo_gpu_size_to_bin bytes in
    alloc_from ptr room (get_or p.bins bin []) bin (oo_gpu_bin_to_size bin) p

unfoldable pub sized_alloc : Option ℕ → Bool → ℤ → GpuPool → ℕ × GpuPool
sized_alloc ptr room (negsuc n) p = (0, p)
sized_alloc ptr room (pos n) p =
    if n == 0 || ltb (2 ^ 30) n
    then (0, p)
    else if not p.hip_ok
    then (0, p)
    else gpu_alloc_in ptr room n p

-- What the locked part of a free leaves for the rest: the block and its pointer.
unfoldable pub free_locked : Option ℕ → ℕ → GpuPool → Option (ℕ × ℕ) × GpuPool
free_locked none h p = (none, p)
free_locked (some i) h p =
    let b = block_at p i in
    if not b.is_in_use then (none, p) else if ltb 0 b.in_flight_copies then (none, p) else (
      some (i, b.gpu_ptr),
      record (push_free b.bin_index i (put_block i (record b { is_in_use = false }) p)) {
        handles = set p.handles h none;
        total_active = (p.total_active + 2 ^ 64 - b.capacity_bytes) % 2 ^ 64;
      },
    )

unfoldable pub is_handle : ℤ → Bool
is_handle (negsuc n) = false
is_handle (pos n) = not (n == 0) && ltb n 1024

unfoldable pub free_begin : ℕ → GpuPool → Option (ℕ × ℕ) × GpuPool
free_begin h p = if not p.hip_ok then (none, p) else free_locked (get_or p.handles h none) h p

-- The part behind the mutex.
unfoldable pub free_end : ℕ → ℕ → GpuPool → GpuPool
free_end i ptr p =
    put_block i (record (block_at p i) { gpu_ptr = 0 })
      (record p { device_freed = if ptr == 0 then p.device_freed else (ptr ∷ p.device_freed) })

unfoldable pub both_parts : Option (ℕ × ℕ) × GpuPool → Bool × GpuPool
both_parts (none, p) = (false, p)
both_parts (some (i, ptr), p) = (true, free_end i ptr p)

unfoldable pub handle_of : ℤ → ℕ
handle_of (pos n) = n
handle_of (negsuc n) = 0

unfoldable pub ptr_of : Option ℕ → GpuPool → ℕ
ptr_of none p = 0
ptr_of (some i) p = (block_at p i).gpu_ptr

unfoldable pub size_of : Option ℕ → GpuPool → ℕ
size_of none p = 0
size_of (some i) p = (block_at p i).capacity_bytes

unfoldable pub get_ptr_in : ℕ → GpuPool → ℕ
get_ptr_in h p = if p.hip_ok then ptr_of (get_or p.handles h none) p else 0

unfoldable pub get_size_in : ℕ → GpuPool → ℕ
get_size_in h p = if p.hip_ok then size_of (get_or p.handles h none) p else 0

module _ (caps : CapState) (cap : ℕ) where
  unfoldable pub oo_gpu_buffer_alloc : Option ℕ → Bool → ℤ → GpuPool → Run (ℕ × GpuPool)
  oo_gpu_buffer_alloc ptr room bytes p = do
    _ ← oo_cap_require_kind CapKind.gpu caps cap
    returns (sized_alloc ptr room bytes p)

  -- With no other thread between the two parts.
  unfoldable pub oo_gpu_buffer_free : ℤ → GpuPool → Run (Bool × GpuPool)
  oo_gpu_buffer_free h p = do
    _ ← oo_cap_require_kind CapKind.gpu caps cap
    returns (if is_handle h then both_parts (free_begin (handle_of h) p) else (false, p))

  unfoldable pub oo_gpu_buffer_get_ptr : ℤ → GpuPool → Run ℕ
  oo_gpu_buffer_get_ptr h p = do
    _ ← oo_cap_require_kind CapKind.gpu caps cap
    returns (if is_handle h then get_ptr_in (handle_of h) p else 0)

  unfoldable pub oo_gpu_buffer_get_size : ℤ → GpuPool → Run ℕ
  oo_gpu_buffer_get_size h p = do
    _ ← oo_cap_require_kind CapKind.gpu caps cap
    returns (if is_handle h then get_size_in (handle_of h) p else 0)
