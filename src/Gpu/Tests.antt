-- ===== src/Gpu/Tests.antt =====
-- A pool with one buffer, and the theorems at it.
use oodar.Base.{
  ℕ, ◌*◌, ◌≡◌, ◌≢◌, ◌<◌, ◌≤◌, ◌⊎◌, refl, arith, true, [], ◌∷◌, none, some, get_or, replicate, pos,
  returns,
}
use oodar.Cap.Tokens.{CapKind}
use oodar.Cap.Sample.{counted, counted_opens}
use oodar.Gpu.{
  GpuPool, block_at, free_begin, free_end, gpu_alloc_in, get_ptr_in, oo_gpu_size_to_bin,
  oo_gpu_bin_to_size, bin_loop, oo_gpu_buffer_alloc, sized_alloc, alloc_from, make_block, hand_out,
  hand_out_at, free_handle,
}
use oodar.Gpu.Sizes.{size_to_bin_lem}
use oodar.Gpu.Race.{Freeable, begun, freed_in_use}

abbrev empty : GpuPool
empty = record {
  blocks = [];
  bins = replicate 32 [];
  handles = replicate 4 none;
  total_allocated = 0;
  total_active = 0;
  device_freed = [];
  hip_ok = true;
}

abbrev one_buffer : GpuPool
one_buffer = record empty {
  blocks =
      record {
        gpu_ptr = 0x1000;
        capacity_bytes = 128;
        bin_index = 1;
        is_in_use = true;
        in_flight_copies = 0;
      }
      ∷ [];
  handles = none ∷ some 0 ∷ none ∷ none ∷ [];
  total_allocated = 128;
  total_active = 128;
}

first_alloc :
    oo_gpu_buffer_alloc counted (counted.token CapKind.gpu) (some 0x1000) true (pos 100) empty
    ≡ returns (1, one_buffer)
unfolding oo_gpu_buffer_alloc sized_alloc gpu_alloc_in alloc_from make_block hand_out hand_out_at
    free_handle oo_gpu_size_to_bin oo_gpu_bin_to_size bin_loop
first_alloc = rw (counted_opens CapKind.gpu) refl

size_to_bin_lem_example :
    (oo_gpu_size_to_bin 100 < 32)
    × (100 ≤ oo_gpu_bin_to_size (oo_gpu_size_to_bin 100))
    × ((oo_gpu_size_to_bin 100 ≡ 0) ⊎ (oo_gpu_bin_to_size (oo_gpu_size_to_bin 100) < 2 * 100))
size_to_bin_lem_example = size_to_bin_lem 100 (omega arith)

one_buffer-Freeable : Freeable one_buffer 1 0
unfolding block_at
one_buffer-Freeable = record {
  runtime = refl;
  handle = refl;
  used = refl;
  idle = refl;
  placed = omega arith;
  binned = omega arith;
}

mapped_block : (block_at one_buffer 0).gpu_ptr ≢ 0
unfolding block_at
mapped_block = λ z. omega (arith, z)

bin_of_100 : oo_gpu_size_to_bin 100 ≡ (block_at one_buffer 0).bin_index
unfolding oo_gpu_size_to_bin bin_loop block_at
bin_of_100 = refl

freed_in_use_example :
    (free_begin 1 one_buffer ≡ (some (0, (block_at one_buffer 0).gpu_ptr), begun one_buffer 1 0))
    × ((r : ℕ × GpuPool) × (gpu_alloc_in none true 100 (begun one_buffer 1 0) ≡ r)
        × (r.0 ≢ 0)
        × (get_or (free_end 0 (block_at one_buffer 0).gpu_ptr r.1).handles r.0 none ≡ some 0)
        × ((block_at (free_end 0 (block_at one_buffer 0).gpu_ptr r.1) 0).is_in_use ≡ true)
        × (get_ptr_in r.0 (free_end 0 (block_at one_buffer 0).gpu_ptr r.1) ≡ 0)
        × ((free_end 0 (block_at one_buffer 0).gpu_ptr r.1).device_freed
            ≡ (block_at one_buffer 0).gpu_ptr ∷ r.1.device_freed))
freed_in_use_example =
    freed_in_use one_buffer 1 0 100 none true one_buffer-Freeable mapped_block (omega arith)
      (omega arith) bin_of_100
