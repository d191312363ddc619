-- ===== src/SlabAllocator/Lattice/Tests.antt =====
-- Runs of the lattice of slot sizes (src/cache/slab_allocator.cc).
use dingo_cache.Common.{◌*◌, ◌/◌, ◌≤◌, ◌≡◌, refl, arith, true, none}
use dingo_cache.SlabAllocator.Program.{program}
use dingo_cache.SlabAllocator.State.{Options}
use dingo_cache.SlabAllocator.Lattice.{max_aligned, canonical_slot_size}
use dingo_cache.SlabAllocator.Lattice.Laws.{
  IsMultiple, times, canonical_slot_size_bounds, canonical_slot_size_agrees,
}

-- Extents of 4096 bytes, slots of multiples of 64, and at most a fifth of a slot wasted.
abbrev sizes : Options
sizes = record {
  extent_bytes = 4096;
  num_extents = 2;
  align = 64;
  wasteful = true;
  stretch = λ n. n * 5 / 4;
  on_extent_bind = none;
  on_extent_evict = none;
  on_slot_evict = none;
}

size_of_896 : canonical_slot_size sizes 896 ≡ 1088
unfolding program
size_of_896 = refl

fits : 896 ≤ max_aligned sizes
unfolding program
fits = omega arith

larger_fits : 960 ≤ max_aligned sizes
unfolding program
larger_fits = omega arith

inside : 960 ≤ canonical_slot_size sizes 896
unfolding program
inside = omega arith

canonical_slot_size_bounds_example :
    let size = canonical_slot_size sizes 896 in
    (896 ≤ size) × (size ≤ max_aligned sizes) × IsMultiple 64 size
canonical_slot_size_bounds_example =
    canonical_slot_size_bounds sizes (omega arith) 896 (omega arith) (times 14 refl) fits

canonical_slot_size_agrees_run : canonical_slot_size sizes 960 ≡ canonical_slot_size sizes 896
canonical_slot_size_agrees_run =
    canonical_slot_size_agrees sizes (omega arith) 896 960 (omega arith) (times 14 refl)
      (times 15 refl) (omega arith) larger_fits inside
