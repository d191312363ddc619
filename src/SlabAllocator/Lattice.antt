-- ===== src/SlabAllocator/Lattice.antt =====
-- src/cache/slab_allocator.cc: the alignment of lengths and the lattice of slot sizes.
pub mod Laws
pub mod Tests
use dingo_cache.Common.{
  ℕ, zero, suc, ◌+◌, ◌-◌, ◌*◌, ◌/◌, ◌%◌, ◌^◌, Bool, List, [], ◌∷◌, ltb, leb, ◌==◌, if◌then◌else◌,
  min, max, length,
}
use dingo_cache.SlabAllocator.State.{Options, Class, no_class}

-- UINT32_MAX.
abbrev pub max_u32 : ℕ
max_u32 = 2 ^ 32 - 1

-- AlignUp, on 64-bit words: 0 where the sum would wrap around.
unfoldable pub align_up : ℕ → ℕ → ℕ
align_up x a =
    if leb a 1 then x else if ltb (2 ^ 64 - 1 - (a - 1)) x then 0 else (x + (a - 1)) / a * a

-- The largest size of the lattice.
unfoldable pub max_aligned : Options → ℕ
max_aligned o = min (o.extent_bytes / o.align * o.align) (max_u32 / o.align * o.align)

-- One round of the loop of CanonicalSlotSize: the size after `current`, not above the largest.
unfoldable pub next_size : Options → ℕ → ℕ
next_size o current =
    let minimum = current + o.align in
    let candidate =
      if o.wasteful then max (o.stretch minimum / o.align * o.align) minimum else minimum in
    min candidate (max_aligned o)

-- The loop, on fuel: a round that does not grow ends it with the length itself.
unfoldable pub climb : Options → ℕ → ℕ → ℕ → ℕ
climb o zero len current = current
climb o (suc n) len current =
    let rest = climb o n len (next_size o current) in
    if leb len current
    then current
    else if leb (next_size o current) current
    then len % 2 ^ 32
    else rest

-- CanonicalSlotSize.
unfoldable pub canonical_slot_size : Options → ℕ → ℕ
canonical_slot_size o len = climb o len len o.align

-- ClassForExactSize: the number of classes if there is none.
unfoldable pub class_for_exact_size : List Class → ℕ → ℕ
class_for_exact_size [] size = 0
class_for_exact_size (c ∷ cs) size =
    if c.slot_size == size then 0 else class_for_exact_size cs size + 1

-- ClassForLen.
unfoldable pub class_for_len : Options → List Class → ℕ → ℕ
class_for_len o classes len = class_for_exact_size classes (canonical_slot_size o len)

-- The loop of the constructor: the whole lattice, from `size` on. `size` is a 64-bit number.
unfoldable pub lattice : Options → ℕ → ℕ → List Class
lattice o zero size = []
lattice o (suc n) size =
    let cls : Class = record no_class {
      slot_size = size % 2 ^ 32;
      slots_per_extent = o.extent_bytes / size % 2 ^ 32;
    } in
    let next = canonical_slot_size o (size + o.align) in
    let rest = lattice o n next in
    if ltb (max_aligned o) size
    then []
    else if size == max_aligned o
    then cls ∷ []
    else if leb next size
    then cls ∷ []
    else cls ∷ rest
