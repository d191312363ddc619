-- ===== src/SlabAllocator.antt =====
-- src/cache/slab_allocator.{h,cc}: the slot lifecycle manager of the slab store and the RAM tier.
pub mod Index
pub mod State
pub mod FreeList
pub mod Lattice
pub mod Rings
pub mod Extents
pub mod Steal
pub mod Pins
pub mod Retention
pub mod Admit
pub mod Restore
pub mod Report
pub mod Frame
pub mod Owned
pub mod Guards
pub mod Program
pub mod Tests
