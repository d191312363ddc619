-- ===== src/SlabAllocator/Guards.antt =====
-- No eviction takes a pinned or a protected object: EvictOneFromLocked, ReclaimClass and
-- EvictColdToTarget of src/cache/slab_allocator.cc.
use dingo_cache.Common.{ℕ, ◌+◌, ◌≤◌, ◌≡◌, length}
use dingo_cache.SlabAllocator.State.{Allocator, slot_at}
use dingo_cache.SlabAllocator.Frame.{core}
use dingo_cache.SlabAllocator.Extents.{evict_one_from}
use dingo_cache.SlabAllocator.Extents.Evict.{IsGuarded, count_of, evict_one_from-Evicts}
use dingo_cache.SlabAllocator.Steal.{reclaim_class, evict_cold_to_target}
use dingo_cache.SlabAllocator.Steal.Reclaim.{reclaim_class-Evicts, evict_cold_to_target-Evicts}

-- Evicting one resident of a class leaves a pinned or protected record as it was but for its links and its
-- recency, and the caller gets one key on success and none on failure.
pub evict_one_from-guarded :
    (c j : ℕ) (s : Allocator)
    → IsGuarded (core (slot_at s j))
    → let (t, done) = evict_one_from c s in
      (core (slot_at t j) ≡ core (slot_at s j))
      × (length t.evicted ≡ length s.evicted + count_of done)
evict_one_from-guarded c j s guarded =
    let taken = evict_one_from-Evicts c s in (taken.spares j guarded, taken.given)

-- Reclaiming for a class takes no more victims than it is allowed, leaves a pinned or protected record as
-- it was but for its links and its recency, and the caller gets as many keys as it reports.
pub reclaim_class-guarded :
    (c target most j : ℕ) (s : Allocator)
    → IsGuarded (core (slot_at s j))
    → let (t, freed) = reclaim_class c target most s in
      (freed ≤ most)
      × (core (slot_at t j) ≡ core (slot_at s j))
      × (length t.evicted ≡ length s.evicted + freed)
reclaim_class-guarded c target most j s guarded =
    let (few, taken) = reclaim_class-Evicts c target most s in
    (few, taken.spares j guarded, taken.given)

-- The watermark reclaimer takes no more victims than it is allowed, leaves a pinned or protected record as
-- it was but for its links and its recency, and the caller gets as many keys as it reports.
pub evict_cold_to_target-guarded :
    (target most j : ℕ) (s : Allocator)
    → IsGuarded (core (slot_at s j))
    → let (t, freed) = evict_cold_to_target target most s in
      (freed ≤ most)
      × (core (slot_at t j) ≡ core (slot_at s j))
      × (length t.evicted ≡ length s.evicted + freed)
evict_cold_to_target-guarded target most j s guarded =
    let (few, taken) = evict_cold_to_target-Evicts target most s in
    (few, taken.spares j guarded, taken.given)
