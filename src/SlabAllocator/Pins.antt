-- ===== src/SlabAllocator/Pins.antt =====
-- src/cache/slab_allocator.cc: reads, pins and removal.
pub mod Laws
pub mod Removal
pub mod Pending
use dingo_cache.Common.{
  ℕ, ◌+◌, ◌-◌, Bool, true, false, not, ◌&&◌, ◌||◌, ltb, leb, ◌==◌, if◌then◌else◌, length, get_or,
  set, Option, none, some, is_some,
}
use dingo_cache.KvTypes.{BlockKey, key_eq}
use dingo_cache.SlabAllocator.Index.{no_slot, find}
use dingo_cache.SlabAllocator.State.{
  SlotRef, SlotMeta, ExtentMeta, Allocator, no_meta, slot_at, extent_at, with_slot, with_extent,
}
use dingo_cache.SlabAllocator.Rings.{touch}
use dingo_cache.SlabAllocator.Extents.{free_slot}

-- RemoveResult.
pub data RemoveResult : Type 0 where
  removed deferred not_found : RemoveResult

-- The number of the record of a key that is not being removed.
unfoldable pub readable : Allocator → BlockKey → Option ℕ
readable s key = elim (find s.index key) [
  | none ↦ none
  | some i ↦ if (slot_at s i).remove_pending then none else some i
]

-- Get.
unfoldable pub get : BlockKey → Allocator → Allocator × Option SlotRef
get key s = elim (readable s key) [
  | none ↦ (s, none)
  | some i ↦ let t = touch i s in (t, some (slot_at t i).ref)
]

-- One more reference; the first one pins the extent.
unfoldable pub add_ref : ℕ → Allocator → Allocator
add_ref i s =
    let m = slot_at s i in
    let pinned = with_extent m.ref.extent (λ x. record x { pinned = x.pinned + 1 }) s in
    with_slot i (λ n. record n { refs = n.refs + 1 }) (if m.refs == 0 then pinned else s)

-- GetAndPin.
unfoldable pub get_and_pin : BlockKey → Allocator → Allocator × Option SlotRef
get_and_pin key s = elim (readable s key) [
  | none ↦ (s, none)
  | some i ↦ let t = add_ref i (touch i s) in (t, some (slot_at t i).ref)
]

-- Contains.
unfoldable pub contains : BlockKey → Allocator → Bool
contains key s = is_some (readable s key)

-- Remove: a pinned object stays until its last reference goes.
unfoldable pub remove : BlockKey → Allocator → Allocator × RemoveResult
remove key s = elim (find s.index key) [
  | none ↦ (s, not_found)
  | some i ↦
      if ltb 0 (slot_at s i).refs
      then (with_slot i (λ m. record m { remove_pending = true; referenced = false }) s, deferred)
      else (free_slot i s, removed)
]

-- Pin.
unfoldable pub pin : BlockKey → Allocator → Allocator × Bool
pin key s = elim (readable s key) [ none ↦ (s, false) | some i ↦ (add_ref i s, true) ]

-- One reference less; the last one unpins the extent, and frees the slot if it is being removed.
unfoldable pub drop_ref : ℕ → Allocator → Allocator
drop_ref i s =
    let m = slot_at s i in
    let fewer = with_slot i (λ n. record n { refs = n.refs - 1 }) s in
    let unpinned =
      with_extent m.ref.extent
        (λ x. if ltb 0 x.pinned then record x { pinned = x.pinned - 1 } else x) fewer in
    if m.refs == 1 then (if m.remove_pending then free_slot i unpinned else unpinned) else fewer

-- Unpin.
unfoldable pub unpin : BlockKey → Allocator → Allocator × Bool
unpin key s = elim (find s.index key) [
  | none ↦ (s, false)
  | some i ↦ if (slot_at s i).refs == 0 then (s, false) else (drop_ref i s, true)
]

-- The guards of the two overloads that take a handle: no probe of the index.
unfoldable pub owns : BlockKey → ℕ → Allocator → Bool
owns key handle s =
    let m = slot_at s handle in
    not (handle == no_slot) && (ltb handle (length s.slots) && (m.live && key_eq m.key key))

unfoldable pub pin_handle : BlockKey → ℕ → Allocator → Allocator × Bool
pin_handle key handle s =
    if owns key handle s && not (slot_at s handle).remove_pending
    then (add_ref handle s, true)
    else (s, false)

unfoldable pub unpin_handle : BlockKey → ℕ → Allocator → Allocator × Bool
unpin_handle key handle s =
    if owns key handle s && not ((slot_at s handle).refs == 0)
    then (drop_ref handle s, true)
    else (s, false)
