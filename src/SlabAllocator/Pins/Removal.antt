-- ===== src/SlabAllocator/Pins/Removal.antt =====
-- Removal of a resident, at once or when its last pin goes.
use dingo_cache.Common.{
  ℕ, ◌-◌, ◌<◌, ◌≡◌, refl, true, false, arith, length, ltb, none, some, if◌then◌else◌,
  get_or-set_self,
}
use dingo_cache.KvTypes.{BlockKey}
use dingo_cache.SlabAllocator.Index.{find}
use dingo_cache.SlabAllocator.State.{SlotMeta, Allocator, no_meta, slot_at, with_slot, with_extent}
use dingo_cache.SlabAllocator.Frame.{get_or-set_keeps}
use dingo_cache.SlabAllocator.Extents.{free_slot}
use dingo_cache.SlabAllocator.Owned.{IsOwned, IsOwned-keep, Removes, free_slot-Removes}
use dingo_cache.SlabAllocator.Pins.{removed, deferred, readable, remove, drop_ref}

-- A write to one record that keeps its key and its life keeps the agreement.
pub with_slot-IsOwned :
    (i : ℕ) (f : SlotMeta → SlotMeta) (s : Allocator)
    → (f (slot_at s i)).key ≡ (slot_at s i).key
    → (f (slot_at s i)).live ≡ (slot_at s i).live
    → IsOwned s
    → IsOwned (with_slot i f s)
unfolding with_slot
with_slot-IsOwned i f s key live own =
    IsOwned-keep own refl
      (λ j. get_or-set_keeps (λ (m : SlotMeta). m.key) s.slots i j (f (slot_at s i)) no_meta key)
      (λ j. get_or-set_keeps (λ (m : SlotMeta). m.live) s.slots i j (f (slot_at s i)) no_meta live)

-- Where the index and the slot records agree, removing a key without pins takes that key, and no other,
-- out of the index, and the index and the records still agree.
pub remove-Removes :
    (s : Allocator) (k : BlockKey) (i : ℕ)
    → IsOwned s
    → find s.index k ≡ some i
    → (slot_at s i).refs ≡ 0
    → ((remove k s).1 ≡ removed) × Removes k s (remove k s).0
unfolding remove
remove-Removes s k i own hit free =
    let bare : ltb 0 (slot_at s i).refs ≡ false = ground arith in
    rw (hit, remove) (rw bare (refl, free_slot-Removes k i s own hit))

abbrev pub marked : SlotMeta → SlotMeta
marked m = record m { remove_pending = true; referenced = false }

pub remove_deferred :
    (s : Allocator) (k : BlockKey) (i : ℕ)
    → find s.index k ≡ some i
    → 0 < (slot_at s i).refs
    → remove k s ≡ (with_slot i marked s, deferred)
unfolding remove
remove_deferred s k i hit pinned =
    let held : ltb 0 (slot_at s i).refs ≡ true = ground arith in rw (hit, remove) (rw held)

-- The state in which the last unpin frees the slot.
abbrev pub unpinned_slot : ℕ → Allocator → Allocator
unpinned_slot i s =
    with_extent (slot_at s i).ref.extent
      (λ x. if ltb 0 x.pinned then record x { pinned = x.pinned - 1 } else x)
      (with_slot i (λ n. record n { refs = n.refs - 1 }) s)

pub drop_pending :
    (i : ℕ) (s : Allocator)
    → (slot_at s i).refs ≡ 1
    → (slot_at s i).remove_pending ≡ true
    → drop_ref i s ≡ free_slot i (unpinned_slot i s)
unfolding drop_ref
drop_pending i s one pending = ground (arith, one, pending)

pub unpinned_slot-IsOwned : (i : ℕ) (s : Allocator) → IsOwned s → IsOwned (unpinned_slot i s)
unfolding with_slot with_extent
unpinned_slot-IsOwned i s own =
    let v : SlotMeta = record (slot_at s i) { refs = (slot_at s i).refs - 1 } in
    IsOwned-keep own refl
      (λ j. get_or-set_keeps (λ (m : SlotMeta). m.key) s.slots i j v no_meta refl)
      (λ j. get_or-set_keeps (λ (m : SlotMeta). m.live) s.slots i j v no_meta refl)

abbrev pub pending_at : ℕ → Allocator → Allocator
pending_at i s = with_slot i marked s

pub pending_slot :
    (i : ℕ) (s : Allocator) → i < length s.slots → slot_at (pending_at i s) i ≡ marked (slot_at s i)
unfolding with_slot
pending_slot i s inside = get_or-set_self s.slots i (marked (slot_at s i)) no_meta inside

pub pending-unreadable :
    (s : Allocator) (k : BlockKey) (i : ℕ)
    → find s.index k ≡ some i
    → (slot_at s i).remove_pending ≡ true
    → readable s k ≡ none
unfolding readable
pending-unreadable s k i hit pending = rw (hit, readable) (rw pending)

pub free_pending :
    (k : BlockKey) (i : ℕ) (s : Allocator)
    → IsOwned s
    → find s.index k ≡ some i
    → Removes k s (free_slot i (unpinned_slot i s))
unfolding with_slot with_extent
free_pending k i s own hit =
    let done = free_slot-Removes k i (unpinned_slot i s) (unpinned_slot-IsOwned i s own) hit in
    record { owned = done.owned; reads = done.reads }
