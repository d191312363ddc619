-- ===== src/SlabAllocator/Extents.antt =====
-- src/cache/slab_allocator.cc: binding an extent to a class, and taking a resident out of its slot.
pub mod Free
pub mod Evict
use dingo_cache.Common.{
  ℕ, zero, suc, ◌+◌, ◌-◌, ◌*◌, Bool, true, false, not, ◌&&◌, ◌||◌, List, [], ◌∷◌, ◌++◌, ltb, leb,
  ◌==◌, if◌then◌else◌, length, get_or, set, add64, sub64, sub32, Option, none, some, min, is_some,
}
use dingo_cache.KvTypes.{BlockKey}
use dingo_cache.SlabAllocator.Index.{no_slot, erase}
use dingo_cache.SlabAllocator.State.{
  SlotMeta, Class, ExtentMeta, Allocator, no_extent, slot_at, class_at, extent_at, with_slot,
  with_class, with_extent, stripe_ways,
}
use dingo_cache.SlabAllocator.FreeList.{push_free, drop_extent_free}
use dingo_cache.SlabAllocator.Rings.{
  unlink_class, unlink_global, unlink_extent, leave_hand, release_slot_meta,
}

-- ExtentBindResult.
pub data BindResult : Type 0 where
  bound unavailable persistence_error : BindResult

-- `!on_extent_bind || on_extent_bind(extent)`.
unfoldable pub ask_extent_bind : ℕ → Allocator → Allocator × Bool
ask_extent_bind e s = elim s.opt.on_extent_bind [
  | none ↦ (s, true)
  | some answer ↦ (record s { calls = s.calls + 1 }, answer s.calls e)
]

-- `for (slot = 0; slot < slots_per_extent; ++slot) PushFreeLocked(cls, extent, slot)`, with the
-- rounds left.
unfoldable pub push_all : ℕ → ℕ → ℕ → Class → Class
push_all zero e slot k = k
push_all (suc n) e slot k = push_all n e (slot + 1) (push_free k e slot)

-- The part of BindExtentLocked after its guards and the callback.
unfoldable pub install_extent : ℕ → ℕ → Allocator → Allocator
install_extent c e s =
    let per = (class_at s c).slots_per_extent in
    with_class c (λ k. push_all per e 0 (record k { bound_extents = k.bound_extents + 1 }))
      (record (with_extent e
        (λ x. record no_extent { cls = some c; total_slots = per; free_slots = per }) s) {
          unbound = sub32 s.unbound 1;
        })

-- BindExtentLocked. The callback is asked last of all the guards, and only if it has to be.
unfoldable pub bind_extent : ℕ → ℕ → Bool → Allocator → Allocator × BindResult
bind_extent c e prepared s =
    let (asked, ok) = ask_extent_bind e s in
    if leb (length s.classes) c || leb (length s.extents) e || is_some (extent_at s e).cls
    then (s, unavailable)
    else if (class_at s c).slots_per_extent == 0
    then (s, unavailable)
    else if prepared
    then (install_extent c e s, bound)
    else if ok
    then (install_extent c e asked, bound)
    else (asked, persistence_error)

-- The number of the first unbound extent.
unfoldable pub first_unbound : List ExtentMeta → Option ℕ
first_unbound [] = none
first_unbound (x ∷ xs) =
    if is_some x.cls
    then elim (first_unbound xs) [ none ↦ none | some e ↦ some (e + 1) ]
    else some 0

-- BindFreeExtent.
unfoldable pub bind_free_extent : ℕ → Allocator → Allocator × BindResult
bind_free_extent c s = if s.unbound == 0 then (s, unavailable) else elim (first_unbound s.extents) [
  | none ↦ (s, unavailable)
  | some e ↦ bind_extent c e false s
]

-- ProtectLocked and UnprotectLocked.
unfoldable pub protect : ℕ → Allocator → Allocator
protect i s =
    let r = (slot_at s i).ref in
    record (with_class r.cls (λ k. record k { protected_slots = k.protected_slots + 1 })
      (with_extent r.extent (λ x. record x { protected_slots = x.protected_slots + 1 }) s)) {
        protected_bytes = add64 s.protected_bytes r.slot_size;
        protected_slots = s.protected_slots + 1;
      }

unfoldable pub unprotect : ℕ → Allocator → Allocator
unprotect i s =
    let r = (slot_at s i).ref in
    with_slot i (λ m. record m { retain_until = 0 })
      (record (with_class r.cls (λ k. record k { protected_slots = k.protected_slots - 1 })
        (with_extent r.extent (λ x. record x { protected_slots = x.protected_slots - 1 }) s)) {
          protected_bytes = s.protected_bytes - min s.protected_bytes r.slot_size;
          protected_slots = s.protected_slots - 1;
        })

-- The parts of FreeSlotLocked. First the rings and the counts of the class and of the extent.
unfoldable pub leave_class : ℕ → Allocator → Allocator
leave_class i s =
    let m = slot_at s i in
    with_class m.ref.cls
      (λ k.
        let counted = record k { resident_count = sub64 k.resident_count 1 } in
        let left = leave_hand i m.class_next counted in
        if counted.resident_count == 0 then record left { hand = no_slot } else left)
      (unlink_class i s)

unfoldable pub leave_extent : ℕ → Allocator → Allocator
leave_extent i s =
    let m = slot_at s i in
    with_extent m.ref.extent
      (λ x. record x {
        resident_count = sub32 x.resident_count 1;
        access_seq_sum = sub64 x.access_seq_sum m.access_seq;
        pinned = if ltb 0 m.refs && ltb 0 x.pinned then x.pinned - 1 else x.pinned;
      })
      (unlink_extent i s)

-- Then the index, the free slot, the bytes and the record itself.
unfoldable pub forget : ℕ → Allocator → Allocator
forget i s =
    let m = slot_at s i in
    let unindexed = record s {
      index = (erase s.index m.key).0;
      used_bytes = sub64 s.used_bytes m.ref.slot_size;
    } in
    release_slot_meta i (
      with_extent m.ref.extent
        (λ x. record x {
          free_slots = x.free_slots + 1;
          useful_bytes = sub64 x.useful_bytes m.useful_bytes;
        })
        (with_class m.ref.cls
          (λ k. record (push_free k m.ref.extent m.ref.slot) {
            useful_bytes = sub64 k.useful_bytes m.useful_bytes;
          })
          unindexed))

-- An extent without residents goes back to the pool, unless the class would get too narrow.
unfoldable pub return_extent : ℕ → ℕ → Allocator → Allocator
return_extent c e s =
    let x = extent_at s e in
    if x.free_slots == x.total_slots && ltb stripe_ways (length (class_at s c).ext_rr)
    then record (with_extent e (λ y. no_extent)
        (with_class c
          (λ k. record (drop_extent_free k e) { bound_extents = sub32 k.bound_extents 1 }) s)) {
            unbound = s.unbound + 1;
            extent_returns = add64 s.extent_returns 1;
          }
    else s

-- FreeSlotLocked.
unfoldable pub free_slot : ℕ → Allocator → Allocator
free_slot i s =
    let r = (slot_at s i).ref in
    let bare = if (slot_at s i).retain_until == 0 then s else unprotect i s in
    return_extent r.cls r.extent (forget i (leave_extent i (unlink_global i (leave_class i bare))))

-- What every eviction does to its victim.
unfoldable pub drop_victim : ℕ → Allocator → Allocator
drop_victim i s =
    let freed = free_slot i s in
    record freed {
      evicted = freed.evicted ++ (slot_at s i).key ∷ [];
      evictions = add64 freed.evictions 1;
    }

-- `!on_slot_evict || on_slot_evict(ref)`.
unfoldable pub ask_slot_evict : ℕ → Allocator → Allocator × Bool
ask_slot_evict i s = elim s.opt.on_slot_evict [
  | none ↦ (s, true)
  | some answer ↦ (record s { calls = s.calls + 1 }, answer s.calls (slot_at s i).ref)
]

unfoldable pub evict_slot : ℕ → Allocator → Allocator × Bool
evict_slot i s =
    let (asked, ok) = ask_slot_evict i s in
    if ok then (drop_victim i asked, true) else (asked, false)

-- The first two lines of a round of EvictOneFrom: where the hand is, and the hand goes on.
unfoldable pub hand_of : ℕ → Allocator → ℕ
hand_of c s = let k = class_at s c in if k.hand == no_slot then k.ring_head else k.hand

unfoldable pub advance : ℕ → Allocator → Allocator
advance c s =
    let next = (slot_at s (hand_of c s)).class_next in
    with_class c (λ k. record k { hand = if next == no_slot then k.ring_head else next }) s

-- After the loop: the first unpinned slot seen, if it is still there.
unfoldable pub evict_fallback : ℕ → Allocator → Allocator × Bool
evict_fallback i s = if not (i == no_slot) && (slot_at s i).live then evict_slot i s else (s, false)

-- The CLOCK of EvictOneFrom, with the rounds left.
unfoldable pub sweep : ℕ → ℕ → ℕ → Allocator → Allocator × Bool
sweep zero c fallback s = evict_fallback fallback s
sweep (suc n) c fallback s =
    let i = hand_of c s in
    let s' = advance c s in
    let m = slot_at s' i in
    let first = if fallback == no_slot then i else fallback in
    let pinned = sweep n c fallback s' in
    let retained =
      sweep n c fallback (record s' { retain_evict_skipped = add64 s'.retain_evict_skipped 1 }) in
    let second_chance = sweep n c first (with_slot i (λ x. record x { referenced = false }) s') in
    if (class_at s c).resident_count == 0
    then evict_fallback fallback s
    else if ltb 0 m.refs
    then pinned
    else if not (m.retain_until == 0)
    then retained
    else if m.referenced
    then second_chance
    else evict_slot i s'

-- EvictOneFrom.
unfoldable pub evict_one_from : ℕ → Allocator → Allocator × Bool
evict_one_from c s =
    let resident = (class_at s c).resident_count in
    let swept = sweep (2 * resident + 2) c no_slot s in if resident == 0 then (s, false) else swept
