-- ===== src/SlabAllocator/Steal.antt =====
-- src/cache/slab_allocator.cc: rebinding a whole extent to another class, and the two reclaimers.
pub mod Reclaim
use dingo_cache.Common.{
  ℕ, zero, suc, ◌+◌, ◌-◌, ◌*◌, ◌/◌, ◌^◌, Bool, true, false, not, ◌&&◌, ◌||◌, List, [], ◌∷◌, ◌++◌,
  ltb, leb, ◌==◌, if◌then◌else◌, length, get_or, set, add64, sub32, Option, none, some, is_some,
}
use dingo_cache.KvTypes.{BlockKey}
use dingo_cache.SlabAllocator.Index.{no_slot}
use dingo_cache.SlabAllocator.State.{
  SlotMeta, Class, ExtentMeta, Allocator, no_extent, slot_at, class_at, extent_at, with_class,
  with_extent, stripe_ways,
}
use dingo_cache.SlabAllocator.FreeList.{drop_extent_free}
use dingo_cache.SlabAllocator.Rings.{steals_before, extent_heat}
use dingo_cache.SlabAllocator.Extents.{
  BindResult, bound, unavailable, persistence_error, ask_extent_bind, bind_extent, drop_victim,
  evict_one_from, ask_slot_evict,
}

unfoldable pub is_bound : BindResult → Bool
is_bound bound = true
is_bound _ = false

-- `while (extent.resident_head != kNoSlot)`, with as many rounds as there are slot records.
unfoldable pub wipe : ℕ → ℕ → Allocator → Allocator
wipe zero e s = s
wipe (suc n) e s =
    let i = (extent_at s e).resident_head in
    let rest = wipe n e (drop_victim i s) in if i == no_slot then s else rest

-- An extent that the wipe did not give back is taken from its class.
unfoldable pub take_from_class : ℕ → ℕ → Allocator → Allocator
take_from_class c e s =
    if is_some (extent_at s e).cls
    then record (with_extent e (λ x. no_extent)
        (with_class c
          (λ k. record (drop_extent_free k e) { bound_extents = sub32 k.bound_extents 1 }) s)) {
            unbound = s.unbound + 1;
          }
    else s

-- The part of StealExtentLocked after the guards and the callback.
unfoldable pub rebind : ℕ → ℕ → ℕ → Allocator → Allocator × BindResult
rebind old e target s =
    let emptied = take_from_class old e (wipe (length s.slots) e s) in
    let (s', result) = bind_extent target e true emptied in
    (if is_bound result then record s' { steals = add64 s'.steals 1 } else s', result)

-- StealExtentLocked.
unfoldable pub steal_extent : ℕ → ℕ → Allocator → Allocator × BindResult
steal_extent e target s =
    let x = extent_at s e in
    let (asked, ok) = ask_extent_bind e s in
    elim x.cls [
      | none ↦ (s, unavailable)
      | some old ↦
          if leb (length s.classes) target
            || ((class_at s target).slots_per_extent == 0
                || (not (x.pinned == 0) || not (x.protected_slots == 0)))
          then (s, unavailable)
          else if ok
          then rebind old e target asked
          else (asked, persistence_error)
    ]

-- The loops that choose an extent: over the extents from number `e` on, with the best so far.
unfoldable pub choose :
    (ExtentMeta → Bool)
    → (ExtentMeta → ExtentMeta → Bool)
    → ℕ
    → List ExtentMeta
    → Option (ℕ × ExtentMeta)
    → Option (ℕ × ExtentMeta)
choose ok before e [] best = best
choose ok before e (x ∷ xs) best = choose ok before (e + 1) xs (elim best [
  | none ↦ if ok x then some (e, x) else none
  | some (b, y) ↦ if ok x && before x y then some (e, x) else some (b, y)
])

-- A donor: bound to another class, with no resident that is pinned or protected.
unfoldable pub is_free_donor : ℕ → ExtentMeta → Bool
is_free_donor target x = elim x.cls [
  | none ↦ false
  | some c ↦ not (c == target) && (x.pinned == 0 && x.protected_slots == 0)
]

unfoldable pub is_wide_donor : Allocator → ℕ → ℕ → ExtentMeta → Bool
is_wide_donor s target floor x =
    is_free_donor target x
    && elim x.cls [ none ↦ false | some c ↦ floor == 0 || ltb floor (class_at s c).bound_extents ]

unfoldable pub steal_chosen : ℕ → Option (ℕ × ExtentMeta) → Allocator → Allocator × BindResult
steal_chosen target none s = (s, unavailable)
steal_chosen target (some (e, x)) s = steal_extent e target s

-- StealExtentFor.
unfoldable pub steal_extent_for : ℕ → ℕ → Allocator → Allocator × BindResult
steal_extent_for target floor s =
    steal_chosen target (choose (is_wide_donor s target floor) (steals_before s) 0 s.extents none) s

-- The order of StealColdExtentFor: heat, then useful bytes, then the newest insertion.
unfoldable pub is_colder : Allocator → ExtentMeta → ExtentMeta → Bool
is_colder s x y =
    let a = extent_heat s x in
    let b = extent_heat s y in
    ltb a b
    || (a == b
        && (ltb x.useful_bytes y.useful_bytes
            || (x.useful_bytes == y.useful_bytes && ltb x.youngest_seq y.youngest_seq)))

unfoldable pub is_cold_donor : ℕ → ℕ → ExtentMeta → Bool
is_cold_donor target cold_before x =
    is_free_donor target x && (not (x.resident_count == 0) && ltb x.youngest_seq cold_before)

-- StealColdExtentFor.
unfoldable pub steal_cold_extent_for : ℕ → Allocator → Allocator × BindResult
steal_cold_extent_for target s =
    let window = if s.cold_window == 0 then s.index.size else s.cold_window in
    let (s', result) =
      steal_chosen target
        (choose (is_cold_donor target (s.put_seq - window)) (is_colder s) 0 s.extents none) s in
    if not s.cold_steal_enabled || (window == 0 || leb s.put_seq window)
    then (s, unavailable)
    else (
      if is_bound result then record s' { cold_steals = add64 s'.cold_steals 1 } else s',
      result,
    )

-- StealFrom.
unfoldable pub is_donor_of : ℕ → ExtentMeta → Bool
is_donor_of donor x = elim x.cls [
  | none ↦ false
  | some c ↦ c == donor && (x.pinned == 0 && x.protected_slots == 0)
]

unfoldable pub steal_from : ℕ → ℕ → Allocator → Allocator × Bool
steal_from donor target s =
    let (s', result) =
      steal_chosen target (choose (is_donor_of donor) (steals_before s) 0 s.extents none) s in
    if donor == target
      || (leb (length s.classes) donor
          || (leb (length s.classes) target || (class_at s target).slots_per_extent == 0))
    then (s, false)
    else (s', is_bound result)

-- The loop of ReclaimClass, with the victims left and those taken.
unfoldable pub reclaim_loop : ℕ → ℕ → ℕ → ℕ → Allocator → Allocator × ℕ
reclaim_loop zero c target_free count s = (s, count)
reclaim_loop (suc n) c target_free count s =
    let before = (class_at s c).free_count in
    let (s', taken) = evict_one_from c s in
    let more = reclaim_loop n c target_free (count + 1) s' in
    if leb target_free before || ltb 0 s.unbound
    then (s, count)
    else if not taken
    then (s', count)
    else if leb (class_at s' c).free_count before
    then (s', count + 1)
    else more

-- ReclaimClass.
unfoldable pub reclaim_class : ℕ → ℕ → ℕ → Allocator → Allocator × ℕ
reclaim_class c target_free max_victims s =
    if leb (length s.classes) c then (s, 0) else reclaim_loop max_victims c target_free 0 s

-- The persistence step of EvictColdToTarget: which callback is asked, and its answer.
unfoldable pub ask_evict : ℕ → Allocator → Allocator × Bool
ask_evict i s =
    let r = (slot_at s i).ref in
    let x = extent_at s r.extent in
    elim s.opt.on_extent_evict [
      | none ↦ ask_slot_evict i s
      | some whole ↦
          if x.resident_count == 1
          then (record s { calls = s.calls + 1 }, whole s.calls r.extent x.total_slots 1)
          else if is_some s.opt.on_slot_evict
          then ask_slot_evict i s
          else (s, false)
    ]

unfoldable pub watermark_victim : ℕ → Allocator → Allocator
watermark_victim i s =
    let dropped = drop_victim i s in
    record dropped { watermark_evictions = add64 dropped.watermark_evictions 1 }

-- The loop of EvictColdToTarget, with the steps left.
unfoldable pub evict_cold_loop : ℕ → ℕ → ℕ → ℕ → Allocator → Allocator × ℕ
evict_cold_loop zero target max_victims freed s = (s, freed)
evict_cold_loop (suc n) target max_victims freed s =
    let i = s.global_hand in
    let visited = record s { watermark_scan_steps = add64 s.watermark_scan_steps 1 } in
    let m = slot_at s i in
    let next = if m.global_next == no_slot then s.global_ring_head else m.global_next in
    let passed =
      evict_cold_loop n target max_victims freed (record visited { global_hand = next }) in
    let retained = evict_cold_loop n target max_victims freed (record visited {
      retain_evict_skipped = add64 s.retain_evict_skipped 1;
      global_hand = next;
    }) in
    let (asked, ok) = ask_evict i visited in
    let evicted = evict_cold_loop n target max_victims (freed + 1) (watermark_victim i asked) in
    if leb max_victims freed || (leb s.used_bytes target || i == no_slot)
    then (s, freed)
    else if ltb 0 m.refs
    then passed
    else if not (m.retain_until == 0)
    then retained
    else if ok
    then evicted
    else (asked, freed)

-- EvictColdToTarget. Four steps for each victim, unless that is more than a 64-bit number holds.
unfoldable pub evict_cold_to_target : ℕ → ℕ → Allocator → Allocator × ℕ
evict_cold_to_target target max_victims s =
    let limit = if ltb ((2 ^ 64 - 1) / 4) max_victims then 2 ^ 64 - 1 else 4 * max_victims in
    evict_cold_loop limit target max_victims 0 s
