-- ===== src/SlabAllocator/Rings.antt =====
-- src/cache/slab_allocator.cc: the intrusive rings through the slot records, and read recency.
use dingo_cache.Common.{
  ℕ, ◌+◌, ◌-◌, ◌*◌, ◌/◌, ◌%◌, ◌^◌, Bool, true, not, ◌&&◌, ◌||◌, [], ◌∷◌, ◌++◌, ltb, leb, ◌==◌,
  if◌then◌else◌, length, add64, sub64,
}
use dingo_cache.SlabAllocator.Index.{no_slot}
use dingo_cache.SlabAllocator.State.{
  SlotMeta, Class, ExtentMeta, Allocator, no_meta, slot_at, class_at, extent_at, with_slot,
  with_class, with_extent, read_heat_unit, read_decay_ops,
}

-- `if (i != kNoSlot) slots_[i].<field> = ...`
unfoldable pub link_slot : ℕ → (SlotMeta → SlotMeta) → Allocator → Allocator
link_slot i f s = if i == no_slot then s else with_slot i f s

-- AcquireSlotMetaLocked: a record off the free list, or a new one.
unfoldable pub acquire_slot_meta : Allocator → Allocator × ℕ
acquire_slot_meta s =
    let i = s.free_slot_meta_head in
    if i == no_slot
    then (record s { slots = s.slots ++ no_meta ∷ [] }, length s.slots % 2 ^ 32)
    else (
      with_slot i (λ m. no_meta) (record s { free_slot_meta_head = (slot_at s i).free_next }),
      i,
    )

-- The record goes back onto the free list: `meta = SlotMeta{}; meta.free_next = ...`
unfoldable pub release_slot_meta : ℕ → Allocator → Allocator
release_slot_meta i s =
    record (with_slot i (λ m. record no_meta { free_next = s.free_slot_meta_head }) s) {
      free_slot_meta_head = i;
    }

-- LinkBeforeHandLocked.
unfoldable pub link_before_hand : ℕ → Allocator → Allocator
link_before_hand i s =
    let c = (slot_at s i).ref.cls in
    let hand = (class_at s c).hand in
    let prev = (slot_at s hand).class_prev in
    let linked = with_slot i (λ m. record m { class_next = hand; class_prev = prev }) s in
    let behind =
      if prev == no_slot
      then with_class c (λ k. record k { ring_head = i }) linked
      else with_slot prev (λ m. record m { class_next = i }) linked in
    if hand == no_slot
    then with_class c (λ k. record k { ring_head = i; hand = i }) s
    else with_slot hand (λ m. record m { class_prev = i }) behind

-- LinkBeforeGlobalHandLocked.
unfoldable pub link_before_global_hand : ℕ → Allocator → Allocator
link_before_global_hand i s =
    let hand = s.global_hand in
    let prev = (slot_at s hand).global_prev in
    let linked = with_slot i (λ m. record m { global_next = hand; global_prev = prev }) s in
    let behind =
      if prev == no_slot
      then record linked { global_ring_head = i }
      else with_slot prev (λ m. record m { global_next = i }) linked in
    if hand == no_slot
    then record s { global_ring_head = i; global_hand = i }
    else with_slot hand (λ m. record m { global_prev = i }) behind

-- The part of LinkResidentLocked that concerns the extent's list.
unfoldable pub link_in_extent : ℕ → Allocator → Allocator
link_in_extent i s =
    let e = (slot_at s i).ref.extent in
    let head = (extent_at s e).resident_head in
    with_extent e (λ x. record x { resident_head = i; resident_count = x.resident_count + 1 })
      (link_slot head (λ m. record m { extent_prev = i })
        (with_slot i (λ m. record m { extent_next = head }) s))

-- LinkResidentLocked.
unfoldable pub link_resident : ℕ → Allocator → Allocator
link_resident i s =
    let c = (slot_at s i).ref.cls in
    link_in_extent i (
      with_class c (λ k. record k { resident_count = k.resident_count + 1 })
        (link_before_global_hand i (link_before_hand i s)))

-- The class ring closes over the slot; a hand on it stays where it is.
unfoldable pub unlink_class : ℕ → Allocator → Allocator
unlink_class i s =
    let m = slot_at s i in
    let closed =
      if m.class_prev == no_slot
      then with_class m.ref.cls (λ k. record k { ring_head = m.class_next }) s
      else with_slot m.class_prev (λ p. record p { class_next = m.class_next }) s in
    link_slot m.class_next (λ n. record n { class_prev = m.class_prev }) closed

-- `if (cls.hand == index) cls.hand = next != kNoSlot ? next : cls.ring_head`
unfoldable pub leave_hand : ℕ → ℕ → Class → Class
leave_hand i next k =
    if k.hand == i then record k { hand = if next == no_slot then k.ring_head else next } else k

-- The global ring closes over the slot, and its hand leaves it.
unfoldable pub unlink_global : ℕ → Allocator → Allocator
unlink_global i s =
    let m = slot_at s i in
    let closed =
      if m.global_prev == no_slot
      then record s { global_ring_head = m.global_next }
      else with_slot m.global_prev (λ p. record p { global_next = m.global_next }) s in
    let joined = link_slot m.global_next (λ n. record n { global_prev = m.global_prev }) closed in
    if joined.global_hand == i
    then record joined {
      global_hand = if m.global_next == no_slot then joined.global_ring_head else m.global_next;
    }
    else joined

-- The extent's list closes over the slot.
unfoldable pub unlink_extent : ℕ → Allocator → Allocator
unlink_extent i s =
    let m = slot_at s i in
    let closed =
      if m.extent_prev == no_slot
      then with_extent m.ref.extent (λ x. record x { resident_head = m.extent_next }) s
      else with_slot m.extent_prev (λ p. record p { extent_next = m.extent_next }) s in
    link_slot m.extent_next (λ n. record n { extent_prev = m.extent_prev }) closed

-- DecayedHeat, at the activity `now`: halved for each whole run of operations since.
unfoldable pub decayed_heat : ℕ → ℕ → ℕ → ℕ
decayed_heat now heat heat_seq =
    let shifts = (now - heat_seq) / read_decay_ops in
    if heat == 0 then 0 else if leb 63 shifts then 0 else heat / 2 ^ shifts

-- ExtentHeatLocked.
unfoldable pub extent_heat : Allocator → ExtentMeta → ℕ
extent_heat s x = decayed_heat s.activity_seq x.read_heat x.heat_seq

-- StealsBeforeLocked. The products are of 128 bits, which a 64-bit and a 32-bit factor do not fill.
unfoldable pub steals_before : Allocator → ExtentMeta → ExtentMeta → Bool
steals_before s a b =
    let lhs = a.access_seq_sum * b.resident_count in
    let rhs = b.access_seq_sum * a.resident_count in
    let a_empty = a.resident_count == 0 in
    let b_empty = b.resident_count == 0 in
    if a_empty && not b_empty || not a_empty && b_empty
    then a_empty
    else if not (lhs == rhs)
    then ltb lhs rhs
    else if not (extent_heat s a == extent_heat s b)
    then ltb (extent_heat s a) (extent_heat s b)
    else ltb a.useful_bytes b.useful_bytes

-- The slot is the last in the order of the sweep.
unfoldable pub is_behind_hand : ℕ → Allocator → Bool
is_behind_hand i s =
    let m = slot_at s i in
    let k = class_at s m.ref.cls in
    m.class_next == k.hand || m.class_next == no_slot && k.hand == k.ring_head

unfoldable pub is_behind_global_hand : ℕ → Allocator → Bool
is_behind_global_hand i s =
    let m = slot_at s i in
    m.global_next == s.global_hand
    || m.global_next == no_slot && s.global_hand == s.global_ring_head

-- The two halves of TouchLocked that move a slot behind a hand.
unfoldable pub refresh_class : ℕ → Allocator → Allocator
refresh_class i s =
    let m = slot_at s i in
    if is_behind_hand i s
    then s
    else link_before_hand i (with_class m.ref.cls (leave_hand i m.class_next) (unlink_class i s))

unfoldable pub refresh_global : ℕ → Allocator → Allocator
refresh_global i s =
    if is_behind_global_hand i s then s else link_before_global_hand i (unlink_global i s)

-- The last part of TouchLocked: heat and recency of the class, the extent and the slot.
unfoldable pub warm : ℕ → Allocator → Allocator
warm i s =
    let m = slot_at s i in
    with_slot i (λ n. record n { access_seq = s.activity_seq })
      (with_extent m.ref.extent
        (λ x. record x {
          read_heat = add64 (extent_heat s x) read_heat_unit;
          heat_seq = s.activity_seq;
          access_seq_sum = add64 x.access_seq_sum (sub64 s.activity_seq m.access_seq);
        })
        (with_class m.ref.cls
          (λ k. record k {
            read_heat = add64 (decayed_heat s.activity_seq k.read_heat k.heat_seq) read_heat_unit;
            heat_seq = s.activity_seq;
            read_touches = add64 k.read_touches 1;
          })
          s))

-- TouchLocked.
unfoldable pub touch : ℕ → Allocator → Allocator
touch i s =
    let counted =
      with_slot i (λ m. record m { referenced = true; read_touches = add64 m.read_touches 1 })
        (record s { activity_seq = add64 s.activity_seq 1 }) in
    warm i (refresh_global i (refresh_class i counted))
