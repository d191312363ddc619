-- ===== src/SlabAllocator/Admit.antt =====
-- src/cache/slab_allocator.cc: construction and Put.
use dingo_cache.Common.{
  ℕ, zero, suc, ◌+◌, ◌*◌, ◌/◌, Bool, true, false, not, ◌&&◌, ◌||◌, [], ltb, leb, ◌==◌,
  if◌then◌else◌, length, replicate, add64, sub32, Option, none, some, max,
}
use dingo_cache.KvTypes.{BlockKey}
use dingo_cache.SlabAllocator.Index.{no_slot, find, insert, new_index}
use dingo_cache.SlabAllocator.State.{
  SlotRef, Allocator, Options, no_extent, slot_at, class_at, with_slot, with_class, with_extent,
  stripe_ways,
}
use dingo_cache.SlabAllocator.FreeList.{Placement, push_free, pop_free}
use dingo_cache.SlabAllocator.Lattice.{align_up, class_for_len, lattice, max_u32}
use dingo_cache.SlabAllocator.Rings.{acquire_slot_meta, release_slot_meta, link_resident}
use dingo_cache.SlabAllocator.Extents.{
  BindResult, bound, unavailable, persistence_error, bind_free_extent, evict_one_from,
}
use dingo_cache.SlabAllocator.Steal.{steal_extent_for, steal_cold_extent_for}

-- The constructor, its two environment settings resolved by the caller. The fuel is the number of
-- multiples of the alignment in an extent, and one more.
unfoldable pub new_allocator : Options → Bool → ℕ → Allocator
new_allocator opt enabled window =
    let o : Options = record opt {
      align = if opt.align == 0 then 1 else opt.align;
      num_extents = if opt.num_extents == 0 then 1 else opt.num_extents;
    } in
    record {
      opt = o;
      classes = lattice o (o.extent_bytes / o.align + 1) o.align;
      extents = replicate o.num_extents no_extent;
      slots = [];
      free_slot_meta_head = no_slot;
      global_ring_head = no_slot;
      global_hand = no_slot;
      index = new_index;
      unbound = o.num_extents;
      used_bytes = 0;
      evictions = 0;
      steals = 0;
      cold_steals = 0;
      watermark_evictions = 0;
      watermark_scan_steps = 0;
      extent_returns = 0;
      put_seq = 0;
      activity_seq = 0;
      cold_window = window;
      cold_steal_enabled = enabled;
      retain = record {
        enabled = false;
        budget_bytes = 0;
        class_pct = 80;
        max_ttl_s = 3600;
        persist_min_delta_s = 60;
      };
      protected_bytes = 0;
      protected_slots = 0;
      retain_expired = 0;
      retain_evict_skipped = 0;
      retain_results = replicate 7 0;
      wheel = [];
      wheel_entries = 0;
      wheel_tick = 0;
      retain_now_s = 0;
      calls = 0;
      evicted = [];
    }

-- `while (cls.ext_rr.size() < kStripeWays)`, with the rounds left: each binds one more extent. The
-- flag is whether persistence failed.
unfoldable pub widen : ℕ → ℕ → Allocator → Allocator × Bool
widen zero c s = (s, false)
widen (suc n) c s =
    let (s', result) = bind_free_extent c s in
    let more = widen n c s' in
    if leb stripe_ways (length (class_at s c).ext_rr)
    then (s, false)
    else elim result [ bound ↦ more | unavailable ↦ (s', false) | persistence_error ↦ (s', true) ]

pub data Space : Type 0 where
  found : Placement → Space
  full : Space

-- One of the ways to make room: go round again, give up, or try the next way.
pub data Room : Type 0 where
  again give_up next_way : Room

unfoldable pub room_of : BindResult → Room
room_of bound = again
room_of unavailable = next_way
room_of persistence_error = give_up

-- The four ways of Put, in their order.
unfoldable pub make_room : ℕ → Allocator → Allocator × Room
make_room c s =
    let narrow = ltb (class_at s c).bound_extents stripe_ways in
    let (s1, grown) = if narrow then steal_extent_for c stripe_ways s else (s, unavailable) in
    let (s2, cold) = steal_cold_extent_for c s1 in
    let (s3, evicted) = evict_one_from c s2 in
    let (s4, stolen) = steal_extent_for c 0 s3 in
    elim (room_of grown) [
      | again ↦ (s1, again)
      | give_up ↦ (s1, give_up)
      | next_way ↦ elim (room_of cold) [
        | again ↦ (s2, again)
        | give_up ↦ (s2, give_up)
        | next_way ↦
            if evicted
            then (s3, again)
            else (s4, elim (room_of stolen) [ again ↦ again | _ ↦ give_up ])
      ]
    ]

-- `for (;;)`, with the rounds left.
unfoldable pub place : ℕ → ℕ → Allocator → Allocator × Space
place zero c s = (s, full)
place (suc n) c s =
    let (wide, failed) = widen stripe_ways c s in
    let (k, popped) = pop_free (class_at wide c) in
    let (s', room) = make_room c wide in
    let more = place n c s' in
    if failed then (wide, full) else elim popped [
      | some p ↦ (with_class c (λ old. k) wide, found p)
      | none ↦ elim room [ again ↦ more | _ ↦ (s', full) ]
    ]

-- The new record, before it is in the index.
unfoldable pub fill_meta : ℕ → BlockKey → ℕ → ℕ → Placement → Allocator → Allocator
fill_meta i key len c p s =
    let size = (class_at s c).slot_size in
    with_slot i
      (λ m. record m {
        ref = record {
          cls = c;
          extent = p.extent;
          slot = p.slot;
          slot_size = size;
          offset = p.slot * size;
        };
        useful_bytes = len;
        key = key;
        live = true;
      })
      s

-- The end of Put, once the record is in the index.
unfoldable pub account : ℕ → ℕ → ℕ → Placement → Allocator → Allocator
account i len c p s =
    let linked = link_resident i s in
    let counted =
      with_extent p.extent
        (λ x. record x {
          free_slots = sub32 x.free_slots 1;
          useful_bytes = add64 x.useful_bytes len;
          youngest_seq = max x.youngest_seq s.put_seq;
          access_seq_sum = add64 x.access_seq_sum s.activity_seq;
        })
        (with_class c
          (λ k. record k { puts = add64 k.puts 1; useful_bytes = add64 k.useful_bytes len })
          linked) in
    record (with_slot i (λ m. record m { access_seq = s.activity_seq }) counted) {
      used_bytes = add64 s.used_bytes (slot_at s i).ref.slot_size;
    }

-- The result of Put: the placement and the handle.
abbrev pub PutResult : Type 0
PutResult = Option (SlotRef × ℕ)

unfoldable pub install : BlockKey → ℕ → ℕ → Placement → Allocator → Allocator × PutResult
install key len c p s =
    let (fresh, i) = acquire_slot_meta s in
    let filled = fill_meta i key len c p (record fresh { put_seq = add64 s.put_seq 1 }) in
    let (index, added) = insert filled.index key i in
    let done = account i len c p (record filled { index = index }) in
    if added then (done, some ((slot_at done i).ref, i)) else (
      with_class c (λ k. push_free k p.extent p.slot)
          (release_slot_meta i (record filled { index = index })),
      none,
    )

-- The length that is to be stored fits an extent, also once aligned.
unfoldable pub storable : Options → ℕ → Bool
storable o len =
    let aligned = align_up len o.align in
    not (len == 0)
    && (leb len o.extent_bytes
        && (leb len max_u32 && (not (aligned == 0) && leb aligned o.extent_bytes)))

-- The rounds of the loop of Put: room for every resident to be evicted and every extent to move.
unfoldable pub put_fuel : Allocator → ℕ
put_fuel s = length s.slots + 2 * length s.extents + 2

unfoldable pub put_new : BlockKey → ℕ → Allocator → Allocator × PutResult
put_new key len s =
    let c = class_for_len s.opt s.classes (align_up len s.opt.align) in
    let (roomy, space) = place (put_fuel s) c s in
    if not (storable s.opt len) || leb (length s.classes) c
    then (s, none)
    else elim space [ full ↦ (roomy, none) | found p ↦ install key len c p roomy ]

-- Put.
unfoldable pub put : BlockKey → ℕ → Allocator → Allocator × PutResult
put key len s =
    let counted = record s { activity_seq = add64 s.activity_seq 1 } in
    elim (find s.index key) [
      | some i ↦ if (slot_at s i).remove_pending then (counted, none) else (
        with_slot i (λ m. record m { referenced = true }) counted,
        some ((slot_at s i).ref, i),
      )
      | none ↦ put_new key len counted
    ]
