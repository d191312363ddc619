-- ===== src/SlabAllocator/Tests.antt =====
-- Runs of the allocator (src/cache/slab_allocator.cc): two extents of 1024 bytes, one object stored, pinned
-- and retained.
use dingo_cache.Common.{
  ℕ, ◌+◌, ◌*◌, ◌/◌, ◌≤◌, ◌<◌, ◌≡◌, refl, arith, inl, inr, true, false, none, some, subst, sym, ◌∙◌,
  length, max,
}
use dingo_cache.KvTypes.{BlockKey, key_eq_sound}
use dingo_cache.SlabAllocator.Program.{program}
use dingo_cache.SlabAllocator.Index.{FlatKeyIndex, find, insert, new_index}
use dingo_cache.SlabAllocator.Index.Refinement.{new_index-IsIndex, insert-Updates}
use dingo_cache.SlabAllocator.Index.Reserve.{IsIndex}
use dingo_cache.SlabAllocator.State.{Options, Allocator, slot_at}
use dingo_cache.SlabAllocator.Frame.{core}
use dingo_cache.SlabAllocator.Owned.{IsRecord, IsOwned, Removes}
use dingo_cache.SlabAllocator.Admit.{new_allocator, put}
use dingo_cache.SlabAllocator.Extents.{evict_one_from}
use dingo_cache.SlabAllocator.Extents.Evict.{IsGuarded, count_of}
use dingo_cache.SlabAllocator.Guards.{
  evict_one_from-guarded, reclaim_class-guarded, evict_cold_to_target-guarded,
}
use dingo_cache.SlabAllocator.Pins.{pin, unpin, remove, removed, deferred, readable}
use dingo_cache.SlabAllocator.Pins.Laws.{unpin-pin}
use dingo_cache.SlabAllocator.Pins.Removal.{remove-Removes}
use dingo_cache.SlabAllocator.Pins.Pending.{unpin_times, IsWaiting, unpin_times-remove}
use dingo_cache.SlabAllocator.Retention.{
  configure_retention, retain_key, set_mode, expire_retention,
}
use dingo_cache.SlabAllocator.Retention.Expiry.{expire_retention-Spares}
use dingo_cache.SlabAllocator.Retention.Grant.{retain_key-IsGranted}
use dingo_cache.SlabAllocator.Steal.{reclaim_class, evict_cold_to_target}

abbrev options : Options
options = record {
  extent_bytes = 1024;
  num_extents = 2;
  align = 64;
  wasteful = true;
  stretch = λ n. n * 5 / 4;
  on_extent_bind = none;
  on_extent_evict = none;
  on_slot_evict = none;
}

abbrev key1 : BlockKey
key1 = record { digest_hi = 1; digest_lo = 2; tenant_hash = 3 }

abbrev indexed : FlatKeyIndex
indexed = (insert new_index key1 0).0

find-new_index : (q : BlockKey) → find new_index q ≡ none
unfolding program
find-new_index q = refl

find-indexed : (q : BlockKey) (i : ℕ) → find indexed q ≡ some i → (q ≡ key1) × (i ≡ 0)
find-indexed q i hit =
    let reads = (insert-Updates new_index key1 0 new_index-IsIndex).0.reads q in
    let absent = find-new_index q in ground (arith, reads, absent, key_eq_sound q key1)

-- An allocator whose one object is `key1`.
one_object :
    (s : Allocator)
    → s.index ≡ indexed
    → (slot_at s 0).key ≡ key1
    → (slot_at s 0).live ≡ true
    → IsOwned s
one_object s same key live =
    let done = (insert-Updates new_index key1 0 new_index-IsIndex).0 in
    record {
      index = subst IsIndex (sym same) done.index;
      records = λ q i hit.
          let (e, z) = find-indexed q i (subst (λ x. find x q ≡ some i) same hit) in
          subst (λ n. IsRecord s n q) (sym z) (record { key = key ∙ sym e; live = live });
    }

abbrev stored : Allocator
stored = (put key1 100 (new_allocator options true 0)).0

stored-IsOwned : IsOwned stored
unfolding program
stored-IsOwned = one_object stored refl refl refl

abbrev pinned : Allocator
pinned = (pin key1 stored).0

pinned-IsOwned : IsOwned pinned
unfolding program
pinned-IsOwned = one_object pinned refl refl refl

-- Lifetimes of at most 100 seconds, from second 50 on, in a budget of 1024 bytes.
abbrev retaining : Allocator
retaining =
    configure_retention
      (record {
        enabled = true;
        budget_bytes = 1024;
        class_pct = 100;
        max_ttl_s = 100;
        persist_min_delta_s = 10;
      })
      50 stored

retaining-IsOwned : IsOwned retaining
unfolding program
retaining-IsOwned = one_object retaining refl refl refl

abbrev retained : Allocator
retained = (retain_key key1 60 set_mode 50 retaining).0

stored_size : (stored.used_bytes ≡ 128) × (stored.unbound ≡ 0)
unfolding program
stored_size = (refl, refl)

retained_until : (slot_at retained 0).retain_until ≡ 110
unfolding program
retained_until = refl

-- The class of the object has the number 1: an eviction takes the object, unless it is pinned.
evicts_stored : ((evict_one_from 1 stored).1 ≡ true) × ((evict_one_from 1 pinned).1 ≡ false)
unfolding program
evicts_stored = (refl, refl)

found : find stored.index key1 ≡ some 0
unfolding program
found = refl

readable-stored : readable stored key1 ≡ some 0
unfolding program
readable-stored = refl

found_pinned : find pinned.index key1 ≡ some 0
unfolding program
found_pinned = refl

unpinned_refs : (slot_at stored 0).refs ≡ 0
unfolding program
unpinned_refs = refl

pinned_refs : (slot_at pinned 0).refs ≡ 1
unfolding program
pinned_refs = refl

pinned-IsGuarded : IsGuarded (core (slot_at pinned 0))
unfolding program
pinned-IsGuarded = inl (omega arith)

retained-IsGuarded : IsGuarded (core (slot_at retained 0))
unfolding program
retained-IsGuarded = inr (omega arith)

found_retaining : find retaining.index key1 ≡ some 0
unfolding program
found_retaining = refl

within_budget : retaining.protected_bytes ≤ retaining.retain.budget_bytes
unfolding program
within_budget = omega arith

still_held : max 90 retained.retain_now_s < (slot_at retained 0).retain_until
unfolding program
still_held = omega arith

evict_one_from-guarded_example :
    let (t, done) = evict_one_from 1 pinned in
    (core (slot_at t 0) ≡ core (slot_at pinned 0))
    × (length t.evicted ≡ length pinned.evicted + count_of done)
evict_one_from-guarded_example = evict_one_from-guarded 1 0 pinned pinned-IsGuarded

reclaim_class-guarded_example :
    let (t, freed) = reclaim_class 0 1 3 retained in
    (freed ≤ 3)
    × (core (slot_at t 0) ≡ core (slot_at retained 0))
    × (length t.evicted ≡ length retained.evicted + freed)
reclaim_class-guarded_example = reclaim_class-guarded 0 1 3 0 retained retained-IsGuarded

evict_cold_to_target-guarded_example :
    let (t, freed) = evict_cold_to_target 1024 2 pinned in
    (freed ≤ 2)
    × (core (slot_at t 0) ≡ core (slot_at pinned 0))
    × (length t.evicted ≡ length pinned.evicted + freed)
evict_cold_to_target-guarded_example = evict_cold_to_target-guarded 1024 2 0 pinned pinned-IsGuarded

remove-Removes_example :
    ((remove key1 stored).1 ≡ removed) × Removes key1 stored (remove key1 stored).0
remove-Removes_example = remove-Removes stored key1 0 stored-IsOwned found unpinned_refs

-- The object has three pins, and two unpins leave it waiting.
abbrev pinned_thrice : Allocator
pinned_thrice = (pin key1 (pin key1 pinned).0).0

pinned_thrice-IsOwned : IsOwned pinned_thrice
unfolding program
pinned_thrice-IsOwned = one_object pinned_thrice refl refl refl

found_pinned_thrice : find pinned_thrice.index key1 ≡ some 0
unfolding program
found_pinned_thrice = refl

three_pins : (slot_at pinned_thrice 0).refs ≡ 3
unfolding program
three_pins = refl

unpin_times-remove_example :
    let t = (remove key1 pinned_thrice).0 in
    ((remove key1 pinned_thrice).1 ≡ deferred)
    × IsWaiting key1 0 (unpin_times 2 key1 t)
    × Removes key1 pinned_thrice (unpin_times (slot_at pinned_thrice 0).refs key1 t)
unpin_times-remove_example =
    unpin_times-remove pinned_thrice key1 0 2 pinned_thrice-IsOwned found_pinned_thrice
      (omega (arith, three_pins))

unpin-pin_example : ((pin key1 stored).1 ≡ true) × (unpin key1 (pin key1 stored).0 ≡ (stored, true))
unpin-pin_example = unpin-pin stored key1 0 stored-IsOwned readable-stored

expire_retention-Spares_example :
    (slot_at (expire_retention 90 retained).0 0).retain_until ≡ (slot_at retained 0).retain_until
expire_retention-Spares_example = expire_retention-Spares 90 0 retained still_held

retain_key-IsGranted_example :
    let t = (retain_key key1 60 set_mode 50 retaining).0 in
    ((slot_at retaining 0).retain_until ≤ (slot_at t 0).retain_until)
    × ((slot_at t 0).retain_until
        ≤ max
            (slot_at retaining 0).retain_until
            (max 50 retaining.retain_now_s + retaining.retain.max_ttl_s))
    × (t.protected_bytes ≤ retaining.retain.budget_bytes)
retain_key-IsGranted_example =
    retain_key-IsGranted key1 60 50 0 set_mode retaining retaining-IsOwned found_retaining
      within_budget
