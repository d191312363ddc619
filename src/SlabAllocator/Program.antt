-- ===== src/SlabAllocator/Program.antt =====
-- The definitions of the model by one name, for runs that compute with them.
use dingo_cache.KvTypes.{key_eq}
use dingo_cache.SlabAllocator.Admit.{
  new_allocator, widen, room_of, make_room, place, fill_meta, account, install, storable, put_fuel,
  put_new, put,
}
use dingo_cache.SlabAllocator.Extents.{
  ask_extent_bind, push_all, install_extent, bind_extent, first_unbound, bind_free_extent, protect,
  unprotect, leave_class, leave_extent, forget, return_extent, free_slot, drop_victim,
  ask_slot_evict, evict_slot, hand_of, advance, evict_fallback, sweep, evict_one_from,
}
use dingo_cache.SlabAllocator.FreeList.{
  update, back, pop_back, position, swap_remove, free_of, push_free, pop_at, pop_free,
  drop_from_rotation, take_free_slot, drop_extent_free,
}
use dingo_cache.SlabAllocator.Index.{
  mix, hash, home, next, probe, find_bucket, find, double_to, first_free, carry_over, carry_all,
  rehash, grow_to, wanted_capacity, must_rehash, reserve, vacancy, is_tombstone, write_new,
  insert_new, overwrite, insert, bury, erase,
}
use dingo_cache.SlabAllocator.Lattice.{
  align_up, max_aligned, next_size, climb, canonical_slot_size, class_for_exact_size, class_for_len,
  lattice,
}
use dingo_cache.SlabAllocator.Pins.{
  readable, get, add_ref, get_and_pin, contains, remove, pin, drop_ref, unpin, owns, pin_handle,
  unpin_handle,
}
use dingo_cache.SlabAllocator.Restore.{
  key_before, sort_in, sort_keys, has_adjacent, has_number, batch_size, is_sound, fits_extent,
  validate, restore_meta, restore_account, restore_one, restore_all, restore_bulk,
}
use dingo_cache.SlabAllocator.Retention.{
  code_number, last_full_tick, configure_retention, class_protect_cap, push_wheel, report,
  observe_time, new_deadline, code_of, over_budget, persist_due, write_grant, enter_wheel, grant,
  retain_resident, retain_key, expire_entry, drain_bucket, drain_ticks, expire_retention,
  retention_headroom_pct, restore_retention,
}
use dingo_cache.SlabAllocator.Rings.{
  link_slot, acquire_slot_meta, release_slot_meta, link_before_hand, link_before_global_hand,
  link_in_extent, link_resident, unlink_class, leave_hand, unlink_global, unlink_extent,
  decayed_heat, extent_heat, steals_before, is_behind_hand, is_behind_global_hand, refresh_class,
  refresh_global, warm, touch,
}
use dingo_cache.SlabAllocator.State.{with_slot, with_class, with_extent}
use dingo_cache.SlabAllocator.Steal.{
  is_bound, wipe, take_from_class, rebind, steal_extent, choose, is_free_donor, is_wide_donor,
  steal_chosen, steal_extent_for, is_colder, is_cold_donor, steal_cold_extent_for, is_donor_of,
  steal_from, reclaim_loop, reclaim_class, ask_evict, watermark_victim, evict_cold_loop,
  evict_cold_to_target,
}

unfoldable pub program : Unit {0}
unfolding key_eq new_allocator widen room_of make_room place fill_meta account install storable
    put_fuel put_new put ask_extent_bind push_all install_extent bind_extent first_unbound
    bind_free_extent protect unprotect leave_class leave_extent forget return_extent free_slot
    drop_victim ask_slot_evict evict_slot hand_of advance evict_fallback sweep evict_one_from update
    back pop_back position swap_remove free_of push_free pop_at pop_free drop_from_rotation
    take_free_slot drop_extent_free mix hash home next probe find_bucket find double_to first_free
    carry_over carry_all rehash grow_to wanted_capacity must_rehash reserve vacancy is_tombstone
    write_new insert_new overwrite insert bury erase align_up max_aligned next_size climb
    canonical_slot_size class_for_exact_size class_for_len lattice readable get add_ref get_and_pin
    contains remove pin drop_ref unpin owns pin_handle unpin_handle key_before sort_in sort_keys
    has_adjacent has_number batch_size is_sound fits_extent validate restore_meta restore_account
    restore_one restore_all restore_bulk code_number last_full_tick configure_retention
    class_protect_cap push_wheel report observe_time new_deadline code_of over_budget persist_due
    write_grant enter_wheel grant retain_resident retain_key expire_entry drain_bucket drain_ticks
    expire_retention retention_headroom_pct restore_retention link_slot acquire_slot_meta
    release_slot_meta link_before_hand link_before_global_hand link_in_extent link_resident
    unlink_class leave_hand unlink_global unlink_extent decayed_heat extent_heat steals_before
    is_behind_hand is_behind_global_hand refresh_class refresh_global warm touch with_slot
    with_class with_extent is_bound wipe take_from_class rebind steal_extent choose is_free_donor
    is_wide_donor steal_chosen steal_extent_for is_colder is_cold_donor steal_cold_extent_for
    is_donor_of steal_from reclaim_loop reclaim_class ask_evict watermark_victim evict_cold_loop
    evict_cold_to_target
program = tt
