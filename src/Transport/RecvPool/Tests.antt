-- ===== src/Transport/RecvPool/Tests.antt =====
-- Runs of the pool of src/transport/rdma_recv_segment.cc.
use dingo_cache.Common.{◌≤◌, ◌≡◌, refl, true, List, [], ◌∷◌, none, some}
use dingo_cache.Transport.RecvSegment.{
  align_up_checked, is_power_of_two, init, allocate, first_fit, begin_in, take_bytes, erase_range,
  emplace_range, release_range, merge_before, merge_after, entry_before, entry_from, free_bytes,
}
use dingo_cache.Transport.RecvPool.{
  connection, Pool, new_pool, refuses_geometry, init_pool, committed, new_chunk, try_chunks, grow,
  search_if, allocate_pool, release_in, reset_lease, trim_chunks, trim_idle,
}
use dingo_cache.Transport.RecvPool.Calls.{
  Call, allocating, resetting, trimming, after_call, after_calls, after_calls-committed,
  reserved_ranges, reserved_ranges-allocate_pool,
}

-- One chunk, reserved for staging, of a budget of four.
abbrev pool : Pool
pool = record {
  chunk_bytes = 65536;
  max_bytes = 262144;
  staging_reserve_bytes = 65536;
  alignment = 4096;
  chunks =
      record {
        segment = record {
          has_data = true;
          base = 0x10000000;
          size = 65536;
          alignment = 4096;
          free = (0, 65536) ∷ [];
          allocation_failures = 0;
        };
        affinity = none;
        staging_only = true;
        empty_since_ms = 0;
      }
      ∷ [];
  growths = 0;
  shrinks = 0;
  released_bytes = 0;
  allocation_failures = 0;
  growth_failures = 0;
}

pool_made : init_pool new_pool (some 0x10000000) 65000 262144 4096 65536 ≡ (pool, true)
unfolding init_pool refuses_geometry align_up_checked is_power_of_two init
pool_made = refl

-- A connection gets a new chunk, which is trimmed a second after its lease was reset.
abbrev history : List Call
history =
    allocating (some 0x20000000) 100 4096 none connection
    ∷ resetting (record { segment = 0x20000000; offset = 0; size = 100 }) 5000
    ∷ trimming 1000 6000
    ∷ []

trimmed : (after_calls pool history).released_bytes ≡ 65536
unfolding after_calls after_call allocate_pool search_if try_chunks grow new_chunk committed init
    allocate first_fit begin_in align_up_checked is_power_of_two take_bytes erase_range
    emplace_range reset_lease release_in release_range merge_before merge_after entry_before
    entry_from free_bytes trim_idle trim_chunks
trimmed = refl

after_calls-committed_example :
    committed (after_calls pool history).chunks ≤ align_up_checked 262144 4096
after_calls-committed_example =
    after_calls-committed pool (some 0x10000000) 65000 262144 4096 65536 history pool_made

reserved_ranges-allocate_pool_example :
    reserved_ranges (allocate_pool pool (some 0x20000000) 100 4096 none connection).0.chunks
    ≡ reserved_ranges pool.chunks
reserved_ranges-allocate_pool_example =
    reserved_ranges-allocate_pool pool (some 0x20000000) 100 4096 none
