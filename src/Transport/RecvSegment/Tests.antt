-- ===== src/Transport/RecvSegment/Tests.antt =====
-- Runs of src/transport/rdma_recv_segment.cc.
use dingo_cache.Common.{
  ℕ, ◌+◌, ◌≡◌, refl, arith, [], ◌∷◌, some, ltb, leb, if◌then◌else◌, true, ◌&&◌, ◌||◌,
}
use dingo_cache.Transport.RecvSegment.{
  Segment, new_segment, init, is_power_of_two, align_up_checked, emplace_range, erase_range,
  begin_in, first_fit, take_bytes, allocate, entry_before, entry_from, merge_before, merge_after,
  release_range,
}
use dingo_cache.Transport.RecvSegment.Ranges.{covers, Apart}
use dingo_cache.Transport.RecvSegment.Leases.{IsLeased, allocate-IsLeased, release_range-free}
use dingo_cache.Transport.RecvSegment.World.{
  allocating, resetting, happen, happen_all, holders, happen_all-once,
}

abbrev segment : Segment
segment = record {
  has_data = true;
  base = 0x7f0000000000;
  size = 65536;
  alignment = 4096;
  free = (0, 65536) ∷ [];
  allocation_failures = 0;
}

segment_made : init new_segment (some 0x7f0000000000) 65536 4096 ≡ (segment, true)
unfolding init is_power_of_two
segment_made = refl

-- Two leases, the first of which is given back: its bytes are free, with those that alignment left.
first_given_back :
    (happen_all
      (record { segment = segment; leases = [] })
      (allocating 100 4096 ∷ allocating 200 4096 ∷ resetting 1 ∷ [])).segment.free
    ≡ (0, 4096) ∷ (4296, 61240) ∷ []
unfolding happen_all happen allocate first_fit begin_in align_up_checked is_power_of_two take_bytes
    erase_range emplace_range release_range merge_before merge_after entry_before entry_from
first_given_back = refl

leased : (allocate segment 100 4096).1 ≡ some (0, 100)
unfolding allocate first_fit begin_in align_up_checked is_power_of_two
leased = refl

allocate-IsLeased_example : IsLeased segment (allocate segment 100 4096).0 4096 100 0 100
allocate-IsLeased_example = allocate-IsLeased segment 100 4096 0 100 (omega arith) leased

-- A segment of which a page is leased.
abbrev used : Segment
used = record segment { free = (0, 4096) ∷ (8192, 57344) ∷ [] }

release_range-free_run :
    Apart 0 65536 (release_range used 4096 4096).free
    × ((x : ℕ)
        → covers (release_range used 4096 4096).free x
          ≡ (covers used.free x || (leb 4096 x && ltb x (4096 + 4096))))
release_range-free_run =
    release_range-free used 4096 4096 (omega arith) (omega arith) (omega arith)
      (λ x low high. ground (arith, low, high))

whole_again : (release_range used 4096 4096).free ≡ (0, 65536) ∷ []
unfolding release_range merge_before merge_after entry_before entry_from erase_range emplace_range
whole_again = refl

happen_all-once_example :
    let w =
      happen_all
        (record { segment = segment; leases = [] })
        (allocating 100 4096 ∷ allocating 200 4096 ∷ resetting 1 ∷ []) in
    holders w.leases 4100 + (if covers w.segment.free 4100 then 1 else 0)
    ≡ (if ltb 4100 65536 then 1 else 0)
happen_all-once_example =
    happen_all-once segment 0x7f0000000000 65536 4096
      (allocating 100 4096 ∷ allocating 200 4096 ∷ resetting 1 ∷ []) 4100 segment_made
