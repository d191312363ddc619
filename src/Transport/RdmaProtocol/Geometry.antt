-- ===== src/Transport/RdmaProtocol/Geometry.antt =====
-- The geometry of slots: a block fits its slot, and an accepted put lies within it.
use dingo_cache.Common.{
  ℕ, ◌+◌, ◌-◌, ◌*◌, ◌%◌, ◌^◌, ◌≤◌, ◌<◌, ◌≡◌, ◌⊎◌, Bool, true, arith, List, some, ◌≢◌,
}
use dingo_cache.Transport.RdmaProtocol.{
  largest, req_prefix, data_offset, put_prefix_offset, align_up_or_zero, v2_slot_size,
  completion_covers_frame, completion_is_valid, LeasePutReady, accepts_lease, decode_lease,
}

-- The slot of a block: where the sum with the page of the frame and the rounding stay within a word, it is
-- the least number of whole pages that holds the frame page and the block; otherwise it is 0.
pub v2_slot_size_bounds :
    (block : ℕ)
    → (largest - data_offset - (data_offset - 1) < block × v2_slot_size block ≡ 0)
      ⊎ ((v2_slot_size block % data_offset ≡ 0)
          × (data_offset + block ≤ v2_slot_size block)
          × (v2_slot_size block < data_offset + block + data_offset)
          × (v2_slot_size block ≤ largest))
unfolding v2_slot_size align_up_or_zero
v2_slot_size_bounds block = ground arith

-- A put completion that is accepted is a write with an immediate, its payload is within the cap, its bytes
-- are the whole frame, and the frame, from where its prefix begins, lies within the slot.
pub completion_is_valid_bounds :
    (is_write has_immediate : Bool) (bytes payload cap size : ℕ)
    → size < 2 ^ 64
    → completion_is_valid is_write has_immediate bytes payload cap size ≡ true
    → (is_write ≡ true)
      × (has_immediate ≡ true)
      × (payload ≤ cap)
      × (bytes ≡ req_prefix + payload)
      × (put_prefix_offset + bytes ≤ size)
unfolding completion_is_valid completion_covers_frame
completion_is_valid_bounds is_write has_immediate bytes payload cap size word h = ground arith

-- Whatever the bytes are, a lease that is decoded names a key and a generation, and its range has at
-- least two whole pages and ends within the address space.
pub decode_lease_bounds :
    (p : List ℕ) (r : LeasePutReady)
    → decode_lease p ≡ some r
    → (r.rkey ≢ 0)
      × (r.generation ≢ 0)
      × (2 * data_offset ≤ r.lease_bytes)
      × (r.lease_bytes % data_offset ≡ 0)
      × (r.write_base + r.lease_bytes ≤ 2 ^ 64)
unfolding decode_lease accepts_lease
decode_lease_bounds p r h = ground arith
