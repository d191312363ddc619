-- ===== src/Transport/RdmaProtocol/Tests.antt =====
-- Runs of the control frames of src/transport/rdma_protocol.h.
use dingo_cache.Common.{
  ◌+◌, ◌-◌, ◌*◌, ◌^◌, ◌≤◌, ◌%◌, ◌≡◌, ◌≢◌, refl, arith, Bool, true, false, [], ◌∷◌, ◌++◌, some, none,
  if◌then◌else◌,
}
use dingo_cache.Net.{put_u32, put_u64, get_u32, get_u64}
use dingo_cache.Transport.RdmaProtocol.{
  req_prefix, data_offset, put_prefix_offset, align_up_or_zero, v2_slot_size, segment_fits_one_slot,
  completion_covers_frame, completion_is_valid, RecvSegmentInfo, accepts_segment, DynamicPullReady,
  encode_pull_ready, accepts_pull, decode_pull_ready, LeasePutReady, encode_lease, accepts_lease,
  lease_fields, decode_lease, encode_readiness, decode_readiness,
}
use dingo_cache.Transport.RdmaProtocol.RoundTrip.{
  IsSegment, IsPull, IsLease, decode_pull_ready-encode_pull_ready, decode_lease-encode_lease,
  decode_readiness-encode_readiness,
}
use dingo_cache.Transport.RdmaProtocol.Geometry.{completion_is_valid_bounds, decode_lease_bounds}

slot_of_a_block : v2_slot_size 100000 ≡ 106496
unfolding v2_slot_size align_up_or_zero
slot_of_a_block = refl

no_slot_fits : segment_fits_one_slot 4096 (2 ^ 64 - 1) ≡ false
unfolding segment_fits_one_slot v2_slot_size align_up_or_zero
no_slot_fits = refl

abbrev segment : RecvSegmentInfo
segment = record { base_addr = 0x7f0000000000; rkey = 77; slot_size = 106496 }

segment-IsSegment : IsSegment segment
segment-IsSegment = record { rkey = omega arith; base_addr = omega arith; slot_size = omega arith }

abbrev pull : DynamicPullReady
pull = record {
  slot_index = 3;
  slot_generation = 12;
  data_len = 4000;
  value_len = 4096;
  address = 0x7f0000001000;
  rkey = 77;
}

pull-IsPull : IsPull pull
pull-IsPull = record {
  slot_index = omega arith;
  slot_generation = omega arith;
  data_len = omega arith;
  value_len = omega arith;
  address = omega arith;
  rkey = omega arith;
}

abbrev lease : LeasePutReady
lease = record {
  slot = 3;
  generation = 12;
  rkey = 77;
  write_base = 0x7f0000001000;
  lease_bytes = 8192;
}

lease-IsLease : IsLease lease
lease-IsLease = record {
  slot = omega arith;
  generation = omega arith;
  rkey = omega arith;
  write_base = omega arith;
  lease_bytes = omega arith;
}

lease_decoded : decode_lease (encode_lease lease) ≡ some lease
unfolding decode_lease encode_lease accepts_lease lease_fields put_u64 put_u32 get_u64 get_u32
lease_decoded = refl

whole_completion : completion_is_valid true true 150 100 4096 8192 ≡ true
unfolding completion_is_valid completion_covers_frame
whole_completion = refl

decode_pull_ready-encode_pull_ready_run :
    decode_pull_ready (encode_pull_ready pull ++ 9 ∷ [])
    ≡ (if accepts_pull pull then some pull else none)
decode_pull_ready-encode_pull_ready_run =
    decode_pull_ready-encode_pull_ready pull (9 ∷ []) pull-IsPull

decode_lease-encode_lease_run :
    decode_lease (encode_lease lease ++ []) ≡ (if accepts_lease lease then some lease else none)
decode_lease-encode_lease_run = decode_lease-encode_lease lease [] lease-IsLease

decode_readiness-encode_readiness_example :
    decode_readiness (encode_readiness segment 5)
    ≡ (if accepts_segment segment then some (segment, 5) else none)
decode_readiness-encode_readiness_example =
    decode_readiness-encode_readiness segment 5 segment-IsSegment (omega arith) (omega arith)

completion_is_valid_bounds_example :
    ◌≡◌ {A = Bool} true true
    × ◌≡◌ {A = Bool} true true
    × (100 ≤ 4096)
    × (150 ≡ req_prefix + 100)
    × (put_prefix_offset + 150 ≤ 8192)
completion_is_valid_bounds_example =
    completion_is_valid_bounds true true 150 100 4096 8192 (omega arith) whole_completion

decode_lease_bounds_run :
    (lease.rkey ≢ 0)
    × (lease.generation ≢ 0)
    × (2 * data_offset ≤ lease.lease_bytes)
    × (lease.lease_bytes % data_offset ≡ 0)
    × (lease.write_base + lease.lease_bytes ≤ 2 ^ 64)
decode_lease_bounds_run = decode_lease_bounds (encode_lease lease) lease lease_decoded
