-- ===== src/Transport/RdmaProtocol.antt =====
-- src/transport/rdma_protocol.h: the control frames of the RDMA data path, and the geometry of its slots.
-- Sizes and addresses are 64-bit words. A decoder that returns false gives `none`.
pub mod RoundTrip
pub mod Geometry
pub mod Tests
use Prim.Native.Nat.{bit_and}
use dingo_cache.Common.{
  ℕ, zero, suc, ◌+◌, ◌-◌, ◌*◌, ◌/◌, ◌%◌, ◌^◌, Bool, true, false, not, ◌&&◌, ◌||◌, List, [], ◌∷◌,
  ◌++◌, Option, none, some, ltb, leb, ◌==◌, if◌then◌else◌, get_or, drop, length,
}
use dingo_cache.Net.{put_u32, put_u64, get_u32, get_u64}

abbrev pub largest : ℕ
largest = 2 ^ 64 - 1

-- kReqPrefix, kV2DataOffset and kV2PutPrefixOffset.
abbrev pub req_prefix : ℕ
req_prefix = 50

abbrev pub data_offset : ℕ
data_offset = 4096

abbrev pub put_prefix_offset : ℕ
put_prefix_offset = data_offset - req_prefix

-- AlignUp: the complement of `alignment - 1` keeps the multiples of a power of two.
unfoldable pub align_up_or_zero : ℕ → ℕ → ℕ
align_up_or_zero value alignment =
    if alignment == 0
      || (not (bit_and alignment (alignment - 1) == 0) || ltb (largest - (alignment - 1)) value)
    then 0
    else (value + alignment - 1) / alignment * alignment

-- V2SlotSize.
unfoldable pub v2_slot_size : ℕ → ℕ
unfolding align_up_or_zero
v2_slot_size max_block_bytes =
    if ltb (largest - data_offset) max_block_bytes
    then 0
    else align_up_or_zero (data_offset + max_block_bytes) data_offset

-- V2RecvSegmentFitsOneSlot.
unfoldable pub segment_fits_one_slot : ℕ → ℕ → Bool
segment_fits_one_slot segment_bytes max_block_bytes =
    let size = v2_slot_size max_block_bytes in not (size == 0) && leb size segment_bytes

-- V2PutCompletionCoversFrame.
unfoldable pub completion_covers_frame : ℕ → ℕ → ℕ → Bool
completion_covers_frame completion_bytes payload_len size =
    if ltb size (put_prefix_offset + req_prefix)
    then false
    else if ltb (size - put_prefix_offset - req_prefix) payload_len
    then false
    else completion_bytes == (req_prefix + payload_len) % 2 ^ 64

-- V2PutCompletionIsValid.
unfoldable pub completion_is_valid : Bool → Bool → ℕ → ℕ → ℕ → ℕ → Bool
completion_is_valid is_write_with_imm has_immediate completion_bytes payload_len logical_payload_cap
      size =
    is_write_with_imm
    && (has_immediate
        && (leb payload_len logical_payload_cap
            && completion_covers_frame completion_bytes payload_len size))

pub record RecvSegmentInfo : Type 0 where
  pub base_addr : ℕ
  pub rkey : ℕ
  pub slot_size : ℕ

abbrev pub recv_segment_magic : ℕ
recv_segment_magic = 0x32475352

-- EncodeRecvSegmentInfo and DecodeRecvSegmentInfo.
unfoldable pub encode_recv_segment : RecvSegmentInfo → List ℕ
encode_recv_segment info =
    put_u32 recv_segment_magic
    ++ (put_u32 info.rkey ++ (put_u64 info.base_addr ++ put_u64 info.slot_size))

unfoldable pub accepts_segment : RecvSegmentInfo → Bool
accepts_segment info =
    not (info.rkey == 0)
    && (not (info.base_addr == 0)
        && (leb data_offset info.slot_size
            && (info.slot_size % data_offset == 0
                && leb info.base_addr (largest - (info.slot_size - 1)))))

unfoldable pub segment_fields : List ℕ → RecvSegmentInfo
segment_fields p = record {
  rkey = get_u32 (drop 4 p);
  base_addr = get_u64 (drop 8 p);
  slot_size = get_u64 (drop 16 p);
}

unfoldable pub decode_recv_segment : List ℕ → Option RecvSegmentInfo
decode_recv_segment p =
    if not (get_u32 p == recv_segment_magic)
    then none
    else if accepts_segment (segment_fields p)
    then some (segment_fields p)
    else none

pub record DynamicPullReady : Type 0 where
  pub slot_index : ℕ
  pub slot_generation : ℕ
  pub data_len : ℕ
  pub value_len : ℕ
  pub address : ℕ
  pub rkey : ℕ

abbrev pub pull_ready_magic : ℕ
pull_ready_magic = 0x32525044

-- EncodeDynamicPullReady and DecodeDynamicPullReady.
unfoldable pub encode_pull_ready : DynamicPullReady → List ℕ
encode_pull_ready v =
    put_u32 pull_ready_magic
    ++ (put_u32 v.slot_index
        ++ (put_u64 v.slot_generation
            ++ (put_u64 v.data_len
                ++ (put_u64 v.value_len ++ (put_u64 v.address ++ (put_u32 v.rkey ++ put_u32 0))))))

unfoldable pub accepts_pull : DynamicPullReady → Bool
accepts_pull v = not (
    v.slot_generation == 0
    || (v.address == 0
        || (v.rkey == 0 || (ltb v.value_len v.data_len || ltb (largest - v.address) v.data_len))))

unfoldable pub pull_fields : List ℕ → DynamicPullReady
pull_fields p = record {
  slot_index = get_u32 (drop 4 p);
  slot_generation = get_u64 (drop 8 p);
  data_len = get_u64 (drop 16 p);
  value_len = get_u64 (drop 24 p);
  address = get_u64 (drop 32 p);
  rkey = get_u32 (drop 40 p);
}

unfoldable pub decode_pull_ready : List ℕ → Option DynamicPullReady
decode_pull_ready p =
    if not (get_u32 p == pull_ready_magic) || not (get_u32 (drop 44 p) == 0)
    then none
    else if accepts_pull (pull_fields p)
    then some (pull_fields p)
    else none

pub record LeasePutReady : Type 0 where
  pub slot : ℕ
  pub generation : ℕ
  pub rkey : ℕ
  pub write_base : ℕ
  pub lease_bytes : ℕ

abbrev pub lease_magic : ℕ
lease_magic = 0x3252534c

-- EncodeLeasePutReady and DecodeLeasePutReady.
unfoldable pub encode_lease : LeasePutReady → List ℕ
encode_lease r =
    put_u32 lease_magic
    ++ (put_u32 r.rkey
        ++ (put_u32 r.slot
            ++ (put_u32 0
                ++ (put_u64 r.write_base ++ (put_u64 r.lease_bytes ++ put_u64 r.generation)))))

unfoldable pub accepts_lease : LeasePutReady → Bool
accepts_lease r =
    not (
      r.rkey == 0
      || (r.write_base == 0
          || (ltb r.lease_bytes (2 * data_offset)
              || (not (r.lease_bytes % data_offset == 0)
                  || ltb (largest - (r.lease_bytes - 1)) r.write_base))))
    && not (r.generation == 0)

unfoldable pub lease_fields : List ℕ → LeasePutReady
lease_fields p = record {
  rkey = get_u32 (drop 4 p);
  slot = get_u32 (drop 8 p);
  write_base = get_u64 (drop 16 p);
  lease_bytes = get_u64 (drop 24 p);
  generation = get_u64 (drop 32 p);
}

unfoldable pub decode_lease : List ℕ → Option LeasePutReady
decode_lease p =
    if not (get_u32 p == lease_magic)
    then none
    else if accepts_lease (lease_fields p)
    then some (lease_fields p)
    else none

-- EncodeV2Readiness, which encodes nothing for the token 0, and DecodeV2Readiness.
unfoldable pub encode_readiness : RecvSegmentInfo → ℕ → List ℕ
encode_readiness info writer_token =
    if writer_token == 0 then [] else 1 ∷ (encode_recv_segment info ++ put_u64 writer_token)

unfoldable pub decode_readiness : List ℕ → Option (RecvSegmentInfo × ℕ)
decode_readiness p =
    let token = get_u64 (drop 25 p) in
    let decoded = decode_recv_segment (drop 1 p) in
    if not (length p == 33) || not (get_or p 0 0 == 1)
    then none
    else elim decoded [ none ↦ none | some info ↦ if token == 0 then none else some (info, token) ]
