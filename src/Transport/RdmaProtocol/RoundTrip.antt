-- ===== src/Transport/RdmaProtocol/RoundTrip.antt =====
-- A control frame is decoded to what was encoded, if that is acceptable, and is rejected otherwise.
use dingo_cache.Common.{
  ℕ, ◌^◌, ◌<◌, ◌≡◌, refl, false, arith, List, [], ◌∷◌, ◌++◌, none, some, ◌==◌, if◌then◌else◌, drop,
  length, Bool-cases, inl, inr,
}
use dingo_cache.Net.{put_u32, put_u64, get_u32, get_u64}
use dingo_cache.Net.Words.{get_u64-put_u64, get_u32-put_u32}
use dingo_cache.Transport.RdmaProtocol.{
  RecvSegmentInfo, recv_segment_magic, encode_recv_segment, accepts_segment, segment_fields,
  decode_recv_segment, DynamicPullReady, pull_ready_magic, encode_pull_ready, accepts_pull,
  pull_fields, decode_pull_ready, LeasePutReady, lease_magic, encode_lease, accepts_lease,
  lease_fields, decode_lease, encode_readiness, decode_readiness,
}

pub record IsSegment (i : RecvSegmentInfo) : Type 0 where
  pub rkey : i.rkey < 2 ^ 32
  pub base_addr : i.base_addr < 2 ^ 64
  pub slot_size : i.slot_size < 2 ^ 64

pub record IsPull (v : DynamicPullReady) : Type 0 where
  pub slot_index : v.slot_index < 2 ^ 32
  pub slot_generation : v.slot_generation < 2 ^ 64
  pub data_len : v.data_len < 2 ^ 64
  pub value_len : v.value_len < 2 ^ 64
  pub address : v.address < 2 ^ 64
  pub rkey : v.rkey < 2 ^ 32

pub record IsLease (r : LeasePutReady) : Type 0 where
  pub slot : r.slot < 2 ^ 32
  pub generation : r.generation < 2 ^ 64
  pub rkey : r.rkey < 2 ^ 32
  pub write_base : r.write_base < 2 ^ 64
  pub lease_bytes : r.lease_bytes < 2 ^ 64

pub decode_recv_segment-encode_recv_segment :
    (i : RecvSegmentInfo) (rest : List ℕ)
    → IsSegment i
    → decode_recv_segment (encode_recv_segment i ++ rest)
      ≡ (if accepts_segment i then some i else none)
unfolding decode_recv_segment encode_recv_segment segment_fields put_u64 put_u32
decode_recv_segment-encode_recv_segment i rest w =
    let p = encode_recv_segment i ++ rest in
    let m : get_u32 p ≡ recv_segment_magic =
      get_u32-put_u32 recv_segment_magic (drop 4 p) (omega arith) in
    let a : get_u32 (drop 4 p) ≡ i.rkey = get_u32-put_u32 i.rkey (drop 8 p) w.rkey in
    let b : get_u64 (drop 8 p) ≡ i.base_addr =
      get_u64-put_u64 i.base_addr (drop 16 p) w.base_addr in
    let c : get_u64 (drop 16 p) ≡ i.slot_size = get_u64-put_u64 i.slot_size rest w.slot_size in
    rw (m, a, b, c) refl

-- The grant of a pull, in fields of its widths, is decoded to itself, whatever follows it, if it names a
-- generation, an address and a key, and data within the value and the address space; otherwise it is rejected.
pub decode_pull_ready-encode_pull_ready :
    (v : DynamicPullReady) (rest : List ℕ)
    → IsPull v
    → decode_pull_ready (encode_pull_ready v ++ rest) ≡ (if accepts_pull v then some v else none)
unfolding decode_pull_ready encode_pull_ready pull_fields put_u64 put_u32
decode_pull_ready-encode_pull_ready v rest w =
    let p = encode_pull_ready v ++ rest in
    let m : get_u32 p ≡ pull_ready_magic =
      get_u32-put_u32 pull_ready_magic (drop 4 p) (omega arith) in
    let a : get_u32 (drop 4 p) ≡ v.slot_index =
      get_u32-put_u32 v.slot_index (drop 8 p) w.slot_index in
    let b : get_u64 (drop 8 p) ≡ v.slot_generation =
      get_u64-put_u64 v.slot_generation (drop 16 p) w.slot_generation in
    let c : get_u64 (drop 16 p) ≡ v.data_len = get_u64-put_u64 v.data_len (drop 24 p) w.data_len in
    let d : get_u64 (drop 24 p) ≡ v.value_len =
      get_u64-put_u64 v.value_len (drop 32 p) w.value_len in
    let e : get_u64 (drop 32 p) ≡ v.address = get_u64-put_u64 v.address (drop 40 p) w.address in
    let f : get_u32 (drop 40 p) ≡ v.rkey = get_u32-put_u32 v.rkey (drop 44 p) w.rkey in
    let z : get_u32 (drop 44 p) ≡ 0 = get_u32-put_u32 0 rest (omega arith) in
    rw (m, z, a, b, c, d, e, f) refl

-- The lease of a put, in fields of its widths, is decoded to itself, whatever follows it, if it names a
-- key, a generation and whole pages within the address space; otherwise it is rejected.
pub decode_lease-encode_lease :
    (r : LeasePutReady) (rest : List ℕ)
    → IsLease r
    → decode_lease (encode_lease r ++ rest) ≡ (if accepts_lease r then some r else none)
unfolding decode_lease encode_lease lease_fields put_u64 put_u32
decode_lease-encode_lease r rest w =
    let p = encode_lease r ++ rest in
    let m : get_u32 p ≡ lease_magic = get_u32-put_u32 lease_magic (drop 4 p) (omega arith) in
    let a : get_u32 (drop 4 p) ≡ r.rkey = get_u32-put_u32 r.rkey (drop 8 p) w.rkey in
    let b : get_u32 (drop 8 p) ≡ r.slot = get_u32-put_u32 r.slot (drop 12 p) w.slot in
    let c : get_u64 (drop 16 p) ≡ r.write_base =
      get_u64-put_u64 r.write_base (drop 24 p) w.write_base in
    let d : get_u64 (drop 24 p) ≡ r.lease_bytes =
      get_u64-put_u64 r.lease_bytes (drop 32 p) w.lease_bytes in
    let e : get_u64 (drop 32 p) ≡ r.generation = get_u64-put_u64 r.generation rest w.generation in
    rw (m, a, b, c, d, e) refl

abbrev frame : RecvSegmentInfo → ℕ → List ℕ
frame i token = 1 ∷ (encode_recv_segment i ++ put_u64 token)

length-frame : (i : RecvSegmentInfo) (token : ℕ) → length (frame i token) ≡ 33
unfolding encode_recv_segment put_u64 put_u32
length-frame i token = refl

frame_token :
    (i : RecvSegmentInfo) (token : ℕ) → token < 2 ^ 64 → get_u64 (drop 25 (frame i token)) ≡ token
unfolding encode_recv_segment put_u64 put_u32
frame_token i token word = get_u64-put_u64 token [] word

-- The readiness of a connection with a writer token is decoded to its segment and its token if the segment
-- is acceptable, and is rejected otherwise.
pub decode_readiness-encode_readiness :
    (i : RecvSegmentInfo) (token : ℕ)
    → IsSegment i
    → 0 < token
    → token < 2 ^ 64
    → decode_readiness (encode_readiness i token)
      ≡ (if accepts_segment i then some (i, token) else none)
unfolding decode_readiness encode_readiness
decode_readiness-encode_readiness i token w pos word =
    let some_token : (token == 0) ≡ false = ground arith in
    let long = length-frame i token in
    let token_back = frame_token i token word in
    let segment = decode_recv_segment-encode_recv_segment i (put_u64 token) w in
    elim (Bool-cases (accepts_segment i)) [
      | inl good ↦
          rw (some_token, encode_readiness) (ground (arith, long, token_back, segment, good))
      | inr bad ↦ rw (some_token, encode_readiness) (ground (arith, long, token_back, segment, bad))
    ]
