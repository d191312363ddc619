-- ===== src/Transport/Wire/RoundTrip.antt =====
-- What is encoded is decoded again, exactly when the version and the declared length are acceptable.
use dingo_cache.Common.{
  ℕ, ◌^◌, ◌<◌, ◌≡◌, refl, ◌&&◌, arith, List, ◌++◌, none, some, leb, ◌==◌, if◌then◌else◌, get_or,
  drop,
}
use dingo_cache.KvTypes.{IsKey, BlockKey}
use dingo_cache.Status.{
  Status, status_number, status_of, status_ok, not_found, cache_full, quota_exceeded, io_error,
  invalid, resource_exhausted, no_compatible_rail,
}
use dingo_cache.Net.{put_u32, put_u64, get_u32, get_u64}
use dingo_cache.Net.Words.{get_u64-put_u64, get_u32-put_u32}
use dingo_cache.Transport.Wire.{
  WireOp, op_number, encode_req_version, ReqFields, req_fields, decode_req_version,
  encode_resp_version, decode_resp_version, RetainTrailer, encode_retain_trailer,
  decode_retain_trailer,
}

-- The fields that a request stands for.
abbrev pub fields_of : WireOp → BlockKey → ℕ → ℕ → ℕ → ReqFields
fields_of op k offset length payload_len = record {
  op = op_number op;
  tenant_hash = k.tenant_hash;
  digest_hi = k.digest_hi;
  digest_lo = k.digest_lo;
  offset = offset;
  length = length;
  payload_len = payload_len;
}

module _ (version : ℕ) (op : WireOp) (k : BlockKey) (offset length payload_len : ℕ) (rest : List ℕ)
    (key : IsKey k) (ho : offset < 2 ^ 64) (hl : length < 2 ^ 64) (hp : payload_len < 2 ^ 64) where
  req_fields-encode_req_version :
      req_fields (encode_req_version version op k offset length payload_len ++ rest)
      ≡ fields_of op k offset length payload_len
  unfolding req_fields encode_req_version put_u64
  req_fields-encode_req_version =
      let p = encode_req_version version op k offset length payload_len ++ rest in
      let a : get_u64 (drop 2 p) ≡ k.tenant_hash =
        get_u64-put_u64 k.tenant_hash (drop 10 p) key.tenant_hash in
      let b : get_u64 (drop 10 p) ≡ k.digest_hi =
        get_u64-put_u64 k.digest_hi (drop 18 p) key.digest_hi in
      let c : get_u64 (drop 18 p) ≡ k.digest_lo =
        get_u64-put_u64 k.digest_lo (drop 26 p) key.digest_lo in
      let d : get_u64 (drop 26 p) ≡ offset = get_u64-put_u64 offset (drop 34 p) ho in
      let e : get_u64 (drop 34 p) ≡ length = get_u64-put_u64 length (drop 42 p) hl in
      let f : get_u64 (drop 42 p) ≡ payload_len = get_u64-put_u64 payload_len rest hp in
      cc (a, b, c, d, e, f)

first_byte :
    (version : ℕ) (op : WireOp) (k : BlockKey) (offset length payload_len : ℕ) (rest : List ℕ)
    → get_or (encode_req_version version op k offset length payload_len ++ rest) 0 0 ≡ version
unfolding encode_req_version
first_byte version op k offset length payload_len rest = refl

status_of-status_number : (st : Status) → status_of (status_number st) ≡ some st
unfolding status_of status_number
status_of-status_number status_ok = refl
status_of-status_number not_found = refl
status_of-status_number cache_full = refl
status_of-status_number quota_exceeded = refl
status_of-status_number io_error = refl
status_of-status_number invalid = refl
status_of-status_number resource_exhausted = refl
status_of-status_number no_compatible_rail = refl

-- A request of 64-bit words, whatever follows it, is decoded to its own fields if its version is the one
-- that is expected and its payload is not above the limit, and is rejected otherwise.
pub decode_req_version-encode_req_version :
    (version : ℕ) (op : WireOp) (k : BlockKey) (offset length payload_len : ℕ) (rest : List ℕ)
    (expected max_payload : ℕ)
    → IsKey k
    → offset < 2 ^ 64
    → length < 2 ^ 64
    → payload_len < 2 ^ 64
    → decode_req_version
        (encode_req_version version op k offset length payload_len ++ rest)
        expected
        max_payload
      ≡ (if version == expected && leb payload_len max_payload
          then some (fields_of op k offset length payload_len)
          else none)
unfolding decode_req_version
decode_req_version-encode_req_version version op k offset length payload_len rest expected
      max_payload key ho hl hp =
    let same =
      req_fields-encode_req_version version op k offset length payload_len rest key ho hl hp in
    let first : get_or (encode_req_version version op k offset length payload_len ++ rest) 0 0
        ≡ version =
      first_byte version op k offset length payload_len rest in
    rw (same, first) (ground arith)

-- A response, whatever follows it, is decoded to its own fields if its version is the one that is
-- expected, its status is one that the wire knows, and its data is not above the limit, and is rejected
-- otherwise.
pub decode_resp_version-encode_resp_version :
    (version : ℕ) (st : Status) (data_len value_len : ℕ) (rest : List ℕ) (expected max_data : ℕ)
    → data_len < 2 ^ 64
    → value_len < 2 ^ 64
    → decode_resp_version
        (encode_resp_version version st data_len value_len ++ rest)
        expected
        max_data
      ≡ (if version == expected
            && (leb (status_number st) (status_number invalid) && leb data_len max_data)
          then some (record { status = some st; data_len = data_len; value_len = value_len })
          else none)
unfolding decode_resp_version encode_resp_version put_u64
decode_resp_version-encode_resp_version version st data_len value_len rest expected max_data hd hv =
    let p = encode_resp_version version st data_len value_len ++ rest in
    let a : get_u64 (drop 2 p) ≡ data_len = get_u64-put_u64 data_len (drop 10 p) hd in
    let b : get_u64 (drop 10 p) ≡ value_len = get_u64-put_u64 value_len rest hv in
    rw (a, b, status_of-status_number st) (ground arith)

-- A trailer of a retain reply is decoded to itself, whatever follows it.
pub decode_retain_trailer-encode_retain_trailer :
    (t : RetainTrailer) (rest : List ℕ)
    → t.server_now_s < 2 ^ 32
    → t.max_ttl_s < 2 ^ 32
    → decode_retain_trailer (encode_retain_trailer t ++ rest) ≡ t
unfolding decode_retain_trailer encode_retain_trailer put_u32
decode_retain_trailer-encode_retain_trailer t rest hn hm =
    let p = encode_retain_trailer t ++ rest in
    let a : get_u32 p ≡ t.server_now_s = get_u32-put_u32 t.server_now_s (drop 4 p) hn in
    let b : get_u32 (drop 4 p) ≡ t.max_ttl_s = get_u32-put_u32 t.max_ttl_s (drop 8 p) hm in
    cc (a, b)
