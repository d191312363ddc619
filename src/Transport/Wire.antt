-- ===== src/Transport/Wire.antt =====
-- src/transport/wire.h: the prefixes of requests and responses. A buffer is a list of bytes; a
-- decoder that returns false gives `none`, and what it has written into its output by then is not used.
pub mod RoundTrip
pub mod Tests
use dingo_cache.Common.{
  ℕ, zero, suc, ◌+◌, ◌*◌, ◌^◌, Bool, not, ◌||◌, List, [], ◌∷◌, ◌++◌, Option, none, some, ltb, leb,
  ◌==◌, if◌then◌else◌, get_or, drop,
}
use dingo_cache.KvTypes.{BlockKey}
use dingo_cache.Status.{Status, status_number, status_of, invalid}
use dingo_cache.Net.{put_u32, put_u64, get_u32, get_u64}

-- kNativeProtoTcp, kNativeProtoRdmaV2 and kMaxFrameLen.
abbrev pub native_proto_tcp : ℕ
native_proto_tcp = 6

abbrev pub native_proto_rdma : ℕ
native_proto_rdma = 8

abbrev pub max_frame_len : ℕ
max_frame_len = 2 ^ 34

-- `uint8_t(p[i])`.
abbrev pub byte_at : List ℕ → ℕ → ℕ
byte_at p i = get_or p i 0

-- WireOp.
pub data WireOp : Type 0 where
  cache range exist stats members register heartbeat list_members remove list_groups client_register
        client_heartbeat list_clients lookup list_topology pull_range pull_release lease_put
        retain :
      WireOp

unfoldable pub op_number : WireOp → ℕ
op_number cache = 1
op_number range = 2
op_number exist = 3
op_number stats = 4
op_number members = 5
op_number register = 6
op_number heartbeat = 7
op_number list_members = 8
op_number remove = 9
op_number list_groups = 10
op_number client_register = 11
op_number client_heartbeat = 12
op_number list_clients = 13
op_number lookup = 14
op_number list_topology = 15
op_number pull_range = 16
op_number pull_release = 17
op_number lease_put = 18
op_number retain = 19

-- EncodeReqVersion.
unfoldable pub encode_req_version : ℕ → WireOp → BlockKey → ℕ → ℕ → ℕ → List ℕ
encode_req_version version op k offset length payload_len =
    version
    ∷ op_number op
    ∷ (put_u64 k.tenant_hash
        ++ (put_u64 k.digest_hi
            ++ (put_u64 k.digest_lo
                ++ (put_u64 offset ++ (put_u64 length ++ put_u64 payload_len)))))

unfoldable pub encode_req : WireOp → BlockKey → ℕ → ℕ → ℕ → List ℕ
encode_req op k offset length payload_len =
    encode_req_version native_proto_tcp op k offset length payload_len

pub record ReqFields : Type 0 where
  pub op : ℕ
  pub tenant_hash : ℕ
  pub digest_hi : ℕ
  pub digest_lo : ℕ
  pub offset : ℕ
  pub length : ℕ
  pub payload_len : ℕ

-- ReqFields::Key.
unfoldable pub key_of : ReqFields → BlockKey
key_of r = record { digest_hi = r.digest_hi; digest_lo = r.digest_lo; tenant_hash = r.tenant_hash }

unfoldable pub req_fields : List ℕ → ReqFields
req_fields p = record {
  op = byte_at p 1;
  tenant_hash = get_u64 (drop 2 p);
  digest_hi = get_u64 (drop 10 p);
  digest_lo = get_u64 (drop 18 p);
  offset = get_u64 (drop 26 p);
  length = get_u64 (drop 34 p);
  payload_len = get_u64 (drop 42 p);
}

-- DecodeReqVersion.
unfoldable pub decode_req_version : List ℕ → ℕ → ℕ → Option ReqFields
decode_req_version p expected_version max_payload =
    if not (byte_at p 0 == expected_version)
    then none
    else if leb (req_fields p).payload_len max_payload
    then some (req_fields p)
    else none

unfoldable pub decode_req : List ℕ → ℕ → Option ReqFields
decode_req p max_payload = decode_req_version p native_proto_tcp max_payload

-- EncodeRespVersion.
unfoldable pub encode_resp_version : ℕ → Status → ℕ → ℕ → List ℕ
encode_resp_version version st data_len value_len =
    version ∷ status_number st ∷ (put_u64 data_len ++ put_u64 value_len)

pub record RespFields : Type 0 where
  pub status : Option Status
  pub data_len : ℕ
  pub value_len : ℕ

-- DecodeRespVersion.
unfoldable pub decode_resp_version : List ℕ → ℕ → ℕ → Option RespFields
decode_resp_version p expected_version max_data =
    if not (byte_at p 0 == expected_version)
    then none
    else if ltb (status_number invalid) (byte_at p 1)
    then none
    else if ltb max_data (get_u64 (drop 2 p))
    then none
    else some (record {
      status = status_of (byte_at p 1);
      data_len = get_u64 (drop 2 p);
      value_len = get_u64 (drop 10 p);
    })

-- RetainTrailer, EncodeRetainPayload, EncodeRetainTrailer and DecodeRetainTrailer.
pub record RetainTrailer : Type 0 where
  pub server_now_s : ℕ
  pub max_ttl_s : ℕ
  pub headroom_pct : ℕ

unfoldable pub encode_keys : List BlockKey → List ℕ
encode_keys [] = []
encode_keys (k ∷ ks) = put_u64 k.digest_hi ++ (put_u64 k.digest_lo ++ encode_keys ks)

unfoldable pub encode_retain_payload : ℕ → ℕ → List BlockKey → List ℕ
encode_retain_payload ttl_s mode keys = put_u32 ttl_s ++ (mode ∷ 0 ∷ 0 ∷ 0 ∷ encode_keys keys)

unfoldable pub encode_retain_trailer : RetainTrailer → List ℕ
encode_retain_trailer t =
    put_u32 t.server_now_s ++ (put_u32 t.max_ttl_s ++ (t.headroom_pct ∷ 0 ∷ 0 ∷ 0 ∷ []))

unfoldable pub decode_retain_trailer : List ℕ → RetainTrailer
decode_retain_trailer p = record {
  server_now_s = get_u32 p;
  max_ttl_s = get_u32 (drop 4 p);
  headroom_pct = byte_at p 8;
}
