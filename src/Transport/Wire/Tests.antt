-- ===== src/Transport/Wire/Tests.antt =====
-- Runs of the codec of src/transport/wire.h.
use dingo_cache.Common.{
  ◌≡◌, refl, arith, ◌&&◌, some, none, [], ◌∷◌, ◌++◌, length, leb, ◌==◌, if◌then◌else◌,
}
use dingo_cache.KvTypes.{IsKey, BlockKey}
use dingo_cache.Status.{status_number, not_found, invalid, resource_exhausted}
use dingo_cache.Net.{put_u32, put_u64, get_u64}
use dingo_cache.Transport.Wire.RoundTrip.{
  fields_of, decode_req_version-encode_req_version, decode_resp_version-encode_resp_version,
  decode_retain_trailer-encode_retain_trailer,
}
use dingo_cache.Transport.Wire.{
  lookup, op_number, encode_req_version, decode_req_version, encode_resp_version,
  decode_resp_version, RetainTrailer, encode_retain_trailer, decode_retain_trailer,
  encode_retain_payload, encode_keys, max_frame_len,
}

abbrev key1 : BlockKey
key1 = record { digest_hi = 1; digest_lo = 2; tenant_hash = 3 }

key1-IsKey : IsKey key1
key1-IsKey = record { tenant_hash = omega arith; digest_hi = omega arith; digest_lo = omega arith }

prefix_sizes :
    (length (encode_req_version 6 lookup key1 0 4096 0) ≡ 50)
    × (length (encode_resp_version 6 not_found 0 0) ≡ 18)
    × (length (encode_retain_payload 60 1 (key1 ∷ [])) ≡ 24)
unfolding encode_req_version op_number encode_resp_version status_number put_u64 put_u32
    encode_retain_payload encode_keys
prefix_sizes = (refl, refl, refl)

local_status :
    decode_resp_version (encode_resp_version 6 resource_exhausted 0 0) 6 max_frame_len ≡ none
unfolding decode_resp_version encode_resp_version status_number put_u64 get_u64
local_status = refl

decode_req_version-encode_req_version_example :
    decode_req_version (encode_req_version 6 lookup key1 0 4096 0 ++ 7 ∷ []) 6 max_frame_len
    ≡ (if 6 == 6 && leb 0 max_frame_len then some (fields_of lookup key1 0 4096 0) else none)
decode_req_version-encode_req_version_example =
    decode_req_version-encode_req_version 6 lookup key1 0 4096 0 (7 ∷ []) 6 max_frame_len key1-IsKey
      (omega arith) (omega arith) (omega arith)

decode_resp_version-encode_resp_version_example :
    decode_resp_version (encode_resp_version 8 not_found 5 9 ++ []) 8 4096 ≡ (
      if 8 == 8 && (leb (status_number not_found) (status_number invalid) && leb 5 4096)
      then some (record { status = some not_found; data_len = 5; value_len = 9 })
      else none)
decode_resp_version-encode_resp_version_example =
    decode_resp_version-encode_resp_version 8 not_found 5 9 [] 8 4096 (omega arith) (omega arith)

abbrev trailer : RetainTrailer
trailer = record { server_now_s = 1700000000; max_ttl_s = 3600; headroom_pct = 40 }

decode_retain_trailer-encode_retain_trailer_run :
    decode_retain_trailer (encode_retain_trailer trailer ++ []) ≡ trailer
decode_retain_trailer-encode_retain_trailer_run =
    decode_retain_trailer-encode_retain_trailer trailer [] (omega arith) (omega arith)
