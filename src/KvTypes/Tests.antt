-- ===== src/KvTypes/Tests.antt =====
-- Names of keys on disk, as src/common/kv_types.h writes and reads them.
use dingo_cache.Common.{ℕ, ◌-◌, ◌^◌, ◌≡◌, refl, arith, List, [], ◌∷◌, none, some, drop}
use dingo_cache.KvTypes.{
  BlockKey, IsKey, hex_digit, hex_onto, hex64, digest_hex, filename, nibble, parse_nibbles,
  parse_filename,
}
use dingo_cache.KvTypes.Filename.{parse_filename-filename, filename-parse_filename}

abbrev key : BlockKey
key = record { digest_hi = 0x0123456789abcdef; digest_lo = 2 ^ 64 - 1; tenant_hash = 7 }

key-IsKey : IsKey key
key-IsKey = record { tenant_hash = omega arith; digest_hi = omega arith; digest_lo = omega arith }

digits :
    hex64 0x00ff
    ≡ b'0' ∷ b'0' ∷ b'0' ∷ b'0' ∷ b'0' ∷ b'0' ∷ b'0' ∷ b'0' ∷ b'0' ∷ b'0' ∷ b'0' ∷ b'0' ∷ b'0'
      ∷ b'0' ∷ b'f' ∷ b'f' ∷ []
unfolding hex64 hex_onto hex_digit
digits = refl

upper_case : nibble b'A' ≡ none
unfolding nibble
upper_case = refl

abbrev prefix_only : List ℕ
prefix_only = drop 1 (filename key)

too_short : parse_filename prefix_only ≡ none
unfolding parse_filename filename digest_hex hex64 hex_onto hex_digit nibble parse_nibbles
too_short = refl

parse_filename-filename_example : parse_filename (filename key) ≡ some key
parse_filename-filename_example = parse_filename-filename key key-IsKey

filename-parse_filename_example : (filename key ≡ filename key) × IsKey key
filename-parse_filename_example =
    filename-parse_filename (filename key) key (parse_filename-filename key key-IsKey)
