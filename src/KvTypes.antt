-- ===== src/KvTypes.antt =====
-- src/common/kv_types.h: the tenant-scoped identity of a stored object, and its name on disk.
-- Words are numbers below 2 ^ 64; a string is the list of its bytes.
pub mod Filename
pub mod Tests
use dingo_cache.Common.{
  ℕ, zero, suc, ◌+◌, ◌-◌, ◌*◌, ◌/◌, ◌%◌, ◌^◌, ◌<◌, ◌≡◌, Bool, true, not, ◌&&◌, arith, ◌==◌, leb,
  ltb, List, [], ◌∷◌, ◌++◌, Option, none, some, length, drop, if◌then◌else◌,
}

pub record BlockKey : Type 0 where
  pub digest_hi : ℕ
  pub digest_lo : ℕ
  pub tenant_hash : ℕ

-- The fields of a key are words.
pub record IsKey (k : BlockKey) : Type 0 where
  pub tenant_hash : k.tenant_hash < 2 ^ 64
  pub digest_hi : k.digest_hi < 2 ^ 64
  pub digest_lo : k.digest_lo < 2 ^ 64

-- `operator==`.
unfoldable pub key_eq : BlockKey → BlockKey → Bool
key_eq a b =
    a.digest_hi == b.digest_hi && (a.digest_lo == b.digest_lo && a.tenant_hash == b.tenant_hash)

pub key_eq_sound : (a b : BlockKey) → key_eq a b ≡ true → a ≡ b
unfolding key_eq
key_eq_sound a b h = ground arith

pub key_eq_refl : (a : BlockKey) → key_eq a a ≡ true
unfolding key_eq
key_eq_refl a = ground arith

-- `%x` of one digit.
unfoldable pub hex_digit : ℕ → ℕ
hex_digit d = if ltb d 10 then b'0' + d else b'a' + (d - 10)

-- The last `n` hexadecimal digits of a number, before what follows.
unfoldable pub hex_onto : ℕ → ℕ → List ℕ → List ℕ
unfolding hex_digit
hex_onto zero value rest = rest
hex_onto (suc n) value rest = hex_onto n (value / 16) (hex_digit (value % 16) ∷ rest)

-- Hex64.
unfoldable pub hex64 : ℕ → List ℕ
hex64 value = hex_onto 16 value []

unfoldable pub digest_hex : BlockKey → List ℕ
digest_hex k = hex64 k.digest_hi ++ hex64 k.digest_lo

unfoldable pub filename : BlockKey → List ℕ
filename k = hex64 k.tenant_hash ++ digest_hex k

-- One character of ParseFilename.
unfoldable pub nibble : ℕ → Option ℕ
nibble c =
    if leb b'0' c && leb c b'9'
    then some (c - b'0')
    else if leb b'a' c && leb c b'f'
    then some (c - b'a' + 10)
    else none

-- The loop of `word` in ParseFilename, over `n` characters. After the shift the low bits are 0, so that
-- the `|` is an addition.
unfoldable pub parse_nibbles : ℕ → ℕ → List ℕ → Option ℕ
parse_nibbles zero parsed s = some parsed
parse_nibbles (suc n) parsed [] = none
parse_nibbles (suc n) parsed (c ∷ s) = elim (nibble c) [
  | none ↦ none
  | some d ↦ parse_nibbles n (parsed * 16 % 2 ^ 64 + d) s
]

-- ParseFilename.
unfoldable pub parse_filename : List ℕ → Option BlockKey
parse_filename s = if not (length s == 48) then none else elim (parse_nibbles 16 0 s) [
  | none ↦ none
  | some tenant_hash ↦ elim (parse_nibbles 16 0 (drop 16 s)) [
    | none ↦ none
    | some digest_hi ↦ elim (parse_nibbles 16 0 (drop 32 s)) [
      | none ↦ none
      | some digest_lo ↦
          some (record { tenant_hash = tenant_hash; digest_hi = digest_hi; digest_lo = digest_lo })
    ]
  ]
]
