-- ===== src/Net.antt =====
-- src/utils/net_util.h: PutU32, PutU64, GetU32 and GetU64 copy the bytes of a word, in the order of a
-- little-endian host. A buffer is a list of bytes, which are numbers below 256, and `p + k` is `drop k p`.
pub mod Words
use dingo_cache.Common.{ℕ, zero, suc, ◌+◌, ◌*◌, ◌/◌, ◌%◌, List, [], ◌∷◌}

-- The `n` lowest bytes of a number.
abbrev pub le_bytes : ℕ → ℕ → List ℕ
le_bytes zero v = []
le_bytes (suc n) v = v % 256 ∷ le_bytes n (v / 256)

-- The number of `n` bytes; beyond the buffer there are zeros here, and the code does not read there.
abbrev pub of_bytes : ℕ → List ℕ → ℕ
of_bytes zero bs = 0
of_bytes (suc n) [] = 0
of_bytes (suc n) (b ∷ bs) = b + 256 * of_bytes n bs

unfoldable pub put_u16 : ℕ → List ℕ
put_u16 v = le_bytes 2 v

unfoldable pub put_u32 : ℕ → List ℕ
put_u32 v = le_bytes 4 v

unfoldable pub put_u64 : ℕ → List ℕ
put_u64 v = le_bytes 8 v

unfoldable pub get_u32 : List ℕ → ℕ
get_u32 p = of_bytes 4 p

unfoldable pub get_u64 : List ℕ → ℕ
get_u64 p = of_bytes 8 p
