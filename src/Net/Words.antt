-- ===== src/Net/Words.antt =====
-- A word that has been put is got back, whatever follows it; and what has been put can be cancelled.
use dingo_cache.Common.{ℕ, zero, suc, ◌/◌, ◌%◌, ◌^◌, ◌<◌, ◌≡◌, arith, List, [], ◌++◌}
use dingo_cache.Net.{le_bytes, of_bytes, put_u16, put_u32, put_u64, get_u32, get_u64}

of_bytes-le_bytes : (n v : ℕ) (rest : List ℕ) → v < 256 ^ n → of_bytes n (le_bytes n v ++ rest) ≡ v
of_bytes-le_bytes zero v rest h = omega arith
of_bytes-le_bytes (suc n) v rest h = omega (arith, of_bytes-le_bytes n (v / 256) rest (omega arith))

pub get_u64-put_u64 : (v : ℕ) (rest : List ℕ) → v < 2 ^ 64 → get_u64 (put_u64 v ++ rest) ≡ v
unfolding get_u64 put_u64
get_u64-put_u64 v rest h = of_bytes-le_bytes 8 v rest h

pub get_u32-put_u32 : (v : ℕ) (rest : List ℕ) → v < 2 ^ 32 → get_u32 (put_u32 v ++ rest) ≡ v
unfolding get_u32 put_u32
get_u32-put_u32 v rest h = of_bytes-le_bytes 4 v rest h

-- Two words before two rests that are the same are the same, and so are the rests.
le_bytes_cancel :
    (n v w : ℕ) (r s : List ℕ)
    → v < 256 ^ n
    → w < 256 ^ n
    → le_bytes n v ++ r ≡ le_bytes n w ++ s
    → (v ≡ w) × (r ≡ s)
le_bytes_cancel zero v w r s hv hw e = (omega arith, e)
le_bytes_cancel (suc n) v w r s hv hw e =
    let low : v % 256 ≡ w % 256 = cc e in
    let (high, same) =
      le_bytes_cancel n (v / 256) (w / 256) r s (omega arith) (omega arith) (cc e) in
    (omega (arith, low, high), same)

pub put_u16_cancel :
    (v w : ℕ) (r s : List ℕ)
    → v < 2 ^ 16
    → w < 2 ^ 16
    → put_u16 v ++ r ≡ put_u16 w ++ s
    → (v ≡ w) × (r ≡ s)
unfolding put_u16
put_u16_cancel v w r s hv hw e = le_bytes_cancel 2 v w r s hv hw e

pub put_u32_cancel :
    (v w : ℕ) (r s : List ℕ)
    → v < 2 ^ 32
    → w < 2 ^ 32
    → put_u32 v ++ r ≡ put_u32 w ++ s
    → (v ≡ w) × (r ≡ s)
unfolding put_u32
put_u32_cancel v w r s hv hw e = le_bytes_cancel 4 v w r s hv hw e

pub put_u64_cancel :
    (v w : ℕ) (r s : List ℕ)
    → v < 2 ^ 64
    → w < 2 ^ 64
    → put_u64 v ++ r ≡ put_u64 w ++ s
    → (v ≡ w) × (r ≡ s)
unfolding put_u64
put_u64_cancel v w r s hv hw e = le_bytes_cancel 8 v w r s hv hw e

-- A word of four bytes alone.
pub put_u32_last : (v w : ℕ) → v < 2 ^ 32 → w < 2 ^ 32 → put_u32 v ≡ put_u32 w → v ≡ w
unfolding put_u32
put_u32_last v w hv hw e = (le_bytes_cancel 4 v w [] [] hv hw e).0
