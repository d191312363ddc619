-- ===== src/Namespace/Cancel.antt =====
-- Equal serializations begin with equal fields.
use dingo_cache.Common.{
  ℕ, ◌^◌, ◌<◌, ◌≡◌, refl, ap, arith, List, [], ◌∷◌, ◌++◌, Option, none, some, length, ◌==◌,
  if◌then◌else◌,
}
use dingo_cache.Net.{put_u32}
use dingo_cache.Net.Words.{put_u32_cancel}
use dingo_cache.Namespace.{
  PoolKind, attention, mla, mamba, swa, indexer, draft_attention, draft_mla, draft_indexer, custom,
  pool_number, RankCoordinate, append_string, append_rank,
}

-- Lists of one length before two rests.
append_cancel : (a b r s : List ℕ) → length a ≡ length b → a ++ r ≡ b ++ s → (a ≡ b) × (r ≡ s)
append_cancel [] [] r s same e = (refl, e)
append_cancel [] (y ∷ b) r s same e = absurd (omega (arith, same))
append_cancel (x ∷ a) [] r s same e = absurd (omega (arith, same))
append_cancel (x ∷ a) (y ∷ b) r s same e =
    let (tails, rests) = append_cancel a b r s (omega (arith, same)) (cc e) in
    let heads : x ≡ y = cc e in (cc (heads, tails), rests)

pub append_string_cancel :
    (a b r s : List ℕ)
    → length a < 2 ^ 32
    → length b < 2 ^ 32
    → append_string a r ≡ append_string b s
    → (a ≡ b) × (r ≡ s)
unfolding append_string
append_string_cancel a b r s ha hb e =
    let (same, texts) = put_u32_cancel (length a) (length b) (a ++ r) (b ++ s) ha hb e in
    append_cancel a b r s same texts

-- The numbers of a rank are words.
pub record IsRank (c : RankCoordinate) : Type 0 where
  pub world_size : c.world_size < 2 ^ 32
  pub rank : c.rank < 2 ^ 32

pub append_rank_cancel :
    (a b : RankCoordinate) (r s : List ℕ)
    → IsRank a
    → IsRank b
    → append_rank a r ≡ append_rank b s
    → (a ≡ b) × (r ≡ s)
unfolding append_rank
append_rank_cancel a b r s ha hb e =
    let (sizes, more) =
      put_u32_cancel a.world_size b.world_size (put_u32 a.rank ++ r) (put_u32 b.rank ++ s)
        ha.world_size hb.world_size e in
    let (ranks, rests) = put_u32_cancel a.rank b.rank r s ha.rank hb.rank more in
    (cc (sizes, ranks), rests)

pool_of : ℕ → Option PoolKind
pool_of n =
    if n == 1
    then some attention
    else if n == 2
    then some mla
    else if n == 3
    then some mamba
    else if n == 4
    then some swa
    else if n == 5
    then some indexer
    else if n == 6
    then some draft_attention
    else if n == 7
    then some draft_mla
    else if n == 8
    then some draft_indexer
    else if n == 65535
    then some custom
    else none

pool_of-pool_number : (k : PoolKind) → pool_of (pool_number k) ≡ some k
unfolding pool_of pool_number
pool_of-pool_number attention = refl
pool_of-pool_number mla = refl
pool_of-pool_number mamba = refl
pool_of-pool_number swa = refl
pool_of-pool_number indexer = refl
pool_of-pool_number draft_attention = refl
pool_of-pool_number draft_mla = refl
pool_of-pool_number draft_indexer = refl
pool_of-pool_number custom = refl

pub pool_number_cancel : (k l : PoolKind) → pool_number k ≡ pool_number l → k ≡ l
pool_number_cancel k l e = cc (ap pool_of e, pool_of-pool_number k, pool_of-pool_number l)

pub pool_number-lt : (k : PoolKind) → pool_number k < 2 ^ 16
unfolding pool_number
pool_number-lt k = ground arith
