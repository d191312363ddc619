-- ===== src/GroupShard.antt =====
-- src/client/group_shard.h: a group of keys for one node is split into shards, one for each connection.
-- A group is a pair of what names it and its indices.
pub mod Order
pub mod Tests
use dingo_cache.Common.{
  ℕ, zero, suc, ◌+◌, ◌-◌, ◌/◌, List, [], ◌∷◌, ◌++◌, map, ltb, leb, ◌==◌, ◌||◌, if◌then◌else◌,
  length, take, drop,
}

-- `nsh`, the number of shards that a group of `n` indices should have.
unfoldable pub shard_count : ℕ → ℕ → ℕ → ℕ
shard_count n target maxc =
    let wanted = (n + target - 1) / target in
    let some_shard = if ltb wanted 1 then 1 else wanted in
    if ltb maxc some_shard then maxc else some_shard

-- `for (s = 0; s < idx.size(); s += per)`, with the rounds left: the slices of the indices.
unfoldable pub slices {ℓ} : {A : Type ℓ} → ℕ → ℕ → List A → List (List A)
slices zero per idx = []
slices (suc n) per [] = []
slices (suc n) per (x ∷ xs) = take per (x ∷ xs) ∷ slices n per (drop per (x ∷ xs))

-- One round of the loop over the groups. A slice has one index at least, so that there are no more rounds
-- than indices.
unfoldable pub shards_of {ℓ ℓ'} :
    {K : Type ℓ} {A : Type ℓ'} → ℕ → ℕ → K × List A → List (K × List A)
shards_of target maxc (k, idx) =
    let nsh = shard_count (length idx) target maxc in
    let per = (length idx + nsh - 1) / nsh in
    if leb nsh 1 then (k, idx) ∷ [] else map (λ slice. (k, slice)) (slices (length idx) per idx)

unfoldable pub shard_all {ℓ ℓ'} :
    {K : Type ℓ} {A : Type ℓ'} → ℕ → ℕ → List (K × List A) → List (K × List A)
shard_all target maxc [] = []
shard_all target maxc (g ∷ gs) = shards_of target maxc g ++ shard_all target maxc gs

-- ShardGroups.
unfoldable pub shard_groups {ℓ ℓ'} :
    {K : Type ℓ} {A : Type ℓ'} → List (K × List A) → ℕ → ℕ → List (K × List A)
shard_groups groups target maxc =
    if leb maxc 1 || target == 0 then groups else shard_all target maxc groups
