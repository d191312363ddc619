-- ===== src/GroupShard/Tests.antt =====
-- Runs of ShardGroups (src/client/group_shard.h).
use dingo_cache.Common.{ℕ, ◌≤◌, ◌≡◌, refl, max, List, [], ◌∷◌, length}
use dingo_cache.GroupShard.Order.{all_indices, all_indices-shard_groups, length-shards_of}
use dingo_cache.GroupShard.{shard_count, slices, shards_of, shard_all, shard_groups}

-- One node with five indices, and one with a single index.
abbrev groups : List (ℕ × List ℕ)
groups = (1, 10 ∷ 11 ∷ 12 ∷ 13 ∷ 14 ∷ []) ∷ (2, 20 ∷ []) ∷ []

sharded :
    shard_groups groups 2 4
    ≡ (1, 10 ∷ 11 ∷ []) ∷ (1, 12 ∷ 13 ∷ []) ∷ (1, 14 ∷ []) ∷ (2, 20 ∷ []) ∷ []
unfolding shard_groups shard_all shards_of slices shard_count
sharded = refl

all_indices-shard_groups_example : all_indices (shard_groups groups 2 4) ≡ all_indices groups
all_indices-shard_groups_example = all_indices-shard_groups groups 2 4

abbrev five : ℕ × List ℕ
five = (1, 10 ∷ 11 ∷ 12 ∷ 13 ∷ 14 ∷ [])

length-shards_of_run : length (shards_of 2 2 five) ≤ max 1 2
length-shards_of_run = length-shards_of 2 2 five
