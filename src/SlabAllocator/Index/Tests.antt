-- ===== src/SlabAllocator/Index/Tests.antt =====
-- Runs of FlatKeyIndex (src/cache/slab_allocator.cc).
use dingo_cache.Common.{◌≤◌, ◌<◌, ◌≡◌, refl, arith, not, none, some, is_some, length}
use dingo_cache.KvTypes.{BlockKey}
use dingo_cache.SlabAllocator.Program.{program}
use dingo_cache.SlabAllocator.Index.Tally.{tally, live_weight}
use dingo_cache.SlabAllocator.Index.Laws.{Updates}
use dingo_cache.SlabAllocator.Index.Rehash.{Rehashed, rehash-Rehashed}
use dingo_cache.SlabAllocator.Index.Reserve.{IsIndex, Reserved, reserve-Reserved}
use dingo_cache.SlabAllocator.Index.Refinement.{new_index-IsIndex, insert-Updates, erase-Updates}
use dingo_cache.SlabAllocator.Index.{FlatKeyIndex, find, insert, erase, reserve, rehash, new_index}

abbrev key1 : BlockKey
key1 = record { digest_hi = 1; digest_lo = 2; tenant_hash = 3 }

abbrev key2 : BlockKey
key2 = record { digest_hi = 4; digest_lo = 5; tenant_hash = 3 }

abbrev one : FlatKeyIndex
one = (insert new_index key1 7).0

abbrev two : FlatKeyIndex
two = (insert one key2 8).0

abbrev buried : FlatKeyIndex
buried = (erase two key1).0

one-IsIndex : IsIndex one
one-IsIndex = (insert-Updates new_index key1 7 new_index-IsIndex).0.index

two-IsIndex : IsIndex two
two-IsIndex = (insert-Updates one key2 8 one-IsIndex).0.index

buried-IsIndex : IsIndex buried
buried-IsIndex = (erase-Updates two key1 two-IsIndex).0.index

find-two : find two key1 ≡ some 7
unfolding program
find-two = refl

find-buried : find buried key1 ≡ none
unfolding program
find-buried = refl

buried_counts : (buried.size ≡ 1) × (buried.tombstones ≡ 1) × (length buried.entries ≡ 16)
unfolding program
buried_counts = (refl, refl, refl)

insert-Updates_example :
    Updates one key2 (some 8) (insert one key2 8).0
    × ((insert one key2 8).1 ≡ not (is_some (find one key2)))
insert-Updates_example = insert-Updates one key2 8 one-IsIndex

erase-Updates_example :
    Updates two key1 none (erase two key1).0 × ((erase two key1).1 ≡ is_some (find two key1))
erase-Updates_example = erase-Updates two key1 two-IsIndex

fits : buried.size ≤ 20
unfolding program
fits = omega arith

reserve-Reserved_example : Reserved buried (reserve buried 20) 20
reserve-Reserved_example = reserve-Reserved buried 20 buried-IsIndex fits

few : tally live_weight buried.entries < 5
unfolding program
few = omega arith

rehash-Rehashed_example : Rehashed buried (rehash buried 5) 5
rehash-Rehashed_example = rehash-Rehashed buried 5 buried-IsIndex.table few
