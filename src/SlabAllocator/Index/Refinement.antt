-- ===== src/SlabAllocator/Index/Refinement.antt =====
-- The operations of the index against a finite map: `find` is the map, and each operation changes it
-- as its name says.
use dingo_cache.Common.{
  ℕ, ◌+◌, ◌≡◌, refl, inl, inr, true, not, none, some, arith, if◌then◌else◌, is_some, Option-cases,
}
use dingo_cache.KvTypes.{BlockKey, key_eq, key_eq_sound}
use dingo_cache.SlabAllocator.Index.Table.{Absent}
use dingo_cache.SlabAllocator.Index.Lookup.{find_bucket-absent}
use dingo_cache.SlabAllocator.Index.Reserve.{IsIndex, Reserved, reserve-Reserved}
use dingo_cache.SlabAllocator.Index.Laws.{
  Updates, overwrite-Updates, bury-Updates, insert_new-Updates,
}
use dingo_cache.SlabAllocator.Index.{
  FlatKeyIndex, find, find_bucket, insert_new, insert, erase, reserve, new_index,
}

pub new_index-IsIndex : IsIndex new_index
new_index-IsIndex = record {
  table = record {
    sized = λ pos. absurd (omega arith);
    reach = λ b occ. cc;
    unique = λ k i j p q. cc (p.full);
  };
  live = refl;
  dead = refl;
  load = omega arith;
  least = inl refl;
}

-- A new key goes into the index after the reservation, which changes no answer.
grown_insert :
    (i : FlatKeyIndex) (k : BlockKey) (v : ℕ)
    → IsIndex i
    → Absent i.entries k
    → find_bucket i k ≡ none
    → Updates i k (some v) (insert_new (reserve i (i.size + 1)) k v).0
      × ((insert_new (reserve i (i.size + 1)) k v).1 ≡ true)
unfolding find
grown_insert i k v index absent missed =
    let j : FlatKeyIndex = reserve i (i.size + 1) in
    let grown : Reserved i j (i.size + 1) = reserve-Reserved i (i.size + 1) index (omega arith) in
    let still : find_bucket j k ≡ none = ground (arith, grown.found k) in
    let (done, flag) =
      insert_new-Updates j k grown.index ((find_bucket-absent j k grown.index.table).0 still)
        (omega (arith, grown.roomy, grown.size)) v in
    (record { index = done.index; reads = λ q. rw (← grown.found q) (done.reads q) }, flag)

-- On a well-formed index, inserting a key makes the map answer the new value at that key and the old
-- answer at every other key, keeps the index well formed, and says whether the key was new.
pub insert-Updates :
    (i : FlatKeyIndex) (k : BlockKey) (v : ℕ)
    → IsIndex i
    → Updates i k (some v) (insert i k v).0 × ((insert i k v).1 ≡ not (is_some (find i k)))
unfolding insert find
insert-Updates i k v index = elim (Option-cases (find_bucket i k)) [
  | inr (b, hit) ↦ rw (hit, insert, find) (overwrite-Updates i k index v b hit, refl)
  | inl missed ↦
      rw (missed, insert, find)
        (grown_insert i k v index ((find_bucket-absent i k index.table).0 missed) missed)
]

-- On a well-formed index, erasing a key removes it from the map and leaves every other answer alone,
-- keeps the index well formed, and says whether the key was there.
pub erase-Updates :
    (i : FlatKeyIndex) (k : BlockKey)
    → IsIndex i
    → Updates i k none (erase i k).0 × ((erase i k).1 ≡ is_some (find i k))
unfolding erase find
erase-Updates i k index = elim (Option-cases (find_bucket i k)) [
  | inr (b, hit) ↦ rw (hit, erase, find) (bury-Updates i k index b hit, refl)
  | inl missed ↦
      let same : (q : BlockKey) → find i q ≡ (if key_eq q k then none else find i q) =
        λ q. ground (arith, key_eq_sound q k) in
      rw (missed, erase, find) (record { index = index; reads = same }, refl)
]
