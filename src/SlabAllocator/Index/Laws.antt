-- ===== src/SlabAllocator/Index/Laws.antt =====
-- The index refines a finite map from keys to slot numbers: what insertion and removal do to it.
use dingo_cache.Common.{
  ℕ, ◌+◌, ◌*◌, ◌/◌, ◌≤◌, ◌<◌, ◌≡◌, refl, ◌∙◌, ◌≢◌, inl, inr, true, Option, none, some, arith,
  length, if◌then◌else◌, Option-cases, length-set, set, IsPowTwo,
}
use dingo_cache.KvTypes.{BlockKey, key_eq}
use dingo_cache.SlabAllocator.Index.Walk.{Reaches, Reaches-lt, Visits-lap, home-lt}
use dingo_cache.SlabAllocator.Index.Probe.{vacancy_sound, vacancy_complete, IsHeld}
use dingo_cache.SlabAllocator.Index.Table.{Absent}
use dingo_cache.SlabAllocator.Index.Tally.{tally, tally-set, live_weight, dead_weight, vacant}
use dingo_cache.SlabAllocator.Index.Lookup.{find_bucket-IsHeld}
use dingo_cache.SlabAllocator.Index.Write.{
  write-IsTable, find-write, fresh-IsWrite, overwrite-IsWrite, bury-IsWrite, fresh_entry,
}
use dingo_cache.SlabAllocator.Index.Reserve.{IsIndex}
use dingo_cache.SlabAllocator.Index.{
  Entry, FlatKeyIndex, occupied, tombstone, cell, home, find, find_bucket, vacancy, write_new,
  insert_new, overwrite, bury, is_tombstone, no_slot,
}

-- The map changes at one key, to `v`, and the index stays well formed.
pub record Updates (i : FlatKeyIndex) (k : BlockKey) (v : Option ℕ) (j : FlatKeyIndex)
    : Type 0 where
  pub index : IsIndex j
  pub reads : (q : BlockKey) → find j q ≡ (if key_eq q k then v else find i q)

module _ (i : FlatKeyIndex) (k : BlockKey) (index : IsIndex i) where
  pub overwrite-Updates :
      (v b : ℕ) → find_bucket i k ≡ some b → Updates i k (some v) (overwrite i b v)
  unfolding overwrite
  overwrite-Updates v b hit =
      let held : IsHeld i.entries k b = find_bucket-IsHeld i k b hit in
      let e : Entry = record (cell i.entries b) { value = v } in
      let w = overwrite-IsWrite i k index.table b held v in
      let len = length-set i.entries b e in
      record {
        index = record {
          table = write-IsTable i k b e (overwrite i b v) w;
          live = omega (arith, tally-set live_weight i.entries b e w.within, index.live);
          dead = omega (arith, tally-set dead_weight i.entries b e w.within, index.dead);
          load = omega (arith, len, index.load);
          least = rw len index.least;
        };
        reads = λ q. find-write i k b e (overwrite i b v) w q ∙ ground (arith, held.full);
      }

  pub bury-Updates : (b : ℕ) → find_bucket i k ≡ some b → Updates i k none (bury i b)
  unfolding bury
  bury-Updates b hit =
      let held : IsHeld i.entries k b = find_bucket-IsHeld i k b hit in
      let e : Entry = record (cell i.entries b) { state = tombstone; value = no_slot } in
      let w = bury-IsWrite i k index.table b held in
      let len = length-set i.entries b e in
      let live : tally live_weight (set i.entries b e) + 1 ≡ tally live_weight i.entries =
        ground (arith, tally-set live_weight i.entries b e w.within, held.full) in
      let dead : tally dead_weight (set i.entries b e) ≡ tally dead_weight i.entries + 1 =
        ground (arith, tally-set dead_weight i.entries b e w.within, held.full) in
      record {
        index = record {
          table = write-IsTable i k b e (bury i b) w;
          live = omega (arith, live, index.live);
          dead = omega (arith, dead, index.dead);
          load = omega (arith, len, index.load, live, index.live);
          least = rw len index.least;
        };
        reads = find-write i k b e (bury i b) w;
      }

  -- With room for one more, a new key finds a place.
  module _ (absent : Absent i.entries k)
      (roomy : i.size + 1 + i.tombstones ≤ length i.entries * 7 / 10) where
    sized : IsPowTwo (length i.entries)
    sized = index.table.sized (omega arith)

    insert_new-target : vacancy i.entries (length i.entries) (home i.entries k) none ≢ none
    insert_new-target =
        let (j, lt, hollow) = vacant i.entries (omega (arith, index.live, index.dead)) in
        vacancy_complete i.entries (length i.entries) (home i.entries k) j none
          (Visits-lap i.entries sized (home i.entries k) j (home-lt i.entries sized k) lt) hollow

    write_new-Updates :
        (v t : ℕ)
        → vacancy i.entries (length i.entries) (home i.entries k) none ≡ some t
        → Updates i k (some v) (write_new i k v t)
    unfolding write_new is_tombstone
    write_new-Updates v t hit =
        let (free, way) : ((cell i.entries t).state ≢ occupied)
            × Reaches i.entries (length i.entries) (home i.entries k) t =
          ground
            (arith, vacancy_sound i.entries (length i.entries) (home i.entries k) t none hit) in
        let e : Entry = fresh_entry k v in
        let within : t < length i.entries =
          Reaches-lt i.entries sized _ _ _ way (home-lt i.entries sized k) in
        let w = fresh-IsWrite i k index.table v t free within way absent in
        let len = length-set i.entries t e in
        let live = tally-set live_weight i.entries t e within in
        let dead = tally-set dead_weight i.entries t e within in
        record {
          index = record {
            table = write-IsTable i k t e (write_new i k v t) w;
            live = ground (arith, live, index.live);
            dead = ground (arith, dead, index.dead);
            load = ground (arith, len);
            least = rw len index.least;
          };
          reads = find-write i k t e (write_new i k v t) w;
        }

    pub insert_new-Updates :
        (v : ℕ) → Updates i k (some v) (insert_new i k v).0 × ((insert_new i k v).1 ≡ true)
    unfolding insert_new
    insert_new-Updates v =
        elim (Option-cases (vacancy i.entries (length i.entries) (home i.entries k) none)) [
          | inl stuck ↦ absurd (insert_new-target stuck)
          | inr (t, hit) ↦ rw (hit, insert_new) (write_new-Updates v t hit, refl)
        ]
