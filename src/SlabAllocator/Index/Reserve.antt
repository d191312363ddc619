-- ===== src/SlabAllocator/Index/Reserve.antt =====
-- Reserving room: the load factor is restored and no answer changes.
use dingo_cache.Common.{
  ℕ, zero, suc, ◌+◌, ◌*◌, ◌/◌, ◌≤◌, ◌≡◌, refl, ◌∙◌, ◌⊎◌, inl, inr, false, arith, length, ltb, ◌==◌,
  if◌then◌else◌, Bool-cases,
}
use dingo_cache.KvTypes.{BlockKey}
use dingo_cache.SlabAllocator.Index.Table.{IsTable}
use dingo_cache.SlabAllocator.Index.Tally.{tally, live_weight, dead_weight}
use dingo_cache.SlabAllocator.Index.Rehash.{Rehashed, rehash-Rehashed}
use dingo_cache.SlabAllocator.Index.{
  FlatKeyIndex, find, grow_to, wanted_capacity, must_rehash, rehash, reserve,
}

-- A well-formed index: each key once, the two counts right, at most seven tenths of it in use.
pub record IsIndex (i : FlatKeyIndex) : Type 0 where
  pub table : IsTable i.entries
  pub live : tally live_weight i.entries ≡ i.size
  pub dead : tally dead_weight i.entries ≡ i.tombstones
  pub load : i.size + i.tombstones ≤ length i.entries * 7 / 10
  pub least : (length i.entries ≡ 0) ⊎ (16 ≤ length i.entries)

-- The fuel is enough: from 16 on, a round adds at least two.
grow_to-wide : (n e c : ℕ) → 16 ≤ c → e ≤ (c + 2 * n) * 7 / 10 → e ≤ grow_to n e c * 7 / 10
unfolding grow_to
grow_to-wide zero e c least h = omega arith
grow_to-wide (suc n) e c least h = elim (Bool-cases (ltb (c * 7 / 10) e)) [
  | inl small ↦ rw small (grow_to-wide n e (c * 2) (omega arith) (omega arith))
  | inr large ↦ rw large (ground arith)
]

grow_to-ge : (n e c : ℕ) → c ≤ grow_to n e c
unfolding grow_to
grow_to-ge zero e c = omega arith
grow_to-ge (suc n) e c = ground (arith, grow_to-ge n e (c * 2))

abbrev first_capacity : FlatKeyIndex → ℕ
first_capacity i = if length i.entries == 0 then 16 else length i.entries

wanted_capacity_bounds :
    (i : FlatKeyIndex) (e : ℕ)
    → IsIndex i
    → (e ≤ wanted_capacity i e * 7 / 10) × (16 ≤ wanted_capacity i e)
unfolding wanted_capacity
wanted_capacity_bounds i e index =
    let least : 16 ≤ first_capacity i = ground (arith, index.least) in
    (
      grow_to-wide e e (first_capacity i) least (omega arith),
      omega (arith, grow_to-ge e e (first_capacity i)),
    )

-- What a reservation gives.
pub record Reserved (i j : FlatKeyIndex) (expected : ℕ) : Type 0 where
  pub index : IsIndex j
  pub size : j.size ≡ i.size
  pub roomy : expected + j.tombstones ≤ length j.entries * 7 / 10
  pub least : 16 ≤ length j.entries
  pub found : (q : BlockKey) → find j q ≡ find i q

module _ (i : FlatKeyIndex) (e : ℕ) (index : IsIndex i) (fits : i.size ≤ e) where
  after_rehash : (w : ℕ) → e ≤ w * 7 / 10 → 16 ≤ w → Reserved i (rehash i w) e
  unfolding rehash
  after_rehash w wide least =
      let done : Rehashed i (rehash i w) w =
        rehash-Rehashed i w index.table (omega (arith, index.live)) in
      record {
        index = record {
          table = done.table;
          live = done.live ∙ index.live;
          dead = done.dead;
          load = omega (arith, done.wide);
          least = inr done.least;
        };
        size = refl;
        roomy = omega (arith, done.wide);
        least = done.least;
        found = done.found;
      }

  kept : must_rehash i e (wanted_capacity i e) ≡ false → Reserved i i e
  unfolding must_rehash
  kept no_need =
      let (wide, least) = wanted_capacity_bounds i e index in
      record {
        index = index;
        size = refl;
        roomy = ground arith;
        least = ground arith;
        found = λ q. refl;
      }

  -- For an expected number of keys that is not below the number held, Reserve keeps a well-formed index
  -- well formed, its size and every answer, and leaves room for the expected number of keys below the
  -- load limit.
  pub reserve-Reserved : Reserved i (reserve i e) e
  unfolding reserve
  reserve-Reserved = elim (Bool-cases (must_rehash i e (wanted_capacity i e))) [
    | inl need ↦
        let (wide, least) = wanted_capacity_bounds i e index in
        rw need (after_rehash (wanted_capacity i e) wide least)
    | inr no_need ↦ rw no_need (kept no_need)
  ]
