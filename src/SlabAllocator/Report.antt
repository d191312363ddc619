-- ===== src/SlabAllocator/Report.antt =====
-- src/cache/slab_allocator.cc: what the allocator reports, and the choice of a donor from it.
use dingo_cache.Common.{
  ℕ, zero, suc, ◌+◌, ◌*◌, ◌%◌, ◌^◌, Bool, not, ◌&&◌, ◌||◌, List, [], ◌∷◌, ltb, leb, ◌==◌,
  if◌then◌else◌, length, get_or, is_some,
}
use dingo_cache.SlabAllocator.State.{Class, ExtentMeta, Allocator, stripe_ways}
use dingo_cache.SlabAllocator.Rings.{decayed_heat}

pub record ClassStat : Type 0 where
  pub slot_size : ℕ
  pub free_slots : ℕ
  pub resident : ℕ
  pub puts : ℕ
  pub extents : ℕ
  pub slots_per_extent : ℕ
  pub useful_bytes : ℕ
  pub allocated_bytes : ℕ
  pub read_touches : ℕ
  pub read_heat : ℕ

-- Classes.
unfoldable pub class_stat : ℕ → Class → ClassStat
class_stat now k = record {
  slot_size = k.slot_size;
  free_slots = k.free_count;
  resident = k.resident_count;
  puts = k.puts;
  extents = k.bound_extents;
  slots_per_extent = k.slots_per_extent;
  useful_bytes = k.useful_bytes;
  allocated_bytes = k.resident_count * k.slot_size % 2 ^ 64;
  read_touches = k.read_touches;
  read_heat = decayed_heat now k.read_heat k.heat_seq;
}

unfoldable pub class_stats : Allocator → List Class → List ClassStat
class_stats s [] = []
class_stats s (k ∷ ks) = class_stat s.activity_seq k ∷ class_stats s ks

-- BoundExtents, and the count of extents in GetRetentionStats.
unfoldable pub count_bound : List ExtentMeta → ℕ
count_bound [] = 0
count_bound (x ∷ xs) = (if is_some x.cls then 1 else 0) + count_bound xs

unfoldable pub count_protected : List ExtentMeta → ℕ
count_protected [] = 0
count_protected (x ∷ xs) = (if x.protected_slots == 0 then 0 else 1) + count_protected xs

-- The bytes of a class's demand: its admissions since the last pass, times the size of a slot.
abbrev pub no_stat : ClassStat
no_stat = record {
  slot_size = 0;
  free_slots = 0;
  resident = 0;
  puts = 0;
  extents = 0;
  slots_per_extent = 0;
  useful_bytes = 0;
  allocated_bytes = 0;
  read_touches = 0;
  read_heat = 0;
}

unfoldable pub demand : List ClassStat → List ℕ → ℕ → ℕ
demand classes delta d = get_or delta d 0 * (get_or classes d no_stat).slot_size % 2 ^ 64

-- A class that may give: not the hot one, above the striping floor, and cold enough.
unfoldable pub may_give : List ClassStat → List ℕ → List ℕ → ℕ → ℕ → Bool
may_give classes delta extents hot d =
    let mine = demand classes delta d in
    not (d == hot)
    && (ltb stripe_ways (get_or extents d 0)
        && (mine == 0 || leb (mine * 4 % 2 ^ 64) (demand classes delta hot)))

-- `make_pair(demand, ~extents[d]) < make_pair(donor_demand, ~extents[donor])`
unfoldable pub gives_before : List ClassStat → List ℕ → List ℕ → ℕ → ℕ → Bool
gives_before classes delta extents d donor =
    let a = demand classes delta d in
    let b = demand classes delta donor in
    ltb a b || (a == b && ltb (get_or extents donor 0) (get_or extents d 0))

-- The loop of ColdestGrowDonor, with the rounds left.
unfoldable pub donor_loop : List ClassStat → List ℕ → List ℕ → ℕ → ℕ → ℕ → ℕ → ℕ
donor_loop classes delta extents hot zero d donor = donor
donor_loop classes delta extents hot (suc n) d donor =
    donor_loop classes delta extents hot n (d + 1) (
      if may_give classes delta extents hot d
        && (donor == length classes || gives_before classes delta extents d donor)
      then d
      else donor)

-- ColdestGrowDonor.
unfoldable pub coldest_grow_donor : List ClassStat → List ℕ → List ℕ → ℕ → ℕ
coldest_grow_donor classes delta extents hot =
    donor_loop classes delta extents hot (length classes) 0 (length classes)
