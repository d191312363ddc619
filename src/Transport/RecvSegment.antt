-- ===== src/Transport/RecvSegment.antt =====
-- src/transport/rdma_recv_segment.h and src/transport/rdma_recv_segment.cc: class RecvSegment, which leases
-- ranges of one registered segment. Each operation runs under one mutex and is one step. Sizes and
-- addresses are 64-bit words; `free_`, a std::map, is its list of offsets and lengths in ascending order. The
-- address of the segment is what posix_memalign gave. A Lease is the offset and the size that it holds.
pub mod Ranges
pub mod Leasing
pub mod Merging
pub mod Leases
pub mod World
pub mod Tests
use Prim.Native.Nat.{bit_and}
use dingo_cache.Common.{
  ℕ, zero, suc, ◌+◌, ◌-◌, ◌*◌, ◌/◌, ◌%◌, ◌^◌, max, Bool, true, false, not, ◌&&◌, ◌||◌, List, [],
  ◌∷◌, Option, none, some, ltb, leb, ◌==◌, if◌then◌else◌,
}

abbrev pub Ranges : Type 0
Ranges = List (ℕ × ℕ)

pub record Segment : Type 0 where
  pub has_data : Bool
  pub base : ℕ
  pub size : ℕ
  pub alignment : ℕ
  pub free : Ranges
  pub allocation_failures : ℕ

abbrev pub new_segment : Segment
new_segment = record {
  has_data = false;
  base = 0;
  size = 0;
  alignment = 0;
  free = [];
  allocation_failures = 0;
}

abbrev pub largest : ℕ
largest = 2 ^ 64 - 1

unfoldable pub is_power_of_two : ℕ → Bool
is_power_of_two value = not (value == 0) && bit_and value (value - 1) == 0

-- AlignUpChecked: the complement of `alignment - 1` keeps the multiples of a power of two.
unfoldable pub align_up_checked : ℕ → ℕ → ℕ
align_up_checked value alignment =
    if not (is_power_of_two alignment) || ltb (largest - (alignment - 1)) value
    then largest
    else (value + alignment - 1) / alignment * alignment

-- Init on a segment; `allocated` is the address that posix_memalign gives, if it succeeds.
unfoldable pub init : Segment → Option ℕ → ℕ → ℕ → Segment × Bool
init s allocated bytes alignment =
    if s.has_data
    then (s, s.size == bytes && s.alignment == alignment)
    else if bytes == 0
        || (not (is_power_of_two alignment) || (not (bytes % alignment == 0) || ltb alignment 8))
    then (s, false)
    else elim allocated [
      | none ↦ (s, false)
      | some base ↦ (
        record s {
          has_data = true;
          base = base;
          size = bytes;
          alignment = alignment;
          free = (0, bytes) ∷ [];
        },
        true,
      )
    ]

-- `free_.emplace`, which leaves a key that is there, and `free_.erase` of the entry at a key.
unfoldable pub emplace_range : Ranges → ℕ → ℕ → Ranges
emplace_range [] b n = (b, n) ∷ []
emplace_range ((q, m) ∷ free) b n =
    let rest = emplace_range free b n in
    if ltb b q then (b, n) ∷ (q, m) ∷ free else if b == q then (q, m) ∷ free else (q, m) ∷ rest

unfoldable pub erase_range : Ranges → ℕ → Ranges
erase_range [] b = []
erase_range ((q, m) ∷ free) b =
    let rest = erase_range free b in if b == q then free else (q, m) ∷ rest

-- Where a range of `bytes` can begin in a free range.
unfoldable pub begin_in : ℕ → ℕ → ℕ → ℕ → ℕ → Option ℕ
begin_in base bytes alignment range_begin range_size =
    let absolute = align_up_checked (base + range_begin) alignment in
    let begin = absolute - base in
    if ltb (largest - base) range_begin
    then none
    else if absolute == largest || ltb absolute base
    then none
    else if ltb begin range_begin
        || (ltb range_size (begin - range_begin) || ltb (range_size - (begin - range_begin)) bytes)
    then none
    else some begin

-- The first free range that `bytes` fit, and where they begin.
pub record Fit : Type 0 where
  pub range_begin : ℕ
  pub range_size : ℕ
  pub begin : ℕ

unfoldable pub first_fit : ℕ → ℕ → ℕ → Ranges → Option Fit
first_fit base bytes alignment [] = none
first_fit base bytes alignment ((range_begin, range_size) ∷ free) =
    let rest = first_fit base bytes alignment free in
    elim (begin_in base bytes alignment range_begin range_size) [
      | none ↦ rest
      | some begin ↦
          some (record { range_begin = range_begin; range_size = range_size; begin = begin })
    ]

-- The free ranges once `bytes` are taken from a range.
unfoldable pub take_bytes : Ranges → Fit → ℕ → Ranges
take_bytes free fit bytes =
    let range_end = fit.range_begin + fit.range_size in
    let end = fit.begin + bytes in
    let erased = erase_range free fit.range_begin in
    let before =
      if ltb fit.range_begin fit.begin
      then emplace_range erased fit.range_begin (fit.begin - fit.range_begin)
      else erased in
    if ltb end range_end then emplace_range before end (range_end - end) else before

-- Allocate.
unfoldable pub allocate : Segment → ℕ → ℕ → Segment × Option (ℕ × ℕ)
allocate s bytes alignment =
    if not s.has_data || (bytes == 0 || not (is_power_of_two alignment))
    then (s, none)
    else elim (first_fit s.base bytes alignment s.free) [
      | none ↦ (record s { allocation_failures = s.allocation_failures + 1 }, none)
      | some fit ↦ (record s { free = take_bytes s.free fit bytes }, some (fit.begin, bytes))
    ]

-- The entry before `lower_bound(b)`: the last one below `b`.
unfoldable pub entry_before : Ranges → ℕ → Option (ℕ × ℕ)
entry_before [] b = none
entry_before ((q, m) ∷ free) b =
    let rest = entry_before free b in
    if ltb q b then elim rest [ none ↦ some (q, m) | some e ↦ some e ] else none

-- `lower_bound(e)`: the first entry from `e` on.
unfoldable pub entry_from : Ranges → ℕ → Option (ℕ × ℕ)
entry_from [] e = none
entry_from ((q, m) ∷ free) e = let rest = entry_from free e in if leb e q then some (q, m) else rest

-- A range whose end or whose beginning touches a free range is merged with it.
unfoldable pub merge_before : Ranges → ℕ → Ranges × ℕ
merge_before free begin = elim (entry_before free begin) [
  | none ↦ (free, begin)
  | some e ↦ if e.0 + e.1 == begin then (erase_range free e.0, e.0) else (free, begin)
]

unfoldable pub merge_after : Ranges → ℕ → Ranges × ℕ
merge_after free end = elim (entry_from free end) [
  | none ↦ (free, end)
  | some e ↦ if e.0 == end then (erase_range free e.0, end + e.1) else (free, end)
]

-- Release.
unfoldable pub release_range : Segment → ℕ → ℕ → Segment
release_range s offset bytes =
    let left = merge_before s.free offset in
    let right = merge_after left.0 (offset + bytes) in
    if bytes == 0 then s else record s { free = emplace_range right.0 left.1 (right.1 - left.1) }

-- `free_bytes` and `largest_free_range` of stats.
unfoldable pub free_bytes : Ranges → ℕ
free_bytes [] = 0
free_bytes ((q, m) ∷ free) = m + free_bytes free

unfoldable pub largest_free_range : Ranges → ℕ
largest_free_range [] = 0
largest_free_range ((q, m) ∷ free) = max m (largest_free_range free)
