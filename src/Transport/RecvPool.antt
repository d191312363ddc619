-- ===== src/Transport/RecvPool.antt =====
-- src/transport/rdma_recv_segment.h and src/transport/rdma_recv_segment.cc: class RecvSegmentPool, which
-- commits segments up to a budget. Each operation runs under one mutex and is one step. An affinity of -1 is
-- `none`; a pointer to a segment is the address of its memory. The time of the clock, in milliseconds, and the
-- address that posix_memalign gives, if it succeeds, are arguments.
pub mod Budget
pub mod Calls
pub mod Tests
use dingo_cache.Common.{
  ℕ, zero, suc, ◌+◌, ◌-◌, ◌*◌, ◌%◌, ◌^◌, min, max, Bool, true, false, not, ◌&&◌, ◌||◌, List, [],
  ◌∷◌, ◌++◌, Option, none, some, ltb, leb, ◌==◌, if◌then◌else◌,
}
use dingo_cache.Transport.RecvSegment.{
  Segment, new_segment, largest, is_power_of_two, align_up_checked, init, allocate, release_range,
  free_bytes,
}

pub data LeaseClass : Type 0 where
  connection staging : LeaseClass

pub record Chunk : Type 0 where
  pub segment : Segment
  pub affinity : Option ℕ
  pub staging_only : Bool
  pub empty_since_ms : ℕ

pub record Pool : Type 0 where
  pub chunk_bytes : ℕ
  pub max_bytes : ℕ
  pub staging_reserve_bytes : ℕ
  pub alignment : ℕ
  pub chunks : List Chunk
  pub growths : ℕ
  pub shrinks : ℕ
  pub released_bytes : ℕ
  pub allocation_failures : ℕ
  pub growth_failures : ℕ

-- RecvSegmentPool::Lease: the segment, the offset and the size.
pub record PoolLease : Type 0 where
  pub segment : ℕ
  pub offset : ℕ
  pub size : ℕ

abbrev pub new_pool : Pool
new_pool = record {
  chunk_bytes = 0;
  max_bytes = 0;
  staging_reserve_bytes = 0;
  alignment = 0;
  chunks = [];
  growths = 0;
  shrinks = 0;
  released_bytes = 0;
  allocation_failures = 0;
  growth_failures = 0;
}

-- The geometry that Init refuses.
unfoldable pub refuses_geometry : ℕ → ℕ → ℕ → ℕ → Bool
refuses_geometry aligned_chunk aligned_max aligned_reserve alignment =
    aligned_chunk == largest
    || (aligned_max == largest
        || (aligned_reserve == largest
            || (ltb aligned_max aligned_chunk
                || (not (aligned_reserve == 0)
                    && (not (aligned_reserve == aligned_chunk)
                        || aligned_reserve == aligned_max)))))

-- Init of the pool.
unfoldable pub init_pool : Pool → Option ℕ → ℕ → ℕ → ℕ → ℕ → Pool × Bool
unfolding refuses_geometry
init_pool p memory chunk_bytes max_bytes alignment staging_reserve_bytes =
    let aligned_chunk = align_up_checked chunk_bytes alignment in
    let aligned_max = align_up_checked max_bytes alignment in
    let aligned_reserve =
      if staging_reserve_bytes == 0 then 0 else align_up_checked staging_reserve_bytes alignment in
    let made = init new_segment memory aligned_chunk alignment in
    let first : Chunk = record {
      segment = made.0;
      affinity = none;
      staging_only = not (aligned_reserve == 0);
      empty_since_ms = 0;
    } in
    if not (is_power_of_two alignment) || (ltb alignment 8 || (chunk_bytes == 0 || max_bytes == 0))
    then (p, false)
    else if refuses_geometry aligned_chunk aligned_max aligned_reserve alignment
    then (p, false)
    else elim p.chunks [
      | c ∷ cs ↦ (
        p,
        p.chunk_bytes == aligned_chunk
            && (p.max_bytes == aligned_max
                && (p.alignment == alignment && p.staging_reserve_bytes == aligned_reserve)),
      )
      | [] ↦
          if made.1
          then (
            record p {
              chunk_bytes = aligned_chunk;
              max_bytes = aligned_max;
              staging_reserve_bytes = aligned_reserve;
              alignment = alignment;
              chunks = first ∷ [];
            },
            true,
          )
          else (
            record p { chunk_bytes = 0; max_bytes = 0; staging_reserve_bytes = 0; alignment = 0 },
            false,
          )
    ]

unfoldable pub committed : List Chunk → ℕ
committed [] = 0
committed (c ∷ chunks) = c.segment.size + committed chunks

-- NewChunk.
unfoldable pub new_chunk : Pool → Option ℕ → ℕ → Option ℕ → Option Chunk
new_chunk p memory minimum_bytes affinity =
    let aligned_min = align_up_checked minimum_bytes p.alignment in
    let used = committed p.chunks in
    let bytes = min (max p.chunk_bytes aligned_min) (p.max_bytes - used) in
    let made = init new_segment memory bytes p.alignment in
    if aligned_min == largest
    then none
    else if leb p.max_bytes used || ltb (p.max_bytes - used) aligned_min
    then none
    else if made.1
    then some
        (record { segment = made.0; affinity = affinity; staging_only = false; empty_since_ms = 0 })
    else none

abbrev pub same_affinity : Option ℕ → Option ℕ → Bool
same_affinity none none = true
same_affinity none (some b) = false
same_affinity (some a) none = false
same_affinity (some a) (some b) = a == b

abbrev pub same_bool : Bool → Bool → Bool
same_bool true b = b
same_bool false b = not b

-- The chunks that `try_chunks` of Allocate passes, and the lease it finds. A segment that has no room counts
-- a failure.
unfoldable pub try_chunks : ℕ → ℕ → Option ℕ → Bool → List Chunk → List Chunk × Option PoolLease
try_chunks bytes alignment affinity staging_only [] = ([], none)
try_chunks bytes alignment affinity staging_only (c ∷ chunks) =
    let rest = try_chunks bytes alignment affinity staging_only chunks in
    let r = allocate c.segment bytes alignment in
    if not (same_affinity c.affinity affinity) || not (same_bool c.staging_only staging_only)
    then (c ∷ rest.0, rest.1)
    else elim r.1 [
      | none ↦ (record c { segment = r.0 } ∷ rest.0, rest.1)
      | some l ↦ (
        record c { segment = r.0; empty_since_ms = 0 } ∷ chunks,
        some (record { segment = c.segment.base; offset = l.0; size = l.1 }),
      )
    ]

-- Allocate once no chunk has room: a new one.
unfoldable pub grow : Pool → Option ℕ → ℕ → ℕ → Option ℕ → Pool × Option PoolLease
unfolding new_chunk
grow p memory bytes alignment affinity = elim (new_chunk p memory bytes affinity) [
  | none ↦ (
    record p {
      allocation_failures = p.allocation_failures + 1;
      growth_failures = p.growth_failures + 1;
    },
    none,
  )
  | some c ↦
      let r = allocate c.segment bytes alignment in
      let grown : Pool = record p {
        chunks = p.chunks ++ (record c { segment = r.0 } ∷ []);
        growths = p.growths + 1;
      } in
      elim r.1 [
        | none ↦ (record grown { allocation_failures = p.allocation_failures + 1 }, none)
        | some l ↦ (grown, some (record { segment = c.segment.base; offset = l.0; size = l.1 }))
      ]
]

-- One of the searches of Allocate, if it is wanted and none before it has found a lease.
unfoldable pub search_if :
    Bool → ℕ → ℕ → Option ℕ → Bool → Pool × Option PoolLease → Pool × Option PoolLease
unfolding try_chunks
search_if wanted bytes alignment affinity staging_only (p, found) =
    let r = try_chunks bytes alignment affinity staging_only p.chunks in
    elim found [
      | some l ↦ (p, some l)
      | none ↦ if wanted then (record p { chunks = r.0 }, r.1) else (p, none)
    ]

abbrev pub is_staging : LeaseClass → Bool
is_staging staging = true
is_staging connection = false

abbrev pub has_affinity : Option ℕ → Bool
has_affinity none = false
has_affinity (some a) = true

-- Allocate of the pool.
unfoldable pub allocate_pool :
    Pool → Option ℕ → ℕ → ℕ → Option ℕ → LeaseClass → Pool × Option PoolLease
unfolding search_if grow
allocate_pool p memory bytes alignment affinity lease_class =
    let wants_reserved = is_staging lease_class && not (p.staging_reserve_bytes == 0) in
    let reserved = search_if wants_reserved bytes alignment none true (p, none) in
    let near = search_if (has_affinity affinity) bytes alignment affinity false reserved in
    let shared = search_if true bytes alignment none false near in
    if bytes == 0 || not (is_power_of_two alignment)
    then (p, none)
    else elim shared.1 [ some l ↦ shared | none ↦ grow shared.0 memory bytes alignment affinity ]

-- Lease::Reset: Release of the segment, and NoteRelease, which finds the segment.
unfoldable pub release_in : ℕ → ℕ → ℕ → ℕ → List Chunk → List Chunk
release_in segment offset size now_ms [] = []
release_in segment offset size now_ms (c ∷ chunks) =
    let rest = release_in segment offset size now_ms chunks in
    let freed = release_range c.segment offset size in
    let idle = freed.size == free_bytes freed.free in
    if c.segment.base == segment
    then record c { segment = freed; empty_since_ms = if idle then now_ms else c.empty_since_ms }
      ∷ chunks
    else c ∷ rest

unfoldable pub reset_lease : Pool → PoolLease → ℕ → Pool
unfolding release_in
reset_lease p l now_ms = record p { chunks = release_in l.segment l.offset l.size now_ms p.chunks }

-- The loop of TrimIdle over the chunks behind the first, from the last one on: what is kept, and the bytes
-- that are released.
unfoldable pub trim_chunks : ℕ → ℕ → List Chunk → List Chunk × ℕ
trim_chunks idle_ms now_ms [] = ([], 0)
trim_chunks idle_ms now_ms (c ∷ chunks) =
    let (kept, released) = trim_chunks idle_ms now_ms chunks in
    if not (c.segment.size == free_bytes c.segment.free)
    then (record c { empty_since_ms = 0 } ∷ kept, released)
    else if c.empty_since_ms == 0
    then (record c { empty_since_ms = now_ms } ∷ kept, released)
    else if ltb ((now_ms + 2 ^ 64 - c.empty_since_ms) % 2 ^ 64) idle_ms
    then (c ∷ kept, released)
    else (kept, released + c.segment.size)

-- TrimIdle.
unfoldable pub trim_idle : Pool → ℕ → ℕ → Pool × ℕ
unfolding trim_chunks
trim_idle p idle_ms now_ms = elim p.chunks [
  | [] ↦ (p, 0)
  | first ∷ others ↦
      let (kept, released) = trim_chunks idle_ms now_ms others in
      let trimmed : Pool = record p {
        chunks = first ∷ kept;
        shrinks = if released == 0 then p.shrinks else p.shrinks + 1;
        released_bytes = p.released_bytes + released;
      } in
      if idle_ms == 0 then (p, 0) else (trimmed, released)
]
