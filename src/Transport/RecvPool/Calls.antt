-- ===== src/Transport/RecvPool/Calls.antt =====
-- Sequences of calls of the pool: it stays within its budget, and the reserve for staging is not leased to
-- connections.
use dingo_cache.Common.{
  ℕ, ◌+◌, ◌≤◌, ◌≡◌, refl, ap, ◌∙◌, arith, Bool, true, false, not, ◌&&◌, ◌||◌, List, [], ◌∷◌, ◌++◌,
  Option, none, ◌==◌, if◌then◌else◌, Bool-cases, Option-cases, inl, inr,
}
use dingo_cache.Transport.RecvSegment.{
  Ranges, new_segment, is_power_of_two, align_up_checked, init, allocate,
}
use dingo_cache.Transport.RecvPool.{
  LeaseClass, connection, Chunk, Pool, PoolLease, new_pool, refuses_geometry, init_pool, committed,
  new_chunk, try_chunks, grow, search_if, is_staging, has_affinity, allocate_pool, release_in,
  reset_lease, trim_chunks, trim_idle,
}
use dingo_cache.Transport.RecvPool.Budget.{
  Keeps, Keeps-trans, search_if-Keeps, grow-Keeps, release_range-size, init-size,
}

allocate_pool-Keeps :
    (p : Pool) (memory : Option ℕ) (bytes alignment : ℕ) (affinity : Option ℕ) (c : LeaseClass)
    → Keeps p (allocate_pool p memory bytes alignment affinity c).0
unfolding allocate_pool
allocate_pool-Keeps p memory bytes alignment affinity c =
    let wants_reserved = is_staging c && not (p.staging_reserve_bytes == 0) in
    let reserved = search_if wants_reserved bytes alignment none true (p, none) in
    let near = search_if (has_affinity affinity) bytes alignment affinity false reserved in
    let shared = search_if true bytes alignment none false near in
    let one = search_if-Keeps wants_reserved bytes alignment none true p none in
    let two =
      search_if-Keeps (has_affinity affinity) bytes alignment affinity false reserved.0
        reserved.1 in
    let three = search_if-Keeps true bytes alignment none false near.0 near.1 in
    let searched = Keeps-trans p near.0 shared.0 (Keeps-trans p reserved.0 near.0 one two) three in
    let grown =
      Keeps-trans p shared.0 _ searched (grow-Keeps shared.0 memory bytes alignment affinity) in
    elim (Bool-cases (bytes == 0 || not (is_power_of_two alignment))) [
      | inl refused ↦ rw (allocate_pool, refused) (record { max_bytes = refl; within = λ h. h })
      | inr asked ↦ elim (Option-cases shared.1) [
        | inl full ↦ rw (allocate_pool, asked, full) grown
        | inr (l, found) ↦ rw (allocate_pool, asked, found) searched
      ]
    ]

committed-release_in :
    (segment offset size now_ms : ℕ) (chunks : List Chunk)
    → committed (release_in segment offset size now_ms chunks) ≡ committed chunks
unfolding committed release_in
committed-release_in segment offset size now_ms [] = refl
committed-release_in segment offset size now_ms (c ∷ chunks) =
    let ih = committed-release_in segment offset size now_ms chunks in
    let same = release_range-size c.segment offset size in ground (arith, ih, same)

committed-trim_chunks :
    (idle_ms now_ms : ℕ) (chunks : List Chunk)
    → committed (trim_chunks idle_ms now_ms chunks).0 + (trim_chunks idle_ms now_ms chunks).1
      ≡ committed chunks
unfolding committed trim_chunks
committed-trim_chunks idle_ms now_ms [] = refl
committed-trim_chunks idle_ms now_ms (c ∷ chunks) =
    let ih = committed-trim_chunks idle_ms now_ms chunks in ground (arith, ih)

trim_idle_case :
    (p : Pool) (idle_ms now_ms : ℕ) (chunks : List Chunk)
    → p.chunks ≡ chunks
    → committed (trim_idle p idle_ms now_ms).0.chunks + (trim_idle p idle_ms now_ms).1
      ≡ committed p.chunks
unfolding trim_idle committed
trim_idle_case p idle_ms now_ms [] e = rw (trim_idle, e) (omega (arith, ap committed e))
trim_idle_case p idle_ms now_ms (first ∷ others) e =
    let fewer = committed-trim_chunks idle_ms now_ms others in
    elim (Bool-cases (idle_ms == 0)) [
      | inl off ↦ rw (trim_idle, e, off) (omega (arith, ap committed e))
      | inr on ↦ rw (trim_idle, e, on) (omega (arith, fewer))
    ]

-- TrimIdle releases the bytes that it reports, and no others.
trim_idle-committed :
    (p : Pool) (idle_ms now_ms : ℕ)
    → committed (trim_idle p idle_ms now_ms).0.chunks + (trim_idle p idle_ms now_ms).1
      ≡ committed p.chunks
trim_idle-committed p idle_ms now_ms = trim_idle_case p idle_ms now_ms p.chunks refl

-- A call of the pool.
pub data Call : Type 0 where
  allocating :
      (memory : Option ℕ) (bytes alignment : ℕ) (affinity : Option ℕ) (c : LeaseClass) → Call
  resetting : (lease : PoolLease) (now_ms : ℕ) → Call
  trimming : (idle_ms now_ms : ℕ) → Call

unfoldable pub after_call : Pool → Call → Pool
after_call p (allocating memory bytes alignment affinity c) =
    (allocate_pool p memory bytes alignment affinity c).0
after_call p (resetting lease now_ms) = reset_lease p lease now_ms
after_call p (trimming idle_ms now_ms) = (trim_idle p idle_ms now_ms).0

unfoldable pub after_calls : Pool → List Call → Pool
after_calls p [] = p
after_calls p (call ∷ calls) = after_calls (after_call p call) calls

after_call-Keeps : (p : Pool) (call : Call) → Keeps p (after_call p call)
unfolding after_call
after_call-Keeps p (allocating memory bytes alignment affinity c) =
    allocate_pool-Keeps p memory bytes alignment affinity c
after_call-Keeps p (resetting lease now_ms) =
    let same = committed-release_in lease.segment lease.offset lease.size now_ms p.chunks in
    unfold reset_lease in (record { max_bytes = refl; within = λ h. omega (arith, same, h) })
after_call-Keeps p (trimming idle_ms now_ms) =
    let fewer = trim_idle-committed p idle_ms now_ms in
    record { max_bytes = unfold trim_idle in (ground arith); within = λ h. omega (arith, fewer, h) }

after_calls-Keeps : (p : Pool) (calls : List Call) → Keeps p (after_calls p calls)
unfolding after_calls
after_calls-Keeps p [] = record { max_bytes = refl; within = λ h. h }
after_calls-Keeps p (call ∷ calls) =
    Keeps-trans p (after_call p call) (after_calls (after_call p call) calls)
      (after_call-Keeps p call) (after_calls-Keeps (after_call p call) calls)

init_pool-committed :
    (p : Pool) (memory : Option ℕ) (chunk_bytes max_bytes alignment reserve : ℕ)
    → init_pool new_pool memory chunk_bytes max_bytes alignment reserve ≡ (p, true)
    → (p.max_bytes ≡ align_up_checked max_bytes alignment)
      × (committed p.chunks ≤ align_up_checked max_bytes alignment)
unfolding init_pool refuses_geometry committed
init_pool-committed p memory chunk_bytes max_bytes alignment reserve made =
    let first = align_up_checked chunk_bytes alignment in
    let good : (init new_segment memory first alignment).1 ≡ true = ground (arith, made) in
    let size = init-size memory first alignment good in
    (ground (arith, made), ground (arith, made, size))

-- The free ranges of the chunks that are reserved for staging.
abbrev pub reserved_ranges : List Chunk → List Ranges
reserved_ranges [] = []
reserved_ranges (c ∷ chunks) =
    if c.staging_only then c.segment.free ∷ reserved_ranges chunks else reserved_ranges chunks

reserved_ranges-try_chunks :
    (bytes alignment : ℕ) (affinity : Option ℕ) (chunks : List Chunk)
    → reserved_ranges (try_chunks bytes alignment affinity false chunks).0 ≡ reserved_ranges chunks
unfolding try_chunks
reserved_ranges-try_chunks bytes alignment affinity [] = refl
reserved_ranges-try_chunks bytes alignment affinity (c ∷ chunks) =
    let ih = reserved_ranges-try_chunks bytes alignment affinity chunks in ground (arith, ih)

reserved_ranges-search_if :
    (wanted : Bool) (bytes alignment : ℕ) (affinity : Option ℕ) (p : Pool)
    (found : Option PoolLease)
    → reserved_ranges (search_if wanted bytes alignment affinity false (p, found)).0.chunks
      ≡ reserved_ranges p.chunks
unfolding search_if
reserved_ranges-search_if wanted bytes alignment affinity p found =
    let same = reserved_ranges-try_chunks bytes alignment affinity p.chunks in ground (arith, same)

reserved_ranges-append :
    (chunks : List Chunk) (c : Chunk)
    → c.staging_only ≡ false
    → reserved_ranges (chunks ++ (c ∷ [])) ≡ reserved_ranges chunks
reserved_ranges-append [] c h = rw h refl
reserved_ranges-append (first ∷ chunks) c h =
    let ih = reserved_ranges-append chunks c h in ground (arith, ih)

reserved_ranges-grow :
    (p : Pool) (memory : Option ℕ) (bytes alignment : ℕ) (affinity : Option ℕ)
    → reserved_ranges (grow p memory bytes alignment affinity).0.chunks ≡ reserved_ranges p.chunks
unfolding grow
reserved_ranges-grow p memory bytes alignment affinity =
    elim (Option-cases (new_chunk p memory bytes affinity)) [
      | inl full ↦ rw (grow, full) refl
      | inr (c, made) ↦
          let open_to_all : c.staging_only ≡ false = unfold new_chunk in (ground (arith, made)) in
          let r = allocate c.segment bytes alignment in
          let more = reserved_ranges-append p.chunks (record c { segment = r.0 }) open_to_all in
          ground (arith, made, more)
    ]

-- An Allocate for a connection leaves the free ranges of the chunks that are reserved for staging as they are,
-- whether or not it finds a lease.
pub reserved_ranges-allocate_pool :
    (p : Pool) (memory : Option ℕ) (bytes alignment : ℕ) (affinity : Option ℕ)
    → reserved_ranges (allocate_pool p memory bytes alignment affinity connection).0.chunks
      ≡ reserved_ranges p.chunks
unfolding allocate_pool
reserved_ranges-allocate_pool p memory bytes alignment affinity =
    let reserved = search_if false bytes alignment none true (p, none) in
    let near = search_if (has_affinity affinity) bytes alignment affinity false reserved in
    let shared = search_if true bytes alignment none false near in
    let one : reserved_ranges reserved.0.chunks ≡ reserved_ranges p.chunks =
      unfold search_if in refl in
    let two =
      reserved_ranges-search_if (has_affinity affinity) bytes alignment affinity reserved.0
        reserved.1 in
    let three = reserved_ranges-search_if true bytes alignment none near.0 near.1 in
    let four = reserved_ranges-grow shared.0 memory bytes alignment affinity in
    elim (Bool-cases (bytes == 0 || not (is_power_of_two alignment))) [
      | inl refused ↦ rw (allocate_pool, refused) refl
      | inr asked ↦ elim (Option-cases shared.1) [
        | inl full ↦ rw (allocate_pool, asked, full) (four ∙ (three ∙ (two ∙ one)))
        | inr (l, found) ↦ rw (allocate_pool, asked, found) (three ∙ (two ∙ one))
      ]
    ]

-- From a pool that Init has just made, over every sequence of Allocate, of resets of leases and of TrimIdle, the
-- segments that the pool has committed are within the budget that Init rounded up.
pub after_calls-committed :
    (p : Pool) (memory : Option ℕ) (chunk_bytes max_bytes alignment reserve : ℕ) (calls : List Call)
    → init_pool new_pool memory chunk_bytes max_bytes alignment reserve ≡ (p, true)
    → committed (after_calls p calls).chunks ≤ align_up_checked max_bytes alignment
after_calls-committed p memory chunk_bytes max_bytes alignment reserve calls made =
    let (budget, first) =
      init_pool-committed p memory chunk_bytes max_bytes alignment reserve made in
    let kept = after_calls-Keeps p calls in
    omega (arith, budget, kept.within (omega (arith, budget, first)))
