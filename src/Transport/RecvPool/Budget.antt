-- ===== src/Transport/RecvPool/Budget.antt =====
-- What the steps of the pool do to the bytes that it has committed.
use dingo_cache.Common.{
  ℕ, ◌+◌, ◌-◌, ◌≤◌, ◌≡◌, refl, ◌∙◌, arith, min, max, Bool, true, List, [], ◌∷◌, ◌++◌, Option, some,
  Option-cases, inl, inr,
}
use dingo_cache.Transport.RecvSegment.{
  Segment, new_segment, align_up_checked, init, allocate, release_range,
}
use dingo_cache.Transport.RecvPool.{
  Chunk, Pool, PoolLease, committed, new_chunk, try_chunks, grow, search_if,
}

allocate-size : (s : Segment) (bytes alignment : ℕ) → (allocate s bytes alignment).0.size ≡ s.size
unfolding allocate
allocate-size s bytes alignment = ground arith

pub release_range-size :
    (s : Segment) (offset bytes : ℕ) → (release_range s offset bytes).size ≡ s.size
unfolding release_range
release_range-size s offset bytes = ground arith

pub init-size :
    (memory : Option ℕ) (bytes alignment : ℕ)
    → (init new_segment memory bytes alignment).1 ≡ true
    → (init new_segment memory bytes alignment).0.size ≡ bytes
unfolding init
init-size memory bytes alignment h = ground (arith, h)

committed-append : (a b : List Chunk) → committed (a ++ b) ≡ committed a + committed b
unfolding committed
committed-append [] b = omega arith
committed-append (c ∷ a) b = omega (arith, committed-append a b)

committed-try_chunks :
    (bytes alignment : ℕ) (affinity : Option ℕ) (staging_only : Bool) (chunks : List Chunk)
    → committed (try_chunks bytes alignment affinity staging_only chunks).0 ≡ committed chunks
unfolding committed try_chunks
committed-try_chunks bytes alignment affinity staging_only [] = refl
committed-try_chunks bytes alignment affinity staging_only (c ∷ chunks) =
    let ih = committed-try_chunks bytes alignment affinity staging_only chunks in
    let size = allocate-size c.segment bytes alignment in ground (arith, ih, size)

-- What every operation keeps.
pub record Keeps (p p' : Pool) : Type 0 where
  pub max_bytes : p'.max_bytes ≡ p.max_bytes
  pub within : committed p.chunks ≤ p.max_bytes → committed p'.chunks ≤ p.max_bytes

pub Keeps-trans : (p q r : Pool) → Keeps p q → Keeps q r → Keeps p r
Keeps-trans p q r a b = record {
  max_bytes = b.max_bytes ∙ a.max_bytes;
  within = λ h. omega (arith, a.max_bytes, b.within (omega (arith, a.max_bytes, a.within h)));
}

pub search_if-Keeps :
    (wanted : Bool) (bytes alignment : ℕ) (affinity : Option ℕ) (staging_only : Bool) (p : Pool)
    (found : Option PoolLease)
    → Keeps p (search_if wanted bytes alignment affinity staging_only (p, found)).0
unfolding search_if
search_if-Keeps wanted bytes alignment affinity staging_only p found =
    let same = committed-try_chunks bytes alignment affinity staging_only p.chunks in
    record { max_bytes = ground arith; within = λ h. ground (arith, same, h) }

new_chunk-committed :
    (p : Pool) (memory : Option ℕ) (bytes : ℕ) (affinity : Option ℕ) (c : Chunk)
    → new_chunk p memory bytes affinity ≡ some c
    → committed p.chunks + c.segment.size ≤ p.max_bytes
unfolding new_chunk
new_chunk-committed p memory bytes affinity c e =
    let wanted =
      min (max p.chunk_bytes (align_up_checked bytes p.alignment))
        (p.max_bytes - committed p.chunks) in
    let made : (init new_segment memory wanted p.alignment).1 ≡ true = ground (arith, e) in
    let size = init-size memory wanted p.alignment made in ground (arith, e, size)

pub grow-Keeps :
    (p : Pool) (memory : Option ℕ) (bytes alignment : ℕ) (affinity : Option ℕ)
    → Keeps p (grow p memory bytes alignment affinity).0
unfolding grow
grow-Keeps p memory bytes alignment affinity =
    elim (Option-cases (new_chunk p memory bytes affinity)) [
      | inl full ↦ rw (grow, full) (record { max_bytes = refl; within = λ h. h })
      | inr (c, made) ↦
          let room = new_chunk-committed p memory bytes affinity c made in
          let r = allocate c.segment bytes alignment in
          let more = committed-append p.chunks (record c { segment = r.0 } ∷ []) in
          let size = allocate-size c.segment bytes alignment in
          let last : committed (record c { segment = r.0 } ∷ []) ≡ c.segment.size =
            unfold committed in (omega (arith, size)) in
          record {
            max_bytes = ground (arith, made);
            within = λ h. ground (arith, made, room, more, last);
          }
    ]
