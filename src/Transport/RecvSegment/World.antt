-- ===== src/Transport/RecvSegment/World.antt =====
-- A segment and the leases that are out, over every sequence of Allocate and of Lease::Reset.
use dingo_cache.Common.{
  ℕ, zero, suc, ◌+◌, ◌-◌, ◌<◌, ◌≤◌, ◌≡◌, arith, List, [], ◌∷◌, none, some, ltb, leb, if◌then◌else◌,
  true, false, ◌&&◌, Bool-cases, Option-cases, inl, inr, get_elem?,
}
use dingo_cache.Transport.RecvSegment.{Ranges, Segment, new_segment, init, allocate, release_range}
use dingo_cache.Transport.RecvSegment.Ranges.{covers, Apart}
use dingo_cache.Transport.RecvSegment.Leases.{IsLeased, allocate-IsLeased, release_range-free}

-- A lease is the offset and the size that the object keeps.
pub record World : Type 0 where
  pub segment : Segment
  pub leases : Ranges

pub data Call : Type 0 where
  allocating : (bytes alignment : ℕ) → Call
  resetting : (number : ℕ) → Call

abbrev pub remove_at : Ranges → ℕ → Ranges
remove_at [] i = []
remove_at (l ∷ ls) zero = ls
remove_at (l ∷ ls) (suc i) = l ∷ remove_at ls i

-- A lease that was given is held until it is reset; Reset releases what the lease holds.
unfoldable pub happen : World → Call → World
happen w (allocating bytes alignment) =
    let r = allocate w.segment bytes alignment in
    record { segment = r.0; leases = elim r.1 [ none ↦ w.leases | some lease ↦ lease ∷ w.leases ] }
happen w (resetting number) = elim (get_elem? w.leases number) [
  | none ↦ w
  | some lease ↦ record {
    segment = release_range w.segment lease.0 lease.1;
    leases = remove_at w.leases number;
  }
]

unfoldable pub happen_all : World → List Call → World
happen_all w [] = w
happen_all w (call ∷ calls) = happen_all (happen w call) calls

-- How many leases hold a byte.
abbrev pub holders : Ranges → ℕ → ℕ
holders [] x = 0
holders ((b, n) ∷ leases) x = (if leb b x && ltb x (b + n) then 1 else 0) + holders leases x

-- No lease is empty.
abbrev Filled : Ranges → Type 0
Filled [] = Unit {0}
Filled ((b, n) ∷ leases) = (0 < n) × Filled leases

-- Every byte of the segment is free or held by one lease, and no other byte is either.
record IsShared (size : ℕ) (w : World) : Type 0 where
  apart : Apart 0 w.segment.size w.segment.free
  filled : Filled w.leases
  same_size : w.segment.size ≡ size
  once :
      (x : ℕ)
      → holders w.leases x + (if covers w.segment.free x then 1 else 0)
        ≡ (if ltb x size then 1 else 0)

holders-remove_at :
    (leases : Ranges) (i b n x : ℕ)
    → get_elem? leases i ≡ some (b, n)
    → holders leases x
      ≡ (if leb b x && ltb x (b + n) then 1 else 0) + holders (remove_at leases i) x
holders-remove_at [] i b n x e = absurd (cc e)
holders-remove_at ((q, m) ∷ leases) zero b n x e =
    let begin : q ≡ b = cc e in let size : m ≡ n = cc e in ground (arith, begin, size)
holders-remove_at ((q, m) ∷ leases) (suc i) b n x e =
    let ih = holders-remove_at leases i b n x e in omega (arith, ih)

Filled-remove_at : (leases : Ranges) (i : ℕ) → Filled leases → Filled (remove_at leases i)
Filled-remove_at [] i f = tt
Filled-remove_at ((q, m) ∷ leases) zero f = f.1
Filled-remove_at ((q, m) ∷ leases) (suc i) f = (f.0, Filled-remove_at leases i f.1)

Filled-pos :
    (leases : Ranges) (i b n : ℕ) → Filled leases → get_elem? leases i ≡ some (b, n) → 0 < n
Filled-pos [] i b n f e = absurd (cc e)
Filled-pos ((q, m) ∷ leases) zero b n f e = let size : m ≡ n = cc e in omega (arith, f.0, size)
Filled-pos ((q, m) ∷ leases) (suc i) b n f e = Filled-pos leases i b n f.1 e

allocate-kept :
    (s : Segment) (bytes alignment : ℕ)
    → (allocate s bytes alignment).1 ≡ none
    → ((allocate s bytes alignment).0.free ≡ s.free)
      × ((allocate s bytes alignment).0.size ≡ s.size)
unfolding allocate
allocate-kept s bytes alignment e = ground (arith, e)

leased_once :
    (s t : Segment) (leases : Ranges) (offset n bytes alignment size x : ℕ)
    → IsLeased s t alignment bytes offset n
    → holders leases x + (if covers s.free x then 1 else 0) ≡ (if ltb x size then 1 else 0)
    → holders ((offset, n) ∷ leases) x + (if covers t.free x then 1 else 0)
      ≡ (if ltb x size then 1 else 0)
leased_once s t leases offset n bytes alignment size x l before =
    elim (Bool-cases (leb offset x && ltb x (offset + bytes))) [
      | inl inside ↦
          let was = l.was_free x (ground (arith, inside)) (ground (arith, inside)) in
          ground (arith, inside, was, l.left x, l.whole, before)
      | inr outside ↦ ground (arith, outside, l.left x, l.whole, before)
    ]

allocating-IsShared :
    (size bytes alignment : ℕ) (w : World)
    → IsShared size w
    → IsShared size (happen w (allocating bytes alignment))
unfolding happen
allocating-IsShared size bytes alignment w k =
    elim (Option-cases (allocate w.segment bytes alignment).1) [
      | inl refused ↦
          let (same_free, same_size) = allocate-kept w.segment bytes alignment refused in
          rw (happen, refused)
            (record {
              apart = rw (same_free, same_size) k.apart;
              filled = k.filled;
              same_size = rw same_size k.same_size;
              once = λ x. rw same_free (k.once x);
            })
      | inr ((offset, n), given) ↦
          let l = allocate-IsLeased w.segment bytes alignment offset n k.apart given in
          rw (happen, given)
            (record {
              apart = l.apart;
              filled = (omega (arith, l.whole, l.some_bytes), k.filled);
              same_size = rw l.same_size k.same_size;
              once = λ x.
                  leased_once w.segment (allocate w.segment bytes alignment).0 w.leases offset n
                    bytes alignment size x l (k.once x);
            })
    ]

release_range-kept : (s : Segment) (offset bytes : ℕ) → (release_range s offset bytes).size ≡ s.size
unfolding release_range
release_range-kept s offset bytes = ground arith

-- A byte that a lease holds is in the segment and is not free.
held_byte :
    (size : ℕ) (w : World) (i b n x : ℕ)
    → IsShared size w
    → get_elem? w.leases i ≡ some (b, n)
    → b ≤ x
    → x < b + n
    → (x < size) × (covers w.segment.free x ≡ false)
held_byte size w i b n x k e low high =
    let held = holders-remove_at w.leases i b n x e in ground (arith, held, k.once x, low, high)

resetting-IsShared :
    (size number : ℕ) (w : World) → IsShared size w → IsShared size (happen w (resetting number))
unfolding happen
resetting-IsShared size number w k = elim (Option-cases (get_elem? w.leases number)) [
  | inl nothing ↦ rw (happen, nothing) k
  | inr ((b, n), held) ↦
      let pos = Filled-pos w.leases number b n k.filled held in
      let (last, used) =
        held_byte size w number b n (b + n - 1) k held (omega (arith, pos)) (omega (arith, pos)) in
      let (apart, freed) =
        release_range-free w.segment b n k.apart pos (omega (arith, last, pos, k.same_size))
          (λ (x : ℕ) (lo : b ≤ x) (hi : x < b + n).
            (held_byte size w number b n x k held lo hi).1) in
      let kept = release_range-kept w.segment b n in
      rw (happen, held)
        (record {
          apart = rw kept apart;
          filled = Filled-remove_at w.leases number k.filled;
          same_size = rw kept k.same_size;
          once = λ x.
              let taken = holders-remove_at w.leases number b n x held in
              ground (arith, taken, k.once x, freed x);
        })
]

happen_all-IsShared :
    (size : ℕ) (w : World) (calls : List Call)
    → IsShared size w
    → IsShared size (happen_all w calls)
unfolding happen_all
happen_all-IsShared size w [] k = k
happen_all-IsShared size w (allocating bytes alignment ∷ calls) k =
    happen_all-IsShared size (happen w (allocating bytes alignment)) calls
      (allocating-IsShared size bytes alignment w k)
happen_all-IsShared size w (resetting number ∷ calls) k =
    happen_all-IsShared size (happen w (resetting number)) calls
      (resetting-IsShared size number w k)

-- From a segment that Init has just made of some bytes, over every sequence of Allocate and of resets of leases
-- that are held: each byte of the segment is free or held by exactly one lease, and no other byte is free
-- or held. So no two leases overlap, and none of the memory is lost.
pub happen_all-once :
    (s : Segment) (base bytes alignment : ℕ) (calls : List Call) (x : ℕ)
    → init new_segment (some base) bytes alignment ≡ (s, true)
    → let w = happen_all (record { segment = s; leases = [] }) calls in
      holders w.leases x + (if covers w.segment.free x then 1 else 0)
      ≡ (if ltb x bytes then 1 else 0)
unfolding init
happen_all-once s base bytes alignment calls x made =
    let pos : 0 < bytes = ground (arith, made) in
    let free : s.free ≡ (0, bytes) ∷ [] = ground (arith, made) in
    let size : s.size ≡ bytes = ground (arith, made) in
    let first : IsShared bytes (record { segment = s; leases = [] }) = record {
      apart = rw (free, size) (omega arith, pos, omega arith, tt);
      filled = tt;
      same_size = size;
      once = λ y. ground (arith, free);
    } in
    (happen_all-IsShared bytes (record { segment = s; leases = [] }) calls first).once x
