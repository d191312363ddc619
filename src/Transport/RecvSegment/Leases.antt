-- ===== src/Transport/RecvSegment/Leases.antt =====
-- The leases of a segment: what Allocate gives and what Release takes back.
use dingo_cache.Common.{
  ℕ, ◌+◌, ◌-◌, ◌%◌, ◌<◌, ◌≤◌, ◌≡◌, refl, sym, arith, some, ltb, leb, ◌==◌, true, false, not, ◌&&◌,
  ◌||◌, Bool-cases, Option-cases, inl, inr,
}
use dingo_cache.Transport.RecvSegment.{
  Ranges, Segment, is_power_of_two, first_fit, allocate, merge_before, merge_after, release_range,
}
use dingo_cache.Transport.RecvSegment.Ranges.{covers, Apart, IsClear, emplace_range-IsAdded}
use dingo_cache.Transport.RecvSegment.Leasing.{
  begin_in-IsFit, first_fit-range_at, take_bytes-IsTaken,
}
use dingo_cache.Transport.RecvSegment.Merging.{
  IsMergedBefore, merge_before-IsMergedBefore, IsMergedAfter, merge_after-IsMergedAfter,
}

-- What Allocate did when it gave a lease.
pub record IsLeased (s t : Segment) (alignment bytes offset size : ℕ) : Type 0 where
  pub whole : size ≡ bytes
  pub some_bytes : 0 < bytes
  pub aligned : (s.base + offset) % alignment ≡ 0
  pub within : offset + bytes ≤ s.size
  pub was_free : (x : ℕ) → offset ≤ x → x < offset + bytes → covers s.free x ≡ true
  pub left :
      (x : ℕ) → covers t.free x ≡ (covers s.free x && not (leb offset x && ltb x (offset + bytes)))
  pub apart : Apart 0 t.size t.free
  pub same_size : t.size ≡ s.size

-- Where the free ranges of a segment are apart, a lease that Allocate gives has the bytes that were asked for,
-- at an aligned address, within the segment; they were all free, they are the only ones that no longer are, and
-- the free ranges are apart again.
pub allocate-IsLeased :
    (s : Segment) (bytes alignment offset size : ℕ)
    → Apart 0 s.size s.free
    → (allocate s bytes alignment).1 ≡ some (offset, size)
    → IsLeased s (allocate s bytes alignment).0 alignment bytes offset size
unfolding allocate
allocate-IsLeased s bytes alignment offset size a e =
    elim (Bool-cases (not s.has_data || (bytes == 0 || not (is_power_of_two alignment)))) [
      | inl refused ↦ absurd (ground (arith, e, refused))
      | inr asked ↦
          let pos : 0 < bytes = ground (arith, asked) in
          let power : is_power_of_two alignment ≡ true = ground (arith, asked) in
          elim (Option-cases (first_fit s.base bytes alignment s.free)) [
            | inl full ↦ absurd (ground (arith, e, asked, full))
            | inr (fit, found) ↦
                let (held, begins) =
                  first_fit-range_at s.base bytes alignment 0 s.size s.free fit a found in
                let fits =
                  begin_in-IsFit s.base bytes alignment fit.range_begin fit.range_size fit.begin
                    power begins in
                let taken =
                  take_bytes-IsTaken s.size s.free fit bytes a held pos fits.from_begin
                    fits.to_end in
                let at : fit.begin ≡ offset = ground (arith, e, asked, found) in
                let of_size : bytes ≡ size = ground (arith, e, asked, found) in
                rw (allocate, asked, found, sym at)
                  (record {
                    whole = sym of_size;
                    some_bytes = pos;
                    aligned = fits.aligned;
                    within = taken.below;
                    was_free = taken.was_free;
                    left = taken.covered;
                    apart = taken.apart;
                    same_size = refl;
                  })
          ]
    ]

-- The bytes of a range, and of the free ranges it was merged with, are the ones between them.
module _ (hi : ℕ) (free f1 f2 : Ranges) (b e b' e' : ℕ) (order : b < e)
    (left : IsMergedBefore hi free f1 b b') (right : IsMergedAfter hi f1 f2 e e') where
  merged_covers :
      (x : ℕ) → (covers f2 x || (leb b' x && ltb x e')) ≡ (covers free x || (leb b x && ltb x e))
  merged_covers x = elim (Bool-cases (leb b' x && ltb x b)) [
    | inl before ↦
        let was = left.was_free x (ground (arith, before)) (ground (arith, before)) in
        ground (arith, was, before, right.grows, order)
    | inr not_before ↦ elim (Bool-cases (leb e x && ltb x e')) [
      | inl after ↦
          let was = right.was_free x (ground (arith, after)) (ground (arith, after)) in
          ground (arith, was, after, left.covered x, left.grows, order)
      | inr not_after ↦ ground (
        arith,
        not_before,
        not_after,
        left.covered x,
        right.covered x,
        left.grows,
        right.grows,
        order,
      )
    ]
  ]

  clear_between : ((x : ℕ) → b ≤ x → x < e → covers free x ≡ false) → IsClear f2 b' (e' - b')
  clear_between out x low high = elim (Bool-cases (x + 1 == b')) [
    | inl just_before ↦
        let none_left = left.clear x (ground (arith, just_before)) in
        ground (arith, none_left, right.covered x)
    | inr from_b ↦ elim (Bool-cases (x == e')) [
      | inl just_after ↦ let at : x ≡ e' = ground (arith, just_after) in rw at right.clear
      | inr to_e ↦ elim (Bool-cases (leb b x && ltb x e)) [
        | inl inside ↦
            let nothing = out x (ground (arith, inside)) (ground (arith, inside)) in
            ground (arith, nothing, left.covered x, right.covered x)
        | inr outside ↦ ground (
          arith,
          outside,
          from_b,
          to_e,
          low,
          high,
          left.covered x,
          right.covered x,
          left.grows,
          right.grows,
          order,
        )
      ]
    ]
  ]

-- Where the free ranges of a segment are apart, and a range of it has no free byte, Release makes the bytes of
-- the range free and no others, and leaves the free ranges apart: what touches is merged.
pub release_range-free :
    (s : Segment) (offset bytes : ℕ)
    → Apart 0 s.size s.free
    → 0 < bytes
    → offset + bytes ≤ s.size
    → ((x : ℕ) → offset ≤ x → x < offset + bytes → covers s.free x ≡ false)
    → Apart 0 s.size (release_range s offset bytes).free
      × ((x : ℕ)
          → covers (release_range s offset bytes).free x
            ≡ (covers s.free x || (leb offset x && ltb x (offset + bytes))))
unfolding release_range
release_range-free s offset bytes a pos within out =
    let left =
      merge_before-IsMergedBefore s.size s.free offset a (out offset (omega arith) (omega arith)) in
    let f1 = (merge_before s.free offset).0 in
    let b1 = (merge_before s.free offset).1 in
    let d = offset + bytes - 1 in
    let last : covers f1 d ≡ false =
      ground (arith, left.covered d, out d (omega (arith, pos)) (omega (arith, pos))) in
    let end : d + 1 ≡ offset + bytes = omega (arith, pos) in
    let right = merge_after-IsMergedAfter s.size f1 d left.apart last in
    let f2 = (merge_after f1 (d + 1)).0 in
    let e2 = (merge_after f1 (d + 1)).1 in
    let order : b1 < e2 = omega (arith, left.grows, right.grows, pos) in
    let high : e2 ≤ s.size = right.below (omega (arith, end, within)) in
    let bounds : offset < d + 1 = omega (arith, pos) in
    let clear =
      clear_between s.size s.free f1 f2 offset (d + 1) b1 e2 bounds left right
        (λ (x : ℕ) (lo : offset ≤ x) (hi : x < d + 1). out x lo (omega (arith, hi, end))) in
    let added =
      emplace_range-IsAdded 0 s.size f2 b1 (e2 - b1) right.apart clear (omega (arith, order))
        (omega arith) (omega (arith, order, high)) in
    let some_bytes : (bytes == 0) ≡ false = ground (arith, pos) in
    rw (release_range, some_bytes, sym end)
      (
        added.apart,
        λ x.
            let merged =
              merged_covers s.size s.free f1 f2 offset (d + 1) b1 e2 bounds left right x in
            ground (arith, merged, added.covered x, order),
      )
