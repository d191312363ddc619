-- ===== src/Transport/RecvSegment/Ranges.antt =====
-- The free ranges as the set of free bytes: ascending, apart from each other, and never empty.
use dingo_cache.Common.{
  ℕ, ◌+◌, ◌-◌, ◌<◌, ◌≤◌, ◌≡◌, refl, arith, [], ◌∷◌, Option, none, some, ltb, leb, ◌==◌,
  if◌then◌else◌, Bool, true, false, not, ◌&&◌, ◌||◌, Bool-cases, inl, inr, ==_iff,
}
use dingo_cache.Transport.RecvSegment.{Ranges, emplace_range, erase_range}

-- Whether a byte is free.
abbrev pub covers : Ranges → ℕ → Bool
covers [] x = false
covers ((q, m) ∷ free) x = leb q x && ltb x (q + m) || covers free x

-- Ranges from `lo` on and below `hi`, none of them empty, with a byte between any two.
abbrev pub Apart : ℕ → ℕ → Ranges → Type 0
Apart lo hi [] = Unit {0}
Apart lo hi ((q, m) ∷ free) = (lo ≤ q) × (0 < m) × (q + m ≤ hi) × Apart (q + m + 1) hi free

-- No byte of a range is free, nor the one before it, nor the one after it.
abbrev pub IsClear : Ranges → ℕ → ℕ → Type 0
IsClear free b n = (x : ℕ) → b ≤ x + 1 → x ≤ b + n → covers free x ≡ false

pub covers_from :
    (lo hi : ℕ) (free : Ranges) (x : ℕ) → Apart lo hi free → x < lo → covers free x ≡ false
covers_from lo hi [] x a h = refl
covers_from lo hi ((q, m) ∷ free) x a h =
    let rest = covers_from (q + m + 1) hi free x a.3 (omega (arith, a.0)) in
    ground (arith, rest, a.0)

-- The length of the range at an offset.
abbrev pub range_at : Ranges → ℕ → Option ℕ
range_at [] b = none
range_at ((q, m) ∷ free) b = let rest = range_at free b in if b == q then some m else rest

pub range_at_low :
    (lo hi : ℕ) (free : Ranges) (b n : ℕ) → Apart lo hi free → range_at free b ≡ some n → lo ≤ b
range_at_low lo hi [] b n a h = absurd (cc h)
range_at_low lo hi ((q, m) ∷ free) b n a h = elim (Bool-cases (b == q)) [
  | inl here ↦ ground (arith, here, a.0)
  | inr there ↦
      let low = range_at_low (q + m + 1) hi free b n a.3 (ground (arith, h, there)) in
      omega (arith, a.0, low)
]

Apart-wider :
    (lo lower hi : ℕ) (free : Ranges) → Apart lo hi free → lower ≤ lo → Apart lower hi free
Apart-wider lo lower hi [] a h = tt
Apart-wider lo lower hi ((q, m) ∷ free) a h = (omega (arith, a.0), a.1, a.2, a.3)

-- What is left once a range is erased.
pub record IsErased (lo hi : ℕ) (free left : Ranges) (b n : ℕ) : Type 0 where
  pub apart : Apart lo hi left
  pub covered : (x : ℕ) → covers left x ≡ (covers free x && not (leb b x && ltb x (b + n)))
  pub clear : IsClear left b n
  pub some_bytes : 0 < n
  pub below : b + n ≤ hi

first_gone :
    (q m lo hi : ℕ) (free : Ranges) (x : ℕ)
    → Apart lo hi ((q, m) ∷ free)
    → (b n : ℕ) → b ≡ q
    → m ≡ n
    → covers free x ≡ (covers ((q, m) ∷ free) x && not (leb b x && ltb x (b + n)))
first_gone q m lo hi free x a b n point size = elim (Bool-cases (ltb x (q + m + 1))) [
  | inl near ↦
      let rest = covers_from (q + m + 1) hi free x a.3 (ground (arith, near)) in
      ground (arith, rest, point, size)
  | inr far ↦ ground (arith, far, point, size)
]

pub erase_range-IsErased :
    (lo hi : ℕ) (free : Ranges) (b n : ℕ)
    → Apart lo hi free
    → range_at free b ≡ some n
    → IsErased lo hi free (erase_range free b) b n
unfolding erase_range
erase_range-IsErased lo hi [] b n a h = absurd (cc h)
erase_range-IsErased lo hi ((q, m) ∷ free) b n a h = elim (Bool-cases (b == q)) [
  | inl here ↦
      let point : b ≡ q = (==_iff b q).0 here in
      let size : m ≡ n = ground (arith, h, here) in
      rw here (record {
        apart = Apart-wider (q + m + 1) lo hi free a.3 (omega (arith, a.0));
        covered = λ x. first_gone q m lo hi free x a b n point size;
        clear =
            λ x low high. covers_from (q + m + 1) hi free x a.3 (omega (arith, high, point, size));
        some_bytes = omega (arith, a.1, size);
        below = omega (arith, a.2, size, point);
      })
  | inr there ↦
      let found : range_at free b ≡ some n = ground (arith, h, there) in
      let ih = erase_range-IsErased (q + m + 1) hi free b n a.3 found in
      let low = range_at_low (q + m + 1) hi free b n a.3 found in
      rw there (record {
        apart = (a.0, a.1, a.2, ih.apart);
        covered = λ x. ground (arith, ih.covered x, low);
        clear = λ x from_b to_n. ground (arith, ih.clear x from_b to_n, low, from_b);
        some_bytes = ih.some_bytes;
        below = ih.below;
      })
]

-- The free bytes once a range is added.
pub record IsAdded (lo hi : ℕ) (free more : Ranges) (b n : ℕ) : Type 0 where
  pub apart : Apart lo hi more
  pub covered : (x : ℕ) → covers more x ≡ (covers free x || (leb b x && ltb x (b + n)))

uncovered_rest :
    (q m : ℕ) (free : Ranges) (x : ℕ) → covers ((q, m) ∷ free) x ≡ false → covers free x ≡ false
uncovered_rest q m free x h = ground (arith, h)

-- A range that begins above a clear one begins beyond the byte after it, and one that begins below it ends
-- before the byte before it.
apart_after :
    (q m b n : ℕ) (free : Ranges)
    → 0 < m
    → ltb b q ≡ true
    → (b ≤ q + 1 → q ≤ b + n → covers ((q, m) ∷ free) q ≡ false)
    → b + n + 1 ≤ q
apart_after q m b n free pos before begins = elim (Bool-cases (leb q (b + n))) [
  | inl near ↦
      let no_byte = begins (ground (arith, before)) (ground (arith, near)) in
      absurd (ground (arith, no_byte, pos))
  | inr far ↦ ground (arith, far)
]

apart_before :
    (q m b n : ℕ) (free : Ranges)
    → 0 < m
    → ltb b q ≡ false
    → covers ((q, m) ∷ free) b ≡ false
    → (b ≤ q + m - 1 + 1 → q + m - 1 ≤ b + n → covers ((q, m) ∷ free) (q + m - 1) ≡ false)
    → q + m + 1 ≤ b
apart_before q m b n free pos later within ends =
    let short : q + m ≤ b = ground (arith, within, later) in
    elim (Bool-cases (q + m == b)) [
      | inl touching ↦
          let no_byte = ends (ground (arith, touching, pos)) (omega (arith, short)) in
          absurd (ground (arith, no_byte, pos))
      | inr gap ↦ ground (arith, gap, short)
    ]

pub emplace_range-IsAdded :
    (lo hi : ℕ) (free : Ranges) (b n : ℕ)
    → Apart lo hi free
    → IsClear free b n
    → 0 < n
    → lo ≤ b
    → b + n ≤ hi
    → IsAdded lo hi free (emplace_range free b n) b n
unfolding emplace_range
emplace_range-IsAdded lo hi [] b n a clear pos low high = record {
  apart = (low, pos, high, tt);
  covered = λ x. ground arith;
}
emplace_range-IsAdded lo hi ((q, m) ∷ free) b n a clear pos low high =
    let begins = clear q in
    let ends = clear (q + m - 1) in
    let within = clear b (omega arith) (omega arith) in
    elim (Bool-cases (ltb b q)) [
      | inl before ↦
          let room : b + n + 1 ≤ q = apart_after q m b n free a.1 before begins in
          rw before (record {
            apart = (low, pos, high, (room, a.1, a.2, a.3));
            covered = λ x. ground arith;
          })
      | inr later ↦
          let room : q + m + 1 ≤ b = apart_before q m b n free a.1 later within ends in
          let rest = λ (x : ℕ) (from_b : b ≤ x + 1) (to_n : x ≤ b + n).
            uncovered_rest q m free x (clear x from_b to_n) in
          let ih = emplace_range-IsAdded (q + m + 1) hi free b n a.3 rest pos room high in
          let other : (b == q) ≡ false = ground (arith, room, a.1) in
          rw (later, other)
            (record {
              apart = (a.0, a.1, a.2, ih.apart);
              covered = λ x. ground (arith, ih.covered x);
            })
    ]
