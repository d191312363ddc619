-- ===== src/Transport/RecvSegment/Leasing.antt =====
-- Allocate takes an aligned range of free bytes, and Release gives a range back.
use native.Mathlib.Nat.{div-add-mod', mod-lt, mul-mod_left}
use dingo_cache.Common.{
  ℕ, ◌+◌, ◌-◌, ◌*◌, ◌/◌, ◌%◌, ◌<◌, ◌≤◌, ◌≡◌, arith, [], ◌∷◌, some, ltb, leb, ◌==◌, if◌then◌else◌,
  true, not, ◌&&◌, ◌||◌, Bool-cases, Option-cases, inl, inr,
}
use dingo_cache.Transport.RecvSegment.{
  Ranges, is_power_of_two, align_up_checked, emplace_range, erase_range, begin_in, Fit, first_fit,
  take_bytes,
}
use dingo_cache.Transport.RecvSegment.Ranges.{
  covers, Apart, IsClear, range_at, range_at_low, erase_range-IsErased, emplace_range-IsAdded,
}

-- A number rounded up to a multiple.
round_up :
    (v a : ℕ)
    → 0 < a
    → (v ≤ (v + a - 1) / a * a) × ((v + a - 1) / a * a < v + a) × ((v + a - 1) / a * a % a ≡ 0)
round_up v a pos =
    let whole = div-add-mod' (v + a - 1) a in
    let rest = mod-lt (v + a - 1) pos in
    (
      omega (arith, whole, rest, pos),
      omega (arith, whole, rest, pos),
      mul-mod_left ((v + a - 1) / a) a,
    )

-- Where a range begins that fits.
pub record IsFit (base bytes alignment range_begin range_size begin : ℕ) : Type 0 where
  pub from_begin : range_begin ≤ begin
  pub to_end : begin + bytes ≤ range_begin + range_size
  pub aligned : (base + begin) % alignment ≡ 0

pub begin_in-IsFit :
    (base bytes alignment range_begin range_size begin : ℕ)
    → is_power_of_two alignment ≡ true
    → begin_in base bytes alignment range_begin range_size ≡ some begin
    → IsFit base bytes alignment range_begin range_size begin
unfolding begin_in align_up_checked
begin_in-IsFit base bytes alignment range_begin range_size begin power e =
    let pos : 0 < alignment = unfold is_power_of_two in (ground (arith, power)) in
    let up = round_up (base + range_begin) alignment pos in
    let sum : base + begin ≡ (base + range_begin + alignment - 1) / alignment * alignment =
      ground (arith, e, power, up.0) in
    record { from_begin = ground (arith, e); to_end = ground (arith, e); aligned = rw sum up.2 }

pub first_fit-range_at :
    (base bytes alignment lo hi : ℕ) (free : Ranges) (fit : Fit)
    → Apart lo hi free
    → first_fit base bytes alignment free ≡ some fit
    → (range_at free fit.range_begin ≡ some fit.range_size)
      × (begin_in base bytes alignment fit.range_begin fit.range_size ≡ some fit.begin)
unfolding first_fit
first_fit-range_at base bytes alignment lo hi [] fit a e = absurd (cc e)
first_fit-range_at base bytes alignment lo hi ((q, m) ∷ free) fit a e =
    elim (Option-cases (begin_in base bytes alignment q m)) [
      | inl refused ↦
          let (held, begins) =
            first_fit-range_at base bytes alignment (q + m + 1) hi free fit a.3
              (ground (arith, e, refused)) in
          let low = range_at_low (q + m + 1) hi free fit.range_begin fit.range_size a.3 held in
          (ground (arith, held, low), begins)
      | inr (begin, here) ↦
          let same : fit ≡ record { range_begin = q; range_size = m; begin = begin } =
            ground (arith, e, here) in
          rw same (ground arith, here)
    ]

pub range_at-covers :
    (free : Ranges) (b n x : ℕ)
    → range_at free b ≡ some n
    → b ≤ x
    → x < b + n
    → covers free x ≡ true
range_at-covers [] b n x h low high = absurd (cc h)
range_at-covers ((q, m) ∷ free) b n x h low high = elim (Bool-cases (b == q)) [
  | inl here ↦ ground (arith, h, here, low, high)
  | inr there ↦
      let rest = range_at-covers free b n x (ground (arith, h, there)) low high in
      ground (arith, rest)
]

-- What is before `e` is put back, if it is anything.
put_back :
    (hi : ℕ) (free : Ranges) (b e : ℕ)
    → Apart 0 hi free
    → (b < e → IsClear free b (e - b))
    → e ≤ hi
    → Apart 0 hi (if ltb b e then emplace_range free b (e - b) else free)
      × ((x : ℕ)
          → covers (if ltb b e then emplace_range free b (e - b) else free) x
            ≡ (covers free x || (leb b x && ltb x e)))
put_back hi free b e a clear high = elim (Bool-cases (ltb b e)) [
  | inl some_bytes ↦
      let lt : b < e = ground (arith, some_bytes) in
      let added =
        emplace_range-IsAdded 0 hi free b (e - b) a (clear lt) (omega (arith, lt)) (omega arith)
          (omega (arith, lt, high)) in
      rw some_bytes (added.apart, λ x. ground (arith, added.covered x, lt))
  | inr nothing ↦ rw nothing (a, λ x. ground (arith, nothing))
]

-- The bytes from `begin` on are no longer free, and they were.
pub record IsTaken (hi : ℕ) (free left : Ranges) (begin bytes : ℕ) : Type 0 where
  pub apart : Apart 0 hi left
  pub covered :
      (x : ℕ) → covers left x ≡ (covers free x && not (leb begin x && ltb x (begin + bytes)))
  pub was_free : (x : ℕ) → begin ≤ x → x < begin + bytes → covers free x ≡ true
  pub below : begin + bytes ≤ hi

pub take_bytes-IsTaken :
    (hi : ℕ) (free : Ranges) (fit : Fit) (bytes : ℕ)
    → Apart 0 hi free
    → range_at free fit.range_begin ≡ some fit.range_size
    → 0 < bytes
    → fit.range_begin ≤ fit.begin
    → fit.begin + bytes ≤ fit.range_begin + fit.range_size
    → IsTaken hi free (take_bytes free fit bytes) fit.begin bytes
unfolding take_bytes
take_bytes-IsTaken hi free fit bytes a held pos low high =
    let erased = erase_range-IsErased 0 hi free fit.range_begin fit.range_size a held in
    let left = erase_range free fit.range_begin in
    let range_end = fit.range_begin + fit.range_size in
    let end = fit.begin + bytes in
    let (apart, covered) =
      put_back hi left fit.range_begin fit.begin erased.apart
        (λ (lt : fit.range_begin < fit.begin) (x : ℕ) (b : fit.range_begin ≤ x + 1)
            (e : x ≤ fit.range_begin + (fit.begin - fit.range_begin)).
          erased.clear x b (omega (arith, e, lt, high)))
        (omega (arith, high, erased.below)) in
    let before =
      if ltb fit.range_begin fit.begin
      then emplace_range left fit.range_begin (fit.begin - fit.range_begin)
      else left in
    let (apart_both, covered_both) =
      put_back hi before end range_end apart
        (λ (lt : end < range_end) (x : ℕ) (b : end ≤ x + 1) (e : x ≤ end + (range_end - end)).
          let gone = erased.clear x (omega (arith, b, low, pos)) (omega (arith, e, lt)) in
          ground (arith, covered x, gone, b, pos))
        erased.below in
    record {
      apart = apart_both;
      covered = λ x. ground (
        arith,
        covered_both x,
        covered x,
        erased.covered x,
        low,
        high,
        range_at-covers free fit.range_begin fit.range_size x held,
      );
      was_free = λ x b e.
          range_at-covers free fit.range_begin fit.range_size x held (omega (arith, b, low))
            (omega (arith, e, high));
      below = omega (arith, high, erased.below);
    }
