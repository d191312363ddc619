-- ===== src/Transport/RecvSegment/Merging.antt =====
-- Release merges a range with the free ranges that touch it, and with no others.
use dingo_cache.Common.{
  ℕ, ◌+◌, ◌<◌, ◌≤◌, ◌≡◌, ◌≢◌, refl, arith, [], ◌∷◌, none, some, ltb, leb, ◌==◌, true, false, not,
  ◌&&◌, Bool-cases, Option-cases, inl, inr, ==_iff,
}
use dingo_cache.Transport.RecvSegment.{Ranges, entry_before, entry_from, merge_before, merge_after}
use dingo_cache.Transport.RecvSegment.Ranges.{
  covers, Apart, covers_from, range_at, range_at_low, erase_range-IsErased,
}
use dingo_cache.Transport.RecvSegment.Leasing.{range_at-covers}

nothing_before :
    (lo hi : ℕ) (free : Ranges) (b x : ℕ)
    → Apart lo hi free
    → entry_before free b ≡ none
    → x + 1 ≡ b
    → covers free x ≡ false
unfolding entry_before
nothing_before lo hi [] b x a e at = refl
nothing_before lo hi ((q, m) ∷ free) b x a e at =
    let above : b ≤ q = ground (arith, e) in
    covers_from q hi ((q, m) ∷ free) x (omega arith, a.1, a.2, a.3) (omega (arith, above, at))

record IsBefore (free : Ranges) (b q m : ℕ) : Type 0 where
  held : range_at free q ≡ some m
  ends : q + m ≤ b
  gap : (x : ℕ) → q + m ≢ b → x + 1 ≡ b → covers free x ≡ false

entry_before-IsBefore :
    (lo hi : ℕ) (free : Ranges) (b q m : ℕ)
    → Apart lo hi free
    → covers free b ≡ false
    → entry_before free b ≡ some (q, m)
    → IsBefore free b q m
unfolding entry_before
entry_before-IsBefore lo hi [] b q m a out e = absurd (cc e)
entry_before-IsBefore lo hi ((r, n) ∷ free) b q m a out e =
    let below : ltb r b ≡ true = ground (arith, e) in
    let ended : r + n ≤ b = ground (arith, out, below) in
    elim (Option-cases (entry_before free b)) [
      | inl last ↦
          let begin : r ≡ q = ground (arith, e, last) in
          let size : n ≡ m = ground (arith, e, last) in
          record {
            held = ground (arith, begin, size);
            ends = omega (arith, ended, begin, size);
            gap = λ x apart at.
                let rest = nothing_before (r + n + 1) hi free b x a.3 last at in
                ground (arith, rest, ended, begin, size, apart, at);
          }
      | inr ((q1, m1), more) ↦
          let later =
            entry_before-IsBefore (r + n + 1) hi free b q m a.3 (ground (arith, out))
              (ground (arith, e, more)) in
          let low = range_at_low (r + n + 1) hi free q m a.3 later.held in
          record {
            held = ground (arith, later.held, low);
            ends = later.ends;
            gap = λ x apart at.
                let rest = later.gap x apart at in ground (arith, rest, low, later.ends, apart, at);
          }
    ]

nothing_from :
    (lo hi : ℕ) (free : Ranges) (d : ℕ)
    → Apart lo hi free
    → covers free d ≡ false
    → entry_from free (d + 1) ≡ none
    → covers free (d + 1) ≡ false
unfolding entry_from
nothing_from lo hi [] d a out e = refl
nothing_from lo hi ((q, m) ∷ free) d a out e =
    let below : ltb d q ≡ false = ground (arith, e) in
    let rest = nothing_from (q + m + 1) hi free d a.3 (ground (arith, out)) (ground (arith, e)) in
    ground (arith, below, rest, out)

record IsFrom (free : Ranges) (e q m : ℕ) : Type 0 where
  held : range_at free q ≡ some m
  begins : e ≤ q
  gap : q ≢ e → covers free e ≡ false

entry_from-IsFrom :
    (lo hi : ℕ) (free : Ranges) (d q m : ℕ)
    → Apart lo hi free
    → covers free d ≡ false
    → entry_from free (d + 1) ≡ some (q, m)
    → IsFrom free (d + 1) q m
unfolding entry_from
entry_from-IsFrom lo hi [] d q m a out e = absurd (cc e)
entry_from-IsFrom lo hi ((r, n) ∷ free) d q m a out e = elim (Bool-cases (leb (d + 1) r)) [
  | inl here ↦
      let begin : r ≡ q = ground (arith, e, here) in
      let size : n ≡ m = ground (arith, e, here) in
      record {
        held = ground (arith, begin, size);
        begins = ground (arith, here, begin);
        gap = λ apart.
            covers_from r hi ((r, n) ∷ free) (d + 1) (omega arith, a.1, a.2, a.3)
              (ground (arith, here, begin, apart));
      }
  | inr passed ↦
      let later =
        entry_from-IsFrom (r + n + 1) hi free d q m a.3 (ground (arith, out))
          (ground (arith, e, passed)) in
      let low = range_at_low (r + n + 1) hi free q m a.3 later.held in
      record {
        held = ground (arith, later.held, low);
        begins = later.begins;
        gap = λ apart. let rest = later.gap apart in ground (arith, rest, passed, out);
      }
]

-- A range has been merged with the one before it, if they touch.
pub record IsMergedBefore (hi : ℕ) (free left : Ranges) (b b' : ℕ) : Type 0 where
  pub apart : Apart 0 hi left
  pub grows : b' ≤ b
  pub covered : (x : ℕ) → covers left x ≡ (covers free x && not (leb b' x && ltb x b))
  pub was_free : (x : ℕ) → b' ≤ x → x < b → covers free x ≡ true
  pub clear : (x : ℕ) → x + 1 ≡ b' → covers left x ≡ false

pub merge_before-IsMergedBefore :
    (hi : ℕ) (free : Ranges) (b : ℕ)
    → Apart 0 hi free
    → covers free b ≡ false
    → IsMergedBefore hi free (merge_before free b).0 b (merge_before free b).1
unfolding merge_before
merge_before-IsMergedBefore hi free b a out = elim (Option-cases (entry_before free b)) [
  | inl nobody ↦
      rw (merge_before, nobody)
        (record {
          apart = a;
          grows = omega arith;
          covered = λ x. ground arith;
          was_free = λ x low high. absurd (omega (arith, low, high));
          clear = λ x at. nothing_before 0 hi free b x a nobody at;
        })
  | inr ((q, m), before) ↦
      let e = entry_before-IsBefore 0 hi free b q m a out before in
      elim (Bool-cases (q + m == b)) [
        | inl touching ↦
            let same : q + m ≡ b = (==_iff (q + m) b).0 touching in
            let erased = erase_range-IsErased 0 hi free q m a e.held in
            rw (merge_before, before, touching)
              (record {
                apart = erased.apart;
                grows = omega (arith, same);
                covered = λ x. ground (arith, erased.covered x, same);
                was_free =
                    λ x low high. range_at-covers free q m x e.held low (omega (arith, high, same));
                clear = λ x at. erased.clear x (omega (arith, at)) (omega (arith, at));
              })
        | inr away ↦
            let apart : q + m ≢ b = ground (arith, away) in
            rw (merge_before, before, away)
              (record {
                apart = a;
                grows = omega arith;
                covered = λ x. ground arith;
                was_free = λ x low high. absurd (omega (arith, low, high));
                clear = λ x at. e.gap x apart at;
              })
      ]
]

-- A range has been merged with the one after it, if they touch.
pub record IsMergedAfter (hi : ℕ) (free left : Ranges) (e e' : ℕ) : Type 0 where
  pub apart : Apart 0 hi left
  pub grows : e ≤ e'
  pub covered : (x : ℕ) → covers left x ≡ (covers free x && not (leb e x && ltb x e'))
  pub was_free : (x : ℕ) → e ≤ x → x < e' → covers free x ≡ true
  pub clear : covers left e' ≡ false
  pub below : (e ≤ hi) → e' ≤ hi

pub merge_after-IsMergedAfter :
    (hi : ℕ) (free : Ranges) (d : ℕ)
    → Apart 0 hi free
    → covers free d ≡ false
    → IsMergedAfter hi free (merge_after free (d + 1)).0 (d + 1) (merge_after free (d + 1)).1
unfolding merge_after
merge_after-IsMergedAfter hi free d a out = elim (Option-cases (entry_from free (d + 1))) [
  | inl nobody ↦
      rw (merge_after, nobody)
        (record {
          apart = a;
          grows = omega arith;
          covered = λ x. ground arith;
          was_free = λ x low high. absurd (omega (arith, low, high));
          clear = nothing_from 0 hi free d a out nobody;
          below = λ h. h;
        })
  | inr ((q, m), from) ↦
      let e = entry_from-IsFrom 0 hi free d q m a out from in
      elim (Bool-cases (q == d + 1)) [
        | inl touching ↦
            let same : q ≡ d + 1 = (==_iff q (d + 1)).0 touching in
            let erased = erase_range-IsErased 0 hi free q m a e.held in
            rw (merge_after, from, touching)
              (record {
                apart = erased.apart;
                grows = omega arith;
                covered = λ x. ground (arith, erased.covered x, same);
                was_free = λ x low high.
                    range_at-covers free q m x e.held (omega (arith, low, same))
                      (omega (arith, high, same));
                clear = erased.clear (d + 1 + m) (omega (arith, same)) (omega (arith, same));
                below = λ h. omega (arith, erased.below, same);
              })
        | inr away ↦
            let apart : q ≢ d + 1 = ground (arith, away) in
            rw (merge_after, from, away)
              (record {
                apart = a;
                grows = omega arith;
                covered = λ x. ground arith;
                was_free = λ x low high. absurd (omega (arith, low, high));
                clear = e.gap apart;
                below = λ h. h;
              })
      ]
]
