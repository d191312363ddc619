-- ===== src/SlabAllocator/Lattice/Laws.antt =====
-- The lattice of slot sizes: a size holds its request, and a request between another one and that
-- one's size gets the same size, so that no size depends on which request came first.
use dingo_cache.Common.{
  ℕ, zero, suc, ◌+◌, ◌*◌, ◌≤◌, ◌<◌, ◌≡◌, refl, sym, ◌∙◌, inl, inr, false, arith, leb, if◌then◌else◌,
  Bool-cases, min, max,
}
use dingo_cache.SlabAllocator.State.{Options}
use dingo_cache.SlabAllocator.Lattice.{max_aligned, next_size, climb, canonical_slot_size}

pub data IsMultiple (a n : ℕ) : Type 0 where
  times : (k : ℕ) → n ≡ k * a → IsMultiple a n

-- Two multiples differ by the number at least.
gap : (a j k : ℕ) → j * a < k * a → j * a + a ≤ k * a
gap a j zero h = absurd (omega arith)
gap a zero (suc k) h = omega arith
gap a (suc j) (suc k) h = omega (arith, gap a j k (omega arith))

IsMultiple-gap : {a m n : ℕ} → IsMultiple a m → IsMultiple a n → m < n → m + a ≤ n
IsMultiple-gap {a} (times j e) (times k g) h = omega (arith, gap a j k (omega arith))

IsMultiple-min : {a m n : ℕ} → IsMultiple a m → IsMultiple a n → IsMultiple a (min m n)
IsMultiple-min {a} {m} {n} p q = elim (Bool-cases (leb m n)) [
  | inl le ↦ let e : min m n ≡ m = ground arith in rw e p
  | inr gt ↦ let e : min m n ≡ n = ground arith in rw e q
]

IsMultiple-max : {a m n : ℕ} → IsMultiple a m → IsMultiple a n → IsMultiple a (max m n)
IsMultiple-max {a} {m} {n} p q = elim (Bool-cases (leb m n)) [
  | inl le ↦ let e : max m n ≡ n = ground arith in rw e q
  | inr gt ↦ let e : max m n ≡ m = ground arith in rw e p
]

IsMultiple-next : {a m : ℕ} → IsMultiple a m → IsMultiple a (m + a)
IsMultiple-next (times k e) = times (k + 1) (omega arith)

module _ (o : Options) (pos : 0 < o.align) where
  pub max_aligned-IsMultiple : IsMultiple o.align (max_aligned o)
  unfolding max_aligned
  max_aligned-IsMultiple = IsMultiple-min (times _ refl) (times _ refl)

  next_size-IsMultiple : (c : ℕ) → IsMultiple o.align c → IsMultiple o.align (next_size o c)
  unfolding next_size
  next_size-IsMultiple c p =
      IsMultiple-min
        (elim (Bool-cases o.wasteful) [
          | inl e ↦ rw e (IsMultiple-max (times _ refl) (IsMultiple-next p))
          | inr e ↦ rw e (IsMultiple-next p)
        ])
        max_aligned-IsMultiple

  -- Below a request that fits, a round grows by the alignment at least.
  next_size_grows :
      (len c : ℕ)
      → IsMultiple o.align c
      → IsMultiple o.align len
      → c < len
      → len ≤ max_aligned o
      → (c + o.align ≤ next_size o c) × (next_size o c ≤ max_aligned o)
  unfolding next_size
  next_size_grows len c p q h fits = ground (arith, IsMultiple-gap p q h)

  -- One round of the loop on a request that fits.
  climb-step :
      (n len c : ℕ)
      → IsMultiple o.align c
      → IsMultiple o.align len
      → len ≤ max_aligned o
      → climb o (suc n) len c ≡ (if leb len c then c else climb o n len (next_size o c))
  unfolding climb
  climb-step n len c p q fits = ground (arith, next_size_grows len c p q)

  climb_bounds :
      (n len c : ℕ)
      → IsMultiple o.align c
      → IsMultiple o.align len
      → len ≤ max_aligned o
      → c ≤ max_aligned o
      → len ≤ c + n
      → let r = climb o n len c in (len ≤ r) × (r ≤ max_aligned o) × IsMultiple o.align r
  unfolding climb
  climb_bounds zero len c p q fits top h = (omega arith, top, p)
  climb_bounds (suc n) len c p q fits top h = elim (Bool-cases (leb len c)) [
    | inl done ↦ rw (climb-step n len c p q fits, done) (ground arith, top, p)
    | inr more ↦
        let below : c < len = ground arith in
        let (grows, stays) = next_size_grows len c p q below fits in
        rw (climb-step n len c p q fits, more)
          (climb_bounds n len (next_size o c) (next_size-IsMultiple c p) q fits stays (omega arith))
  ]

  climb_end : (len c : ℕ) → climb o zero len c ≡ c
  unfolding climb
  climb_end len c = refl

  -- A request that is not above a size that the loop has reached ends there.
  climb_done : (n len c : ℕ) → len ≤ c → climb o n len c ≡ c
  unfolding climb
  climb_done zero len c h = refl
  climb_done (suc n) len c h = ground arith

  climb_agrees :
      (n m len big c : ℕ)
      → IsMultiple o.align c
      → IsMultiple o.align len
      → IsMultiple o.align big
      → len ≤ big
      → big ≤ max_aligned o
      → len ≤ c + n
      → big ≤ c + m
      → big ≤ climb o n len c
      → climb o m big c ≡ climb o n len c
  climb_agrees zero m len big c p q r le fits h g inside =
      climb_done m big c (omega (arith, climb_end len c)) ∙ sym (climb_end len c)
  climb_agrees (suc n) zero len big c p q r le fits h g inside =
      climb_done zero big c (omega arith) ∙ sym (climb_done (suc n) len c (omega arith))
  climb_agrees (suc n) (suc m) len big c p q r le fits h g inside = elim (Bool-cases (leb len c)) [
    | inl done ↦
        let same = climb_done (suc n) len c (ground arith) in
        climb_done (suc m) big c (omega arith) ∙ sym same
    | inr more ↦
        let below : c < len = ground arith in
        let (grows, stays) = next_size_grows len c p q below (omega arith) in
        let not_yet : leb big c ≡ false = ground arith in
        let reached : climb o (suc n) len c ≡ climb o n len (next_size o c) =
          rw (climb-step n len c p q (omega arith), more) in
        rw (climb-step m big c p r fits, not_yet)
          (climb_agrees n m len big (next_size o c) (next_size-IsMultiple c p) q r le fits
              (omega arith) (omega arith) (omega arith)
            ∙ sym reached)
  ]

  -- For a positive alignment, a positive multiple of the alignment that fits an extent gets a slot size
  -- that holds it, that fits an extent, and that is a multiple of the alignment.
  pub canonical_slot_size_bounds :
      (len : ℕ)
      → 0 < len
      → IsMultiple o.align len
      → len ≤ max_aligned o
      → let size = canonical_slot_size o len in
        (len ≤ size) × (size ≤ max_aligned o) × IsMultiple o.align size
  unfolding canonical_slot_size
  canonical_slot_size_bounds len some_bytes q fits =
      let nothing : IsMultiple o.align 0 = times 0 (omega arith) in
      let least : o.align ≤ len = omega (arith, IsMultiple-gap nothing q some_bytes) in
      climb_bounds len len o.align (times 1 (omega arith)) q fits (omega arith) (omega arith)

  -- Of two positive multiples of the alignment that fit an extent, the larger one not above the slot
  -- size of the smaller one: both get the same slot size.
  pub canonical_slot_size_agrees :
      (len big : ℕ)
      → 0 < len
      → IsMultiple o.align len
      → IsMultiple o.align big
      → len ≤ big
      → big ≤ max_aligned o
      → big ≤ canonical_slot_size o len
      → canonical_slot_size o big ≡ canonical_slot_size o len
  unfolding canonical_slot_size
  canonical_slot_size_agrees len big some_bytes q r le fits inside =
      climb_agrees len big len big o.align (times 1 (omega arith)) q r le fits (omega arith)
        (omega arith) inside
