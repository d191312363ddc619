-- ===== src/SlabAllocator/Index/Walk.antt =====
-- The order in which the index probes its buckets, apart from what it looks for.
use native.Mathlib.Decide.{dec_le}
use native.Mathlib.Nat.{mod-lt, mod-eq_of_lt, mod-add-mod, add-mod_right}
use dingo_cache.Common.{
  ℕ, zero, suc, ◌+◌, ◌-◌, ◌%◌, ◌<◌, ◌≡◌, sym, ap, subst, ◌∙◌, ◌≢◌, ◌⊎◌, inl, inr, List, arith,
  length, IsPowTwo, IsPowTwo-pos, bit_and-mask,
}
use dingo_cache.KvTypes.{BlockKey}
use dingo_cache.SlabAllocator.Index.{Entry, empty, cell, home, next, hash}

module _ (es : List Entry) (sized : IsPowTwo (length es)) where
  pub next-mod : (b : ℕ) → next es b ≡ (b + 1) % length es
  unfolding next
  next-mod b = bit_and-mask (b + 1) sized

  pub next-lt : (b : ℕ) → next es b < length es
  next-lt b = rw (next-mod b) (mod-lt (b + 1) (IsPowTwo-pos sized))

  pub home-lt : (key : BlockKey) → home es key < length es
  unfolding home
  home-lt key = rw (bit_and-mask (hash key) sized) (mod-lt (hash key) (IsPowTwo-pos sized))

-- Bucket `j` is among the `n` buckets probed from `b` on.
abbrev pub Visits : List Entry → ℕ → ℕ → ℕ → Type 0
Visits es zero b j = ⊥
Visits es (suc n) b j = (b ≡ j) ⊎ Visits es n (next es b) j

-- The same with no empty bucket before `j`, so that a probe for its key gets there.
abbrev pub Reaches : List Entry → ℕ → ℕ → ℕ → Type 0
Reaches es zero b j = ⊥
Reaches es (suc n) b j = (b ≡ j) ⊎ (((cell es b).state ≢ empty) × Reaches es n (next es b) j)

pub Visits-nth :
    (es : List Entry)
    → IsPowTwo (length es)
    → (n b i : ℕ) → i < n
    → b < length es
    → Visits es n b ((b + i) % length es)
Visits-nth es sized zero b i h inside = elim h [ ]
Visits-nth es sized (suc n) b zero h inside =
    inl (sym (ap (λ t. t % length es) {x = b + 0} {y = b} (omega arith) ∙ mod-eq_of_lt inside))
Visits-nth es sized (suc n) b (suc i) h inside =
    let later = Visits-nth es sized n (next es b) i (omega arith) (next-lt es sized b) in
    let same : (next es b + i) % length es ≡ (b + suc i) % length es =
      ap (λ t. (t + i) % length es) (next-mod es sized b)
      ∙ mod-add-mod (b + 1) (length es) i
      ∙ ap (λ t. t % length es) {x = b + 1 + i} {y = b + suc i} (omega arith) in
    inr (subst (Visits es n (next es b)) same later)

-- One lap over a table visits every bucket.
pub Visits-lap :
    (es : List Entry)
    → IsPowTwo (length es)
    → (b j : ℕ) → b < length es
    → j < length es
    → Visits es (length es) b j
Visits-lap es sized b j hb hj =
    let n = length es in
    let at : (i : ℕ) → i < n → (b + i) % n ≡ j → Visits es n b j =
      λ i h e. subst (Visits es n b) e (Visits-nth es sized n b i h hb) in
    elim (dec_le b j) [
      | yes h ↦
          at (j - b) (omega arith)
            (ap (λ t. t % n) {x = b + (j - b)} {y = j} (omega arith) ∙ mod-eq_of_lt hj)
      | no h ↦ at (j + n - b) (omega arith) (
          ap (λ t. t % n) {x = b + (j + n - b)} {y = j + n} (omega arith)
          ∙ add-mod_right j n
          ∙ mod-eq_of_lt hj)
    ]

-- Writing keeps a path, if no bucket on it becomes empty.
pub Reaches-mono :
    (es fs : List Entry)
    → length fs ≡ length es
    → ((b : ℕ) → (cell es b).state ≢ empty → (cell fs b).state ≢ empty)
    → (n b j : ℕ) → Reaches es n b j
    → Reaches fs n b j
unfolding next
Reaches-mono es fs len keep zero b j r = elim r [ ]
Reaches-mono es fs len keep (suc n) b j (inl e) = inl e
Reaches-mono es fs len keep (suc n) b j (inr (full, r)) =
    inr (keep b full, rw len (Reaches-mono es fs len keep n (next es b) j r))

-- Probing never leaves the table.
pub Reaches-lt :
    (es : List Entry)
    → IsPowTwo (length es)
    → (n b j : ℕ) → Reaches es n b j
    → b < length es
    → j < length es
Reaches-lt es sized zero b j r h = elim r [ ]
Reaches-lt es sized (suc n) b j (inl e) h = rw (← e) h
Reaches-lt es sized (suc n) b j (inr (full, r)) h =
    Reaches-lt es sized n (next es b) j r (next-lt es sized b)
