-- ===== src/SlabAllocator/Index/Tally.antt =====
-- Counting the buckets of the index by their state: a table that is not full has an empty bucket.
use dingo_cache.Common.{
  ℕ, zero, suc, ◌+◌, ◌≤◌, ◌<◌, ◌≡◌, refl, List, [], ◌∷◌, arith, length, set, replicate,
}
use dingo_cache.SlabAllocator.Index.{Entry, State, empty, occupied, tombstone, no_entry, cell}

abbrev pub live_weight : State → ℕ
live_weight occupied = 1
live_weight _ = 0

abbrev pub dead_weight : State → ℕ
dead_weight tombstone = 1
dead_weight _ = 0

-- The number of buckets, each as often as its state weighs.
abbrev pub tally : (State → ℕ) → List Entry → ℕ
tally w [] = 0
tally w (e ∷ es) = w e.state + tally w es

pub tally-set :
    (w : State → ℕ) (es : List Entry) (t : ℕ) (e : Entry)
    → t < length es
    → tally w (set es t e) + w (cell es t).state ≡ tally w es + w e.state
tally-set w [] t e h = elim h [ ]
tally-set w (x ∷ es) zero e h = omega arith
tally-set w (x ∷ es) (suc t) e h = omega (arith, tally-set w es t e (omega arith))

pub tally-replicate : (w : State → ℕ) (n : ℕ) → w empty ≡ 0 → tally w (replicate n no_entry) ≡ 0
tally-replicate w zero z = refl
tally-replicate w (suc n) z = omega (arith, tally-replicate w n z)

pub tally-le : (es : List Entry) → tally live_weight es ≤ length es
tally-le [] = omega arith
tally-le (e ∷ es) = ground (arith, tally-le es)

abbrev pub HasVacancy : List Entry → Type 0
HasVacancy es = (j : ℕ) × (j < length es) × ((cell es j).state ≡ empty)

vacant-cons :
    (e : Entry) (es : List Entry) (s : State)
    → e.state ≡ s
    → tally live_weight (e ∷ es) + tally dead_weight (e ∷ es) < length (e ∷ es)
    → (tally live_weight es + tally dead_weight es < length es → HasVacancy es)
    → HasVacancy (e ∷ es)
vacant-cons e es empty same h later = (0, omega arith, same)
vacant-cons e es occupied same h later =
    let (j, lt, free) = later (ground arith) in (suc j, omega arith, free)
vacant-cons e es tombstone same h later =
    let (j, lt, free) = later (ground arith) in (suc j, omega arith, free)

pub vacant :
    (es : List Entry) → tally live_weight es + tally dead_weight es < length es → HasVacancy es
vacant [] h = elim h [ ]
vacant (e ∷ es) h = vacant-cons e es e.state refl h (vacant es)
