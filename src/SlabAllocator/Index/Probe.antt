-- ===== src/SlabAllocator/Index/Probe.antt =====
-- What the probing loops of the index find.
use dingo_cache.Common.{
  ℕ, zero, suc, ◌≡◌, refl, ◌≢◌, ◌⊎◌, inl, inr, Option, none, some, List, arith,
}
use dingo_cache.KvTypes.{BlockKey, key_eq_sound, key_eq_refl}
use dingo_cache.SlabAllocator.Index.Walk.{Visits, Reaches}
use dingo_cache.SlabAllocator.Index.{
  Entry, State, empty, occupied, tombstone, cell, next, probe, vacancy, first_free,
}

pub State-cases : (s : State) → (s ≡ empty) ⊎ ((s ≡ occupied) ⊎ (s ≡ tombstone))
State-cases empty = inl refl
State-cases occupied = inr (inl refl)
State-cases tombstone = inr (inr refl)

-- A bucket that holds a key, under a value.
pub record IsHeld (es : List Entry) (key : BlockKey) (b : ℕ) : Type 0 where
  pub full : (cell es b).state ≡ occupied
  pub same : (cell es b).key ≡ key

-- The loop answers with a bucket that holds the key, at the end of a path without empty buckets.
pub probe_sound :
    (es : List Entry) (key : BlockKey) (n b j : ℕ)
    → probe es key n b ≡ some j
    → IsHeld es key j × Reaches es n b j
unfolding probe
probe_sound es key zero b j h = cc
probe_sound es key (suc n) b j h =
    ground (arith, probe_sound es key n (next es b) j, key_eq_sound (cell es b).key key)

-- If a bucket on such a path holds the key, the loop does not miss the key.
pub probe_complete :
    (es : List Entry) (key : BlockKey) (n b j : ℕ)
    → Reaches es n b j
    → IsHeld es key j
    → probe es key n b ≢ none
unfolding probe
probe_complete es key zero b j r held = elim r [ ]
probe_complete es key (suc n) b j (inl e) held = ground (arith, key_eq_refl key)
probe_complete es key (suc n) b j (inr (full, r)) held =
    ground (arith, probe_complete es key n (next es b) j r held)

-- The target of an insertion is free, and a probe for the new key gets there.
pub vacancy_sound :
    (es : List Entry) (n b t : ℕ) (tomb : Option ℕ)
    → vacancy es n b tomb ≡ some t
    → (tomb ≡ some t) ⊎ (((cell es t).state ≢ occupied) × Reaches es n b t)
unfolding vacancy
vacancy_sound es zero b t tomb h = cc
vacancy_sound es (suc n) b t none h =
    ground (arith, vacancy_sound es n (next es b) t none, vacancy_sound es n (next es b) t (some b))
vacancy_sound es (suc n) b t (some u) h = ground (arith, vacancy_sound es n (next es b) t (some u))

-- A table with an empty bucket has room.
pub vacancy_complete :
    (es : List Entry) (n b j : ℕ) (tomb : Option ℕ)
    → Visits es n b j
    → (cell es j).state ≡ empty
    → vacancy es n b tomb ≢ none
unfolding vacancy
vacancy_complete es zero b j tomb v e = elim v [ ]
vacancy_complete es (suc n) b j none (inl same) e = ground arith
vacancy_complete es (suc n) b j (some u) (inl same) e = ground arith
vacancy_complete es (suc n) b j none (inr v) e = ground (
  arith,
  vacancy_complete es n (next es b) j none v e,
  vacancy_complete es n (next es b) j (some b) v e,
)
vacancy_complete es (suc n) b j (some u) (inr v) e =
    ground (arith, vacancy_complete es n (next es b) j (some u) v e)

-- The copying loop of a rehash ends at a bucket that is not occupied, if there is one.
pub first_free_sound :
    (es : List Entry) (n b j : ℕ)
    → Visits es n b j
    → (cell es j).state ≡ empty
    → ((cell es (first_free es n b)).state ≢ occupied) × Reaches es n b (first_free es n b)
unfolding first_free
first_free_sound es zero b j v e = elim v [ ]
first_free_sound es (suc n) b j (inl same) e = ground arith
first_free_sound es (suc n) b j (inr v) e = ground (arith, first_free_sound es n (next es b) j v e)
