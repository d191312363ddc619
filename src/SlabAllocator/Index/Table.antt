-- ===== src/SlabAllocator/Index/Table.antt =====
-- The table of the index as a finite map: what a single write does to it.
use native.Mathlib.Decide.{ℕ_discrete}
use dingo_cache.Common.{
  ℕ, ◌<◌, ◌≡◌, ◌≢◌, List, ◌↔◌, arith, length, set, if◌then◌else◌, ◌==◌, IsPowTwo, length-set,
  get_or-set_self, get_or-set_ne, get_or-beyond,
}
use dingo_cache.KvTypes.{BlockKey}
use dingo_cache.SlabAllocator.Index.Walk.{Reaches, Reaches-mono}
use dingo_cache.SlabAllocator.Index.Probe.{IsHeld}
use dingo_cache.SlabAllocator.Index.{Entry, empty, occupied, no_entry, cell, home}

-- Each key is held once, where a probe for it finds it.
pub record IsTable (es : List Entry) : Type 0 where
  pub sized : 0 < length es → IsPowTwo (length es)
  pub reach :
      (b : ℕ) → (cell es b).state ≡ occupied → Reaches es (length es) (home es (cell es b).key) b
  pub unique : (k : BlockKey) (i j : ℕ) → IsHeld es k i → IsHeld es k j → i ≡ j

abbrev pub Absent : List Entry → BlockKey → Type 0
Absent es k = (b : ℕ) → ¬ IsHeld es k b

pub cell-set :
    (es : List Entry) (t : ℕ) (e : Entry) (b : ℕ)
    → t < length es
    → cell (set es t e) b ≡ (if b == t then e else cell es b)
cell-set es t e b h = elim (ℕ_discrete b t) [
  | yes same ↦ rw same (ground (arith, get_or-set_self es t e no_entry h))
  | no other ↦ ground (arith, get_or-set_ne es t b e no_entry)
]

-- An occupied bucket lies in the table.
pub inside : (es : List Entry) (b : ℕ) → (cell es b).state ≢ empty → b < length es
inside es b full = ground (arith, get_or-beyond es b no_entry)

pub home-set :
    (es : List Entry) (t : ℕ) (e : Entry) (k : BlockKey) → home (set es t e) k ≡ home es k
unfolding home
home-set es t e k = rw (length-set es t e)

-- A write that empties no bucket cuts no path.
pub Reaches-set :
    (es : List Entry) (t : ℕ) (e : Entry) (n b j : ℕ)
    → t < length es
    → e.state ≢ empty
    → Reaches es n b j
    → Reaches (set es t e) n b j
Reaches-set es t e n b j h full =
    Reaches-mono es (set es t e) (length-set es t e) (λ c old. ground (arith, cell-set es t e c h))
      n b j

-- What a write holds where it writes, and elsewhere.
module _ (es : List Entry) (t : ℕ) (e : Entry) (h : t < length es) where
  pub IsHeld-set_self : (k : BlockKey) → e.state ≡ occupied → e.key ≡ k → IsHeld (set es t e) k t
  IsHeld-set_self k full same = rw (← same) (record {
    full = ground (arith, cell-set es t e t h);
    same = ground (arith, cell-set es t e t h);
  })

  pub IsHeld-at_set : (k : BlockKey) → IsHeld (set es t e) k t → (e.state ≡ occupied) × (e.key ≡ k)
  IsHeld-at_set k held = ground (arith, cell-set es t e t h)

  pub IsHeld-set_ne : (k : BlockKey) (b : ℕ) → b ≢ t → IsHeld (set es t e) k b ↔ IsHeld es k b
  IsHeld-set_ne k b other = (
    λ held. record {
      full = ground (arith, cell-set es t e b h);
      same = ground (arith, cell-set es t e b h);
    },
    λ held. record {
      full = ground (arith, cell-set es t e b h);
      same = ground (arith, cell-set es t e b h);
    },
  )

-- A bucket that keeps its place in the order of probes may take a new key, or give up its key.
pub IsTable-set :
    (es : List Entry) (t : ℕ) (e : Entry)
    → IsTable es
    → t < length es
    → e.state ≢ empty
    → (e.state ≡ occupied → Reaches es (length es) (home es e.key) t)
    → (e.state ≡ occupied → (b : ℕ) → b ≢ t → ¬ IsHeld es e.key b)
    → IsTable (set es t e)
IsTable-set es t e table h full way alone = record {
  sized = λ pos. rw (length-set es t e) (table.sized (omega arith));
  reach = reach;
  unique = unique;
}
  where
    reach :
        (b : ℕ)
        → (cell (set es t e) b).state ≡ occupied
        → Reaches (set es t e) (length (set es t e)) (home (set es t e) (cell (set es t e) b).key) b
    reach b occ = elim (ℕ_discrete b t) [
      | yes same ↦
          let here : cell (set es t e) b ≡ e = ground (arith, cell-set es t e b h) in
          rw (length-set es t e, home-set es t e, here, same)
            (Reaches-set es t e (length es) (home es e.key) t h full (way (ground arith)))
      | no other ↦
          let here : cell (set es t e) b ≡ cell es b = ground (arith, cell-set es t e b h) in
          rw (length-set es t e, home-set es t e, here)
            (Reaches-set es t e (length es) (home es (cell es b).key) b h full
              (table.reach b (ground arith)))
    ]

    elsewhere :
        (k : BlockKey) (j : ℕ) → j ≢ t → IsHeld (set es t e) k t → IsHeld (set es t e) k j → ⊥
    elsewhere k j other p q =
        let (occ, same) = IsHeld-at_set es t e h k p in
        alone occ j other (rw same ((IsHeld-set_ne es t e h k j other).0 q))

    unique : (k : BlockKey) (i j : ℕ) → IsHeld (set es t e) k i → IsHeld (set es t e) k j → i ≡ j
    unique k i j p q = elim (ℕ_discrete i t) [
      | yes at ↦ elim (ℕ_discrete j t) [
        | yes too ↦ cc
        | no other ↦ absurd (elsewhere k j other (rw at at p) q)
      ]
      | no off ↦ elim (ℕ_discrete j t) [
        | yes at ↦ absurd (elsewhere k i off (rw at at q) p)
        | no other ↦
            table.unique k i j ((IsHeld-set_ne es t e h k i off).0 p)
              ((IsHeld-set_ne es t e h k j other).0 q)
      ]
    ]
