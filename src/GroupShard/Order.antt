-- ===== src/GroupShard/Order.antt =====
-- Sharding neither loses nor reorders an index, and it makes no more shards than it may.
use native.Mathlib.Nat.{lt-mul-div-succ}
use dingo_cache.Common.{
  ℕ, zero, suc, ◌⊎◌, ◌+◌, ◌-◌, ◌*◌, ◌/◌, ◌≤◌, ◌<◌, ◌≡◌, refl, sym, ap, ap₂, ◌∙◌, inl, inr, arith,
  List, [], ◌∷◌, ◌++◌, map, leb, ◌==◌, ◌||◌, length, take, drop, take-append-drop, length-drop,
  Bool-cases, max,
}
use dingo_cache.GroupShard.{shard_count, slices, shards_of, shard_all, shard_groups}

length-map {ℓ ℓ'} :
    {A : Type ℓ} {B : Type ℓ'} (f : A → B) (xs : List A) → length (map f xs) ≡ length xs
length-map f [] = refl
length-map f (x ∷ xs) = ap suc (length-map f xs)

module _ {ℓ} {A : Type ℓ} where
  -- No more slices than it takes to cover the indices.
  length-slices :
      (m n per : ℕ) (idx : List A) → length idx ≤ m * per → length (slices n per idx) ≤ m
  unfolding slices
  length-slices m zero per idx le = omega arith
  length-slices m (suc n) per [] le = omega arith
  length-slices zero (suc n) per (x ∷ xs) le = absurd (omega arith)
  length-slices (suc m) (suc n) per (x ∷ xs) le =
      let more : suc m * per ≡ m * per + per = omega arith in
      let rest =
        length-slices m n per (drop per (x ∷ xs)) (omega (arith, length-drop per (x ∷ xs), more)) in
      omega (arith, rest)

module _ {ℓ ℓ'} {K : Type ℓ} {A : Type ℓ'} where
  -- Indices with the name of their group.
  abbrev pub tag : K → List A → List (K × A)
  tag k [] = []
  tag k (x ∷ xs) = (k, x) ∷ tag k xs

  -- All indices in their order, each with the name of its group.
  abbrev pub all_indices : List (K × List A) → List (K × A)
  all_indices [] = []
  all_indices ((k, idx) ∷ gs) = tag k idx ++ all_indices gs

  append_assoc : (xs ys zs : List (K × A)) → (xs ++ ys) ++ zs ≡ xs ++ (ys ++ zs)
  append_assoc [] ys zs = refl
  append_assoc (x ∷ xs) ys zs = ap (x ∷◌) (append_assoc xs ys zs)

  all_indices-append :
      (gs hs : List (K × List A)) → all_indices (gs ++ hs) ≡ all_indices gs ++ all_indices hs
  all_indices-append [] hs = refl
  all_indices-append ((k, idx) ∷ gs) hs =
      ap (tag k idx ++◌) (all_indices-append gs hs)
      ∙ sym (append_assoc (tag k idx) (all_indices gs) (all_indices hs))

  tag-append : (k : K) (xs ys : List A) → tag k (xs ++ ys) ≡ tag k xs ++ tag k ys
  tag-append k [] ys = refl
  tag-append k (x ∷ xs) ys = ap ((k, x) ∷◌) (tag-append k xs ys)

  append_nil : (xs : List (K × A)) → xs ++ [] ≡ xs
  append_nil [] = refl
  append_nil (x ∷ xs) = ap (x ∷◌) (append_nil xs)

  -- The fuel is enough when a slice has an index at least.
  all_indices-slices :
      (n per : ℕ) (k : K) (idx : List A)
      → 0 < per
      → length idx ≤ n
      → all_indices (map (λ slice. (k, slice)) (slices n per idx)) ≡ tag k idx
  unfolding slices
  all_indices-slices zero per k [] pos le = refl
  all_indices-slices zero per k (x ∷ xs) pos le = absurd (omega arith)
  all_indices-slices (suc n) per k [] pos le = refl
  all_indices-slices (suc n) per k (x ∷ xs) pos le =
      let rest =
        all_indices-slices n per k (drop per (x ∷ xs)) pos
          (omega (arith, length-drop per (x ∷ xs))) in
      ap (tag k (take per (x ∷ xs)) ++◌) rest
      ∙ sym (tag-append k (take per (x ∷ xs)) (drop per (x ∷ xs)))
      ∙ ap (tag k) (take-append-drop per (x ∷ xs))

-- A group of `n` in `m` shards: the size of a slice covers it.
covers : (n m : ℕ) → 0 < m → n ≤ m * ((n + m - 1) / m)
covers n m pos = let top = lt-mul-div-succ (n + m - 1) pos in grind (arith, top)

-- A slice of a group with indices has one at least.
slice_positive : (len n : ℕ) → 0 < n → 0 < len → 0 < (len + n - 1) / n
slice_positive len n pos some_index = elim (Bool-cases ((len + n - 1) / n == 0)) [
  | inl none_fit ↦
      let zero_per : (len + n - 1) / n ≡ 0 = ground arith in
      let none_left : n * ((len + n - 1) / n) ≡ 0 = rw zero_per (omega arith) in
      absurd (omega (arith, covers len n pos, none_left))
  | inr some_fit ↦ ground arith
]

module _ {ℓ ℓ'} {K : Type ℓ} {A : Type ℓ'} where
  -- A group is cut into slices, or left alone.
  shards_of_cases :
      (target maxc : ℕ) (k : K) (idx : List A)
      → (shards_of target maxc (k, idx) ≡ (k, idx) ∷ [])
        ⊎ ((n : ℕ) × ((1 < n)
              × (n ≤ maxc)
              × (shards_of target maxc (k, idx)
                  ≡ map
                      (λ slice. (k, slice))
                      (slices (length idx) ((length idx + n - 1) / n) idx))))
  unfolding shards_of shard_count
  shards_of_cases target maxc k idx =
      let nsh = shard_count (length idx) target maxc in
      elim (Bool-cases (leb nsh 1)) [
        | inl one ↦ inl (rw one refl)
        | inr many ↦ inr (nsh, (ground arith, ground arith, rw many refl))
      ]

  all_indices-shards_of :
      (target maxc : ℕ) (k : K) (idx : List A)
      → all_indices (shards_of target maxc (k, idx)) ≡ tag k idx
  unfolding slices
  all_indices-shards_of target maxc k idx = elim (shards_of_cases target maxc k idx) [
    | inl one ↦ ap all_indices one ∙ append_nil (tag k idx)
    | inr (n, (many, few, cut)) ↦ ap all_indices cut ∙ all_slices n (omega (arith, many)) idx
  ]
    where
      all_slices :
          (n : ℕ)
          → 0 < n
          → (idx : List A)
          → all_indices
              (map (λ slice. (k, slice)) (slices (length idx) ((length idx + n - 1) / n) idx))
            ≡ tag k idx
      all_slices n pos [] = refl
      all_slices n pos (x ∷ xs) =
          all_indices-slices (length (x ∷ xs)) ((length (x ∷ xs) + n - 1) / n) k (x ∷ xs)
            (slice_positive (length (x ∷ xs)) n pos (omega arith)) (omega arith)

  -- Sharding leaves the indices, each with the name of its group, as they are and in their order, for
  -- every target and every number of connections.
  pub all_indices-shard_groups :
      (gs : List (K × List A)) (target maxc : ℕ)
      → all_indices (shard_groups gs target maxc) ≡ all_indices gs
  unfolding shard_groups shard_all
  all_indices-shard_groups gs target maxc = elim (Bool-cases (leb maxc 1 || target == 0)) [
    | inl off ↦ rw off refl
    | inr on ↦ rw on (all gs)
  ]
    where
      all : (hs : List (K × List A)) → all_indices (shard_all target maxc hs) ≡ all_indices hs
      all [] = refl
      all ((k, idx) ∷ hs) =
          all_indices-append (shards_of target maxc (k, idx)) (shard_all target maxc hs)
          ∙ ap₂ (λ a b. a ++ b) (all_indices-shards_of target maxc k idx) (all hs)

  -- Every group becomes at most as many shards as there may be connections, or one.
  pub length-shards_of :
      (target maxc : ℕ) (g : K × List A) → length (shards_of target maxc g) ≤ max 1 maxc
  length-shards_of target maxc (k, idx) = elim (shards_of_cases target maxc k idx) [
    | inl one ↦ omega (arith, ap length one)
    | inr (n, (many, few, cut)) ↦
        let per = (length idx + n - 1) / n in
        omega (
          arith,
          ap length cut,
          length-map {B = K × List A} (λ slice. (k, slice)) (slices (length idx) per idx),
          length-slices n (length idx) per idx (covers (length idx) n (omega (arith, many))),
          few,
        )
  ]
