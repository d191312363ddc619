-- ===== src/SlabAllocator/FreeList/Popping.antt =====
-- PopFreeLocked (src/cache/slab_allocator.cc) gives a free slot whenever the class has one.
use dingo_cache.Common.{
  ℕ, ◌+◌, ◌-◌, ◌∙◌, ◌<◌, ◌≡◌, refl, ap, inl, inr, arith, List, [], ◌∷◌, ◌++◌, length, get_or, leb,
  Bool-cases, if◌then◌else◌, Option, none, some,
}
use dingo_cache.SlabAllocator.State.{Class}
use dingo_cache.SlabAllocator.FreeList.Weights.{
  weigh, only, weigh-swap_remove, length-pop_back, is_empty-length,
}
use dingo_cache.SlabAllocator.FreeList.{
  back, pop_back, is_empty, free_of, Placement, pop_at, pop_free,
}
use dingo_cache.SlabAllocator.FreeList.Rotation.{
  room, IsRotation, Replaces, replaces, stay-IsRotation, leave-IsRotation,
}

listed-room :
    (cls : Class) (i : ℕ)
    → IsRotation cls
    → i < length cls.ext_rr
    → 0 < room cls (get_or cls.ext_rr i 0)
listed-room cls i rot inside =
    let e = get_or cls.ext_rr i 0 in
    ground (arith, weigh-swap_remove (only e) cls.ext_rr i inside, rot.once e)

pop_back-append : (xs : List ℕ) → 0 < length xs → pop_back xs ++ back xs ∷ [] ≡ xs
unfolding pop_back back
pop_back-append [] h = absurd (omega arith)
pop_back-append (x ∷ []) h = refl
pop_back-append (x ∷ y ∷ ys) h = ap (x ∷◌) (pop_back-append (y ∷ ys) (omega arith))

weigh-empty : (g : ℕ → ℕ) (xs : List ℕ) → length xs ≡ 0 → weigh g xs ≡ 0
weigh-empty g [] h = refl
weigh-empty g (x ∷ xs) h = absurd (omega arith)

-- What PopFreeLocked gives: nothing when the class has no free slot, or else the top of one extent's stack.
pub Pops : Class → Class → Option Placement → Type 0
Pops cls cls' none = (cls.free_count ≡ 0) × (cls' ≡ cls)
Pops cls cls' (some p) =
    (free_of cls' p.extent ++ p.slot ∷ [] ≡ free_of cls p.extent)
    × (cls'.free_count + 1 ≡ cls.free_count)

module _ (cls : Class) (i : ℕ) (rot : IsRotation cls) (inside : i < length cls.ext_rr) where
  pop_at-Replaces :
      Replaces
        (get_or cls.ext_rr i 0)
        (pop_back (free_of cls (get_or cls.ext_rr i 0)))
        cls
        (pop_at cls i).0
  unfolding pop_at
  pop_at-Replaces =
      let e = get_or cls.ext_rr i 0 in
      replaces e (pop_back (free_of cls e)) cls (pop_at cls i).0 refl

  free_positive : 0 < cls.free_count
  free_positive = omega (
    arith,
    listed-room cls i rot inside,
    weigh-swap_remove (room cls) cls.ext_rr i inside,
    rot.total,
  )

  pop_at-IsRotation : IsRotation (pop_at cls i).0
  unfolding pop_at
  pop_at-IsRotation =
      let e = get_or cls.ext_rr i 0 in
      let stack = pop_back (free_of cls e) in
      let cls' = (pop_at cls i).0 in
      let before : 0 < room cls e = listed-room cls i rot inside in
      let shorter : length stack ≡ room cls e - 1 = length-pop_back (free_of cls e) in
      let count = free_positive in
      elim (Bool-cases (is_empty stack)) [
        | inl gone ↦
            let after : length stack ≡ 0 = ground (arith, is_empty-length stack) in
            leave-IsRotation e stack cls cls' rot pop_at-Replaces i inside refl (rw gone refl) after
              (omega (arith, before))
        | inr left ↦
            let after : 0 < length stack = ground (arith, is_empty-length stack) in
            stay-IsRotation e stack cls cls' rot pop_at-Replaces (rw left refl) before after
              (omega (arith, before))
      ]

  pop_at-Pops : Pops cls (pop_at cls i).0 (some (pop_at cls i).1)
  unfolding pop_at Pops
  pop_at-Pops =
      let e = get_or cls.ext_rr i 0 in
      let new : Replaces e (pop_back (free_of cls e)) cls (pop_at cls i).0 = pop_at-Replaces in
      (
        ap (λ xs. xs ++ back (free_of cls e) ∷ []) new.here
            ∙ pop_back-append (free_of cls e) (listed-room cls i rot inside),
        omega (arith, free_positive),
      )

-- PopFreeLocked on a class whose rotation is right keeps it right; it gives nothing, and changes nothing,
-- only when the class has no free slot; otherwise the slot it gives was on top of the stack of the extent
-- it names, it is taken off that stack, and the count goes down by one.
pub pop_free-Pops :
    (cls : Class)
    → IsRotation cls
    → IsRotation (pop_free cls).0 × Pops cls (pop_free cls).0 (pop_free cls).1
unfolding pop_free Pops
pop_free-Pops cls rot = elim (Bool-cases (is_empty cls.ext_rr)) [
  | inl empty ↦
      let none_listed : length cls.ext_rr ≡ 0 = ground (arith, is_empty-length cls.ext_rr) in
      rw empty
        (rot, (ground (arith, rot.total, weigh-empty (room cls) cls.ext_rr none_listed), refl))
  | inr some_listed ↦
      let long : 0 < length cls.ext_rr = ground (arith, is_empty-length cls.ext_rr) in
      let i = if leb (length cls.ext_rr) cls.rr_next then 0 else cls.rr_next in
      let inside : i < length cls.ext_rr = ground arith in
      rw some_listed (pop_at-IsRotation cls i rot inside, pop_at-Pops cls i rot inside)
]
