-- ===== src/SlabAllocator/FreeList/Dropping.antt =====
-- DropExtentFreeLocked (src/cache/slab_allocator.cc): all free slots of an extent are dropped.
use dingo_cache.Common.{
  ℕ, subst, ◌+◌, ◌-◌, ◌<◌, ◌≡◌, refl, sym, ap, ◌∙◌, inl, inr, arith, List, [], length, ltb, ◌==◌,
  Bool-cases, if◌then◌else◌, none, some, Option-cases,
}
use dingo_cache.SlabAllocator.State.{Class}
use dingo_cache.SlabAllocator.FreeList.Weights.{weigh, only, weigh-swap_remove, get_or-position}
use dingo_cache.SlabAllocator.FreeList.{
  update, position, free_of, drop_from_rotation, drop_extent_free,
}
use dingo_cache.SlabAllocator.FreeList.Rotation.{room, IsRotation, Replaces}
use dingo_cache.SlabAllocator.FreeList.Taking.{
  keep-IsRotation, drop-IsRotation, room_le_count, drop-free_of,
}

drop_from_rotation_count :
    (cls : Class) (e : ℕ) → (drop_from_rotation cls e).free_count ≡ cls.free_count
unfolding drop_from_rotation
drop_from_rotation_count cls e =
    elim (Bool-cases (ltb (position cls.ext_rr e) (length cls.ext_rr))) [
      | inl hit ↦ rw hit refl
      | inr miss ↦ rw miss refl
    ]

drop_from_rotation-absent :
    (cls : Class) (e : ℕ) → weigh (only e) cls.ext_rr ≡ 0 → drop_from_rotation cls e ≡ cls
unfolding drop_from_rotation
drop_from_rotation-absent cls e absent =
    elim (Bool-cases (ltb (position cls.ext_rr e) (length cls.ext_rr))) [
      | inl hit ↦ absurd (not_listed (ground arith))
      | inr miss ↦ rw miss refl
    ]
  where
    not_listed : ¬ position cls.ext_rr e < length cls.ext_rr
    not_listed inside =
        let at = ap (only e) (get_or-position cls.ext_rr e inside) in
        ground (arith, at, weigh-swap_remove (only e) cls.ext_rr (position cls.ext_rr e) inside)

empties :
    (e : ℕ) (cls cls' : Class)
    → cls'.free_by_ext ≡ update cls.free_by_ext e none
    → Replaces e [] cls cls'
unfolding free_of update
empties e cls cls' same =
    let at : (j : ℕ) → cls'.free_by_ext j ≡ (if j == e then none else cls.free_by_ext j) =
      λ j. ap (λ f. f j) same in
    record { here = ground (arith, at e); there = λ j ne. ground (arith, at j) }

-- What DropExtentFreeLocked does: the extent has no free slot left, and the rest stays.
pub record Drops (cls : Class) (e : ℕ) (cls' : Class) : Type 0 where
  pub rotation : IsRotation cls'
  pub stacks : Replaces e [] cls cls'
  pub count : cls'.free_count + room cls e ≡ cls.free_count

drop_all :
    (cls cls' : Class) (e : ℕ)
    → IsRotation cls
    → Replaces e [] cls cls'
    → cls'.ext_rr ≡ cls.ext_rr
    → cls'.free_count ≡ cls.free_count - room cls e
    → Drops cls e (drop_from_rotation cls' e)
drop_all cls cls' e rot new same less = elim (Bool-cases (0 == room cls e)) [
  | inl none_free ↦
      let none_before : room cls e ≡ 0 = ground arith in
      let kept : IsRotation cls' =
        keep-IsRotation cls cls' e rot new same none_before (omega arith) in
      let absent : weigh (only e) cls'.ext_rr ≡ 0 =
        ground (arith, ap (weigh (only e)) same, rot.once e, none_before) in
      subst (Drops cls e) (sym (drop_from_rotation-absent cls' e absent))
        (record { rotation = kept; stacks = new; count = omega arith })
  | inr some_free ↦
      let some_before : 0 < room cls e = ground arith in
      let listed_sum : cls.free_count ≡ cls.free_count - room cls e + room cls e =
        omega (arith, room_le_count cls e rot some_before) in
      record {
        rotation = drop-IsRotation cls cls' e [] rot new refl same some_before (omega arith);
        stacks = record {
          here = drop-free_of cls' e e ∙ new.here;
          there = λ j ne. drop-free_of cls' e j ∙ new.there j ne;
        };
        count = omega (arith, drop_from_rotation_count cls' e);
      }
]

-- DropExtentFreeLocked on a class whose rotation is right keeps it right and leaves no free slot in the
-- extent; the free slots of every other extent stay, and the count goes down by the number of slots that
-- were free in the extent.
pub drop_extent_free-Drops :
    (cls : Class) (e : ℕ) → IsRotation cls → Drops cls e (drop_extent_free cls e)
unfolding drop_extent_free free_of update
drop_extent_free-Drops cls e rot = elim (Option-cases (cls.free_by_ext e)) [
  | inl missing ↦
      rw (missing, drop_extent_free)
        (record {
          rotation = rot;
          stacks = record { here = none_here missing; there = λ j ne. refl };
          count = omega (arith, ap length (none_here missing));
        })
  | inr (slots, found) ↦
      let cut : Class = record cls {
        free_by_ext = update cls.free_by_ext e none;
        free_count = cls.free_count - length slots;
      } in
      let stack : room cls e ≡ length slots = ap length (there found) in
      let new : Replaces e [] cls cut = empties e cls cut refl in
      rw (found, drop_extent_free) (drop_all cls cut e rot new refl (omega arith))
]
  where
    none_here : cls.free_by_ext e ≡ none → free_of cls e ≡ []
    none_here missing = rw (missing, free_of) refl

    there : {slots : List ℕ} → cls.free_by_ext e ≡ some slots → free_of cls e ≡ slots
    there found = rw (found, free_of) refl
