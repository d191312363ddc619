-- ===== src/SlabAllocator/FreeList/Taking.antt =====
-- Taking one given slot, or all slots of an extent, out of the free slots keeps the rotation right.
use dingo_cache.Common.{
  ℕ, ◌+◌, ◌-◌, ◌≤◌, ◌<◌, ◌≡◌, refl, ap, ◌≢◌, inl, inr, Bool, true, false, arith, List, [], length,
  get_or, ltb, Bool-cases, some,
}
use dingo_cache.SlabAllocator.State.{Class}
use dingo_cache.SlabAllocator.FreeList.Weights.{
  weigh, only, weigh-swap_remove, weigh-change, length-swap_remove, position-lt, get_or-position,
  weigh-absent, is_empty-length,
}
use dingo_cache.SlabAllocator.FreeList.{
  update, is_empty, position, swap_remove, free_of, drop_from_rotation, take_free_slot,
}
use dingo_cache.SlabAllocator.FreeList.Rotation.{
  room, IsRotation, Replaces, replaces, stay-IsRotation, leave-IsRotation,
}

-- An extent with a free slot stands at its position in the rotation.
pub listed :
    (cls : Class) (e : ℕ)
    → IsRotation cls
    → 0 < room cls e
    → position cls.ext_rr e < length cls.ext_rr
listed cls e rot some_free =
    let once : weigh (only e) cls.ext_rr ≡ 1 = ground (arith, rot.once e) in
    position-lt cls.ext_rr e (omega arith)

-- An extent that is not in the rotation has no free slot.
pub unlisted :
    (cls : Class) (e : ℕ)
    → IsRotation cls
    → length cls.ext_rr ≤ position cls.ext_rr e
    → room cls e ≡ 0
unlisted cls e rot outside = ground (arith, weigh-absent cls.ext_rr e outside, rot.once e)

-- An extent without free slots keeps that, and nothing else changes.
pub keep-IsRotation :
    (cls cls' : Class) (e : ℕ)
    → IsRotation cls
    → Replaces e [] cls cls'
    → cls'.ext_rr ≡ cls.ext_rr
    → room cls e ≡ 0
    → cls'.free_count ≡ cls.free_count
    → IsRotation cls'
keep-IsRotation cls cls' e rot new same none_free count =
    let here : room cls' e ≡ 0 = ap length new.here in
    let there : (x : ℕ) → x ≢ e → room cls' x ≡ room cls x = λ x ne. ap length (new.there x ne) in
    let absent : weigh (only e) cls.ext_rr ≡ 0 = ground (arith, rot.once e) in
    record {
      once = λ x. ground (arith, ap (weigh (only x)) same, rot.once x, there x, here);
      total = omega (
        arith,
        ap (weigh (room cls')) same,
        weigh-change (room cls) (room cls') e cls.ext_rr there absent,
        rot.total,
        count,
      );
    }

-- The last free slots of an extent go, and the extent leaves the rotation.
pub drop-IsRotation :
    (cls cls' : Class) (e : ℕ) (stack : List ℕ)
    → IsRotation cls
    → Replaces e stack cls cls'
    → length stack ≡ 0
    → cls'.ext_rr ≡ cls.ext_rr
    → 0 < room cls e
    → cls'.free_count + room cls e ≡ cls.free_count
    → IsRotation (drop_from_rotation cls' e)
unfolding drop_from_rotation free_of
drop-IsRotation cls cls' e stack rot new none_after same some_before count =
    let i = position cls.ext_rr e in
    let inside : i < length cls.ext_rr = listed cls e rot some_before in
    let pos : position cls'.ext_rr e ≡ i = ap (λ xs. position xs e) same in
    let inside' : ltb (position cls'.ext_rr e) (length cls'.ext_rr) ≡ true =
      ground (arith, pos, ap length same) in
    let at : get_or cls.ext_rr i 0 ≡ e = get_or-position cls.ext_rr e inside in
    let shorter : swap_remove cls'.ext_rr (position cls'.ext_rr e) ≡ swap_remove cls.ext_rr i =
      ap (λ xs. swap_remove xs (position xs e)) same in
    rw inside' (
      leave-IsRotation e stack cls _ rot (record { here = new.here; there = new.there }) i inside at
        shorter none_after count)

pub room_le_count :
    (cls : Class) (e : ℕ) → IsRotation cls → 0 < room cls e → room cls e ≤ cls.free_count
room_le_count cls e rot some_free =
    let i = position cls.ext_rr e in
    let inside : i < length cls.ext_rr = listed cls e rot some_free in
    let at : room cls (get_or cls.ext_rr i 0) ≡ room cls e =
      ap (room cls) (get_or-position cls.ext_rr e inside) in
    omega (arith, at, weigh-swap_remove (room cls) cls.ext_rr i inside, rot.total)

pub drop-free_of : (cls : Class) (e j : ℕ) → free_of (drop_from_rotation cls e) j ≡ free_of cls j
unfolding drop_from_rotation free_of
drop-free_of cls e j = elim (Bool-cases (ltb (position cls.ext_rr e) (length cls.ext_rr))) [
  | inl hit ↦ rw hit refl
  | inr miss ↦ rw miss refl
]

-- What TakeFreeSlotLocked does: the slot is taken once off the stack of its extent, which is true, or else the
-- slot is not free there, and nothing changes.
pub Takes : Class → ℕ → ℕ → Class → Bool → Type 0
Takes cls e slot cls' true =
    weigh (only slot) (free_of cls' e) + 1 ≡ weigh (only slot) (free_of cls e)
Takes cls e slot cls' false = (weigh (only slot) (free_of cls e) ≡ 0) × (cls' ≡ cls)

-- TakeFreeSlotLocked on a class whose rotation is right keeps it right; it is true when it has taken the
-- slot once off the stack of the extent, and when it is false the slot was not there and nothing changes.
pub take_free_slot-Takes :
    (cls : Class) (e slot : ℕ)
    → IsRotation cls
    → IsRotation (take_free_slot cls e slot).0
      × Takes cls e slot (take_free_slot cls e slot).0 (take_free_slot cls e slot).1
unfolding take_free_slot Takes
take_free_slot-Takes cls e slot rot =
    let slots = free_of cls e in
    let i = position slots slot in
    let rest = swap_remove slots i in
    let taken : Class = record cls {
      free_by_ext = update cls.free_by_ext e (some rest);
      free_count = cls.free_count - 1;
    } in
    let new : Replaces e rest cls taken = replaces e rest cls taken refl in
    elim (Bool-cases (ltb i (length slots))) [
      | inl hit ↦
          let inside : i < length slots = ground arith in
          let some_before : 0 < room cls e = omega arith in
          let shorter : length rest ≡ length slots - 1 = length-swap_remove slots i in
          let positive : 0 < cls.free_count = omega (arith, room_le_count cls e rot some_before) in
          let found : only slot (get_or slots i 0) ≡ only slot slot =
            ap (only slot) (get_or-position slots slot inside) in
          let once : weigh (only slot) rest + 1 ≡ weigh (only slot) slots =
            ground (arith, weigh-swap_remove (only slot) slots i inside, found) in
          let stack_of : weigh (only slot) (free_of taken e) ≡ weigh (only slot) rest =
            ap (weigh (only slot)) new.here in
          elim (Bool-cases (is_empty rest)) [
            | inl gone ↦
                let none_after : length rest ≡ 0 = ground (arith, is_empty-length rest) in
                let dropped = ap (weigh (only slot)) (drop-free_of taken e e) in
                rw (hit, gone)
                  (
                    drop-IsRotation cls taken e rest rot new none_after refl some_before
                        (omega arith),
                    omega (arith, dropped, stack_of, once),
                  )
            | inr left ↦
                let some_after : 0 < length rest = ground (arith, is_empty-length rest) in
                rw (hit, left)
                  (
                    stay-IsRotation e rest cls taken rot new refl some_before some_after
                        (omega arith),
                    omega (arith, stack_of, once),
                  )
          ]
      | inr miss ↦ rw miss (rot, (weigh-absent slots slot (ground arith), refl))
    ]
