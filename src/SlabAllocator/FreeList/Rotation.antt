-- ===== src/SlabAllocator/FreeList/Rotation.antt =====
-- The rotation lists each extent with free slots once, and the count of free slots is right; giving a
-- slot back keeps this.
use dingo_cache.Common.{
  ℕ, ◌+◌, ◌<◌, ◌≡◌, refl, ap, ◌≢◌, inl, inr, arith, List, [], ◌∷◌, ◌++◌, length, get_or, ◌==◌,
  Bool-cases, if◌then◌else◌, some, length-append,
}
use dingo_cache.SlabAllocator.State.{Class}
use dingo_cache.SlabAllocator.FreeList.Weights.{
  weigh, only, weigh-append, weigh-swap_remove, weigh-change, weigh-change_once, is_empty-length,
}
use dingo_cache.SlabAllocator.FreeList.{update, is_empty, swap_remove, free_of, push_free}

-- How many free slots the class has in an extent.
abbrev pub room : Class → ℕ → ℕ
room cls e = length (free_of cls e)

pub record IsRotation (cls : Class) : Type 0 where
  pub once : (e : ℕ) → weigh (only e) cls.ext_rr ≡ (if room cls e == 0 then 0 else 1)
  pub total : cls.free_count ≡ weigh (room cls) cls.ext_rr

-- The stack of one extent is replaced, and the rest of the map is left alone.
pub record Replaces (e : ℕ) (stack : List ℕ) (cls cls' : Class) : Type 0 where
  pub here : free_of cls' e ≡ stack
  pub there : (j : ℕ) → j ≢ e → free_of cls' j ≡ free_of cls j

pub replaces :
    (e : ℕ) (stack : List ℕ) (cls cls' : Class)
    → cls'.free_by_ext ≡ update cls.free_by_ext e (some stack)
    → Replaces e stack cls cls'
unfolding free_of update
replaces e stack cls cls' same =
    let at : (j : ℕ) → cls'.free_by_ext j ≡ (if j == e then some stack else cls.free_by_ext j) =
      λ j. ap (λ f. f j) same in
    record { here = ground (arith, at e); there = λ j ne. ground (arith, at j) }

-- The rotation after a stack has changed, in the three ways in which it follows.
module _ (e : ℕ) (stack : List ℕ) (cls cls' : Class) (rot : IsRotation cls)
    (new : Replaces e stack cls cls') where
  room_here : room cls' e ≡ length stack
  room_here = ap length new.here

  room_there : (x : ℕ) → x ≢ e → room cls' x ≡ room cls x
  room_there x ne = ap length (new.there x ne)

  -- The extent stays listed.
  pub stay-IsRotation :
      cls'.ext_rr ≡ cls.ext_rr
      → 0 < room cls e
      → 0 < length stack
      → cls'.free_count + room cls e ≡ cls.free_count + length stack
      → IsRotation cls'
  stay-IsRotation same some_before some_after count =
      let listed : weigh (only e) cls.ext_rr ≡ 1 = ground (arith, rot.once e) in
      record {
        once = λ x. ground (arith, ap (weigh (only x)) same, rot.once x, room_there x, room_here);
        total = omega (
          arith,
          ap (weigh (room cls')) same,
          weigh-change_once (room cls) (room cls') e cls.ext_rr room_there listed,
          room_here,
          rot.total,
          count,
        );
      }

  -- An extent without free slots gets some.
  enter-IsRotation :
      cls'.ext_rr ≡ cls.ext_rr ++ e ∷ []
      → room cls e ≡ 0
      → 0 < length stack
      → cls'.free_count ≡ cls.free_count + length stack
      → IsRotation cls'
  enter-IsRotation longer none_before some_after count =
      let absent : weigh (only e) cls.ext_rr ≡ 0 = ground (arith, rot.once e) in
      record {
        once = λ x. ground (
          arith,
          ap (weigh (only x)) longer,
          weigh-append (only x) cls.ext_rr (e ∷ []),
          rot.once x,
          room_there x,
          room_here,
        );
        total = omega (
          arith,
          ap (weigh (room cls')) longer,
          weigh-append (room cls') cls.ext_rr (e ∷ []),
          weigh-change (room cls) (room cls') e cls.ext_rr room_there absent,
          room_here,
          rot.total,
          count,
        );
      }

  -- The extent leaves the rotation with its last free slot.
  pub leave-IsRotation :
      (i : ℕ)
      → i < length cls.ext_rr
      → get_or cls.ext_rr i 0 ≡ e
      → cls'.ext_rr ≡ swap_remove cls.ext_rr i
      → length stack ≡ 0
      → cls'.free_count + room cls e ≡ cls.free_count
      → IsRotation cls'
  leave-IsRotation i inside at shorter none_after count =
      let swapped = λ (g : ℕ → ℕ). weigh-swap_remove g cls.ext_rr i inside in
      let mine : (x : ℕ) → only x (get_or cls.ext_rr i 0) ≡ only x e = λ x. ap (only x) at in
      let left : weigh (only e) (swap_remove cls.ext_rr i) ≡ 0 =
        ground (arith, swapped (only e), mine e, rot.once e) in
      let rooms : room cls (get_or cls.ext_rr i 0) ≡ room cls e = ap (room cls) at in
      record {
        once = λ x. ground (
          arith,
          ap (weigh (only x)) shorter,
          swapped (only x),
          mine x,
          rot.once x,
          room_there x,
          room_here,
          left,
        );
        total = omega (
          arith,
          ap (weigh (room cls')) shorter,
          swapped (room cls),
          rooms,
          weigh-change (room cls) (room cls') e (swap_remove cls.ext_rr i) room_there left,
          rot.total,
          count,
        );
      }

-- PushFreeLocked on a class whose rotation is right keeps it right; the slot is on top of the stack of its
-- extent, and the stacks of the other extents stay.
pub push_free-Pushes :
    (cls : Class) (e s : ℕ)
    → IsRotation cls
    → IsRotation (push_free cls e s) × Replaces e (free_of cls e ++ s ∷ []) cls (push_free cls e s)
unfolding push_free
push_free-Pushes cls e s rot =
    let stack = free_of cls e ++ s ∷ [] in
    let long : length stack ≡ length (free_of cls e) + 1 = length-append (free_of cls e) (s ∷ []) in
    let new = replaces e stack cls (push_free cls e s) refl in
    elim (Bool-cases (is_empty (free_of cls e))) [
      | inl empty ↦
          let none_before : room cls e ≡ 0 = ground (arith, is_empty-length (free_of cls e)) in
          let rot' =
            enter-IsRotation e stack cls (push_free cls e s) rot new (rw empty refl) none_before
              (omega arith) (omega arith) in
          (rot', new)
      | inr full ↦
          let some_before : 0 < room cls e = ground (arith, is_empty-length (free_of cls e)) in
          let rot' =
            stay-IsRotation e stack cls (push_free cls e s) rot new (rw full refl) some_before
              (omega arith) (omega arith) in
          (rot', new)
    ]
