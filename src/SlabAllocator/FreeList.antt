-- ===== src/SlabAllocator/FreeList.antt =====
-- src/cache/slab_allocator.cc: the free slots of a class, in one stack for each extent, and the
-- rotation `ext_rr` of the extents that have some.
pub mod Weights
pub mod Rotation
pub mod Taking
pub mod Popping
pub mod Dropping
pub mod Tests
use dingo_cache.Common.{
  ℕ, zero, suc, ◌+◌, ◌-◌, Bool, true, false, not, ◌&&◌, Option, none, some, List, [], ◌∷◌, ◌++◌,
  ltb, leb, ◌==◌, if◌then◌else◌, length, get_or, set,
}
use dingo_cache.SlabAllocator.State.{Class}

unfoldable pub update : (ℕ → Option (List ℕ)) → ℕ → Option (List ℕ) → ℕ → Option (List ℕ)
update f k v j = if j == k then v else f j

-- `back()`, which is 0 here for an empty vector, and `pop_back()`.
unfoldable pub back : List ℕ → ℕ
back [] = 0
back (x ∷ []) = x
back (x ∷ y ∷ ys) = back (y ∷ ys)

unfoldable pub pop_back : List ℕ → List ℕ
pop_back [] = []
pop_back (x ∷ []) = []
pop_back (x ∷ y ∷ ys) = x ∷ pop_back (y ∷ ys)

abbrev pub is_empty {ℓ} : {A : Type ℓ} → List A → Bool
is_empty [] = true
is_empty (x ∷ xs) = false

-- The number of the first occurrence, or the length.
unfoldable pub position : List ℕ → ℕ → ℕ
position [] a = 0
position (x ∷ xs) a = if x == a then 0 else position xs a + 1

-- `v[i] = v.back(); v.pop_back();`
unfoldable pub swap_remove : List ℕ → ℕ → List ℕ
swap_remove xs i = pop_back (set xs i (back xs))

-- `free_by_ext[extent]`, which makes an empty stack where there is none.
unfoldable pub free_of : Class → ℕ → List ℕ
free_of cls e = elim (cls.free_by_ext e) [ none ↦ [] | some slots ↦ slots ]

-- PushFreeLocked.
unfoldable pub push_free : Class → ℕ → ℕ → Class
push_free cls extent slot = record cls {
  free_by_ext = update cls.free_by_ext extent (some (free_of cls extent ++ slot ∷ []));
  ext_rr = if is_empty (free_of cls extent) then cls.ext_rr ++ extent ∷ [] else cls.ext_rr;
  free_count = cls.free_count + 1;
}

pub record Placement : Type 0 where
  pub extent : ℕ
  pub slot : ℕ

-- The rest of PopFreeLocked, once `rr_next` is in range.
unfoldable pub pop_at : Class → ℕ → Class × Placement
pop_at cls rr =
    let extent = get_or cls.ext_rr rr 0 in
    let slots = free_of cls extent in
    let rest = pop_back slots in
    (
      record cls {
        free_by_ext = update cls.free_by_ext extent (some rest);
        ext_rr = if is_empty rest then swap_remove cls.ext_rr rr else cls.ext_rr;
        rr_next = if is_empty rest then rr else rr + 1;
        free_count = cls.free_count - 1;
      },
      record { extent = extent; slot = back slots },
    )

-- PopFreeLocked.
unfoldable pub pop_free : Class → Class × Option Placement
pop_free cls =
    let rr = if leb (length cls.ext_rr) cls.rr_next then 0 else cls.rr_next in
    let (cls', p) = pop_at cls rr in if is_empty cls.ext_rr then (cls, none) else (cls', some p)

-- DropFromRotationLocked: the first occurrence, if there is one.
unfoldable pub drop_from_rotation : Class → ℕ → Class
drop_from_rotation cls extent =
    let i = position cls.ext_rr extent in
    let rr = swap_remove cls.ext_rr i in
    let back_one = if ltb i cls.rr_next then cls.rr_next - 1 else cls.rr_next in
    if ltb i (length cls.ext_rr)
    then record cls {
      ext_rr = rr;
      rr_next = if leb (length rr) back_one && not (is_empty rr) then 0 else back_one;
    }
    else cls

-- TakeFreeSlotLocked.
unfoldable pub take_free_slot : Class → ℕ → ℕ → Class × Bool
take_free_slot cls extent slot =
    let slots = free_of cls extent in
    let rest = swap_remove slots (position slots slot) in
    let taken : Class = record cls {
      free_by_ext = update cls.free_by_ext extent (some rest);
      free_count = cls.free_count - 1;
    } in
    if ltb (position slots slot) (length slots)
    then (if is_empty rest then drop_from_rotation taken extent else taken, true)
    else (cls, false)

-- DropExtentFreeLocked.
unfoldable pub drop_extent_free : Class → ℕ → Class
drop_extent_free cls extent = elim (cls.free_by_ext extent) [
  | none ↦ cls
  | some slots ↦
      drop_from_rotation
        (record cls {
          free_by_ext = update cls.free_by_ext extent none;
          free_count = cls.free_count - length slots;
        })
        extent
]
