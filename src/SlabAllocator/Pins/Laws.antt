-- ===== src/SlabAllocator/Pins/Laws.antt =====
-- Pins and removal: a pin is undone by an unpin, and a removal waits for the last pin.
use dingo_cache.Common.{
  ℕ, ◌+◌, ◌-◌, ◌<◌, ◌≡◌, ap, ap₂, ◌∙◌, ◌≢◌, inl, inr, true, false, arith, List, length, get_or, set,
  ltb, ◌==◌, Bool-cases, some, if◌then◌else◌, set-set, set-get_or, set-beyond, get_or-set_self,
}
use dingo_cache.KvTypes.{BlockKey}
use dingo_cache.SlabAllocator.Index.{find}
use dingo_cache.SlabAllocator.State.{
  SlotMeta, ExtentMeta, Allocator, no_meta, no_extent, slot_at, with_slot, with_extent,
}
use dingo_cache.SlabAllocator.Owned.{IsOwned, IsRecord-lt}
use dingo_cache.SlabAllocator.Pins.{readable, add_ref, pin, drop_ref, unpin}

-- Writing an element twice, the second time from what the first one left.
set-again {ℓ} :
    {A : Type ℓ} (xs : List A) (i : ℕ) (v w d : A) → w ≡ get_or xs i d → set (set xs i v) i w ≡ xs
set-again xs i v w d e = set-set xs i v w ∙ ap (set xs i) e ∙ set-get_or xs i d

-- The slots after one reference more, and after it has gone again.
add_ref_self :
    (i : ℕ) (s : Allocator)
    → i < length s.slots
    → slot_at (add_ref i s) i ≡ record (slot_at s i) { refs = (slot_at s i).refs + 1 }
unfolding add_ref with_slot with_extent
add_ref_self i s h = ground (
  arith,
  get_or-set_self s.slots i (record (slot_at s i) { refs = (slot_at s i).refs + 1 }) no_meta h,
)

add_ref-index : (i : ℕ) (s : Allocator) → (add_ref i s).index ≡ s.index
unfolding add_ref with_slot with_extent
add_ref-index i s = ground arith

-- The rounds of a pin count of an extent, also for an extent that is not there.
abbrev unpinned : ExtentMeta → ExtentMeta
unpinned x = if ltb 0 x.pinned then record x { pinned = x.pinned - 1 } else x

pin_count_again :
    (xs : List ExtentMeta) (e : ℕ)
    → let ys =
        set xs e (record (get_or xs e no_extent) { pinned = (get_or xs e no_extent).pinned + 1 }) in
      set ys e (unpinned (get_or ys e no_extent)) ≡ xs
pin_count_again xs e =
    let x : ExtentMeta = get_or xs e no_extent in
    let y : ExtentMeta = record x { pinned = x.pinned + 1 } in
    elim (Bool-cases (ltb e (length xs))) [
      | inl inside ↦
          let there : get_or (set xs e y) e no_extent ≡ y =
            get_or-set_self xs e y no_extent (ground arith) in
          let back : unpinned y ≡ x = ground arith in
          ap (λ z. set (set xs e y) e (unpinned z)) there
          ∙ set-again xs e y (unpinned y) no_extent back
      | inr outside ↦
          let same : set xs e y ≡ xs = set-beyond xs e y (ground arith) in
          ap (λ zs. set zs e (unpinned (get_or zs e no_extent))) same
          ∙ set-beyond xs e _ (ground arith)
    ]

abbrev more_refs : SlotMeta → SlotMeta
more_refs m = record m { refs = m.refs + 1 }

abbrev fewer_refs : SlotMeta → SlotMeta
fewer_refs m = record m { refs = m.refs - 1 }

abbrev more_pins : ExtentMeta → ExtentMeta
more_pins x = record x { pinned = x.pinned + 1 }

-- The slots after a reference more and one less.
slots_again :
    (i : ℕ) (s : Allocator)
    → i < length s.slots
    → let xs = set s.slots i (more_refs (slot_at s i)) in
      set xs i (fewer_refs (get_or xs i no_meta)) ≡ s.slots
slots_again i s h =
    let m : SlotMeta = slot_at s i in
    let there : get_or (set s.slots i (more_refs m)) i no_meta ≡ more_refs m =
      get_or-set_self s.slots i (more_refs m) no_meta h in
    let back : fewer_refs (more_refs m) ≡ m = ground arith in
    ap (λ z. set (set s.slots i (more_refs m)) i (fewer_refs z)) there
    ∙ set-again s.slots i (more_refs m) (fewer_refs (more_refs m)) no_meta back

-- The branches of a dropped reference of a resident that is not being removed.
drop_last :
    (i : ℕ) (s : Allocator)
    → (slot_at s i).refs ≡ 1
    → (slot_at s i).remove_pending ≡ false
    → drop_ref i s ≡ with_extent (slot_at s i).ref.extent unpinned (with_slot i fewer_refs s)
unfolding drop_ref
drop_last i s one staying = ground (arith, one, staying)

drop_more :
    (i : ℕ) (s : Allocator) → (slot_at s i).refs ≢ 1 → drop_ref i s ≡ with_slot i fewer_refs s
unfolding drop_ref
drop_more i s many = ground arith

module _ (i : ℕ) (s : Allocator) (inside : i < length s.slots) where
  built : List SlotMeta → List ExtentMeta → Allocator
  built xs ys = record s { slots = xs; extents = ys }

  -- A first reference, which pins the extent.
  first_ref :
      (slot_at s i).refs ≡ 0
      → (slot_at s i).remove_pending ≡ false
      → drop_ref i (with_slot i more_refs (with_extent (slot_at s i).ref.extent more_pins s)) ≡ s
  unfolding with_slot with_extent built
  first_ref none_yet staying =
      let m : SlotMeta = slot_at s i in
      let t : Allocator = with_slot i more_refs (with_extent m.ref.extent more_pins s) in
      let there : slot_at t i ≡ more_refs m =
        get_or-set_self s.slots i (more_refs m) no_meta inside in
      drop_last i t (ap (λ (x : SlotMeta). x.refs) there ∙ omega arith)
        (ap (λ (x : SlotMeta). x.remove_pending) there ∙ staying)
      ∙ ap (λ (x : SlotMeta). with_extent x.ref.extent unpinned (with_slot i fewer_refs t)) there
      ∙ ap₂ built (slots_again i s inside) (pin_count_again s.extents m.ref.extent)

  later_ref : (slot_at s i).refs ≢ 0 → drop_ref i (with_slot i more_refs s) ≡ s
  unfolding with_slot built
  later_ref some_yet =
      let m : SlotMeta = slot_at s i in
      let t : Allocator = with_slot i more_refs s in
      let there : slot_at t i ≡ more_refs m =
        get_or-set_self s.slots i (more_refs m) no_meta inside in
      let refs : (slot_at t i).refs ≡ m.refs + 1 = ap (λ (x : SlotMeta). x.refs) there in
      drop_more i t (omega (arith, refs)) ∙ ap (λ xs. built xs s.extents) (slots_again i s inside)

  -- A reference more and one less leave the allocator as it was.
  drop_ref-add_ref : (slot_at s i).remove_pending ≡ false → drop_ref i (add_ref i s) ≡ s
  unfolding add_ref
  drop_ref-add_ref staying = elim (Bool-cases ((slot_at s i).refs == 0)) [
    | inl fresh ↦ rw (fresh, add_ref) (first_ref (ground arith) staying)
    | inr old ↦ rw (old, add_ref) (later_ref (ground arith))
  ]

-- The record of a key that can be read.
pub readable-IsRecord :
    (s : Allocator) (k : BlockKey) (i : ℕ)
    → readable s k ≡ some i
    → (find s.index k ≡ some i) × ((slot_at s i).remove_pending ≡ false)
unfolding readable
readable-IsRecord s k i h = ground arith

pin_done :
    (s : Allocator) (k : BlockKey) (i : ℕ) → readable s k ≡ some i → pin k s ≡ (add_ref i s, true)
unfolding pin
pin_done s k i h = rw (h, pin)

pub unpin_done :
    (s : Allocator) (k : BlockKey) (i : ℕ)
    → find s.index k ≡ some i
    → 0 < (slot_at s i).refs
    → unpin k s ≡ (drop_ref i s, true)
unfolding unpin
unpin_done s k i hit some_ref =
    let positive : ((slot_at s i).refs == 0) ≡ false = ground arith in rw (hit, unpin) (rw positive)

-- Where the index and the slot records agree and a key can be read: pinning it succeeds, and unpinning
-- it again succeeds and gives back the allocator as it was.
pub unpin-pin :
    (s : Allocator) (k : BlockKey) (i : ℕ)
    → IsOwned s
    → readable s k ≡ some i
    → ((pin k s).1 ≡ true) × (unpin k (pin k s).0 ≡ (s, true))
unpin-pin s k i own h =
    let (hit, staying) = readable-IsRecord s k i h in
    let inside : i < length s.slots = IsRecord-lt (own.records k i hit) in
    let t : Allocator = add_ref i s in
    let refs : (slot_at t i).refs ≡ (slot_at s i).refs + 1 =
      ap (λ (x : SlotMeta). x.refs) (add_ref_self i s inside) in
    let found : find t.index k ≡ some i = ap (λ x. find x k) (add_ref-index i s) ∙ hit in
    (
      ap (λ p. p.1) (pin_done s k i h),
      ap (λ p. unpin k p.0) (pin_done s k i h)
          ∙ unpin_done t k i found (omega (arith, refs))
          ∙ ap (λ u. (u, true)) (drop_ref-add_ref i s inside staying),
    )
