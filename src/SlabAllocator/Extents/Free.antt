-- ===== src/SlabAllocator/Extents/Free.antt =====
-- What taking a resident out of its slot does: its key leaves the index, its record is empty, and no
-- other record changes but for its links.
use dingo_cache.Common.{
  ℕ, ◌<◌, ◌≡◌, refl, sym, ap, ◌∙◌, ◌≢◌, inl, inr, arith, List, length, ◌==◌, get_or-set_self,
  get_or-set_ne, length-set, Bool-cases, sub64,
}
use dingo_cache.KvTypes.{BlockKey}
use dingo_cache.SlabAllocator.Index.{erase}
use dingo_cache.SlabAllocator.State.{
  SlotMeta, Allocator, RetainOptions, Options, no_meta, slot_at, with_slot, with_class, with_extent,
}
use dingo_cache.SlabAllocator.Rings.{release_slot_meta, unlink_global}
use dingo_cache.SlabAllocator.Frame.{
  core, get_or-set_keeps, IsSame, IsSame-refl, IsSame-trans, and-class, and-extent, and-aside,
  either, leave_class-IsSame, leave_extent-IsSame, unlink_global-IsSame,
}
use dingo_cache.SlabAllocator.Extents.{
  unprotect, leave_class, leave_extent, forget, return_extent, free_slot,
}

-- The fields of the allocator that a freed slot leaves alone.
pub record Kept : Type 0 where
  pub retain : RetainOptions
  pub retain_now_s : ℕ
  pub opt : Options
  pub calls : ℕ
  pub evicted : List BlockKey

abbrev pub kept : Allocator → Kept
kept s = record {
  retain = s.retain;
  retain_now_s = s.retain_now_s;
  opt = s.opt;
  calls = s.calls;
  evicted = s.evicted;
}

pub record Frees (i : ℕ) (s t : Allocator) : Type 0 where
  pub others : (j : ℕ) → j ≢ i → core (slot_at t j) ≡ core (slot_at s j)
  pub gone : i < length s.slots → core (slot_at t i) ≡ core no_meta
  pub index : t.index ≡ (erase s.index (slot_at s i).key).0
  pub used : t.used_bytes ≡ sub64 s.used_bytes (slot_at s i).ref.slot_size
  pub many : length t.slots ≡ length s.slots
  pub rest : kept t ≡ kept s

pub unprotect-others :
    (i j : ℕ) (s : Allocator) → j ≢ i → core (slot_at (unprotect i s) j) ≡ core (slot_at s j)
unfolding unprotect with_slot with_class with_extent
unprotect-others i j s ne = ap core (
    get_or-set_ne s.slots i j (record (slot_at s i) { retain_until = 0 }) no_meta (λ e. ne (sym e)))

-- The record after a write that keeps its key and its size.
unprotect_self :
    (i : ℕ) (s : Allocator)
    → ((slot_at (unprotect i s) i).key ≡ (slot_at s i).key)
      × ((slot_at (unprotect i s) i).ref ≡ (slot_at s i).ref)
unfolding unprotect with_slot with_class with_extent
unprotect_self i s =
    let v : SlotMeta = record (slot_at s i) { retain_until = 0 } in
    (
      get_or-set_keeps (λ (m : SlotMeta). m.key) s.slots i i v no_meta refl,
      get_or-set_keeps (λ (m : SlotMeta). m.ref) s.slots i i v no_meta refl,
    )

forget-Frees : (i : ℕ) (s : Allocator) → Frees i s (forget i s)
unfolding forget release_slot_meta with_slot with_class with_extent
forget-Frees i s = record {
  others = λ j ne. ap core (
      get_or-set_ne s.slots i j (record no_meta { free_next = s.free_slot_meta_head }) no_meta
        (λ e. ne (sym e)));
  gone = λ h.
      ap core (
        get_or-set_self s.slots i (record no_meta { free_next = s.free_slot_meta_head }) no_meta h);
  index = refl;
  used = refl;
  many = length-set s.slots i _;
  rest = refl;
}

return_extent-IsSame : (c e : ℕ) (s : Allocator) → IsSame s (return_extent c e s)
unfolding return_extent
return_extent-IsSame c e s =
    either _ (and-aside (and-extent (and-class (IsSame-refl s) _ _) _ _) refl refl) (IsSame-refl s)

-- Steps that change no slot, before and after.
Frees-between : {i : ℕ} {s a b t : Allocator} → IsSame s a → Frees i a b → IsSame b t → Frees i s t
Frees-between {i} {s} {a} {b} {t} before free after =
    let key : (slot_at a i).key ≡ (slot_at s i).key = ap (λ c. c.key) (before.cores i) in
    let ref : (slot_at a i).ref ≡ (slot_at s i).ref = ap (λ c. c.ref) (before.cores i) in
    record {
      others = λ j ne. after.cores j ∙ free.others j ne ∙ before.cores j;
      gone = λ h. after.cores i ∙ free.gone (rw before.many h);
      index =
          ap (λ r. r.index) after.others
          ∙ free.index
          ∙ ap (λ r. (erase r.index (slot_at a i).key).0) before.others
          ∙ ap (λ k. (erase s.index k).0) key;
      used =
          ap (λ r. r.used_bytes) after.others
          ∙ free.used
          ∙ ap (λ r. sub64 r.used_bytes (slot_at a i).ref.slot_size) before.others
          ∙ ap (λ r. sub64 s.used_bytes r.slot_size) ref;
      many = after.many ∙ free.many ∙ before.many;
      rest = ground (arith, after.others, free.rest, before.others);
    }

free_bare :
    (i c e : ℕ) (s : Allocator)
    → Frees i s (return_extent c e (forget i (leave_extent i (unlink_global i (leave_class i s)))))
free_bare i c e s =
    let left = leave_class i s in
    let apart = unlink_global i left in
    Frees-between
      (IsSame-trans (leave_class-IsSame i s)
        (IsSame-trans (unlink_global-IsSame i left) (leave_extent-IsSame i apart)))
      (forget-Frees i (leave_extent i apart))
      (return_extent-IsSame c e (forget i (leave_extent i apart)))

-- The same after the protection of the slot has been taken off.
free_unprotected : {i : ℕ} {s t : Allocator} → Frees i (unprotect i s) t → Frees i s t
unfolding unprotect with_slot with_class with_extent
free_unprotected {i} {s} {t} free =
    let (key, ref) = unprotect_self i s in
    record {
      others = λ j ne. free.others j ne ∙ unprotect-others i j s ne;
      gone = λ h. free.gone (rw length-set h);
      index = free.index ∙ ap (λ k. (erase s.index k).0) key;
      used = free.used ∙ ap (λ r. sub64 s.used_bytes r.slot_size) ref;
      many = free.many ∙ length-set s.slots i _;
      rest = free.rest;
    }

-- FreeSlotLocked takes exactly its slot away.
pub free_slot-Frees : (i : ℕ) (s : Allocator) → Frees i s (free_slot i s)
unfolding free_slot
free_slot-Frees i s = elim (Bool-cases ((slot_at s i).retain_until == 0)) [
  | inl bare ↦ rw (bare, free_slot) (free_bare i _ _ s)
  | inr guarded ↦ rw (guarded, free_slot) (free_unprotected (free_bare i _ _ (unprotect i s)))
]
