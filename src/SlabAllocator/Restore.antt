-- ===== src/SlabAllocator/Restore.antt =====
-- src/cache/slab_allocator.cc: RestoreBulk, which validates a batch of records and then installs them.
use dingo_cache.Common.{
  ℕ, ◌+◌, ◌*◌, ◌/◌, ◌^◌, Bool, true, false, not, ◌&&◌, ◌||◌, List, [], ◌∷◌, ltb, leb, ◌==◌,
  if◌then◌else◌, length, add64, sub32, Option, none, some, is_some, map,
}
use dingo_cache.KvTypes.{BlockKey, key_eq}
use dingo_cache.SlabAllocator.Index.{find, insert, reserve}
use dingo_cache.SlabAllocator.State.{
  Allocator, class_at, extent_at, with_slot, with_class, with_extent,
}
use dingo_cache.SlabAllocator.FreeList.{take_free_slot, position}
use dingo_cache.SlabAllocator.Lattice.{canonical_slot_size, class_for_exact_size}
use dingo_cache.SlabAllocator.Rings.{acquire_slot_meta, link_resident}
use dingo_cache.SlabAllocator.Extents.{bind_extent}
use dingo_cache.SlabAllocator.Steal.{is_bound}
use dingo_cache.SlabAllocator.Retention.{restore_retention}

pub record RestoreEntry : Type 0 where
  pub key : BlockKey
  pub slot_size : ℕ
  pub extent : ℕ
  pub slot : ℕ
  pub value_bytes : ℕ
  pub retain_until : ℕ
  pub retain_ttl_s : ℕ

-- The order by which the keys are sorted.
unfoldable pub key_before : BlockKey → BlockKey → Bool
key_before a b =
    if not (a.tenant_hash == b.tenant_hash)
    then ltb a.tenant_hash b.tenant_hash
    else if not (a.digest_hi == b.digest_hi)
    then ltb a.digest_hi b.digest_hi
    else ltb a.digest_lo b.digest_lo

-- `std::sort`, whose result does not depend on the algorithm, since the order is total.
unfoldable pub sort_in : BlockKey → List BlockKey → List BlockKey
sort_in k [] = k ∷ []
sort_in k (x ∷ xs) = if key_before x k then x ∷ sort_in k xs else k ∷ x ∷ xs

unfoldable pub sort_keys : List BlockKey → List BlockKey
sort_keys [] = []
sort_keys (k ∷ ks) = sort_in k (sort_keys ks)

-- `std::adjacent_find(...) != end()`.
unfoldable pub has_adjacent : List BlockKey → Bool
has_adjacent [] = false
has_adjacent (a ∷ []) = false
has_adjacent (a ∷ b ∷ ks) = key_eq a b || has_adjacent (b ∷ ks)

unfoldable pub has_number : ℕ → List ℕ → Bool
has_number n ns = ltb (position ns n) (length ns)

-- `batch_extent_sizes`, of which each extent's first size is kept.
unfoldable pub batch_size : ℕ → List (ℕ × ℕ) → Option ℕ
batch_size e [] = none
batch_size e ((d, size) ∷ rest) = if d == e then some size else batch_size e rest

-- The first test of a record.
unfoldable pub is_sound : Allocator → RestoreEntry → Bool
is_sound s r =
    not (r.slot_size == 0)
    && (ltb r.extent (length s.extents)
        && (leb r.slot_size s.opt.extent_bytes
            && (leb r.value_bytes r.slot_size
                && (canonical_slot_size s.opt r.slot_size == r.slot_size
                    && (not (class_for_exact_size s.classes r.slot_size == length s.classes)
                        && (ltb r.slot (s.opt.extent_bytes / r.slot_size)
                            && not (is_some (find s.index r.key))))))))

-- The last test of a record: an extent that is bound already has its class and the free slot.
unfoldable pub fits_extent : Allocator → RestoreEntry → Bool
fits_extent s r = elim (extent_at s r.extent).cls [
  | none ↦ true
  | some c ↦
      let k = class_at s c in
      k.slot_size == r.slot_size
      && elim (k.free_by_ext r.extent) [ none ↦ false | some slots ↦ has_number r.slot slots ]
]

-- The loop over the records, with the placements and the sizes so far.
unfoldable pub validate : Allocator → List ℕ → List (ℕ × ℕ) → List RestoreEntry → Bool
validate s places sizes [] = true
validate s places sizes (r ∷ rs) =
    let where_to = r.extent * 2 ^ 32 + r.slot in
    let same : Bool = elim (batch_size r.extent sizes) [
      | none ↦ true
      | some size ↦ size == r.slot_size
    ] in
    is_sound s r
    && (not (has_number where_to places)
        && (same
            && (fits_extent s r
                && validate s (where_to ∷ places) ((r.extent, r.slot_size) ∷ sizes) rs)))

-- The record in its slot, before it is in the index.
unfoldable pub restore_meta : ℕ → ℕ → RestoreEntry → Allocator → Allocator
restore_meta i c r s =
    with_slot i
      (λ m. record m {
        ref = record {
          cls = c;
          extent = r.extent;
          slot = r.slot;
          slot_size = r.slot_size;
          offset = r.slot * r.slot_size;
        };
        useful_bytes = r.value_bytes;
        key = r.key;
        live = true;
      })
      s

-- What follows once the record is in the index.
unfoldable pub restore_account : ℕ → ℕ → RestoreEntry → Allocator → Allocator
restore_account i c r s =
    let linked = link_resident i s in
    let counted =
      with_class c (λ k. record k { useful_bytes = add64 k.useful_bytes r.value_bytes })
        (with_extent r.extent
          (λ x. record x {
            free_slots = sub32 x.free_slots 1;
            useful_bytes = add64 x.useful_bytes r.value_bytes;
          })
          linked) in
    restore_retention i r.retain_until r.retain_ttl_s
      (record counted { used_bytes = add64 s.used_bytes r.slot_size })

-- One round of the second loop, from the binding of the extent on.
unfoldable pub restore_one : RestoreEntry → Allocator → Allocator × Bool
restore_one r s =
    let c = class_for_exact_size s.classes r.slot_size in
    let (ready, result) = bind_extent c r.extent true s in
    let free = if is_some (extent_at s r.extent).cls then s else ready in
    let (k, taken) = take_free_slot (class_at free c) r.extent r.slot in
    let (fresh, i) = acquire_slot_meta (with_class c (λ old. k) free) in
    let filled = restore_meta i c r fresh in
    let (index, added) = insert filled.index r.key i in
    let indexed = record filled { index = index } in
    if not (is_some (extent_at s r.extent).cls) && not (is_bound result)
    then (ready, false)
    else if not taken
    then (free, false)
    else if not added
    then (indexed, false)
    else (restore_account i c r indexed, true)

unfoldable pub restore_all : List RestoreEntry → Allocator → Allocator × Bool
restore_all [] s = (s, true)
restore_all (r ∷ rs) s =
    let (s', done) = restore_one r s in
    let rest = restore_all rs s' in if done then rest else (s', false)

-- RestoreBulk.
unfoldable pub restore_bulk : List RestoreEntry → Allocator → Allocator × Bool
restore_bulk [] s = (s, true)
restore_bulk (r ∷ rs) s =
    let entries = r ∷ rs in
    if validate s [] [] entries
      && not (has_adjacent (sort_keys (map (λ (e : RestoreEntry). e.key) entries)))
    then restore_all entries (record s { index = reserve s.index (s.index.size + length entries) })
    else (s, false)
