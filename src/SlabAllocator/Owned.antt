-- ===== src/SlabAllocator/Owned.antt =====
-- The index and the slot records agree: a key that the index knows stands in the record that it names.
use dingo_cache.Common.{
  ℕ, ◌<◌, ◌≡◌, sym, ap, ◌∙◌, ◌≢◌, inl, inr, true, false, arith, length, get_or-beyond, ltb,
  Bool-cases, none, some, if◌then◌else◌,
}
use dingo_cache.KvTypes.{BlockKey, key_eq, key_eq_refl}
use dingo_cache.SlabAllocator.Index.{find, erase}
use dingo_cache.SlabAllocator.Index.Reserve.{IsIndex}
use dingo_cache.SlabAllocator.Index.Refinement.{erase-Updates}
use dingo_cache.SlabAllocator.State.{SlotMeta, Allocator, no_meta, slot_at}
use dingo_cache.SlabAllocator.Frame.{IsSame}
use dingo_cache.SlabAllocator.Extents.{free_slot}
use dingo_cache.SlabAllocator.Extents.Free.{Frees, free_slot-Frees}

-- Record `i` is the live record of a key.
pub record IsRecord (s : Allocator) (i : ℕ) (q : BlockKey) : Type 0 where
  pub key : (slot_at s i).key ≡ q
  pub live : (slot_at s i).live ≡ true

pub record IsOwned (s : Allocator) : Type 0 where
  pub index : IsIndex s.index
  pub records : (q : BlockKey) (i : ℕ) → find s.index q ≡ some i → IsRecord s i q

-- A live record is one of the vector.
pub IsRecord-lt : {s : Allocator} {i : ℕ} {q : BlockKey} → IsRecord s i q → i < length s.slots
IsRecord-lt {s} {i} r = elim (Bool-cases (ltb i (length s.slots))) [
  | inl inside ↦ ground arith
  | inr outside ↦
      let beyond : slot_at s i ≡ no_meta = get_or-beyond s.slots i no_meta (ground arith) in
      cc (r.live, ap (λ (m : SlotMeta). m.live) beyond)
]

-- Steps that keep the index, the keys and the lives keep the agreement.
pub IsOwned-keep :
    {s t : Allocator}
    → IsOwned s
    → t.index ≡ s.index
    → ((j : ℕ) → (slot_at t j).key ≡ (slot_at s j).key)
    → ((j : ℕ) → (slot_at t j).live ≡ (slot_at s j).live)
    → IsOwned t
IsOwned-keep {s} {t} own index keys lives = record {
  index = rw index own.index;
  records = λ q i hit.
      let before : IsRecord s i q = own.records q i (rw index at hit) in
      record { key = keys i ∙ before.key; live = lives i ∙ before.live };
}

pub IsOwned-same : {s t : Allocator} → IsOwned s → IsSame s t → IsOwned t
IsOwned-same own same =
    IsOwned-keep own (ap (λ r. r.index) same.others) (λ j. ap (λ c. c.key) (same.cores j))
      (λ j. ap (λ c. c.live) (same.cores j))

-- Freeing the record of a key removes that key, and no other, from the index, and the rest still
-- agrees.
pub record Removes (k : BlockKey) (s t : Allocator) : Type 0 where
  pub owned : IsOwned t
  pub reads : (q : BlockKey) → find t.index q ≡ (if key_eq q k then none else find s.index q)

pub free_slot-Removes :
    (k : BlockKey) (i : ℕ) (s : Allocator)
    → IsOwned s
    → find s.index k ≡ some i
    → Removes k s (free_slot i s)
free_slot-Removes k i s own hit =
    let free : Frees i s (free_slot i s) = free_slot-Frees i s in
    let here : IsRecord s i k = own.records k i hit in
    let gone : (free_slot i s).index ≡ (erase s.index k).0 =
      free.index ∙ ap (λ q. (erase s.index q).0) here.key in
    let cleared = erase-Updates s.index k own.index in
    let reads : (q : BlockKey)
        → find (free_slot i s).index q ≡ (if key_eq q k then none else find s.index q) =
      λ q. ap (λ x. find x q) gone ∙ cleared.0.reads q in
    record {
      owned = record {
        index = rw gone cleared.0.index;
        records = λ q j found.
            let differ : key_eq q k ≡ false = ground (arith, reads q) in
            let there : find s.index q ≡ some j = ground (arith, reads q) in
            let before : IsRecord s j q = own.records q j there in
            let apart : j ≢ i = λ e.
              let same : q ≡ k = sym before.key ∙ ap (λ n. (slot_at s n).key) e ∙ here.key in
              cc (ap (λ p. key_eq p k) same, key_eq_refl k) in
            record {
              key = ap (λ c. c.key) (free.others j apart) ∙ before.key;
              live = ap (λ c. c.live) (free.others j apart) ∙ before.live;
            };
      };
      reads = reads;
    }
