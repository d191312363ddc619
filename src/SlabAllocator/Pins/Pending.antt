-- ===== src/SlabAllocator/Pins/Pending.antt =====
-- A removal that waits for the last of any number of pins.
use dingo_cache.Common.{
  ℕ, zero, suc, ◌-◌, ◌<◌, ◌≡◌, refl, sym, ap, ◌∙◌, true, false, arith, length, none, some,
  get_or-set_self,
}
use dingo_cache.KvTypes.{BlockKey}
use dingo_cache.SlabAllocator.Index.{find}
use dingo_cache.SlabAllocator.State.{SlotMeta, Allocator, no_meta, slot_at, with_slot}
use dingo_cache.SlabAllocator.Extents.{free_slot}
use dingo_cache.SlabAllocator.Owned.{IsOwned, IsRecord-lt, Removes}
use dingo_cache.SlabAllocator.Pins.{deferred, readable, remove, pin, drop_ref, unpin}
use dingo_cache.SlabAllocator.Pins.Laws.{unpin_done}
use dingo_cache.SlabAllocator.Pins.Removal.{
  with_slot-IsOwned, marked, remove_deferred, unpinned_slot, drop_pending, pending_at, pending_slot,
  pending-unreadable, free_pending,
}

-- Unpins of one key, one after the other.
unfoldable pub unpin_times : ℕ → BlockKey → Allocator → Allocator
unpin_times zero k s = s
unpin_times (suc n) k s = unpin_times n k (unpin k s).0

-- The record of `k` has `n` pins, and its removal waits for the last of them.
record IsPending (k : BlockKey) (i n : ℕ) (s : Allocator) : Type 0 where
  owned : IsOwned s
  hit : find s.index k ≡ some i
  pins : (slot_at s i).refs ≡ n
  pending : (slot_at s i).remove_pending ≡ true

abbrev fewer_refs : SlotMeta → SlotMeta
fewer_refs m = record m { refs = m.refs - 1 }

drop_one :
    (i n : ℕ) (s : Allocator)
    → (slot_at s i).refs ≡ suc (suc n)
    → drop_ref i s ≡ with_slot i fewer_refs s
unfolding drop_ref
drop_one i n s many = ground (arith, many)

fewer_slot :
    (i : ℕ) (s : Allocator)
    → i < length s.slots
    → slot_at (with_slot i fewer_refs s) i ≡ fewer_refs (slot_at s i)
unfolding with_slot
fewer_slot i s inside = get_or-set_self s.slots i (fewer_refs (slot_at s i)) no_meta inside

-- An unpin that is not the last one.
unpin_one :
    (k : BlockKey) (i n : ℕ) (s : Allocator)
    → IsPending k i (suc (suc n)) s
    → unpin k s ≡ (with_slot i fewer_refs s, true)
unpin_one k i n s w =
    unpin_done s k i w.hit (omega (arith, w.pins)) ∙ ap (λ u. (u, true)) (drop_one i n s w.pins)

unpin-IsPending :
    (k : BlockKey) (i n : ℕ) (s : Allocator)
    → IsPending k i (suc (suc n)) s
    → IsPending k i (suc n) (unpin k s).0
unpin-IsPending k i n s w =
    let there = fewer_slot i s (IsRecord-lt (w.owned.records k i w.hit)) in
    rw (unpin_one k i n s w) (record {
      owned = with_slot-IsOwned i fewer_refs s refl refl w.owned;
      hit = unfold with_slot in w.hit;
      pins = ap (λ (m : SlotMeta). m.refs) there ∙ omega (arith, w.pins);
      pending = ap (λ (m : SlotMeta). m.remove_pending) there ∙ w.pending;
    })

-- The last unpin.
unpin_last :
    (k : BlockKey) (i : ℕ) (s : Allocator)
    → IsPending k i 1 s
    → unpin k s ≡ (free_slot i (unpinned_slot i s), true)
unpin_last k i s w =
    unpin_done s k i w.hit (omega (arith, w.pins))
    ∙ ap (λ u. (u, true)) (drop_pending i s w.pins w.pending)

unpin_times-IsPending :
    (m n : ℕ) (k : BlockKey) (i : ℕ) (s : Allocator)
    → m < n
    → IsPending k i n s
    → IsPending k i (n - m) (unpin_times m k s)
unfolding unpin_times
unpin_times-IsPending zero n k i s less w = record {
  owned = w.owned;
  hit = w.hit;
  pins = w.pins ∙ omega arith;
  pending = w.pending;
}
unpin_times-IsPending (suc m) zero k i s less w = absurd (omega (arith, less))
unpin_times-IsPending (suc m) (suc zero) k i s less w = absurd (omega (arith, less))
unpin_times-IsPending (suc m) (suc (suc n)) k i s less w =
    let next = unpin-IsPending k i n s w in
    let rest = unpin_times-IsPending m (suc n) k i (unpin k s).0 (omega (arith, less)) next in
    record {
      owned = rest.owned;
      hit = rest.hit;
      pins = rest.pins ∙ omega arith;
      pending = rest.pending;
    }

unpin_last-Removes :
    (k : BlockKey) (i : ℕ) (s : Allocator) → IsPending k i 1 s → Removes k s (unpin k s).0
unpin_last-Removes k i s w = rw (unpin_last k i s w) (free_pending k i s w.owned w.hit)

-- A removal from a state with the same index.
Removes-from :
    (k : BlockKey) (s t u : Allocator) → t.index ≡ s.index → Removes k t u → Removes k s u
Removes-from k s t u same done = record {
  owned = done.owned;
  reads = λ q. rw (sym same) (done.reads q);
}

unpin_times-Removes :
    (n : ℕ) (k : BlockKey) (i : ℕ) (s : Allocator)
    → 0 < n
    → IsPending k i n s
    → Removes k s (unpin_times n k s)
unfolding unpin_times
unpin_times-Removes zero k i s some_pins w = absurd (omega (arith, some_pins))
unpin_times-Removes (suc zero) k i s some_pins w = unpin_last-Removes k i s w
unpin_times-Removes (suc (suc n)) k i s some_pins w =
    let same : (unpin k s).0.index ≡ s.index =
      rw (unpin_one k i n s w) (unfold with_slot in refl) in
    Removes-from k s (unpin k s).0 _ same
      (unpin_times-Removes (suc n) k i (unpin k s).0 (omega arith) (unpin-IsPending k i n s w))

-- While the removal waits, the key is allocated and cannot be read or pinned, and it can be unpinned.
pub record IsWaiting (k : BlockKey) (i : ℕ) (s : Allocator) : Type 0 where
  pub hit : find s.index k ≡ some i
  pub unreadable : readable s k ≡ none
  pub refuses_pins : pin k s ≡ (s, false)
  pub unpins : (unpin k s).1 ≡ true

IsPending-IsWaiting :
    (k : BlockKey) (i n : ℕ) (s : Allocator) → 0 < n → IsPending k i n s → IsWaiting k i s
unfolding pin
IsPending-IsWaiting k i n s some_pins w =
    let hidden = pending-unreadable s k i w.hit w.pending in
    record {
      hit = w.hit;
      unreadable = hidden;
      refuses_pins = rw (pin, hidden) refl;
      unpins = ap (λ p. p.1) (unpin_done s k i w.hit (omega (arith, w.pins, some_pins)));
    }

remove-IsPending :
    (s : Allocator) (k : BlockKey) (i : ℕ)
    → IsOwned s
    → find s.index k ≡ some i
    → IsPending k i (slot_at s i).refs (pending_at i s)
remove-IsPending s k i own hit =
    let there = pending_slot i s (IsRecord-lt (own.records k i hit)) in
    record {
      owned = with_slot-IsOwned i marked s refl refl own;
      hit = unfold with_slot in hit;
      pins = ap (λ (m : SlotMeta). m.refs) there;
      pending = ap (λ (m : SlotMeta). m.remove_pending) there;
    }

-- Where the index and the slot records agree and a key has pins, however many: removing it is put off; then,
-- after any number of unpins that is less than the number of its pins, the key is still in the index, in the
-- same record, can neither be read nor be pinned, and the next unpin succeeds; and as many unpins as it has
-- pins take the key, and no other, out of the index, and the index and the records agree again.
pub unpin_times-remove :
    (s : Allocator) (k : BlockKey) (i m : ℕ)
    → IsOwned s
    → find s.index k ≡ some i
    → m < (slot_at s i).refs
    → let t = (remove k s).0 in
      ((remove k s).1 ≡ deferred)
      × IsWaiting k i (unpin_times m k t)
      × Removes k s (unpin_times (slot_at s i).refs k t)
unpin_times-remove s k i m own hit less =
    let n = (slot_at s i).refs in
    let w = remove-IsPending s k i own hit in
    let step : remove k s ≡ (pending_at i s, deferred) =
      remove_deferred s k i hit (omega (arith, less)) in
    let waits =
      IsPending-IsWaiting k i (n - m) (unpin_times m k (pending_at i s)) (omega (arith, less))
        (unpin_times-IsPending m n k i (pending_at i s) less w) in
    let done =
      Removes-from k s (pending_at i s) (unpin_times n k (pending_at i s))
        (unfold with_slot in refl)
        (unpin_times-Removes n k i (pending_at i s) (omega (arith, less)) w) in
    rw step (refl, waits, done)
