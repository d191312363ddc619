-- ===== src/SlabAllocator/Steal/Reclaim.antt =====
-- The two reclaimers: what they take is counted, bounded and unguarded.
use dingo_cache.Common.{
  ℕ, zero, suc, ◌+◌, ◌*◌, ◌/◌, ◌^◌, ◌-◌, ◌≤◌, ◌≡◌, refl, sym, ap, subst, inl, inr, not, ◌||◌, arith,
  length, get_or, ltb, leb, ◌==◌, Bool-cases, if◌then◌else◌, Option-cases, add64, is_some,
}
use dingo_cache.SlabAllocator.Index.{no_slot}
use dingo_cache.SlabAllocator.State.{SlotMeta, Allocator, no_meta, slot_at, class_at, extent_at}
use dingo_cache.SlabAllocator.Frame.{core, IsSame-refl}
use dingo_cache.SlabAllocator.Extents.{evict_one_from}
use dingo_cache.SlabAllocator.Extents.Evict.{
  IsFree, Evicts, Evicts-trans, Evicts-after, IsSame-Evicts, aside-Evicts, drop_victim-Evicts,
  ask_slot_evict_lem, evict_one_from-Evicts, count_of,
}
use dingo_cache.SlabAllocator.Steal.{
  reclaim_loop, reclaim_class, ask_evict, watermark_victim, evict_cold_loop, evict_cold_to_target,
}

-- The number of keys that a loop adds to those that it started with.
record Takes (start most : ℕ) (s t : Allocator) (total : ℕ) : Type 0 where
  more : start ≤ total
  few : total ≤ start + most
  evicts : Evicts (total - start) s t

nothing : {start most : ℕ} {s t : Allocator} → Evicts 0 s t → Takes start most s t start
nothing {start} {most} {s} {t} none_taken =
    let zero : start - start ≡ 0 = omega arith in
    record {
      more = omega arith;
      few = omega arith;
      evicts = subst (λ n. Evicts n s t) (sym zero) none_taken;
    }

-- The rest of a loop after one more victim, or after none.
after_one :
    {start most total : ℕ} {s t u : Allocator}
    → Evicts 1 s t
    → Takes (start + 1) most t u total
    → Takes start (suc most) s u total
after_one {start} {most} {total} {s} {t} {u} one rest =
    let count : 1 + (total - (start + 1)) ≡ total - start = omega (arith, rest.more) in
    record {
      more = omega (arith, rest.more);
      few = omega (arith, rest.few);
      evicts = subst (λ n. Evicts n s u) count (Evicts-trans one rest.evicts);
    }

after_none :
    {start most total : ℕ} {s t u : Allocator}
    → Evicts 0 s t
    → Takes start most t u total
    → Takes start most s u total
after_none {s = s} {t = t} {u = u} first rest = record {
  more = rest.more;
  few = rest.few;
  evicts = Evicts-after first rest.evicts;
}

wider :
    {start most total : ℕ} {s t : Allocator}
    → Takes start most s t total
    → Takes start (suc most) s t total
wider w = record { more = w.more; few = omega (arith, w.few); evicts = w.evicts }

reclaim_loop-Takes :
    (n c target count : ℕ) (s : Allocator)
    → Takes count n s (reclaim_loop n c target count s).0 (reclaim_loop n c target count s).1
unfolding reclaim_loop
reclaim_loop-Takes zero c target count s = nothing (IsSame-Evicts (IsSame-refl s))
reclaim_loop-Takes (suc n) c target count s =
    let s' : Allocator = (evict_one_from c s).0 in
    let step = evict_one_from-Evicts c s in
    elim (Bool-cases (leb target (class_at s c).free_count || ltb 0 s.unbound)) [
      | inl enough ↦ rw enough (nothing (IsSame-Evicts (IsSame-refl s)))
      | inr short ↦ elim (Bool-cases (evict_one_from c s).1) [
        | inr failed ↦
            let idle : Evicts 0 s s' = subst (λ b. Evicts (count_of b) s s') failed step in
            rw short (rw failed (nothing idle))
        | inl taken ↦
            let one : Evicts 1 s s' = subst (λ b. Evicts (count_of b) s s') taken step in
            elim (Bool-cases (leb (class_at s' c).free_count (class_at s c).free_count)) [
              | inl stuck ↦ rw short (
                  rw taken (
                    rw stuck (after_one {most = n} one (nothing (IsSame-Evicts (IsSame-refl s'))))))
              | inr grown ↦ rw short (
                  rw taken
                    (rw grown (after_one one (reclaim_loop-Takes n c target (count + 1) s'))))
            ]
      ]
    ]

-- Reclaiming takes no more than the victims it is allowed, gives the caller as many keys as it reports,
-- and leaves every record alone that is pinned or protected.
pub reclaim_class-Evicts :
    (c target most : ℕ) (s : Allocator)
    → let r = reclaim_class c target most s in (r.1 ≤ most) × Evicts r.1 s r.0
unfolding reclaim_class
reclaim_class-Evicts c target most s = elim (Bool-cases (leb (length s.classes) c)) [
  | inl outside ↦ rw outside (omega arith, IsSame-Evicts (IsSame-refl s))
  | inr inside ↦
      let done = reclaim_loop-Takes most c target 0 s in
      let total = (reclaim_loop most c target 0 s).1 in
      let count : total - 0 ≡ total = omega arith in
      rw inside (
        omega (arith, done.few),
        subst (λ n. Evicts n s (reclaim_loop most c target 0 s).0) count done.evicts,
      )
]

-- The persistence step asks a callback and changes nothing else.
ask_evict_lem :
    (i : ℕ) (s : Allocator)
    → ((ask_evict i s).0.slots ≡ s.slots) × ((ask_evict i s).0.evicted ≡ s.evicted)
unfolding ask_evict
ask_evict_lem i s = elim (Option-cases s.opt.on_extent_evict) [
  | inl absent ↦ rw (absent, ask_evict) (ask_slot_evict_lem i s)
  | inr (whole, present) ↦
      elim (Bool-cases ((extent_at s (slot_at s i).ref.extent).resident_count == 1)) [
        | inl last ↦ rw (present, ask_evict) (rw last (refl, refl))
        | inr other ↦ elim (Bool-cases (is_some s.opt.on_slot_evict)) [
          | inl single ↦ rw (present, ask_evict) (rw other (rw single (ask_slot_evict_lem i s)))
          | inr only ↦ rw (present, ask_evict) (rw other (rw only (refl, refl)))
        ]
      ]
]

watermark_victim-Evicts :
    (i : ℕ) (s : Allocator) → IsFree (core (slot_at s i)) → Evicts 1 s (watermark_victim i s)
unfolding watermark_victim
watermark_victim-Evicts i s free =
    let taken = drop_victim-Evicts i s free in record { spares = taken.spares; given = taken.given }

cold_bound :
    (n target most freed : ℕ) (s : Allocator)
    → freed ≤ most
    → (evict_cold_loop n target most freed s).1 ≤ most
unfolding evict_cold_loop
cold_bound zero target most freed s h = h
cold_bound (suc n) target most freed s h =
    elim (Bool-cases (leb most freed || (leb s.used_bytes target || s.global_hand == no_slot))) [
      | inl stop ↦ rw stop h
      | inr go ↦ elim (Bool-cases (ltb 0 (slot_at s s.global_hand).refs)) [
        | inl pinned ↦ rw go (rw pinned (cold_bound n target most freed _ h))
        | inr loose ↦ elim (Bool-cases (not ((slot_at s s.global_hand).retain_until == 0))) [
          | inl held ↦ rw go (rw loose (rw held (cold_bound n target most freed _ h)))
          | inr lapsed ↦
              let visited : Allocator = record s {
                watermark_scan_steps = add64 s.watermark_scan_steps 1;
              } in
              elim (Bool-cases (ask_evict s.global_hand visited).1) [
                | inl ok ↦ rw go (
                    rw loose
                      (rw lapsed (rw ok (cold_bound n target most (freed + 1) _ (ground arith)))))
                | inr refused ↦ rw go (rw loose (rw lapsed (rw refused h)))
              ]
        ]
      ]
    ]

cold-Takes :
    (n target most freed : ℕ) (s : Allocator)
    → Takes freed n s
        (evict_cold_loop n target most freed s).0
        (evict_cold_loop n target most freed s).1
unfolding evict_cold_loop
cold-Takes zero target most freed s = nothing (IsSame-Evicts (IsSame-refl s))
cold-Takes (suc n) target most freed s =
    let i = s.global_hand in
    let m : SlotMeta = slot_at s i in
    let next = if m.global_next == no_slot then s.global_ring_head else m.global_next in
    let visited : Allocator = record s { watermark_scan_steps = add64 s.watermark_scan_steps 1 } in
    elim (Bool-cases (leb most freed || (leb s.used_bytes target || i == no_slot))) [
      | inl stop ↦ rw stop (nothing (IsSame-Evicts (IsSame-refl s)))
      | inr go ↦ elim (Bool-cases (ltb 0 m.refs)) [
        | inl pinned ↦
            let passed : Allocator = record visited { global_hand = next } in
            rw go (
              rw pinned (
                wider
                  (after_none (aside-Evicts refl refl) (cold-Takes n target most freed passed))))
        | inr loose ↦ elim (Bool-cases (not (m.retain_until == 0))) [
          | inl held ↦
              let passed : Allocator = record visited {
                retain_evict_skipped = add64 s.retain_evict_skipped 1;
                global_hand = next;
              } in
              rw go (
                rw loose (
                  rw held (
                    wider (
                      after_none (aside-Evicts refl refl)
                        (cold-Takes n target most freed passed)))))
          | inr lapsed ↦
              let asked : Allocator = (ask_evict i visited).0 in
              let (slots, keys) = ask_evict_lem i visited in
              let start : Evicts 0 s asked = aside-Evicts slots keys in
              let free : IsFree (core (slot_at s i)) = (ground arith, ground arith) in
              let free' : IsFree (core (slot_at asked i)) =
                subst IsFree (sym (ap (λ xs. core (get_or xs i no_meta)) slots)) free in
              elim (Bool-cases (ask_evict i visited).1) [
                | inl ok ↦ rw go (
                    rw loose (
                      rw lapsed (
                        rw ok (
                          after_one (Evicts-after start (watermark_victim-Evicts i asked free'))
                            (cold-Takes n target most (freed + 1) (watermark_victim i asked))))))
                | inr refused ↦ rw go (rw loose (rw lapsed (rw refused (nothing start))))
              ]
        ]
      ]
    ]

-- The watermark reclaimer takes no more than the victims it is allowed, gives the caller as many keys as
-- it reports, and leaves every record alone that is pinned or protected.
pub evict_cold_to_target-Evicts :
    (target most : ℕ) (s : Allocator)
    → let r = evict_cold_to_target target most s in (r.1 ≤ most) × Evicts r.1 s r.0
unfolding evict_cold_to_target
evict_cold_to_target-Evicts target most s =
    let limit = if ltb ((2 ^ 64 - 1) / 4) most then 2 ^ 64 - 1 else 4 * most in
    let done = cold-Takes limit target most 0 s in
    let total = (evict_cold_loop limit target most 0 s).1 in
    let count : total - 0 ≡ total = omega arith in
    (
      cold_bound limit target most 0 s (omega arith),
      subst (λ n. Evicts n s (evict_cold_loop limit target most 0 s).0) count done.evicts,
    )
