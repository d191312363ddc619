-- ===== src/SlabAllocator/Retention/Expiry.antt =====
-- The expiry wheel ends no protection early.
use dingo_cache.Common.{
  ℕ, zero, suc, ◌≤◌, ◌<◌, ◌≡◌, refl, ap, ◌∙◌, ◌≢◌, inl, inr, false, not, ◌||◌, arith, List, [], ◌∷◌,
  length, get_or, set, ltb, ◌==◌, Bool-cases, some, if◌then◌else◌, max, sub64, ◌+◌, ◌-◌, ◌%◌, leb,
  Option-cases,
}
use dingo_cache.SlabAllocator.Index.{find}
use dingo_cache.SlabAllocator.State.{SlotMeta, Allocator, WheelEntry, no_meta, slot_at, with_slot}
use dingo_cache.SlabAllocator.Frame.{get_or-set_keeps}
use dingo_cache.SlabAllocator.Extents.{unprotect}
use dingo_cache.SlabAllocator.Extents.Free.{unprotect-others}
use dingo_cache.SlabAllocator.Retention.{
  expire_entry, drain_bucket, drain_ticks, expire_retention, observe_time, last_full_tick,
}

-- The deadline of record `j` in two states is the same.
abbrev Spares : ℕ → Allocator → Allocator → Type 0
Spares j s t = (slot_at t j).retain_until ≡ (slot_at s j).retain_until

-- A cleared protection is that of one record.
clear-Spares :
    (i j : ℕ) (s : Allocator)
    → j ≢ i
    → Spares j s (with_slot i (λ n. record n { referenced = false }) (unprotect i s))
unfolding with_slot
clear-Spares i j s ne =
    let u : Allocator = unprotect i s in
    get_or-set_keeps (λ (m : SlotMeta). m.retain_until) u.slots i j
      (record (slot_at u i) { referenced = false }) no_meta refl
    ∙ ap (λ c. c.retain_until) (unprotect-others i j s ne)

module _ (now j : ℕ) where
  expire_at :
      (entry : WheelEntry) (s : Allocator) (i : ℕ)
      → entry.until ≤ now
      → now < (slot_at s j).retain_until
      → find s.index entry.key ≡ some i
      → Spares j s (expire_entry entry s).0
  unfolding expire_entry
  expire_at entry s i past future hit =
      elim (Bool-cases
        (not (slot_at s i).live || not ((slot_at s i).retain_until == entry.until))) [
          | inl stale ↦ rw (hit, expire_entry) (rw stale)
          | inr due ↦
              let same : (slot_at s i).retain_until ≡ entry.until = ground arith in
              let apart : j ≢ i = λ e.
                let equal : (slot_at s j).retain_until ≡ (slot_at s i).retain_until =
                  ap (λ n. (slot_at s n).retain_until) e in
                omega arith in
              rw (hit, expire_entry) (rw due (clear-Spares i j s apart))
        ]

  expire_entry-Spares :
      (entry : WheelEntry) (s : Allocator)
      → entry.until ≤ now
      → now < (slot_at s j).retain_until
      → Spares j s (expire_entry entry s).0
  unfolding expire_entry
  expire_entry-Spares entry s past future = elim (Option-cases (find s.index entry.key)) [
    | inl missed ↦ rw (missed, expire_entry)
    | inr (i, hit) ↦ expire_at entry s i past future hit
  ]

  drain_bucket-Spares :
      (es : List WheelEntry) (s : Allocator)
      → now < (slot_at s j).retain_until
      → Spares j s (drain_bucket now es s).0
  unfolding drain_bucket
  drain_bucket-Spares [] s future = refl
  drain_bucket-Spares (e ∷ es) s future = elim (Bool-cases (ltb now e.until)) [
    | inl late ↦ rw late (drain_bucket-Spares es s future)
    | inr past ↦
        let s' : Allocator =
          (expire_entry e (record s { wheel_entries = sub64 s.wheel_entries 1 })).0 in
        let step =
          expire_entry-Spares e (record s { wheel_entries = sub64 s.wheel_entries 1 })
            (ground arith) future in
        rw past (drain_bucket-Spares es s' (rw step future) ∙ step)
  ]

  drain_ticks-Spares :
      (n : ℕ) (s : Allocator)
      → now < (slot_at s j).retain_until
      → Spares j s (drain_ticks n now s).0
  unfolding drain_ticks
  drain_ticks-Spares zero s future = refl
  drain_ticks-Spares (suc n) s future =
      let tick = s.wheel_tick + 1 in
      let b = tick % length s.wheel in
      let entered : Allocator = record s { wheel_tick = tick } in
      let bucket : List WheelEntry = get_or s.wheel b [] in
      let drained : Allocator = (drain_bucket now bucket entered).0 in
      let step : Spares j s drained = drain_bucket-Spares bucket entered future in
      let swapped : Allocator = record drained {
        wheel = set drained.wheel b (drain_bucket now bucket entered).1;
      } in
      drain_ticks-Spares n swapped (rw step future) ∙ step

pub observe_time_lem :
    (now : ℕ) (s : Allocator)
    → ((observe_time now s).retain_now_s ≡ max now s.retain_now_s)
      × ((observe_time now s).slots ≡ s.slots)
unfolding observe_time
observe_time_lem now s = ground arith

-- A protection whose deadline lies after both the given time and every time that the allocator has
-- seen is still there, with its deadline, after an expiry pass: none ends early.
pub expire_retention-Spares :
    (now j : ℕ) (s : Allocator)
    → max now s.retain_now_s < (slot_at s j).retain_until
    → (slot_at (expire_retention now s).0 j).retain_until ≡ (slot_at s j).retain_until
unfolding expire_retention
expire_retention-Spares now j s future =
    let t : Allocator = observe_time now s in
    let (seen, slots) = observe_time_lem now s in
    let target = last_full_tick t.retain_now_s in
    let start =
      if ltb (length t.wheel) (target - t.wheel_tick)
      then target - length t.wheel
      else t.wheel_tick in
    let begun : Allocator = record t { wheel_tick = start } in
    let same : Spares j s t = ap (λ xs. (get_or xs j no_meta).retain_until) slots in
    let later : t.retain_now_s < (slot_at t j).retain_until = omega (arith, seen, same) in
    elim (Bool-cases (length t.wheel == 0 || leb target t.wheel_tick)) [
      | inl idle ↦ rw idle same
      | inr due ↦ rw due (drain_ticks-Spares t.retain_now_s j (target - start) begun later ∙ same)
    ]
