-- ===== src/SlabAllocator/Extents/Evict.antt =====
-- An eviction leaves every pinned and every protected record alone, and returns what it took.
use dingo_cache.Common.{
  ℕ, zero, suc, ◌+◌, ◌<◌, ◌≡◌, refl, sym, ap, subst, ◌∙◌, ◌≢◌, ◌⊎◌, inl, inr, Bool, false, not,
  ◌&&◌, arith, [], ◌∷◌, length, get_or, ltb, ◌==◌, Bool-cases, if◌then◌else◌, Option-cases,
  length-append, add64,
}
use dingo_cache.SlabAllocator.Index.{no_slot}
use dingo_cache.SlabAllocator.State.{Allocator, no_meta, slot_at, class_at, with_slot}
use dingo_cache.SlabAllocator.Frame.{
  Core, core, IsSame, IsSame-refl, and-slot, and-class, and-aside,
}
use dingo_cache.SlabAllocator.Extents.{
  free_slot, drop_victim, ask_slot_evict, evict_slot, hand_of, advance, evict_fallback, sweep,
  evict_one_from,
}
use dingo_cache.SlabAllocator.Extents.Free.{Frees, free_slot-Frees}

-- A record that no eviction may take, and one that an eviction may take.
abbrev pub IsGuarded : Core → Type 0
IsGuarded c = (0 < c.refs) ⊎ (c.retain_until ≢ 0)

abbrev pub IsFree : Core → Type 0
IsFree c = (c.refs ≡ 0) × (c.retain_until ≡ 0)

guarded-ne :
    (s : Allocator) (i j : ℕ) → IsFree (core (slot_at s i)) → IsGuarded (core (slot_at s j)) → j ≢ i
guarded-ne s i j free (inl pinned) e =
    let same : (slot_at s j).refs ≡ (slot_at s i).refs = ap (λ n. (slot_at s n).refs) e in
    omega (arith, same, pinned)
guarded-ne s i j free (inr held) e = held (ap (λ n. (slot_at s n).retain_until) e ∙ free.1)

-- What an eviction from `s` to `t` does: guarded records stay, and the caller gets `n` more keys.
pub record Evicts (n : ℕ) (s t : Allocator) : Type 0 where
  pub spares : (j : ℕ) → IsGuarded (core (slot_at s j)) → core (slot_at t j) ≡ core (slot_at s j)
  pub given : length t.evicted ≡ length s.evicted + n

pub Evicts-trans : {m n : ℕ} {s t u : Allocator} → Evicts m s t → Evicts n t u → Evicts (m + n) s u
Evicts-trans {s = s} {t = t} a b = record {
  spares = λ j guarded.
      let same = a.spares j guarded in b.spares j (subst IsGuarded (sym same) guarded) ∙ same;
  given = omega (arith, a.given, b.given);
}

-- Steps before and after that take nothing.
pub Evicts-after : {n : ℕ} {s t u : Allocator} → Evicts 0 s t → Evicts n t u → Evicts n s u
Evicts-after {n} {s} {t} {u} a b =
    let both = Evicts-trans a b in
    record { spares = both.spares; given = omega (arith, a.given, b.given) }

pub IsSame-Evicts : {s t : Allocator} → IsSame s t → Evicts 0 s t
IsSame-Evicts same = record {
  spares = λ j guarded. same.cores j;
  given = omega (arith, ap (λ r. length r.evicted) same.others);
}

pub drop_victim-Evicts :
    (i : ℕ) (s : Allocator) → IsFree (core (slot_at s i)) → Evicts 1 s (drop_victim i s)
unfolding drop_victim
drop_victim-Evicts i s free =
    let freed : Frees i s (free_slot i s) = free_slot-Frees i s in
    let keys = length-append (free_slot i s).evicted ((slot_at s i).key ∷ []) in
    record {
      spares = λ j guarded. freed.others j (guarded-ne s i j free guarded);
      given = omega (arith, keys, ap (λ k. length k.evicted) freed.rest);
    }

abbrev pub count_of : Bool → ℕ
count_of done = if done then 1 else 0

-- Only the number of the call of the callback changes.
pub ask_slot_evict_lem :
    (i : ℕ) (s : Allocator)
    → ((ask_slot_evict i s).0.slots ≡ s.slots) × ((ask_slot_evict i s).0.evicted ≡ s.evicted)
unfolding ask_slot_evict
ask_slot_evict_lem i s = elim (Option-cases s.opt.on_slot_evict) [
  | inl absent ↦ rw (absent, ask_slot_evict) (refl, refl)
  | inr (answer, present) ↦ rw (present, ask_slot_evict) (refl, refl)
]

pub aside-Evicts : {s t : Allocator} → t.slots ≡ s.slots → t.evicted ≡ s.evicted → Evicts 0 s t
aside-Evicts {s} {t} slots keys = record {
  spares = λ j guarded. ap (λ xs. core (get_or xs j no_meta)) slots;
  given = omega (arith, ap length keys);
}

evict_slot-Evicts :
    (i : ℕ) (s : Allocator)
    → IsFree (core (slot_at s i))
    → Evicts (count_of (evict_slot i s).1) s (evict_slot i s).0
unfolding evict_slot
evict_slot-Evicts i s free =
    let asked : Allocator = (ask_slot_evict i s).0 in
    let (slots, keys) = ask_slot_evict_lem i s in
    let start : Evicts 0 s asked = aside-Evicts slots keys in
    let free' : IsFree (core (slot_at asked i)) =
      subst IsFree (sym (ap (λ xs. core (get_or xs i no_meta)) slots)) free in
    elim (Bool-cases (ask_slot_evict i s).1) [
      | inl ok ↦ rw ok (Evicts-after start (drop_victim-Evicts i asked free'))
      | inr refused ↦ rw refused start
    ]

-- The fallback is either absent or a record that may be taken.
abbrev IsFallback : Allocator → ℕ → Type 0
IsFallback s i = (i ≡ no_slot) ⊎ IsFree (core (slot_at s i))

evict_fallback-Evicts :
    (i : ℕ) (s : Allocator)
    → IsFallback s i
    → Evicts (count_of (evict_fallback i s).1) s (evict_fallback i s).0
unfolding evict_fallback
evict_fallback-Evicts i s fallback = elim (Bool-cases (not (i == no_slot) && (slot_at s i).live)) [
  | inr off ↦ rw off (IsSame-Evicts (IsSame-refl s))
  | inl on ↦ elim fallback [
    | inl e ↦ absurd (ground arith)
    | inr free ↦ rw on (evict_slot-Evicts i s free)
  ]
]

advance-IsSame : (c : ℕ) (s : Allocator) → IsSame s (advance c s)
unfolding advance
advance-IsSame c s = and-class (IsSame-refl s) _ _

-- A fallback stays one over steps that keep the records.
IsFallback-same : {s t : Allocator} (i : ℕ) → IsSame s t → IsFallback s i → IsFallback t i
IsFallback-same i same (inl e) = inl e
IsFallback-same i same (inr free) = inr (subst IsFree (sym (same.cores i)) free)

first-IsFallback :
    (s : Allocator) (i fallback : ℕ)
    → IsFree (core (slot_at s i))
    → IsFallback s fallback
    → IsFallback s (if fallback == no_slot then i else fallback)
first-IsFallback s i fallback free ready = elim (Bool-cases (fallback == no_slot)) [
  | inl absent ↦ rw absent (inr free)
  | inr present ↦ rw present ready
]

-- The CLOCK takes no guarded record, however many rounds it makes.
sweep-Evicts :
    (n c fallback : ℕ) (s : Allocator)
    → IsFallback s fallback
    → Evicts (count_of (sweep n c fallback s).1) s (sweep n c fallback s).0
unfolding sweep
sweep-Evicts zero c fallback s ready = evict_fallback-Evicts fallback s ready
sweep-Evicts (suc n) c fallback s ready =
    let i = hand_of c s in
    let s' : Allocator = advance c s in
    let moved : IsSame s s' = advance-IsSame c s in
    let ready' : IsFallback s' fallback = IsFallback-same fallback moved ready in
    elim (Bool-cases ((class_at s c).resident_count == 0)) [
      | inl over ↦ rw over (evict_fallback-Evicts fallback s ready)
      | inr some_left ↦ elim (Bool-cases (ltb 0 (slot_at s' i).refs)) [
        | inl pinned ↦
            rw some_left
              (rw pinned (Evicts-after (IsSame-Evicts moved) (sweep-Evicts n c fallback s' ready')))
        | inr loose ↦ elim (Bool-cases (not ((slot_at s' i).retain_until == 0))) [
          | inl held ↦
              let counted : Allocator = record s' {
                retain_evict_skipped = add64 s'.retain_evict_skipped 1;
              } in
              let same : IsSame s counted = and-aside moved refl refl in
              rw some_left (
                rw loose (
                  rw held (
                    Evicts-after (IsSame-Evicts same)
                      (sweep-Evicts n c fallback counted (IsFallback-same fallback same ready)))))
          | inr lapsed ↦
              let free : IsFree (core (slot_at s' i)) = (ground arith, ground arith) in
              elim (Bool-cases (slot_at s' i).referenced) [
                | inr cold ↦ rw some_left (
                    rw loose (
                      rw lapsed (
                        rw cold
                          (Evicts-after (IsSame-Evicts moved) (evict_slot-Evicts i s' free)))))
                | inl warm ↦
                    let first = if fallback == no_slot then i else fallback in
                    let spared : Allocator =
                      with_slot i (λ x. record x { referenced = false }) s' in
                    let step : IsSame s' spared = and-slot (IsSame-refl s') i _ refl in
                    let ready'' : IsFallback s' first =
                      first-IsFallback s' i fallback free ready' in
                    rw some_left (
                      rw loose (
                        rw lapsed (
                          rw warm (
                            Evicts-after (Evicts-after (IsSame-Evicts moved) (IsSame-Evicts step)) (
                              sweep-Evicts n c first spared
                                (IsFallback-same first step ready''))))))
              ]
        ]
      ]
    ]

-- Evicting one resident of a class leaves every record alone that is pinned or protected, and gives the
-- caller one key if it reports success, and none if it does not.
pub evict_one_from-Evicts :
    (c : ℕ) (s : Allocator) → Evicts (count_of (evict_one_from c s).1) s (evict_one_from c s).0
unfolding evict_one_from
evict_one_from-Evicts c s = elim (Bool-cases ((class_at s c).resident_count == 0)) [
  | inl bare ↦ rw bare (IsSame-Evicts (IsSame-refl s))
  | inr full ↦ rw full (sweep-Evicts _ c no_slot s (inl refl))
]
