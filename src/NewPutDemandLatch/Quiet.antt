-- ===== src/NewPutDemandLatch/Quiet.antt =====
-- The latch stays on while objects are admitted, and quiet observations switch it off for good.
use dingo_cache.Common.{
  ℕ, ◌+◌, ◌≤◌, ◌<◌, ◌≡◌, ◌≢◌, ◌⊎◌, inl, inr, true, false, arith, List, [], ◌∷◌, length, subst,
}
use dingo_cache.NewPutDemandLatch.{
  NewPutDemandLatch, Tick, open_interval, begin_tick, end_tick, tick, run, quiet_tick_limit,
}

-- An observation without admissions, below the high mark before the work and not above the low mark after it.
pub record IsQuiet (t : Tick) : Type 0 where
  pub below : t.used_before ≤ t.high
  pub done : t.used_after ≤ t.low
  pub no_new : t.newly ≡ 0

-- One observation: the latch is on afterwards only if it was on, or the high mark was passed, or, with
-- pressure seen, objects were admitted above the low mark; and it stays on while objects are admitted.
pub tick-active :
    (t : Tick) (l : NewPutDemandLatch)
    → ((tick t l).active ≡ false
        ⊎ (l.active ≡ true
            ⊎ (t.high < t.used_before
                ⊎ (l.pressure_seen ≡ true × (t.newly ≢ 0) × t.low < t.used_before))))
      × (l.active ≡ false ⊎ (t.newly ≡ 0 ⊎ (tick t l).active ≡ true))
unfolding tick begin_tick end_tick open_interval
tick-active t l = ground arith

record Quietens (l m : NewPutDemandLatch) : Type 0 where
  current : m.current_interval_bytes ≡ 0
  bound : m.quiet_ticks ≤ 128
  calm : l.pressure_seen ≡ false → m.pressure_seen ≡ false
  off : l.current_interval_bytes ≡ 0 → m.active ≡ false
  counts :
      l.current_interval_bytes ≡ 0
      → (m.pressure_seen ≡ false) ⊎ ((l.quiet_ticks + 1 ≤ m.quiet_ticks) × (m.quiet_ticks < 128))

quiet_tick :
    (t : Tick) (l : NewPutDemandLatch) → IsQuiet t → l.quiet_ticks ≤ 128 → Quietens l (tick t l)
unfolding tick begin_tick end_tick open_interval
quiet_tick t l quiet bound = record {
  current = ground (arith, quiet.no_new);
  bound = ground (arith, quiet.no_new);
  calm = λ z. ground (arith, quiet.no_new, quiet.done, quiet.below);
  off = λ z. ground (arith, quiet.no_new, quiet.done, quiet.below);
  counts = λ z. ground (arith, quiet.no_new, quiet.done, quiet.below);
}

pub data AllQuiet : List Tick → Type 0 where
  none_left : AllQuiet []
  and_then : (t : Tick) (ts : List Tick) → IsQuiet t → AllQuiet ts → AllQuiet (t ∷ ts)

-- After `n` quiet observations in a row, with nothing admitted just before.
record IsSettling (n : ℕ) (l : NewPutDemandLatch) : Type 0 where
  current : l.current_interval_bytes ≡ 0
  off : l.active ≡ false
  bound : l.quiet_ticks ≤ 128
  counts : (l.pressure_seen ≡ false) ⊎ ((n ≤ l.quiet_ticks) × (l.quiet_ticks < 128))

IsSettling-tick :
    (n : ℕ) (t : Tick) (l : NewPutDemandLatch)
    → IsQuiet t
    → IsSettling n l
    → IsSettling (n + 1) (tick t l)
IsSettling-tick n t l quiet s =
    let q : Quietens l (tick t l) = quiet_tick t l quiet s.bound in
    record {
      current = q.current;
      off = q.off s.current;
      bound = q.bound;
      counts = elim s.counts [
        | inl calm ↦ inl (q.calm calm)
        | inr (more, less) ↦ elim (q.counts s.current) [
          | inl calm ↦ inl calm
          | inr (next, less') ↦ inr (omega arith, less')
        ]
      ];
    }

IsSettling-run :
    (n : ℕ) (ts : List Tick) (l : NewPutDemandLatch)
    → AllQuiet ts
    → IsSettling n l
    → IsSettling (n + length ts) (run ts l)
unfolding run
IsSettling-run n [] l q s = subst (λ k. IsSettling k l) (omega arith) s
IsSettling-run n (t ∷ ts) l (and_then _ _ quiet q) s =
    subst (λ k. IsSettling k (run ts (tick t l))) (omega arith)
      (IsSettling-run (n + 1) ts (tick t l) q (IsSettling-tick n t l quiet s))

-- From a count of quiet observations within its limit, 130 quiet observations or more in a row switch the
-- latch off and forget the pressure.
pub run-quiet :
    (ts : List Tick) (l : NewPutDemandLatch)
    → l.quiet_ticks ≤ quiet_tick_limit
    → AllQuiet ts
    → 130 ≤ length ts
    → ((run ts l).active ≡ false) × ((run ts l).pressure_seen ≡ false)
unfolding run
run-quiet [] l bound q long = absurd (omega arith)
run-quiet (t ∷ []) l bound q long = absurd (omega arith)
run-quiet (t ∷ u ∷ ts) l bound (and_then _ _ quiet (and_then _ _ quiet' q)) long =
    let first : Quietens l (tick t l) = quiet_tick t l quiet bound in
    let second : Quietens (tick t l) (tick u (tick t l)) =
      quiet_tick u (tick t l) quiet' first.bound in
    let m = tick u (tick t l) in
    let start : IsSettling 0 m = record {
      current = second.current;
      off = second.off first.current;
      bound = second.bound;
      counts = elim (second.counts first.current) [
        | inl calm ↦ inl calm
        | inr (more, less) ↦ inr (omega arith, less)
      ];
    } in
    let done : IsSettling (0 + length ts) (run ts m) = IsSettling-run 0 ts m q start in
    (done.off, elim done.counts [ inl calm ↦ calm | inr (long', less) ↦ absurd (omega arith) ])
