-- ===== src/Transport/EndpointSchedule/Laws.antt =====
-- The choice of a connection is optimal in the order of in-flight work, latency and number.
use dingo_cache.Common.{
  ℕ, zero, suc, ◌+◌, ◌<◌, ◌≡◌, ◌⊎◌, inl, inr, true, false, arith, List, ◌==◌, length, Bool-cases,
  ◌≤◌, subst, sym, ap,
}
use dingo_cache.Transport.EndpointSchedule.{
  EndpointConnectionLoad, load_at, takes_over, next_best, select_from, select_endpoint_connection,
}

-- Less in-flight work, or the same and a lower latency, where no sample yet counts as 0, or the same and a
-- lower number.
abbrev pub Precedes : EndpointConnectionLoad → EndpointConnectionLoad → Type 0
Precedes c b =
    (c.inflight < b.inflight)
    ⊎ ((c.inflight ≡ b.inflight)
        × ((c.latency_ns < b.latency_ns) ⊎ ((c.latency_ns ≡ b.latency_ns) × (c.id < b.id))))

takes_over-Precedes : (c b : EndpointConnectionLoad) → takes_over c b ≡ true → Precedes c b
unfolding takes_over
takes_over-Precedes c b h = ground arith

stays-Precedes : (c b : EndpointConnectionLoad) → takes_over c b ≡ false → ¬ Precedes c b
unfolding takes_over
stays-Precedes c b h p = ground arith

Precedes-trans : (a b c : EndpointConnectionLoad) → Precedes a b → Precedes b c → Precedes a c
Precedes-trans a b c p q = ground arith

Precedes-irrefl : (a : EndpointConnectionLoad) → ¬ Precedes a a
Precedes-irrefl a p = ground arith

-- The best of the first `i` connections, or the length if none of these is healthy.
record IsBest (cs : List EndpointConnectionLoad) (i best : ℕ) : Type 0 where
  found :
      (j : ℕ)
      → j < i
      → (load_at cs j).healthy ≡ true
      → (best < length cs) × (¬ Precedes (load_at cs j) (load_at cs best))
  healthy : best < length cs → (load_at cs best).healthy ≡ true
  range : best ≤ length cs

-- The newcomer is the best of all up to it.
takes-IsBest :
    (cs : List EndpointConnectionLoad) (i best : ℕ)
    → i < length cs
    → (load_at cs i).healthy ≡ true
    → IsBest cs i best
    → ((best ≡ length cs) ⊎ Precedes (load_at cs i) (load_at cs best))
    → IsBest cs (i + 1) i
takes-IsBest cs i best inside ok b first = record {
  found = λ j lt h. elim (Bool-cases (j == i)) [
    | inl same ↦
        let e : j ≡ i = ground arith in
        (
          inside,
          subst (λ n. ¬ Precedes (load_at cs n) (load_at cs i)) (sym e)
              (Precedes-irrefl (load_at cs i)),
        )
    | inr other ↦
        let (short, least) = b.found j (ground arith) h in
        (
          inside,
          elim first [
            | inl none_yet ↦ absurd (omega (arith, short, none_yet))
            | inr better ↦
                λ p. least (Precedes-trans (load_at cs j) (load_at cs i) (load_at cs best) p better)
          ],
        )
  ];
  healthy = λ h. ok;
  range = omega arith;
}

-- The best so far stays the best.
stays-IsBest :
    (cs : List EndpointConnectionLoad) (i best : ℕ)
    → IsBest cs i best
    → ((load_at cs i).healthy ≡ false)
      ⊎ ((best < length cs) × (¬ Precedes (load_at cs i) (load_at cs best)))
    → IsBest cs (i + 1) best
stays-IsBest cs i best b last = record {
  found = λ j lt h. elim (Bool-cases (j == i)) [
    | inl same ↦
        let e : j ≡ i = ground arith in
        elim last [
          | inl sick ↦ cc (h, sick, ap (λ n. (load_at cs n).healthy) e)
          | inr (short, least) ↦
              (short, subst (λ n. ¬ Precedes (load_at cs n) (load_at cs best)) (sym e) least)
        ]
    | inr other ↦ b.found j (ground arith) h
  ];
  healthy = b.healthy;
  range = b.range;
}

next_best-IsBest :
    (cs : List EndpointConnectionLoad) (i best : ℕ)
    → i < length cs
    → IsBest cs i best
    → IsBest cs (i + 1) (next_best cs i best)
unfolding next_best
next_best-IsBest cs i best inside b = elim (Bool-cases (load_at cs i).healthy) [
  | inr sick ↦ rw sick (stays-IsBest cs i best b (inl sick))
  | inl ok ↦ elim (Bool-cases (best == length cs)) [
    | inl none_yet ↦ rw (ok, none_yet) (takes-IsBest cs i best inside ok b (inl (ground arith)))
    | inr some_best ↦
        let short : best < length cs = ground (arith, b.range) in
        elim (Bool-cases (takes_over (load_at cs i) (load_at cs best))) [
          | inl wins ↦
              rw (ok, some_best, wins)
                (takes-IsBest cs i best inside ok b
                  (inr (takes_over-Precedes (load_at cs i) (load_at cs best) wins)))
          | inr loses ↦
              rw (ok, some_best, loses)
                (stays-IsBest cs i best b (inr (short, stays-Precedes _ _ loses)))
        ]
  ]
]

select_from-IsBest :
    (cs : List EndpointConnectionLoad) (n i best : ℕ)
    → n + i ≡ length cs
    → IsBest cs i best
    → IsBest cs (length cs) (select_from cs n i best)
unfolding select_from
select_from-IsBest cs zero i best e b = subst (λ k. IsBest cs k best) (omega arith) b
select_from-IsBest cs (suc n) i best e b =
    select_from-IsBest cs n (i + 1) (next_best cs i best) (omega arith)
      (next_best-IsBest cs i best (omega arith) b)

none-IsBest : (cs : List EndpointConnectionLoad) → IsBest cs 0 (length cs)
none-IsBest cs = record {
  found = λ j lt h. absurd (omega arith);
  healthy = λ h. absurd (omega arith);
  range = omega arith;
}

-- Where some connection is healthy, SelectEndpointConnection gives a connection of the vector that is
-- healthy, and this healthy connection does not precede it: no less in-flight work, nor at the same work a
-- lower latency, nor at the same latency a lower number.
pub select_endpoint_connection-best :
    (cs : List EndpointConnectionLoad) (j : ℕ)
    → j < length cs
    → (load_at cs j).healthy ≡ true
    → let best = select_endpoint_connection cs in
      (best < length cs)
      × ((load_at cs best).healthy ≡ true)
      × (¬ Precedes (load_at cs j) (load_at cs best))
unfolding select_endpoint_connection
select_endpoint_connection-best cs j inside ok =
    let b = select_from-IsBest cs (length cs) 0 (length cs) (omega arith) (none-IsBest cs) in
    let (short, least) = b.found j inside ok in (short, b.healthy short, least)
