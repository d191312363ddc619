-- ===== src/Transport/RailHealth/Once.antt =====
-- Sequences of calls of RemoteRailHealth before and after a lease is completed.
use dingo_cache.Common.{
  ℕ, ◌+◌, ◌-◌, ◌^◌, ◌<◌, ◌≤◌, ◌≡◌, refl, sym, not, ◌&&◌, List, [], ◌∷◌, none, some, ◌==◌, length,
  arith, Option-cases, Bool-cases, inl, inr,
}
use dingo_cache.Transport.RailHealth.Leases.{find_lease-erased, find_lease-erase_lease}
use dingo_cache.Transport.RailHealth.Probe.{IsHealth, find_rail-write_rail, leases_of}
use dingo_cache.Transport.RailHealth.State.{
  Config, Outcome, Lease, stays, RailState, RailHealth, find_lease, emplace_lease, erase_lease,
  find_rail, rail_or_new, write_rail,
}
use dingo_cache.Transport.RailHealth.{
  new_rail_health, unavailable, try_acquire_rail, complete_rail, complete, reconcile,
}
use dingo_cache.Transport.RailHealth.Calls.{
  Call, acquiring, completing, reconciling, after_call, after_calls, Keeps, IsHealth-new,
  new_rail_health_next, after_call-Keeps, complete-Keeps, after_calls-IsHealth,
}

-- Where the lease is not found, Complete does nothing.
complete-unknown :
    (s : RailHealth) (p i g : ℕ) (outcome : Outcome) (now_us : ℕ)
    → ((r : RailState) → find_rail s p i ≡ some r → find_lease r.active_leases g ≡ none)
    → complete s p i g outcome now_us ≡ (s, record { transition = stays; cooldown_until_us = 0 })
unfolding complete
complete-unknown s p i g outcome now_us h = elim (Option-cases (find_rail s p i)) [
  | inl absent ↦ rw (complete, absent) refl
  | inr (r, here) ↦ rw (complete, here, h r here) refl
]

-- After Complete, the lease is not there.
find_lease-complete :
    (s : RailHealth) (p i g : ℕ) (outcome : Outcome) (now_us : ℕ) (t : RailState)
    → IsHealth s
    → find_rail (complete s p i g outcome now_us).0 p i ≡ some t
    → find_lease t.active_leases g ≡ none
unfolding complete
find_lease-complete s p i g outcome now_us t ok e = elim (Option-cases (find_rail s p i)) [
  | inl absent ↦ absurd (ground (arith, e, absent))
  | inr (r, here) ↦ elim (Option-cases (find_lease r.active_leases g)) [
    | inl unknown ↦ let same : r ≡ t = ground (arith, e, here, unknown) in rw (sym same) unknown
    | inr (l, found) ↦
        let erased : RailState = record r { active_leases = erase_lease r.active_leases g } in
        let done : RailState = (complete_rail s.config erased l outcome now_us).0 in
        let written = find_rail-write_rail s p i p i done in
        let same : done ≡ t = ground (arith, e, here, found, written) in
        let leases = leases_of s.config erased l outcome now_us in
        let w = ok p i r here in
        rw (sym same, leases) (find_lease-erased s.next_generation g r.active_leases w.numbered)
  ]
]

-- A number that was given out, and that no lease of the rail has.
record IsGone (p i g : ℕ) (s : RailHealth) : Type 0 where
  given : g < s.next_generation
  absent : (r : RailState) → find_rail s p i ≡ some r → find_lease r.active_leases g ≡ none

-- It stays gone where a rail is written that does not have it.
absent-write_rail :
    (p i g : ℕ) (s : RailHealth) (q j : ℕ) (w : RailState)
    → IsGone p i g s
    → (p ≡ q → i ≡ j → find_lease w.active_leases g ≡ none)
    → (r : RailState) → find_rail (write_rail s q j w) p i ≡ some r
    → find_lease r.active_leases g ≡ none
absent-write_rail p i g s q j w gone without r e =
    let found = find_rail-write_rail s q j p i w in
    elim (Bool-cases (p == q && i == j)) [
      | inl here ↦
          let same : w ≡ r = ground (arith, found, here, e) in
          rw (sym same) (without (ground (arith, here)) (ground (arith, here)))
      | inr there ↦ gone.absent r (ground (arith, found, there, e))
    ]

absent-rail_or_new :
    (p i g : ℕ) (s : RailHealth)
    → IsGone p i g s
    → find_lease (rail_or_new s p i).active_leases g ≡ none
absent-rail_or_new p i g s gone = elim (Option-cases (find_rail s p i)) [
  | inl absent ↦ rw (rail_or_new, absent) refl
  | inr (r, here) ↦ rw (rail_or_new, here) (gone.absent r here)
]

find_lease-emplace_lease :
    (ls : List Lease) (l : Lease) (g : ℕ)
    → find_lease ls g ≡ none
    → g < l.generation
    → find_lease (emplace_lease ls l) g ≡ none
find_lease-emplace_lease ls l g absent less = elim (Option-cases (find_lease ls l.generation)) [
  | inl free ↦ rw (emplace_lease, free) (ground (arith, absent, less))
  | inr (other, taken) ↦ rw (emplace_lease, taken) absent
]

IsGone-acquiring :
    (p i g : ℕ) (s : RailHealth) (q j now_us : ℕ)
    → IsGone p i g s
    → (r : RailState) → find_rail (try_acquire_rail s q j now_us).0 p i ≡ some r
    → find_lease r.active_leases g ≡ none
unfolding try_acquire_rail
IsGone-acquiring p i g s q j now_us gone r =
    let known : p ≡ q → i ≡ j → find_lease (rail_or_new s q j).active_leases g ≡ none =
      λ e d. rw (sym e, sym d) (absent-rail_or_new p i g s gone) in
    elim (Bool-cases (s.has_reconciled && not (s.live_peer_ids q))) [
      | inl fenced ↦ rw fenced (gone.absent r)
      | inr open_peer ↦ elim (Bool-cases (unavailable (rail_or_new s q j) now_us)) [
        | inl busy ↦
            rw (open_peer, busy) (absent-write_rail p i g s q j (rail_or_new s q j) gone known r)
        | inr free ↦
            rw (open_peer, free)
              (absent-write_rail p i g s q j _ gone
                (λ e d.
                  find_lease-emplace_lease (rail_or_new s q j).active_leases _ g (known e d)
                    gone.given)
                r)
      ]
    ]

IsGone-completing :
    (p i g : ℕ) (s : RailHealth) (q j n : ℕ) (outcome : Outcome) (now_us : ℕ)
    → IsGone p i g s
    → (r : RailState) → find_rail (complete s q j n outcome now_us).0 p i ≡ some r
    → find_lease r.active_leases g ≡ none
unfolding complete
IsGone-completing p i g s q j n outcome now_us gone r = elim (Option-cases (find_rail s q j)) [
  | inl absent ↦ rw (complete, absent) (gone.absent r)
  | inr (t, here) ↦ elim (Option-cases (find_lease t.active_leases n)) [
    | inl unknown ↦ rw (complete, here, unknown) (gone.absent r)
    | inr (l, found) ↦
        let erased : RailState = record t { active_leases = erase_lease t.active_leases n } in
        rw (complete, here, found)
          (absent-write_rail p i g s q j (complete_rail s.config erased l outcome now_us).0 gone
            (λ e d.
              rw (leases_of s.config erased l outcome now_us)
                (find_lease-erase_lease t.active_leases n g (gone.absent t (rw (e, d) here))))
            r)
  ]
]

after_call-IsGone :
    (p i g : ℕ) (s : RailHealth) (call : Call)
    → Keeps s (after_call s call)
    → IsGone p i g s
    → IsGone p i g (after_call s call)
unfolding after_call reconcile
after_call-IsGone p i g s (acquiring q j now_us) k gone = record {
  given = omega (arith, gone.given, k.later);
  absent = IsGone-acquiring p i g s q j now_us gone;
}
after_call-IsGone p i g s (completing q j n outcome now_us) k gone = record {
  given = omega (arith, gone.given, k.later);
  absent = IsGone-completing p i g s q j n outcome now_us gone;
}
after_call-IsGone p i g s (reconciling live) k gone = record {
  given = gone.given;
  absent = λ r e. elim (Bool-cases (live p)) [
    | inl here ↦ gone.absent r (ground (arith, e, here))
    | inr left ↦ absurd (ground (arith, e, left))
  ];
}

after_calls-IsGone :
    (p i g : ℕ) (s : RailHealth) (calls : List Call)
    → IsHealth s
    → s.next_generation + length calls < 2 ^ 64
    → IsGone p i g s
    → IsGone p i g (after_calls s calls)
unfolding after_calls
after_calls-IsGone p i g s [] ok few gone = gone
after_calls-IsGone p i g s (call ∷ calls) ok few gone =
    let k = after_call-Keeps s call ok (omega arith) in
    after_calls-IsGone p i g (after_call s call) calls k.healthy (omega (arith, k.numbers))
      (after_call-IsGone p i g s call k gone)

after_calls_numbers :
    (s : RailHealth) (calls : List Call)
    → IsHealth s
    → s.next_generation + length calls < 2 ^ 64
    → (after_calls s calls).next_generation ≤ s.next_generation + length calls
unfolding after_calls
after_calls_numbers s [] ok few = omega arith
after_calls_numbers s (call ∷ calls) ok few =
    let k = after_call-Keeps s call ok (omega arith) in
    omega (
      arith,
      after_calls_numbers (after_call s call) calls k.healthy (omega (arith, k.numbers)),
      k.numbers,
    )

complete-IsGone :
    (p i g : ℕ) (s : RailHealth) (outcome : Outcome) (now_us : ℕ)
    → IsHealth s
    → g < s.next_generation
    → IsGone p i g (complete s p i g outcome now_us).0
complete-IsGone p i g s outcome now_us ok given =
    let k = complete-Keeps s p i g outcome now_us ok in
    record {
      given = omega (arith, given, k.later);
      absent = λ r e. find_lease-complete s p i g outcome now_us r ok e;
    }

-- A lease is completed at most once: after any calls, a number that was given out is completed on a rail;
-- whatever is called then, other leases of that rail and other numbers included, a second Complete of that number
-- on that rail changes nothing and reports nothing, whatever the outcomes and the times. There are fewer than
-- 2 ^ 64 - 2 calls in all.
pub complete-complete :
    (c : Config) (before between : List Call) (peer rail generation : ℕ) (first second : Outcome)
    (now_us later_us : ℕ)
    → length before + length between < 2 ^ 64 - 2
    → generation < (after_calls (new_rail_health c) before).next_generation
    → let completed =
        (complete (after_calls (new_rail_health c) before) peer rail generation first now_us).0 in
      let s = after_calls completed between in
      complete s peer rail generation second later_us
      ≡ (s, record { transition = stays; cooldown_until_us = 0 })
complete-complete c before between peer rail generation first second now_us later_us few given =
    let start = new_rail_health c in
    let s = after_calls start before in
    let first_number = new_rail_health_next c in
    let ok = after_calls-IsHealth start before (IsHealth-new c) (omega (arith, first_number)) in
    let used = after_calls_numbers start before (IsHealth-new c) (omega (arith, first_number)) in
    let k = complete-Keeps s peer rail generation first now_us ok in
    let completed = (complete s peer rail generation first now_us).0 in
    let gone =
      after_calls-IsGone peer rail generation completed between k.healthy
        (omega (arith, used, k.numbers, first_number))
        (complete-IsGone peer rail generation s first now_us ok given) in
    complete-unknown (after_calls completed between) peer rail generation second later_us
      gone.absent
