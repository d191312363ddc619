-- ===== src/Transport/RailHealth/Calls.antt =====
-- Sequences of calls of RemoteRailHealth: one recovery probe at a time.
use dingo_cache.Common.{
  ℕ, ◌+◌, ◌-◌, ◌^◌, ◌<◌, ◌≤◌, ◌≡◌, refl, Bool, not, ◌&&◌, List, [], ◌∷◌, some, ◌==◌, if◌then◌else◌,
  length, arith, Option-cases, Bool-cases, inl, inr,
}
use dingo_cache.Transport.RailHealth.Leases.{probes, Numbered, IsRail}
use dingo_cache.Transport.RailHealth.Probe.{
  IsHealth, IsRail-rail_or_new, IsHealth-write_rail, granted-IsRail, completed-IsRail,
  after_generation_lem,
}
use dingo_cache.Transport.RailHealth.State.{
  Config, Outcome, RailState, Counters, RailHealth, find_lease, erase_lease, find_rail, rail_or_new,
  write_rail, count_rail, deny,
}
use dingo_cache.Transport.RailHealth.{
  new_rail_health, unavailable, count_grant, try_acquire_rail, count_completion, complete,
  reconcile,
}

-- What every operation keeps, and how many numbers it uses.
pub record Keeps (s s' : RailHealth) : Type 0 where
  pub healthy : IsHealth s'
  pub numbers : s'.next_generation ≤ s.next_generation + 1
  pub later : s.next_generation ≤ s'.next_generation

Keeps-count_rail :
    (s s' : RailHealth) (rail : ℕ) (add : Counters → Counters)
    → Keeps s s'
    → Keeps s (count_rail s' rail add)
Keeps-count_rail s s' rail add k = record {
  healthy = k.healthy;
  numbers = k.numbers;
  later = k.later;
}

Keeps-write_rail :
    (s : RailHealth) (p i next : ℕ) (r : RailState)
    → IsHealth s
    → s.next_generation ≤ next
    → next ≤ s.next_generation + 1
    → IsRail next r
    → Keeps s (record (write_rail s p i r) { next_generation = next })
Keeps-write_rail s p i next r ok lo hi w = record {
  healthy = IsHealth-write_rail s p i next r ok lo w;
  numbers = hi;
  later = lo;
}

try_acquire_rail-Keeps :
    (s : RailHealth) (p i now_us : ℕ)
    → IsHealth s
    → s.next_generation + 1 < 2 ^ 64
    → Keeps s (try_acquire_rail s p i now_us).0
unfolding try_acquire_rail
try_acquire_rail-Keeps s p i now_us ok few =
    let r = rail_or_new s p i in
    let w : IsRail s.next_generation r = IsRail-rail_or_new s p i ok in
    let next = after_generation_lem s.next_generation few in
    elim (Bool-cases (s.has_reconciled && not (s.live_peer_ids p))) [
      | inl fenced ↦ rw fenced (record { healthy = ok; numbers = omega arith; later = omega arith })
      | inr open_peer ↦ elim (Bool-cases (unavailable r now_us)) [
        | inl busy ↦
            rw (open_peer, busy)
              (Keeps-count_rail s (write_rail s p i r) i deny
                (Keeps-write_rail s p i s.next_generation r ok (omega arith) (omega arith) w))
        | inr free ↦
            let after = granted-IsRail s.next_generation r now_us w free in
            rw (open_peer, free, next)
              (Keeps-count_rail s _ i (count_grant (not (r.consecutive_failures == 0))) (
                Keeps-write_rail s p i (s.next_generation + 1) _ ok (omega arith) (omega arith)
                  after))
      ]
    ]

pub complete-Keeps :
    (s : RailHealth) (p i g : ℕ) (outcome : Outcome) (now_us : ℕ)
    → IsHealth s
    → Keeps s (complete s p i g outcome now_us).0
unfolding complete
complete-Keeps s p i g outcome now_us ok =
    let same : Keeps s s = record { healthy = ok; numbers = omega arith; later = omega arith } in
    elim (Option-cases (find_rail s p i)) [
      | inl absent ↦ rw (complete, absent) same
      | inr (r, here) ↦ elim (Option-cases (find_lease r.active_leases g)) [
        | inl unknown ↦ rw (complete, here, unknown) same
        | inr (l, found) ↦
            let erased : RailState = record r { active_leases = erase_lease r.active_leases g } in
            let done =
              completed-IsRail s.next_generation s.config r g l outcome now_us (ok p i r here)
                found in
            rw (complete, here, found)
              (Keeps-count_rail s _ i (count_completion erased l outcome now_us)
                (Keeps-write_rail s p i s.next_generation _ ok (omega arith) (omega arith) done))
      ]
    ]

reconcile-Keeps : (s : RailHealth) (live : ℕ → Bool) → IsHealth s → Keeps s (reconcile s live)
unfolding reconcile
reconcile-Keeps s live ok = record {
  healthy = λ p i r e. elim (Bool-cases (live p)) [
    | inl here ↦ ok p i r (ground (arith, e, here))
    | inr gone ↦ absurd (ground (arith, e, gone))
  ];
  numbers = omega arith;
  later = omega arith;
}

pub IsHealth-new : (c : Config) → IsHealth (new_rail_health c)
unfolding new_rail_health
IsHealth-new c p i r e = absurd (cc e)

pub new_rail_health_next : (c : Config) → (new_rail_health c).next_generation ≡ 1
unfolding new_rail_health
new_rail_health_next c = refl

-- One call of the class, and the calls one after the other.
pub data Call : Type 0 where
  acquiring : (peer rail now_us : ℕ) → Call
  completing : (peer rail generation : ℕ) (outcome : Outcome) (now_us : ℕ) → Call
  reconciling : (live : ℕ → Bool) → Call

unfoldable pub after_call : RailHealth → Call → RailHealth
after_call s (acquiring p i now_us) = (try_acquire_rail s p i now_us).0
after_call s (completing p i g outcome now_us) = (complete s p i g outcome now_us).0
after_call s (reconciling live) = reconcile s live

unfoldable pub after_calls : RailHealth → List Call → RailHealth
after_calls s [] = s
after_calls s (call ∷ calls) = after_calls (after_call s call) calls

pub after_call-Keeps :
    (s : RailHealth) (call : Call)
    → IsHealth s
    → s.next_generation + 1 < 2 ^ 64
    → Keeps s (after_call s call)
unfolding after_call
after_call-Keeps s (acquiring p i now_us) ok few = try_acquire_rail-Keeps s p i now_us ok few
after_call-Keeps s (completing p i g outcome now_us) ok few =
    complete-Keeps s p i g outcome now_us ok
after_call-Keeps s (reconciling live) ok few = reconcile-Keeps s live ok

pub after_calls-IsHealth :
    (s : RailHealth) (calls : List Call)
    → IsHealth s
    → s.next_generation + length calls < 2 ^ 64
    → IsHealth (after_calls s calls)
unfolding after_calls
after_calls-IsHealth s [] ok few = ok
after_calls-IsHealth s (call ∷ calls) ok few =
    let k = after_call-Keeps s call ok (omega arith) in
    after_calls-IsHealth (after_call s call) calls k.healthy (omega (arith, k.numbers))

-- Over every sequence of fewer than 2 ^ 64 - 1 calls of TryAcquire, Complete and Reconcile from the
-- constructor, every rail has as many recovery probes out as its flag says: one or none; and no two of its
-- leases have one number.
pub after_calls-IsRail :
    (c : Config) (calls : List Call) (peer rail : ℕ) (r : RailState)
    → length calls < 2 ^ 64 - 1
    → find_rail (after_calls (new_rail_health c) calls) peer rail ≡ some r
    → (probes r.active_leases ≡ (if r.recovery_probe_active then 1 else 0))
      × Numbered (after_calls (new_rail_health c) calls).next_generation r.active_leases
after_calls-IsRail c calls peer rail r few here =
    let first_number = new_rail_health_next c in
    let ok =
      after_calls-IsHealth (new_rail_health c) calls (IsHealth-new c) (omega (arith, first_number))
        peer rail r here in
    (ok.one_probe, ok.numbered)
