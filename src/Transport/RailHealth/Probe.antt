-- ===== src/Transport/RailHealth/Probe.antt =====
-- What TryAcquire and Complete do to one rail keeps its leases in order.
use dingo_cache.Common.{
  ℕ, ◌+◌, ◌^◌, ◌<◌, ◌≤◌, ◌≡◌, refl, sym, false, not, ◌&&◌, ◌||◌, some, ◌==◌, if◌then◌else◌, arith,
  Option-cases, Bool-cases, inl, inr, ==_iff,
}
use dingo_cache.Transport.RailHealth.Leases.{
  find_lease-beyond, Numbered-later, probes-erase_lease, Numbered-erase_lease, IsRail,
}
use dingo_cache.Transport.RailHealth.State.{
  Config, Outcome, success, endpoint_failure, abandon, Lease, RailState, RailHealth, new_rail,
  find_lease, emplace_lease, erase_lease, rails_of, find_rail, rail_or_new, write_rail,
}
use dingo_cache.Transport.RailHealth.{unavailable, after_generation, complete_rail}

-- Every rail that there is has its leases in order.
abbrev pub IsHealth : RailHealth → Type 0
IsHealth s = (p i : ℕ) (r : RailState) → find_rail s p i ≡ some r → IsRail s.next_generation r

pub find_rail-write_rail :
    (s : RailHealth) (p i q j : ℕ) (r : RailState)
    → find_rail (write_rail s p i r) q j ≡ (if q == p && j == i then some r else find_rail s q j)
find_rail-write_rail s p i q j r = elim (Bool-cases (q == p)) [
  | inl same ↦ let e : q ≡ p = (==_iff q p).0 same in rw (same, e, rails_of) refl
  | inr other ↦ ground (arith, other)
]

IsRail-new : (next : ℕ) → IsRail next new_rail
IsRail-new next = record { one_probe = refl; numbered = tt }

pub IsRail-rail_or_new :
    (s : RailHealth) (p i : ℕ) → IsHealth s → IsRail s.next_generation (rail_or_new s p i)
IsRail-rail_or_new s p i ok = elim (Option-cases (find_rail s p i)) [
  | inl absent ↦ rw (rail_or_new, absent) (IsRail-new s.next_generation)
  | inr (r, here) ↦ rw (rail_or_new, here) (ok p i r here)
]

IsRail-later : (next later : ℕ) (r : RailState) → next ≤ later → IsRail next r → IsRail later r
IsRail-later next later r h w = record {
  one_probe = w.one_probe;
  numbered = Numbered-later next later r.active_leases h w.numbered;
}

-- A rail that is written is in order, and so are the others.
pub IsHealth-write_rail :
    (s : RailHealth) (p i next : ℕ) (r : RailState)
    → IsHealth s
    → s.next_generation ≤ next
    → IsRail next r
    → IsHealth (record (write_rail s p i r) { next_generation = next })
IsHealth-write_rail s p i next r ok h w q j t e =
    let found = find_rail-write_rail s p i q j r in
    elim (Bool-cases (q == p && j == i)) [
      | inl here ↦ let same : r ≡ t = ground (arith, found, here, e) in rw (sym same) w
      | inr there ↦
          let old : find_rail s q j ≡ some t = ground (arith, found, there, e) in
          IsRail-later s.next_generation next t h (ok q j t old)
    ]

pub granted-IsRail :
    (next : ℕ) (r : RailState) (now_us : ℕ)
    → IsRail next r
    → unavailable r now_us ≡ false
    → IsRail (next + 1) (record r {
      active_leases = emplace_lease r.active_leases (record {
        generation = next;
        health_epoch = r.health_epoch;
        recovery_probe = not (r.consecutive_failures == 0);
      });
      recovery_probe_active = not (r.consecutive_failures == 0) || r.recovery_probe_active;
    })
unfolding unavailable
granted-IsRail next r now_us w free =
    let absent = find_lease-beyond next next r.active_leases w.numbered (omega arith) in
    rw (emplace_lease, absent)
      (record {
        one_probe = ground (arith, w.one_probe, free);
        numbered = (
          omega arith,
          absent,
          Numbered-later next (next + 1) r.active_leases (omega arith) w.numbered,
        );
      })

-- Completing a lease leaves the other leases, and ends the probe if the lease was one.
pub leases_of :
    (c : Config) (r : RailState) (l : Lease) (outcome : Outcome) (now_us : ℕ)
    → (complete_rail c r l outcome now_us).0.active_leases ≡ r.active_leases
unfolding complete_rail
leases_of c r l success now_us = ground arith
leases_of c r l endpoint_failure now_us = ground arith
leases_of c r l abandon now_us = refl

flag_of :
    (c : Config) (r : RailState) (l : Lease) (outcome : Outcome) (now_us : ℕ)
    → (complete_rail c r l outcome now_us).0.recovery_probe_active
      ≡ (not l.recovery_probe && r.recovery_probe_active)
unfolding complete_rail
flag_of c r l success now_us = ground arith
flag_of c r l endpoint_failure now_us = ground arith
flag_of c r l abandon now_us = refl

pub completed-IsRail :
    (next : ℕ) (c : Config) (r : RailState) (g : ℕ) (l : Lease) (outcome : Outcome) (now_us : ℕ)
    → IsRail next r
    → find_lease r.active_leases g ≡ some l
    → IsRail next
        (complete_rail c
          (record r { active_leases = erase_lease r.active_leases g })
          l
          outcome
          now_us).0
completed-IsRail next c r g l outcome now_us w found =
    let erased : RailState = record r { active_leases = erase_lease r.active_leases g } in
    let fewer = probes-erase_lease r.active_leases g l found in
    let leases = leases_of c erased l outcome now_us in
    let flag = flag_of c erased l outcome now_us in
    record {
      one_probe = rw (leases, flag) (ground (arith, fewer, w.one_probe));
      numbered = rw leases (Numbered-erase_lease next g r.active_leases w.numbered);
    }

pub after_generation_lem : (n : ℕ) → n + 1 < 2 ^ 64 → after_generation n ≡ n + 1
unfolding after_generation
after_generation_lem n h = ground arith
