-- ===== src/Transport/RailHealth.antt =====
-- src/transport/remote_rail_health.h and src/transport/remote_rail_health.cc: class RemoteRailHealth.
-- Each operation runs under one mutex and is one step. Names of peers are only compared here, and a number
-- stands for a name; a hash map is the function from keys to what it holds, and the map of the leases of a
-- rail, which are counted, is a list.
pub mod State
pub mod Leases
pub mod Probe
pub mod Calls
pub mod Once
pub mod Cooldown
pub mod Tests
use dingo_cache.Common.{
  ℕ, zero, suc, add64, ◌+◌, ◌-◌, ◌*◌, ◌/◌, ◌%◌, ◌^◌, min, max, Bool, true, false, not, ◌&&◌, ◌||◌,
  List, [], ◌∷◌, Option, none, some, ltb, leb, ◌==◌, if◌then◌else◌,
}
use dingo_cache.Transport.RailHealth.State.{
  Config, Outcome, Lease, Completion, RailState, Counters, RailHealth, largest_word,
  hard_max_cooldown_us, new_counters, find_lease, emplace_lease, erase_lease, find_rail,
  rail_or_new, write_rail, count_rail, deny, success, endpoint_failure, abandon, stays, cooled,
  recovered,
}

-- The constructor, which clamps what it is given.
unfoldable pub clamp : Config → Config
clamp c =
    let highest = max 1 (min c.max_cooldown_us hard_max_cooldown_us) in
    record { max_cooldown_us = highest; base_cooldown_us = max 1 (min c.base_cooldown_us highest) }

unfoldable pub new_rail_health : Config → RailHealth
unfolding clamp
new_rail_health c = record {
  config = clamp c;
  peers = λ peer. none;
  live_peer_ids = λ peer. false;
  has_reconciled = false;
  rail_counters = λ rail. new_counters;
  total_counters = new_counters;
  next_generation = 1;
}

unfoldable pub saturating_add : ℕ → ℕ → ℕ
saturating_add lhs rhs = if ltb (largest_word - rhs) lhs then largest_word else lhs + rhs

-- The loop of CooldownFor, on the rounds that `failure < consecutive_failures` leaves. Once the cooldown
-- is at the maximum, the loop has ended.
unfoldable pub double_cooldown : ℕ → ℕ → ℕ → ℕ
double_cooldown highest zero cooldown = cooldown
double_cooldown highest (suc rounds) cooldown =
    let again =
      double_cooldown highest rounds
        (if ltb (highest / 2) cooldown then highest else cooldown * 2) in
    if ltb cooldown highest then again else cooldown

unfoldable pub cooldown_for : Config → ℕ → ℕ
unfolding double_cooldown
cooldown_for c consecutive_failures =
    min (double_cooldown c.max_cooldown_us (consecutive_failures - 1) c.base_cooldown_us)
      c.max_cooldown_us

unfoldable pub unavailable : RailState → ℕ → Bool
unavailable r now_us =
    not (r.consecutive_failures == 0) && (ltb now_us r.cooldown_until_us || r.recovery_probe_active)

-- `next_generation_` after NextGenerationLocked.
unfoldable pub after_generation : ℕ → ℕ
after_generation generation = let next = (generation + 1) % 2 ^ 64 in if next == 0 then 1 else next

unfoldable pub count_grant : Bool → Counters → Counters
count_grant true c = record c { recovery_probes = add64 c.recovery_probes 1 }
count_grant false c = record c { normal_leases = add64 c.normal_leases 1 }

-- TryAcquire.
unfoldable pub try_acquire_rail : RailHealth → ℕ → ℕ → ℕ → RailHealth × Option Lease
unfolding unavailable after_generation count_grant
try_acquire_rail s peer rail now_us =
    let r = rail_or_new s peer rail in
    let probe = not (r.consecutive_failures == 0) in
    let lease : Lease = record {
      generation = s.next_generation;
      health_epoch = r.health_epoch;
      recovery_probe = probe;
    } in
    let granted : RailState = record r {
      active_leases = emplace_lease r.active_leases lease;
      recovery_probe_active = probe || r.recovery_probe_active;
    } in
    let leased = record (write_rail s peer rail granted) {
      next_generation = after_generation s.next_generation;
    } in
    if s.has_reconciled && not (s.live_peer_ids peer)
    then (count_rail s rail deny, none)
    else if unavailable r now_us
    then (count_rail (write_rail s peer rail r) rail deny, none)
    else (count_rail leased rail (count_grant probe), some lease)

-- The rail after a lease that was active is completed, and what Complete returns.
unfoldable pub complete_rail : Config → RailState → Lease → Outcome → ℕ → RailState × Completion
unfolding cooldown_for saturating_add
complete_rail c r lease abandon now_us = (
  record r { recovery_probe_active = not lease.recovery_probe && r.recovery_probe_active },
  record { transition = stays; cooldown_until_us = 0 },
)
complete_rail c r lease success now_us =
    let next_epoch = (r.health_epoch + 1) % 2 ^ 64 in
    if lease.recovery_probe && not (r.consecutive_failures == 0)
    then (
      record r {
        consecutive_failures = 0;
        cooldown_until_us = 0;
        recovery_probe_active = false;
        health_epoch = if next_epoch == 0 then 1 else next_epoch;
      },
      record { transition = recovered; cooldown_until_us = 0 },
    )
    else (
      record r { recovery_probe_active = not lease.recovery_probe && r.recovery_probe_active },
      record { transition = stays; cooldown_until_us = 0 },
    )
complete_rail c r lease endpoint_failure now_us =
    let failures =
      if r.consecutive_failures == largest_word
      then r.consecutive_failures
      else r.consecutive_failures + 1 in
    let until = max r.cooldown_until_us (saturating_add now_us (cooldown_for c failures)) in
    if not lease.recovery_probe && not (lease.health_epoch == r.health_epoch)
    then (r, record { transition = stays; cooldown_until_us = 0 })
    else (
      record r {
        recovery_probe_active = not lease.recovery_probe && r.recovery_probe_active;
        consecutive_failures = failures;
        cooldown_until_us = until;
      },
      record {
        transition = if leb r.cooldown_until_us now_us then cooled else stays;
        cooldown_until_us = until;
      },
    )

-- What Complete counts.
unfoldable pub count_completion : RailState → Lease → Outcome → ℕ → Counters → Counters
count_completion r lease abandon now_us c = record c { abandons = add64 c.abandons 1 }
count_completion r lease success now_us c =
    if lease.recovery_probe && not (r.consecutive_failures == 0)
    then record c { successes = add64 c.successes 1; recoveries = add64 c.recoveries 1 }
    else record c { successes = add64 c.successes 1 }
count_completion r lease endpoint_failure now_us c =
    if not lease.recovery_probe && not (lease.health_epoch == r.health_epoch)
    then c
    else if leb r.cooldown_until_us now_us
    then record c {
      endpoint_failures = add64 c.endpoint_failures 1;
      cooldowns = add64 c.cooldowns 1;
    }
    else record c { endpoint_failures = add64 c.endpoint_failures 1 }

-- Complete.
unfoldable pub complete : RailHealth → ℕ → ℕ → ℕ → Outcome → ℕ → RailHealth × Completion
unfolding complete_rail count_completion
complete s peer rail generation outcome now_us = elim (find_rail s peer rail) [
  | none ↦ (s, record { transition = stays; cooldown_until_us = 0 })
  | some r ↦ elim (find_lease r.active_leases generation) [
    | none ↦ (s, record { transition = stays; cooldown_until_us = 0 })
    | some lease ↦
        let erased : RailState = record r {
          active_leases = erase_lease r.active_leases generation;
        } in
        let done = complete_rail s.config erased lease outcome now_us in
        (
          count_rail (write_rail s peer rail done.0) rail
              (count_completion erased lease outcome now_us),
          done.1,
        )
  ]
]

-- AllowedMask, from the rail `rail` on.
unfoldable pub allowed_from : RailHealth → ℕ → ℕ → List ℕ → ℕ → List ℕ
unfolding unavailable
allowed_from s peer rail [] now_us = []
allowed_from s peer rail (m ∷ mask) now_us =
    let rest = allowed_from s peer (rail + 1) mask now_us in
    let here : ℕ = elim (find_rail s peer rail) [
      | none ↦ m
      | some r ↦ if unavailable r now_us then 0 else m
    ] in
    here ∷ rest

unfoldable pub allowed_mask : RailHealth → ℕ → List ℕ → ℕ → List ℕ
unfolding allowed_from
allowed_mask s peer candidate_mask now_us = allowed_from s peer 0 candidate_mask now_us

-- Reconcile, with the set that the vector of names makes.
unfoldable pub reconcile : RailHealth → (ℕ → Bool) → RailHealth
reconcile s live = record s {
  live_peer_ids = live;
  has_reconciled = true;
  peers = λ p. if live p then s.peers p else none;
}
