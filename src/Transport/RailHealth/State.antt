-- ===== src/Transport/RailHealth/State.antt =====
-- The state of class RemoteRailHealth in src/transport/remote_rail_health.h, and the accesses to its maps.
use dingo_cache.Common.{
  ℕ, add64, ◌-◌, ◌^◌, Bool, false, List, [], ◌∷◌, Option, none, some, ◌==◌, if◌then◌else◌,
}

pub record Config : Type 0 where
  pub base_cooldown_us : ℕ
  pub max_cooldown_us : ℕ

pub data Outcome : Type 0 where
  success endpoint_failure abandon : Outcome

pub record Lease : Type 0 where
  pub generation : ℕ
  pub health_epoch : ℕ
  pub recovery_probe : Bool

pub data Transition : Type 0 where
  stays cooled recovered : Transition

pub record Completion : Type 0 where
  pub transition : Transition
  pub cooldown_until_us : ℕ

-- The entries of RailState::active_leases have the record of the lease that was handed out.
pub record RailState : Type 0 where
  pub health_epoch : ℕ
  pub consecutive_failures : ℕ
  pub cooldown_until_us : ℕ
  pub recovery_probe_active : Bool
  pub active_leases : List Lease

pub record Counters : Type 0 where
  pub normal_leases : ℕ
  pub successes : ℕ
  pub admissions_denied : ℕ
  pub endpoint_failures : ℕ
  pub cooldowns : ℕ
  pub recovery_probes : ℕ
  pub recoveries : ℕ
  pub abandons : ℕ

-- A rail of `peers_` is there or not; `rail_counters_` has zeros where it has no entry.
pub record RailHealth : Type 0 where
  pub config : Config
  pub peers : ℕ → Option (ℕ → Option RailState)
  pub live_peer_ids : ℕ → Bool
  pub has_reconciled : Bool
  pub rail_counters : ℕ → Counters
  pub total_counters : Counters
  pub next_generation : ℕ

abbrev pub largest_word : ℕ
largest_word = 2 ^ 64 - 1

-- kHardMaxCooldownUs.
abbrev pub hard_max_cooldown_us : ℕ
hard_max_cooldown_us = 30000000

abbrev pub new_rail : RailState
new_rail = record {
  health_epoch = 0;
  consecutive_failures = 0;
  cooldown_until_us = 0;
  recovery_probe_active = false;
  active_leases = [];
}

abbrev pub new_counters : Counters
new_counters = record {
  normal_leases = 0;
  successes = 0;
  admissions_denied = 0;
  endpoint_failures = 0;
  cooldowns = 0;
  recovery_probes = 0;
  recoveries = 0;
  abandons = 0;
}

-- `active_leases.find`, `emplace`, which leaves an entry that is there, and `erase`.
abbrev pub find_lease : List Lease → ℕ → Option Lease
find_lease [] generation = none
find_lease (l ∷ ls) generation =
    let rest = find_lease ls generation in if l.generation == generation then some l else rest

abbrev pub emplace_lease : List Lease → Lease → List Lease
emplace_lease ls l = elim (find_lease ls l.generation) [ none ↦ l ∷ ls | some other ↦ ls ]

abbrev pub erase_lease : List Lease → ℕ → List Lease
erase_lease [] generation = []
erase_lease (l ∷ ls) generation =
    let rest = erase_lease ls generation in if l.generation == generation then ls else l ∷ rest

-- `peers_[peer].rails`, with no rails where the peer has no entry, and the rail's state found.
abbrev pub rails_of : RailHealth → ℕ → ℕ → Option RailState
rails_of s peer = elim (s.peers peer) [ none ↦ (λ rail. none) | some rails ↦ rails ]

abbrev pub find_rail : RailHealth → ℕ → ℕ → Option RailState
find_rail s peer rail = rails_of s peer rail

-- `peers_[peer].rails[rail]`, made where it was not.
abbrev pub rail_or_new : RailHealth → ℕ → ℕ → RailState
rail_or_new s peer rail = elim (find_rail s peer rail) [ none ↦ new_rail | some r ↦ r ]

abbrev pub write_rail : RailHealth → ℕ → ℕ → RailState → RailHealth
write_rail s peer rail r = record s {
  peers = λ p.
      if p == peer then some (λ i. if i == rail then some r else rails_of s peer i) else s.peers p;
}

-- The same counters of the rail and of all rails.
abbrev pub count_rail : RailHealth → ℕ → (Counters → Counters) → RailHealth
count_rail s rail add = record s {
  total_counters = add s.total_counters;
  rail_counters = λ i. if i == rail then add (s.rail_counters rail) else s.rail_counters i;
}

abbrev pub deny : Counters → Counters
deny c = record c { admissions_denied = add64 c.admissions_denied 1 }
