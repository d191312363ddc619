-- ===== src/Transport/RailHealth/Tests.antt =====
-- Runs of src/transport/remote_rail_health.cc.
use dingo_cache.Common.{
  ◌+◌, ◌*◌, ◌^◌, ◌<◌, ◌≤◌, ◌≡◌, inl, refl, min, max, true, not, ◌&&◌, ◌||◌, List, [], ◌∷◌, some,
  ltb, arith, if◌then◌else◌,
}
use dingo_cache.Transport.RailHealth.State.{
  Config, success, endpoint_failure, Lease, stays, RailState, hard_max_cooldown_us, find_rail,
}
use dingo_cache.Transport.RailHealth.{
  new_rail_health, clamp, saturating_add, cooldown_for, double_cooldown, unavailable,
  after_generation, count_grant, try_acquire_rail, complete_rail, count_completion, complete,
  allowed_mask, allowed_from,
}
use dingo_cache.Transport.RailHealth.Leases.{probes, Numbered}
use dingo_cache.Transport.RailHealth.Calls.{
  Call, acquiring, completing, after_call, after_calls, after_calls-IsRail,
}
use dingo_cache.Transport.RailHealth.Once.{complete-complete}
use dingo_cache.Transport.RailHealth.Cooldown.{cooldown_for-doubles, complete_rail-unavailable}

abbrev usual : Config
usual = record { base_cooldown_us = 1000000; max_cooldown_us = 30000000 }

-- A lease fails, and the rail is asked again after its cooldown.
abbrev history : List Call
history = acquiring 5 0 10 ∷ completing 5 0 1 endpoint_failure 20 ∷ acquiring 5 0 2000000 ∷ []

abbrev probed_rail : RailState
probed_rail = record {
  health_epoch = 0;
  consecutive_failures = 1;
  cooldown_until_us = 1000020;
  recovery_probe_active = true;
  active_leases = record { generation = 2; health_epoch = 0; recovery_probe = true } ∷ [];
}

probed : find_rail (after_calls (new_rail_health usual) history) 5 0 ≡ some probed_rail
unfolding after_calls after_call new_rail_health clamp try_acquire_rail count_grant unavailable
    after_generation complete complete_rail count_completion cooldown_for double_cooldown
    saturating_add
probed = refl

masked :
    allowed_mask (after_calls (new_rail_health usual) history) 5 (1 ∷ 1 ∷ []) 2000001 ≡ 0 ∷ 1 ∷ []
unfolding after_calls after_call new_rail_health clamp try_acquire_rail count_grant unavailable
    after_generation complete complete_rail count_completion cooldown_for double_cooldown
    saturating_add allowed_mask allowed_from
masked = refl

after_calls-IsRail_example :
    (probes probed_rail.active_leases ≡ (if probed_rail.recovery_probe_active then 1 else 0))
    × Numbered
        (after_calls (new_rail_health usual) history).next_generation
        probed_rail.active_leases
after_calls-IsRail_example = after_calls-IsRail usual history 5 0 probed_rail (omega arith) probed

-- The rail is given to others meanwhile, under later numbers.
abbrev meanwhile : List Call
meanwhile = acquiring 5 0 2000020 ∷ completing 5 0 3 success 2000030 ∷ acquiring 5 0 2000040 ∷ []

number_given : 2 < (after_calls (new_rail_health usual) history).next_generation
unfolding after_calls after_call new_rail_health clamp try_acquire_rail count_grant unavailable
    after_generation complete complete_rail count_completion cooldown_for double_cooldown
    saturating_add
number_given = omega arith

complete-complete_example :
    let completed =
      (complete (after_calls (new_rail_health usual) history) 5 0 2 success 2000010).0 in
    let s = after_calls completed meanwhile in
    complete s 5 0 2 endpoint_failure 2000050
    ≡ (s, record { transition = stays; cooldown_until_us = 0 })
complete-complete_example =
    complete-complete usual history meanwhile 5 0 2 success endpoint_failure 2000010 2000050
      (omega arith) number_given

cooldown_for-doubles_example :
    (cooldown_for (clamp usual) 4
      ≡ min ((clamp usual).base_cooldown_us * 2 ^ 3) (clamp usual).max_cooldown_us)
    × (1 ≤ cooldown_for (clamp usual) 4)
    × (cooldown_for (clamp usual) 4 ≤ hard_max_cooldown_us)
cooldown_for-doubles_example = cooldown_for-doubles usual 3

abbrev probe_lease : Lease
probe_lease = record { generation = 2; health_epoch = 0; recovery_probe = true }

complete_rail-unavailable_run :
    let r' = (complete_rail (clamp usual) probed_rail probe_lease endpoint_failure 2000030).0 in
    (unavailable r' 2000040 ≡ (
      ltb 2000040 r'.cooldown_until_us
      || (not probe_lease.recovery_probe && probed_rail.recovery_probe_active)))
    × (2000030 < r'.cooldown_until_us)
    × (probed_rail.cooldown_until_us ≤ r'.cooldown_until_us)
    × (r'.cooldown_until_us ≤ max probed_rail.cooldown_until_us (2000030 + hard_max_cooldown_us))
complete_rail-unavailable_run =
    complete_rail-unavailable usual probed_rail probe_lease 2000030 2000040 (inl refl) (omega arith)
