-- ===== src/Transport/ResourceBudget/Tests.antt =====
-- Runs of ResourceBudget (src/transport/rdma_resource_budget.h).
use dingo_cache.Common.{◌≤◌, ◌≡◌, ◌^◌, ◌*◌, ◌-◌, ◌⊎◌, min, max, refl, arith, true, List, [], ◌∷◌}
use dingo_cache.Transport.ResourceBudget.World.{
  in_endpoints, in_qps, in_wr_slots, in_bytes, amount, held, Event, tries, begins, ends, releases,
  raises_to, nth, without, happen, happen_all, IsWide, AllWide, no_event, raised, tried, begun,
  ended, released,
}
use dingo_cache.Transport.ResourceBudget.Target.{adaptive_budget_target_bounds}
use dingo_cache.Transport.ResourceBudget.Limits.{start, happen_all-limits}
use dingo_cache.Transport.ResourceBudget.{
  ResourceRequest, new_budget, add_fits, fits_limit, fits_available, add, subtract, take,
  try_acquire, give_up, begin_acquire, end_acquire, release, raise, raise_limit, max_endpoints,
  target_endpoints, adaptive_budget_target,
}

abbrev limit : ResourceRequest
limit = record { endpoints = 2; qps = 2; wr_slots = 64; registered_bytes = 4096 }

abbrev one : ResourceRequest
one = record { endpoints = 1; qps = 1; wr_slots = 32; registered_bytes = 2048 }

abbrev more : ResourceRequest
more = record { endpoints = 3; qps = 3; wr_slots = 96; registered_bytes = 6144 }

-- The third connection waits, and is served once the limit has been raised.
abbrev calls : List Event
calls = tries one ∷ tries one ∷ begins one true ∷ raises_to more ∷ ends one ∷ releases 0 ∷ []

calls_used : (happen_all calls (start limit)).budget.used ≡ add one one
unfolding happen_all happen nth without new_budget add_fits fits_limit fits_available add subtract
    take try_acquire give_up begin_acquire end_acquire release raise raise_limit
calls_used = refl

target : target_endpoints 8 16 0 ≡ 320
unfolding target_endpoints
target = refl

limit-IsWide : IsWide limit
unfolding amount
limit-IsWide in_endpoints = omega arith
limit-IsWide in_qps = omega arith
limit-IsWide in_wr_slots = omega arith
limit-IsWide in_bytes = omega arith

more-IsWide : IsWide more
unfolding amount
more-IsWide in_endpoints = omega arith
more-IsWide in_qps = omega arith
more-IsWide in_wr_slots = omega arith
more-IsWide in_bytes = omega arith

calls-AllWide : AllWide calls
calls-AllWide =
    tried _ _ (tried _ _ (begun _ _ _ (raised _ _ more-IsWide (ended _ _ (released _ _ no_event)))))

happen_all-limits_example :
    let w = happen_all calls (start limit) in
    (amount in_bytes w.budget.used ≡ held in_bytes w.leases)
    × (amount in_bytes w.budget.used ≤ amount in_bytes w.budget.limit)
happen_all-limits_example = happen_all-limits limit calls in_bytes limit-IsWide calls-AllWide

adaptive_budget_target_bounds_example :
    let t = adaptive_budget_target 8 16 32 4096 64 in
    (t.endpoints ≤ max_endpoints)
    × (min 64 max_endpoints ≤ t.endpoints)
    × ((t.registered_bytes ≡ 2 * 4096 * max 1 32 * t.endpoints) ⊎ (t.registered_bytes ≡ 2 ^ 64 - 1))
adaptive_budget_target_bounds_example = adaptive_budget_target_bounds 8 16 32 4096 64 (omega arith)
