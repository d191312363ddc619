-- ===== src/Transport/ResourceBudget.antt =====
-- src/transport/rdma_resource_budget.h: the admission limits on what RDMA connections take.
-- Amounts are 64-bit words.
pub mod World
pub mod Limits
pub mod Target
pub mod Tests
use dingo_cache.Common.{
  ℕ, ◌+◌, ◌-◌, ◌*◌, ◌/◌, ◌^◌, ◌%◌, Bool, true, false, not, ◌&&◌, ◌||◌, ltb, leb, ◌==◌,
  if◌then◌else◌, add64, sub64,
}

pub record ResourceRequest : Type 0 where
  pub endpoints : ℕ
  pub qps : ℕ
  pub wr_slots : ℕ
  pub registered_bytes : ℕ

pub record ResourceBudget : Type 0 where
  pub limit : ResourceRequest
  pub used : ResourceRequest
  pub timeouts : ℕ
  pub waiters_served : ℕ
  pub raises : ℕ

abbrev pub nothing : ResourceRequest
nothing = record { endpoints = 0; qps = 0; wr_slots = 0; registered_bytes = 0 }

-- The constructor.
unfoldable pub new_budget : ResourceRequest → ResourceBudget
new_budget limit = record {
  limit = limit;
  used = nothing;
  timeouts = 0;
  waiters_served = 0;
  raises = 0;
}

-- AddFits: no sum, so that nothing wraps around.
unfoldable pub add_fits : ℕ → ℕ → ℕ → Bool
add_fits used request limit = leb request limit && leb used (limit - request)

unfoldable pub fits_limit : ResourceBudget → ResourceRequest → Bool
fits_limit b r =
    leb r.endpoints b.limit.endpoints
    && (leb r.qps b.limit.qps
        && (leb r.wr_slots b.limit.wr_slots && leb r.registered_bytes b.limit.registered_bytes))

unfoldable pub fits_available : ResourceBudget → ResourceRequest → Bool
fits_available b r =
    add_fits b.used.endpoints r.endpoints b.limit.endpoints
    && (add_fits b.used.qps r.qps b.limit.qps
        && (add_fits b.used.wr_slots r.wr_slots b.limit.wr_slots
            && add_fits b.used.registered_bytes r.registered_bytes b.limit.registered_bytes))

-- Add and Subtract.
unfoldable pub add : ResourceRequest → ResourceRequest → ResourceRequest
add v r = record {
  endpoints = add64 v.endpoints r.endpoints;
  qps = add64 v.qps r.qps;
  wr_slots = add64 v.wr_slots r.wr_slots;
  registered_bytes = add64 v.registered_bytes r.registered_bytes;
}

unfoldable pub subtract : ResourceRequest → ResourceRequest → ResourceRequest
subtract v r = record {
  endpoints = sub64 v.endpoints r.endpoints;
  qps = sub64 v.qps r.qps;
  wr_slots = sub64 v.wr_slots r.wr_slots;
  registered_bytes = sub64 v.registered_bytes r.registered_bytes;
}

unfoldable pub take : ResourceRequest → ResourceBudget → ResourceBudget
take r b = record b { used = add b.used r; waiters_served = add64 b.waiters_served 1 }

-- TryAcquire.
unfoldable pub try_acquire : ResourceRequest → ResourceBudget → ResourceBudget × Bool
try_acquire r b =
    if not (fits_limit b r) || not (fits_available b r) then (b, false) else (take r b, true)

-- Acquire up to the wait: granted, refused, or waiting for other threads.
pub data Asked : Type 0 where
  granted refused waiting : Asked

unfoldable pub give_up : ResourceBudget → ResourceBudget
give_up b = record b { timeouts = add64 b.timeouts 1 }

unfoldable pub begin_acquire : ResourceRequest → Bool → ResourceBudget → ResourceBudget × Asked
begin_acquire r may_wait b =
    if not (fits_limit b r)
    then (b, refused)
    else if fits_available b r
    then (take r b, granted)
    else if may_wait
    then (b, waiting)
    else (give_up b, refused)

-- The rest of Acquire, on the budget that the wait ends with: `wait_for` returns what its predicate
-- says at the end.
unfoldable pub end_acquire : ResourceRequest → ResourceBudget → ResourceBudget × Bool
end_acquire r b = if fits_available b r then (take r b, true) else (give_up b, false)

-- Release.
unfoldable pub release : ResourceRequest → ResourceBudget → ResourceBudget
release r b = record b { used = subtract b.used r }

unfoldable pub raise : ℕ → ℕ → ℕ
raise target limit = if ltb limit target then target else limit

-- RaiseLimit.
unfoldable pub raise_limit : ResourceRequest → ResourceBudget → ResourceBudget × Bool
raise_limit t b =
    let raised =
      ltb b.limit.endpoints t.endpoints
      || (ltb b.limit.qps t.qps
          || (ltb b.limit.wr_slots t.wr_slots
              || ltb b.limit.registered_bytes t.registered_bytes)) in
    (
      record b {
        limit = record {
          endpoints = raise t.endpoints b.limit.endpoints;
          qps = raise t.qps b.limit.qps;
          wr_slots = raise t.wr_slots b.limit.wr_slots;
          registered_bytes = raise t.registered_bytes b.limit.registered_bytes;
        };
        raises = if raised then add64 b.raises 1 else b.raises;
      },
      raised,
    )

-- kMaxEndpoints.
abbrev pub max_endpoints : ℕ
max_endpoints = 65536

-- The endpoints of AdaptiveBudgetTarget.
unfoldable pub target_endpoints : ℕ → ℕ → ℕ → ℕ
target_endpoints nodes endpoints_per_pool floor_endpoints =
    let per_pool = if endpoints_per_pool == 0 then 1 else endpoints_per_pool in
    let lanes = if ltb (max_endpoints / 2) per_pool then max_endpoints else 2 * per_pool in
    let all = if ltb (max_endpoints / lanes) nodes then max_endpoints else nodes * lanes in
    let roomy = if ltb (max_endpoints - all / 4) all then max_endpoints else all + all / 4 in
    let floored = if ltb roomy floor_endpoints then floor_endpoints else roomy in
    if ltb max_endpoints floored then max_endpoints else floored

-- AdaptiveBudgetTarget. The product of the bytes is guarded against wrapping around; the number of slots
-- is not.
unfoldable pub adaptive_budget_target : ℕ → ℕ → ℕ → ℕ → ℕ → ResourceRequest
adaptive_budget_target nodes endpoints_per_pool depth slot_bytes floor_endpoints =
    let endpoints = target_endpoints nodes endpoints_per_pool floor_endpoints in
    let d = if depth == 0 then 1 else depth in
    let widest = 2 ^ 64 - 1 in
    record {
      endpoints = endpoints;
      qps = endpoints;
      wr_slots = endpoints * d % 2 ^ 64;
      registered_bytes =
          if not (slot_bytes == 0) && leb endpoints (widest / slot_bytes / d / 2)
          then 2 * slot_bytes * d * endpoints % 2 ^ 64
          else widest;
    }
