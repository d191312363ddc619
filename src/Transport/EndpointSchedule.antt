-- ===== src/Transport/EndpointSchedule.antt =====
-- src/transport/endpoint_schedule.h: the connection of an endpoint on which the next operation goes.
pub mod Laws
pub mod Tests
use dingo_cache.Common.{
  ℕ, zero, suc, ◌+◌, Bool, false, not, ◌&&◌, ◌||◌, List, ltb, ◌==◌, if◌then◌else◌, length, get_or,
}

pub record EndpointConnectionLoad : Type 0 where
  pub id : ℕ
  pub inflight : ℕ
  pub latency_ns : ℕ
  pub healthy : Bool

-- What a read beyond the vector gives here: the code reads none.
abbrev pub no_load : EndpointConnectionLoad
no_load = record { id = 0; inflight = 0; latency_ns = 0; healthy = false }

abbrev pub load_at : List EndpointConnectionLoad → ℕ → EndpointConnectionLoad
load_at cs i = get_or cs i no_load

-- The comparisons of the loop: whether `c` takes the place of `b`.
unfoldable pub takes_over : EndpointConnectionLoad → EndpointConnectionLoad → Bool
takes_over c b =
    let c_unsampled = c.latency_ns == 0 in
    let b_unsampled = b.latency_ns == 0 in
    let differ = c_unsampled && not b_unsampled || not c_unsampled && b_unsampled in
    if not (c.inflight == b.inflight)
    then ltb c.inflight b.inflight
    else if differ
    then c_unsampled
    else if not (c.latency_ns == b.latency_ns)
    then ltb c.latency_ns b.latency_ns
    else ltb c.id b.id

-- One round: the best so far, of which the length stands for none.
unfoldable pub next_best : List EndpointConnectionLoad → ℕ → ℕ → ℕ
next_best cs i best =
    if not (load_at cs i).healthy
    then best
    else if best == length cs
    then i
    else if takes_over (load_at cs i) (load_at cs best)
    then i
    else best

-- The loop, with the rounds left.
unfoldable pub select_from : List EndpointConnectionLoad → ℕ → ℕ → ℕ → ℕ
select_from cs zero i best = best
select_from cs (suc n) i best = select_from cs n (i + 1) (next_best cs i best)

-- SelectEndpointConnection.
unfoldable pub select_endpoint_connection : List EndpointConnectionLoad → ℕ
select_endpoint_connection cs = select_from cs (length cs) 0 (length cs)
