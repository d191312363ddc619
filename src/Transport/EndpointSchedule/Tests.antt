-- ===== src/Transport/EndpointSchedule/Tests.antt =====
-- Runs of SelectEndpointConnection (src/transport/endpoint_schedule.h).
use dingo_cache.Common.{◌<◌, ◌≡◌, refl, arith, true, false, List, [], ◌∷◌, length}
use dingo_cache.Transport.EndpointSchedule.Laws.{Precedes, select_endpoint_connection-best}
use dingo_cache.Transport.EndpointSchedule.{
  EndpointConnectionLoad, load_at, takes_over, next_best, select_from, select_endpoint_connection,
}

abbrev three : List EndpointConnectionLoad
three =
    record { id = 7; inflight = 2; latency_ns = 50; healthy = true }
    ∷ record { id = 8; inflight = 0; latency_ns = 10; healthy = false }
    ∷ record { id = 9; inflight = 2; latency_ns = 0; healthy = true }
    ∷ []

unsampled_first : select_endpoint_connection three ≡ 2
unfolding select_endpoint_connection select_from next_best takes_over
unsampled_first = refl

select_endpoint_connection-best_example :
    let best = select_endpoint_connection three in
    (best < length three)
    × ((load_at three best).healthy ≡ true)
    × (¬ Precedes (load_at three 0) (load_at three best))
select_endpoint_connection-best_example = select_endpoint_connection-best three 0 (omega arith) refl
