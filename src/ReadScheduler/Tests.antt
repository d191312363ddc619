-- ===== src/ReadScheduler/Tests.antt =====
-- Runs of the scheduler with two batches.
use dingo_cache.Common.{◌≡◌, refl, [], ◌∷◌, if◌then◌else◌, ltb, ◌≤◌, ℕ, arith}
use dingo_cache.ReadScheduler.{Scheduler, new_scheduler, enqueue, dequeue, finish, work}
use dingo_cache.ReadScheduler.Once.{Reachable, new, run, next_round, shard_done, times_taken}
use dingo_cache.ReadScheduler.Draining.{shards_left, work-takes_each_shard_once}

abbrev two_batches : Scheduler
two_batches = enqueue (enqueue new_scheduler 2) 3

-- One worker has taken a shard of the first batch, and is done with it.
abbrev one_started : Scheduler
one_started = finish (dequeue two_batches) 0

-- The batches take turns.
turns_test : (work 9 two_batches).taken ≡ ((1, 2) ∷ (1, 1) ∷ (0, 1) ∷ (1, 0) ∷ (0, 0) ∷ [])
unfolding work dequeue enqueue
turns_test = refl

pending_test : one_started.pending_shards ≡ 4
unfolding dequeue enqueue finish
pending_test = refl

one_started-Reachable : Reachable one_started
one_started-Reachable =
    shard_done (dequeue two_batches) 0
      (next_round two_batches (run (enqueue new_scheduler 2) 3 (run new_scheduler 2 new)))

few_left : shards_left one_started ≤ 4
unfolding dequeue enqueue finish
few_left = omega arith

work-takes_each_shard_once_example :
    ((work 4 one_started).queue ≡ [])
    × ((j i : ℕ)
        → times_taken (work 4 one_started).taken j i
          ≡ (if ltb i (one_started.jobs j).count then 1 else 0))
work-takes_each_shard_once_example =
    work-takes_each_shard_once one_started 4 one_started-Reachable few_left
