-- ===== src/ReadScheduler.antt =====
-- src/client/read_scheduler.h: class ReadScheduler. A number stands for a job; what a worker does under the
-- mutex of the queue is one step, and so is its count of a shard that is done. The functions that the shards
-- run are the callers', and the threads, the destructor and the delay's clock are left out. A job has fewer than
-- 2 ^ 64 shards, so its own counts do not wrap around; the gauges do.
pub mod Once
pub mod Draining
pub mod Tests
use dingo_cache.Common.{
  ℕ, zero, suc, ◌+◌, List, [], ◌∷◌, ◌++◌, ltb, ◌==◌, if◌then◌else◌, sub64, add64,
}

pub record Job : Type 0 where
  pub count : ℕ
  pub next : ℕ
  pub done : ℕ

-- The queue, the jobs made so far, and the shards that workers have taken, the last one first.
pub record Scheduler : Type 0 where
  pub queue : List ℕ
  pub jobs : ℕ → Job
  pub made : ℕ
  pub taken : List (ℕ × ℕ)
  pub pending_batches : ℕ
  pub pending_shards : ℕ
  pub active_shards : ℕ
  pub fairness_yields : ℕ

abbrev pub no_job : Job
no_job = record { count = 0; next = 0; done = 0 }

abbrev pub new_scheduler : Scheduler
new_scheduler = record {
  queue = [];
  jobs = λ j. no_job;
  made = 0;
  taken = [];
  pending_batches = 0;
  pending_shards = 0;
  active_shards = 0;
  fairness_yields = 0;
}

abbrev pub set_job : (ℕ → Job) → ℕ → Job → ℕ → Job
set_job jobs j job = λ i. if i == j then job else jobs i

-- Run, up to its wait.
unfoldable pub enqueue : Scheduler → ℕ → Scheduler
enqueue s count = if count == 0 then s else record s {
  queue = s.queue ++ (s.made ∷ []);
  jobs = set_job s.jobs s.made (record { count = count; next = 0; done = 0 });
  made = s.made + 1;
  pending_batches = add64 s.pending_batches 1;
  pending_shards = add64 s.pending_shards count;
}

-- What WorkerLoop does under the mutex, with the job at the front of the queue.
unfoldable pub take_front : Scheduler → ℕ → List ℕ → Scheduler
take_front s j others =
    let job = s.jobs j in
    let index = job.next in
    let again = ltb (index + 1) job.count in
    record s {
      queue = if again then others ++ (j ∷ []) else others;
      jobs = set_job s.jobs j (record job { next = index + 1 });
      taken = (j, index) ∷ s.taken;
      pending_shards = sub64 s.pending_shards 1;
      active_shards = add64 s.active_shards 1;
      fairness_yields = if again then add64 s.fairness_yields 1 else s.fairness_yields;
    }

-- One round of WorkerLoop; with an empty queue it waits.
unfoldable pub dequeue : Scheduler → Scheduler
unfolding take_front
dequeue s = elim s.queue [ [] ↦ s | j ∷ others ↦ take_front s j others ]

-- A shard is done.
unfoldable pub finish : Scheduler → ℕ → Scheduler
finish s j =
    let job = s.jobs j in
    record s {
      jobs = set_job s.jobs j (record job { done = job.done + 1 });
      pending_batches =
          if job.done + 1 == job.count then sub64 s.pending_batches 1 else s.pending_batches;
      active_shards = sub64 s.active_shards 1;
    }

-- Rounds of workers, one after the other.
unfoldable pub work : ℕ → Scheduler → Scheduler
work zero s = s
work (suc n) s = work n (dequeue s)
