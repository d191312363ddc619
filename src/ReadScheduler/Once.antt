-- ===== src/ReadScheduler/Once.antt =====
-- Every shard is taken once, in any order of calls and rounds.
use dingo_cache.Common.{
  ℕ, ◌+◌, ◌≤◌, ◌≡◌, sym, ap, ◌∙◌, arith, Bool, true, false, ◌&&◌, List, [], ◌∷◌, ◌++◌, ltb, ◌==◌,
  if◌then◌else◌, Bool-cases, ◌⊎◌, inl, inr, refl,
}
use dingo_cache.ReadScheduler.{Scheduler, new_scheduler, enqueue, take_front, dequeue, finish}

-- How often a job is in a queue, and a shard among those taken.
abbrev pub in_queue : List ℕ → ℕ → ℕ
in_queue [] j = 0
in_queue (q ∷ queue) j = (if q == j then 1 else 0) + in_queue queue j

abbrev pub times_taken : List (ℕ × ℕ) → ℕ → ℕ → ℕ
times_taken [] j i = 0
times_taken ((a, b) ∷ taken) j i = (if a == j && b == i then 1 else 0) + times_taken taken j i

pub in_queue-append :
    (queue : List ℕ) (q j : ℕ)
    → in_queue (queue ++ (q ∷ [])) j ≡ in_queue queue j + (if q == j then 1 else 0)
in_queue-append [] q j = omega arith
in_queue-append (x ∷ queue) q j = omega (arith, in_queue-append queue q j)

-- A job that has shards left is once in the queue, no other is; the shards taken are the first ones of each
-- job, each once; and there are no jobs beyond those made.
pub record IsScheduled (s : Scheduler) : Type 0 where
  pub queued :
      (j : ℕ) → in_queue s.queue j ≡ (if ltb (s.jobs j).next (s.jobs j).count then 1 else 0)
  pub within : (j : ℕ) → (s.jobs j).next ≤ (s.jobs j).count
  pub once : (j i : ℕ) → times_taken s.taken j i ≡ (if ltb i (s.jobs j).next then 1 else 0)
  pub unmade : (j : ℕ) → s.made ≤ j → (s.jobs j).count ≡ 0

IsScheduled-enqueue : (s : Scheduler) (count : ℕ) → IsScheduled s → IsScheduled (enqueue s count)
unfolding enqueue
IsScheduled-enqueue s count k = elim (Bool-cases (count == 0)) [
  | inl none_asked ↦ rw (enqueue, none_asked) k
  | inr some_asked ↦
      let empty = k.unmade s.made (omega arith) in
      rw (enqueue, some_asked)
        (record {
          queued = λ j. ground (
            arith,
            in_queue-append s.queue s.made j,
            k.queued j,
            k.queued s.made,
            empty,
            k.within s.made,
            some_asked,
          );
          within = λ j. ground (arith, k.within j);
          once = λ j i. ground (arith, k.once j i, empty, k.within s.made);
          unmade = λ j h. ground (arith, h, k.unmade j);
        })
]

-- The job at the front has a shard left, and is nowhere else in the queue.
front_is_queued_once :
    (s : Scheduler) (j : ℕ) (others : List ℕ)
    → s.queue ≡ j ∷ others
    → IsScheduled s
    → (i : ℕ)
    → (if j == i then 1 else 0) + in_queue others i
      ≡ (if ltb (s.jobs i).next (s.jobs i).count then 1 else 0)
front_is_queued_once s j others e k i = sym (ap (λ q. in_queue q i) e) ∙ k.queued i

pub front_has_shards :
    (s : Scheduler) (j : ℕ) (others : List ℕ)
    → s.queue ≡ j ∷ others
    → IsScheduled s
    → ltb (s.jobs j).next (s.jobs j).count ≡ true
front_has_shards s j others e k = ground (arith, front_is_queued_once s j others e k j)

in_queue-requeue :
    (again : Bool) (others : List ℕ) (j i : ℕ)
    → in_queue (if again then others ++ (j ∷ []) else others) i
      ≡ in_queue others i + (if again && j == i then 1 else 0)
in_queue-requeue true others j i = in_queue-append others j i
in_queue-requeue false others j i = omega arith

IsScheduled-take_front :
    (s : Scheduler) (j : ℕ) (others : List ℕ)
    → s.queue ≡ j ∷ others
    → IsScheduled s
    → IsScheduled (take_front s j others)
unfolding take_front
IsScheduled-take_front s j others e k = record {
  queued = λ i.
      in_queue-requeue (ltb ((s.jobs j).next + 1) (s.jobs j).count) others j i
      ∙ ground (arith, front_is_queued_once s j others e k i, front_has_shards s j others e k);
  within = λ i. ground (arith, k.within i, front_has_shards s j others e k);
  once = λ i x. ground (arith, k.once i x, front_has_shards s j others e k);
  unmade = λ i h. ground (arith, h, k.unmade i h, front_has_shards s j others e k);
}

IsScheduled-finish : (s : Scheduler) (j : ℕ) → IsScheduled s → IsScheduled (finish s j)
unfolding finish
IsScheduled-finish s j k = record {
  queued = λ i. ground (arith, k.queued i);
  within = λ i. ground (arith, k.within i);
  once = λ i x. ground (arith, k.once i x);
  unmade = λ i h. ground (arith, h, k.unmade i h);
}

-- What callers and workers do, one after the other. The count of a shard that is done may come at any time and
-- for any job.
pub data Reachable : Scheduler → Type 0 where
  new : Reachable new_scheduler
  run : (s : Scheduler) (count : ℕ) → Reachable s → Reachable (enqueue s count)
  next_round : (s : Scheduler) → Reachable s → Reachable (dequeue s)
  shard_done : (s : Scheduler) (j : ℕ) → Reachable s → Reachable (finish s j)

pub queue_cases :
    (queue : List ℕ) → queue ≡ [] ⊎ ((j : ℕ) × (others : List ℕ) × (queue ≡ j ∷ others))
queue_cases [] = inl refl
queue_cases (j ∷ others) = inr (j, others, refl)

pub dequeue-front :
    (s : Scheduler) (j : ℕ) (others : List ℕ)
    → s.queue ≡ j ∷ others
    → dequeue s ≡ take_front s j others
unfolding dequeue
dequeue-front s j others e = rw e refl

pub dequeue-empty : (s : Scheduler) → s.queue ≡ [] → dequeue s ≡ s
unfolding dequeue
dequeue-empty s e = rw e refl

pub IsScheduled-dequeue : (s : Scheduler) → IsScheduled s → IsScheduled (dequeue s)
IsScheduled-dequeue s k = elim (queue_cases s.queue) [
  | inl e ↦ rw (dequeue-empty s e) k
  | inr (j, others, e) ↦ rw (dequeue-front s j others e) (IsScheduled-take_front s j others e k)
]

pub Reachable-IsScheduled : {s : Scheduler} → Reachable s → IsScheduled s
Reachable-IsScheduled new = record {
  queued = λ j. omega arith;
  within = λ j. omega arith;
  once = λ j i. ground arith;
  unmade = λ j h. omega arith;
}
Reachable-IsScheduled (run s count r) = IsScheduled-enqueue s count (Reachable-IsScheduled r)
Reachable-IsScheduled (next_round s r) = IsScheduled-dequeue s (Reachable-IsScheduled r)
Reachable-IsScheduled (shard_done s j r) = IsScheduled-finish s j (Reachable-IsScheduled r)
