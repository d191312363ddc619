-- ===== src/ReadScheduler/Draining.antt =====
-- Enough rounds of the workers start every shard.
use dingo_cache.Common.{
  ℕ, zero, suc, ◌+◌, ◌-◌, ◌≤◌, ◌≡◌, refl, ap, ◌∙◌, arith, List, [], ◌∷◌, ltb, if◌then◌else◌, inl,
  inr, true,
}
use dingo_cache.ReadScheduler.{Scheduler, Job, dequeue, take_front, work}
use dingo_cache.ReadScheduler.Once.{
  in_queue, times_taken, IsScheduled, front_has_shards, Reachable, Reachable-IsScheduled,
  IsScheduled-dequeue, dequeue-front, dequeue-empty, queue_cases,
}

abbrev pub shards_left_to : (ℕ → Job) → ℕ → ℕ
shards_left_to jobs zero = 0
shards_left_to jobs (suc n) = shards_left_to jobs n + ((jobs n).count - (jobs n).next)

-- The shards of all jobs that no worker has taken.
abbrev pub shards_left : Scheduler → ℕ
shards_left s = shards_left_to s.jobs s.made

-- Taking a shard leaves one less of its job and as many of the others.
shards_left_to-take_front :
    (s : Scheduler) (j : ℕ) (others : List ℕ)
    → ltb (s.jobs j).next (s.jobs j).count ≡ true
    → (n : ℕ)
    → shards_left_to (take_front s j others).jobs n + (if ltb j n then 1 else 0)
      ≡ shards_left_to s.jobs n
unfolding take_front
shards_left_to-take_front s j others left zero = ground arith
shards_left_to-take_front s j others left (suc n) =
    ground (arith, shards_left_to-take_front s j others left n, left)

front_is_made :
    (s : Scheduler) (j : ℕ)
    → ltb (s.jobs j).next (s.jobs j).count ≡ true
    → IsScheduled s
    → ltb j s.made ≡ true
front_is_made s j left k = ground (arith, left, k.unmade j)

shards_left-dequeue :
    (s : Scheduler) (j : ℕ) (others : List ℕ)
    → s.queue ≡ j ∷ others
    → IsScheduled s
    → shards_left (dequeue s) + 1 ≡ shards_left s
unfolding take_front
shards_left-dequeue s j others e k =
    let left = front_has_shards s j others e k in
    rw (dequeue-front s j others e)
      (ground (arith, shards_left_to-take_front s j others left s.made, front_is_made s j left k))

work-IsScheduled : (n : ℕ) (s : Scheduler) → IsScheduled s → IsScheduled (work n s)
unfolding work
work-IsScheduled zero s k = k
work-IsScheduled (suc n) s k = work-IsScheduled n (dequeue s) (IsScheduled-dequeue s k)

work-empty : (n : ℕ) (s : Scheduler) → s.queue ≡ [] → (work n s).queue ≡ []
unfolding work
work-empty zero s e = e
work-empty (suc n) s e = work-empty n (dequeue s) (ap (λ t. t.queue) (dequeue-empty s e) ∙ e)

-- With as many rounds as there are shards left, or more, no job is left in the queue.
work-drains : (n : ℕ) (s : Scheduler) → IsScheduled s → shards_left s ≤ n → (work n s).queue ≡ []
unfolding work
work-drains zero s k few = elim (queue_cases s.queue) [
  | inl e ↦ e
  | inr (j, others, e) ↦ ground (arith, shards_left-dequeue s j others e k, few)
]
work-drains (suc n) s k few = elim (queue_cases s.queue) [
  | inl e ↦ work-empty (suc n) s e
  | inr (j, others, e) ↦
      work-drains n (dequeue s) (IsScheduled-dequeue s k)
        (omega (arith, shards_left-dequeue s j others e k, few))
]

count-take_front :
    (s : Scheduler) (j : ℕ) (others : List ℕ) (i : ℕ)
    → ((take_front s j others).jobs i).count ≡ (s.jobs i).count
unfolding take_front
count-take_front s j others i = ground arith

count-dequeue : (s : Scheduler) (i : ℕ) → ((dequeue s).jobs i).count ≡ (s.jobs i).count
count-dequeue s i = elim (queue_cases s.queue) [
  | inl e ↦ rw (dequeue-empty s e) refl
  | inr (j, others, e) ↦ rw (dequeue-front s j others e) (count-take_front s j others i)
]

count-work : (n : ℕ) (s : Scheduler) (i : ℕ) → ((work n s).jobs i).count ≡ (s.jobs i).count
unfolding work
count-work zero s i = refl
count-work (suc n) s i = count-work n (dequeue s) i ∙ count-dequeue s i

-- After any calls and rounds, as many further rounds as there are shards left to take have every shard of
-- every job taken by a worker, each exactly once, whatever the jobs' order in the queue, and leave nothing in
-- the queue.
pub work-takes_each_shard_once :
    (s : Scheduler) (n : ℕ)
    → Reachable s
    → shards_left s ≤ n
    → ((work n s).queue ≡ [])
      × ((j i : ℕ) → times_taken (work n s).taken j i ≡ (if ltb i (s.jobs j).count then 1 else 0))
work-takes_each_shard_once s n r few =
    let k = work-IsScheduled n s (Reachable-IsScheduled r) in
    let drained = work-drains n s (Reachable-IsScheduled r) few in
    (
      drained,
      λ j i. ground (
        arith,
        k.once j i,
        k.within j,
        ap (λ q. in_queue q j) drained,
        k.queued j,
        count-work n s j,
      ),
    )
