-- ===== src/Transport/Operation/Claim.antt =====
-- One thread polls an operation and one Complete succeeds, however the threads interleave.
use dingo_cache.Common.{
  ℕ, ◌-◌, min, ◌≤◌, ◌≡◌, ◌⊎◌, inl, inr, refl, ap, arith, Bool, true, false, not, ◌&&◌, ◌||◌, List,
  [], ◌∷◌, some, ◌==◌, if◌then◌else◌, length, Bool-cases,
}
use dingo_cache.Transport.Operation.{
  OperationState, created, submitted, polling, completed, cancelled, failed, OperationContext,
  new_context, submit, claim_swap, claim_store, is_poller, request_cancel, terminal_state,
  complete_swap, is_terminal,
}

-- The context, the threads whose claim succeeded, and those whose Complete succeeded.
pub record World : Type 0 where
  pub context : OperationContext
  pub claimed : List ℕ
  pub finished : List ℕ

pub data Event : Type 0 where
  submitting : Event
  claiming : (thread : ℕ) → Event
  storing : (thread : ℕ) → Event
  cancelling : Event
  completing : (thread : ℕ) (was_cancelled success : Bool) → Event

abbrev pub holds : List ℕ → ℕ → Bool
holds [] t = false
holds (x ∷ xs) t = x == t || holds xs t

-- A thread stores itself only after its swap has succeeded, and completes only where it finds itself the poller;
-- the flag it has read by then can be older than the context. That reading and the swap that completes are one
-- event: once a thread is the poller, no other becomes it.
unfoldable pub happen : World → Event → World
happen w submitting = record w { context = (submit w.context).0 }
happen w (claiming thread) =
    let r = claim_swap w.context in
    record w { context = r.0; claimed = if r.1 then thread ∷ w.claimed else w.claimed }
happen w (storing thread) =
    if holds w.claimed thread then record w { context = claim_store w.context thread } else w
happen w cancelling = record w { context = request_cancel w.context }
happen w (completing thread was_cancelled success) =
    let r = complete_swap w.context (terminal_state was_cancelled success) in
    if is_poller w.context thread && (not was_cancelled || w.context.cancel_requested)
    then record w { context = r.0; finished = if r.1 then thread ∷ w.finished else w.finished }
    else w

unfoldable pub happen_all : World → List Event → World
happen_all w [] = w
happen_all w (e ∷ es) = happen_all (happen w e) es

abbrev pub new_world : World
new_world = record { context = new_context; claimed = []; finished = [] }

-- How far an operation is: before the claim, claimed, ended.
abbrev stage : OperationState → ℕ
stage created = 0
stage submitted = 0
stage polling = 1
stage completed = 2
stage cancelled = 2
stage failed = 2

record IsOwned (w : World) : Type 0 where
  claims : length w.claimed ≡ min 1 (stage w.context.state)
  finishes : length w.finished ≡ stage w.context.state - 1
  same : (w.finished ≡ []) ⊎ (w.finished ≡ w.claimed)
  poller : (t : ℕ) → w.context.poller ≡ some t → w.claimed ≡ t ∷ []

ended_bound : (s : OperationState) (n : ℕ) → n ≡ stage s - 1 → n ≤ 1
ended_bound s n h = ground (arith, h)

terminal_stage : (s : OperationState) (n : ℕ) → n ≡ stage s - 1 → is_terminal s ≡ (n == 1)
unfolding is_terminal
terminal_stage s n h = ground (arith, h)

only_one : (xs : List ℕ) (t : ℕ) → holds xs t ≡ true → length xs ≤ 1 → xs ≡ t ∷ []
only_one [] t h short = absurd (cc h)
only_one (x ∷ []) t h short = let same : x ≡ t = ground (arith, h) in cc same
only_one (x ∷ y ∷ xs) t h short = absurd (omega (arith, short))

nobody : (xs : List ℕ) → length xs ≡ 0 → xs ≡ []
nobody [] h = refl
nobody (x ∷ xs) h = absurd (omega (arith, h))

IsOwned-submitting : (w : World) → IsOwned w → IsOwned (happen w submitting)
unfolding happen submit
IsOwned-submitting w k = record {
  claims = ground (arith, k.claims);
  finishes = ground (arith, k.finishes);
  same = k.same;
  poller = λ t e. k.poller t (ground (arith, e));
}

claim_won :
    (c : OperationContext)
    → (claim_swap c).1 ≡ true
    → (c.state ≡ submitted) × ((claim_swap c).0 ≡ record c { state = polling })
unfolding claim_swap
claim_won c h = ground (arith, h)

claim_lost : (c : OperationContext) → (claim_swap c).1 ≡ false → (claim_swap c).0 ≡ c
unfolding claim_swap
claim_lost c h = ground (arith, h)

complete_won :
    (c : OperationContext) (next : OperationState)
    → (complete_swap c next).1 ≡ true
    → (c.state ≡ polling) × ((complete_swap c next).0 ≡ record c { state = next })
unfolding complete_swap
complete_won c next h = ground (arith, h)

complete_lost :
    (c : OperationContext) (next : OperationState)
    → (complete_swap c next).1 ≡ false
    → (complete_swap c next).0 ≡ c
unfolding complete_swap
complete_lost c next h = ground (arith, h)

stage-terminal_state :
    (was_cancelled success : Bool) → stage (terminal_state was_cancelled success) ≡ 2
unfolding terminal_state
stage-terminal_state was_cancelled success = ground arith

IsOwned-claiming : (w : World) (thread : ℕ) → IsOwned w → IsOwned (happen w (claiming thread))
unfolding happen
IsOwned-claiming w thread k = elim (Bool-cases (claim_swap w.context).1) [
  | inl won ↦
      let (state, after) = claim_won w.context won in
      let nobody_yet = nobody w.claimed (omega (arith, k.claims, ap stage state)) in
      let none_finished = nobody w.finished (omega (arith, k.finishes, ap stage state)) in
      rw (happen, won, after)
        (record {
          claims = omega (arith, ap length nobody_yet);
          finishes = omega (arith, ap length none_finished);
          same = inl none_finished;
          poller = λ t e. absurd (omega (arith, ap length (k.poller t e), ap length nobody_yet));
        })
  | inr lost ↦ rw (happen, lost, claim_lost w.context lost) k
]

IsOwned-storing : (w : World) (thread : ℕ) → IsOwned w → IsOwned (happen w (storing thread))
unfolding happen claim_store
IsOwned-storing w thread k = elim (Bool-cases (holds w.claimed thread)) [
  | inl mine ↦
      let alone = only_one w.claimed thread mine (omega (arith, k.claims)) in
      rw (happen, mine)
        (record {
          claims = k.claims;
          finishes = k.finishes;
          same = k.same;
          poller = λ t e. let same : thread ≡ t = cc e in cc (alone, same);
        })
  | inr other ↦ rw (happen, other) k
]

IsOwned-completing :
    (w : World) (thread : ℕ) (was_cancelled success : Bool)
    → IsOwned w
    → IsOwned (happen w (completing thread was_cancelled success))
unfolding happen
IsOwned-completing w thread was_cancelled success k =
    let next = terminal_state was_cancelled success in
    elim (Bool-cases
      (is_poller w.context thread && (not was_cancelled || w.context.cancel_requested))) [
        | inr refused ↦ rw (happen, refused) k
        | inl allowed ↦ elim (Bool-cases (complete_swap w.context next).1) [
          | inr lost ↦ rw (happen, allowed, lost, complete_lost w.context next lost) k
          | inl won ↦
              let (state, after) = complete_won w.context next won in
              let ends = stage-terminal_state was_cancelled success in
              let none_finished = nobody w.finished (omega (arith, k.finishes, ap stage state)) in
              let mine : w.context.poller ≡ some thread =
                unfold is_poller in (ground (arith, allowed)) in
              let alone = k.poller thread mine in
              rw (happen, allowed, won, after)
                (record {
                  claims = omega (arith, ap length alone, ends);
                  finishes = omega (arith, ap length none_finished, ends);
                  same = inr (cc (none_finished, alone));
                  poller = λ t e. k.poller t e;
                })
        ]
      ]

IsOwned-happen : (w : World) (e : Event) → IsOwned w → IsOwned (happen w e)
IsOwned-happen w submitting k = IsOwned-submitting w k
IsOwned-happen w (claiming thread) k = IsOwned-claiming w thread k
IsOwned-happen w (storing thread) k = IsOwned-storing w thread k
IsOwned-happen w cancelling k =
    unfold happen in
    (unfold request_cancel in
      (record { claims = k.claims; finishes = k.finishes; same = k.same; poller = k.poller }))
IsOwned-happen w (completing thread was_cancelled success) k =
    IsOwned-completing w thread was_cancelled success k

IsOwned-happen_all : (w : World) (events : List Event) → IsOwned w → IsOwned (happen_all w events)
unfolding happen_all
IsOwned-happen_all w [] k = k
IsOwned-happen_all w (e ∷ events) k = IsOwned-happen_all (happen w e) events (IsOwned-happen w e k)

-- From a new context, over every interleaving of the steps of any threads: at most one thread has claimed the
-- operation and is its poller; at most one Complete has succeeded, and then it was that thread's; and one has
-- exactly when the state is terminal.
pub happen_all-one_poller :
    (events : List Event)
    → let w = happen_all new_world events in
      (length w.claimed ≤ 1)
      × (length w.finished ≤ 1)
      × ((w.finished ≡ []) ⊎ (w.finished ≡ w.claimed))
      × (is_terminal w.context.state ≡ (length w.finished == 1))
unfolding is_terminal
happen_all-one_poller events =
    let first : IsOwned new_world = record {
      claims = refl;
      finishes = refl;
      same = inl refl;
      poller = λ t e. absurd (cc e);
    } in
    let k = IsOwned-happen_all new_world events first in
    let w = happen_all new_world events in
    (
      omega (arith, k.claims),
      ended_bound w.context.state (length w.finished) k.finishes,
      k.same,
      terminal_stage w.context.state (length w.finished) k.finishes,
    )
