-- ===== src/Transport/Operation/Tests.antt =====
-- A run of src/transport/rdma_operation.h.
use dingo_cache.Common.{◌≤◌, ◌≡◌, ◌⊎◌, refl, true, false, List, [], ◌∷◌, ◌==◌, length}
use dingo_cache.Transport.Operation.{
  cancelled, submit, claim_swap, claim_store, is_poller, request_cancel, terminal_state,
  complete_swap, is_terminal,
}
use dingo_cache.Transport.Operation.Claim.{
  Event, submitting, claiming, storing, cancelling, completing, happen, happen_all, new_world,
  happen_all-one_poller,
}

-- Two threads claim; the first one polls, and completes after a cancellation.
abbrev history : List Event
history =
    submitting
    ∷ claiming 1
    ∷ claiming 2
    ∷ storing 2
    ∷ completing 1 false true
    ∷ storing 1
    ∷ cancelling
    ∷ completing 2 true true
    ∷ completing 1 true true
    ∷ []

ends_cancelled : (happen_all new_world history).context.state ≡ cancelled
unfolding happen_all happen submit claim_swap claim_store is_poller request_cancel terminal_state
    complete_swap
ends_cancelled = refl

happen_all-one_poller_example :
    let w = happen_all new_world history in
    (length w.claimed ≤ 1)
    × (length w.finished ≤ 1)
    × ((w.finished ≡ []) ⊎ (w.finished ≡ w.claimed))
    × (is_terminal w.context.state ≡ (length w.finished == 1))
happen_all-one_poller_example = happen_all-one_poller history
