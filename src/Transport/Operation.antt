-- ===== src/Transport/Operation.antt =====
-- src/transport/rdma_operation.h: class OperationContext. What one atomic access does is one step, and the
-- steps of several threads interleave: ClaimPoller is a compare-and-swap and, where it succeeds, a store of the
-- thread; Complete looks at the poller and at the cancel flag, and then swaps. A number stands for a thread.
pub mod Claim
pub mod Tests
use dingo_cache.Common.{
  ℕ, zero, suc, Bool, true, false, not, ◌&&◌, ◌||◌, List, [], ◌∷◌, Option, none, some, ◌==◌,
  if◌then◌else◌,
}

pub data OperationState : Type 0 where
  created submitted polling completed cancelled failed : OperationState

pub record OperationContext : Type 0 where
  pub state : OperationState
  pub cancel_requested : Bool
  pub poller : Option ℕ

abbrev pub new_context : OperationContext
new_context = record { state = created; cancel_requested = false; poller = none }

-- Submit.
unfoldable pub submit : OperationContext → OperationContext × Bool
submit c = elim c.state [ created ↦ (record c { state = submitted }, true) | _ ↦ (c, false) ]

-- The swap of ClaimPoller, and the store that follows a swap that succeeds.
unfoldable pub claim_swap : OperationContext → OperationContext × Bool
claim_swap c = elim c.state [ submitted ↦ (record c { state = polling }, true) | _ ↦ (c, false) ]

unfoldable pub claim_store : OperationContext → ℕ → OperationContext
claim_store c thread = record c { poller = some thread }

unfoldable pub is_poller : OperationContext → ℕ → Bool
is_poller c thread = elim c.poller [ none ↦ false | some t ↦ t == thread ]

unfoldable pub request_cancel : OperationContext → OperationContext
request_cancel c = record c { cancel_requested = true }

-- The state that Complete chooses, from the cancel flag that it has read.
unfoldable pub terminal_state : Bool → Bool → OperationState
terminal_state was_cancelled success =
    if was_cancelled then cancelled else if success then completed else failed

-- The swap of Complete.
unfoldable pub complete_swap : OperationContext → OperationState → OperationContext × Bool
complete_swap c next = elim c.state [ polling ↦ (record c { state = next }, true) | _ ↦ (c, false) ]

-- `terminal()`.
unfoldable pub is_terminal : OperationState → Bool
is_terminal completed = true
is_terminal cancelled = true
is_terminal failed = true
is_terminal created = false
is_terminal submitted = false
is_terminal polling = false
