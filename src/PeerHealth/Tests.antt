-- ===== src/PeerHealth/Tests.antt =====
-- Runs of src/client/peer_health.h.
use dingo_cache.Common.{◌≡◌, refl, true, List, [], ◌∷◌, some}
use dingo_cache.PeerHealth.{
  new_peer_health, forget_peer, make_peer_room, track, clear, is_up, healthy, cooldown, is_busy,
  mark_bad, mark_good,
}
use dingo_cache.PeerHealth.Bounded.{IsBounded}
use dingo_cache.PeerHealth.Calls.{
  Call, asking, failing, serving, after_call, after_calls, after_calls-IsBounded,
}

-- A peer fails twice, and serves later.
abbrev history : List Call
history = failing 7 1000 ∷ failing 7 4000 ∷ asking 7 5000 ∷ serving 7 9000 ∷ failing 7 9500 ∷ []

backs_off :
    (after_calls (new_peer_health 2000 30000 1000) (failing 7 1000 ∷ failing 7 4000 ∷ [])).until 7
    ≡ some 8000
unfolding after_calls after_call mark_bad track make_peer_room forget_peer is_busy is_up cooldown
backs_off = refl

busy_is_not_dead : (healthy (after_calls (new_peer_health 2000 30000 1000) history) 7 9600).1 ≡ true
unfolding after_calls after_call healthy mark_bad mark_good clear track make_peer_room forget_peer
    is_busy is_up cooldown
busy_is_not_dead = refl

after_calls-IsBounded_example : IsBounded (after_calls (new_peer_health 2000 30000 1000) history)
after_calls-IsBounded_example = after_calls-IsBounded 2000 30000 1000 history
