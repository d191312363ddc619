-- ===== src/PeerHealth/Calls.antt =====
-- No map of PeerHealth outgrows the list of tracked peers, and that list has a cap.
use dingo_cache.Common.{add64, ℕ, refl, arith, List, [], ◌∷◌, ◌++◌, Bool-cases, inl, inr}
use dingo_cache.PeerHealth.{
  PeerHealth, new_peer_health, set_peer, is_tracked, without_peer, track, clear, healthy, is_busy,
  mark_bad, mark_good, mark_probe_alive,
}
use dingo_cache.PeerHealth.Bounded.{
  IsBounded, IsListed-erased, IsListed-set, IsListed-moved, moved_few, track-IsBounded,
}

clear-IsBounded : (s : PeerHealth) (peer : ℕ) → IsBounded s → IsBounded (clear s peer)
unfolding clear
clear-IsBounded s peer k = record {
  few = k.few;
  until = IsListed-erased s.until peer s.peer_lru k.until;
  fail_streak = IsListed-erased s.fail_streak peer s.peer_lru k.fail_streak;
  peer_errors = k.peer_errors;
  last_good = k.last_good;
}

mark_bad-IsBounded :
    (s : PeerHealth) (peer now_ms : ℕ) → IsBounded s → IsBounded (mark_bad s peer now_ms)
unfolding mark_bad
mark_bad-IsBounded s peer now_ms k =
    let counted : PeerHealth = record s { errors = add64 s.errors 1 } in
    let kept : IsBounded counted = record {
      few = k.few;
      until = k.until;
      fail_streak = k.fail_streak;
      peer_errors = k.peer_errors;
      last_good = k.last_good;
    } in
    let (t, here) = track-IsBounded counted peer kept in
    let after = track counted peer in
    elim (Bool-cases (is_busy after peer now_ms)) [
      | inl busy ↦
          rw (mark_bad, busy)
            (record {
              few = t.few;
              until = t.until;
              fail_streak = t.fail_streak;
              peer_errors = t.peer_errors;
              last_good = t.last_good;
            })
      | inr down ↦
          rw (mark_bad, down)
            (record {
              few = t.few;
              until = IsListed-set after.until peer _ after.peer_lru here t.until;
              fail_streak = IsListed-set after.fail_streak peer _ after.peer_lru here t.fail_streak;
              peer_errors = IsListed-set after.peer_errors peer _ after.peer_lru here t.peer_errors;
              last_good = t.last_good;
            })
    ]

mark_good-IsBounded :
    (s : PeerHealth) (peer now_ms : ℕ) → IsBounded s → IsBounded (mark_good s peer now_ms)
unfolding mark_good
mark_good-IsBounded s peer now_ms k =
    let counted : PeerHealth = record s { served = add64 s.served 1 } in
    let kept : IsBounded counted = record {
      few = k.few;
      until = k.until;
      fail_streak = k.fail_streak;
      peer_errors = k.peer_errors;
      last_good = k.last_good;
    } in
    let (t, here) = track-IsBounded counted peer kept in
    let after = track counted peer in
    clear-IsBounded (record after { last_good = set_peer after.last_good peer now_ms }) peer
      (record {
        few = t.few;
        until = t.until;
        fail_streak = t.fail_streak;
        peer_errors = t.peer_errors;
        last_good = IsListed-set after.last_good peer now_ms after.peer_lru here t.last_good;
      })

mark_probe_alive-IsBounded :
    (s : PeerHealth) (peer : ℕ) → IsBounded s → IsBounded (mark_probe_alive s peer)
unfolding mark_probe_alive
mark_probe_alive-IsBounded s peer k = elim (Bool-cases (is_tracked s.peer_lru peer)) [
  | inl here ↦
      rw (mark_probe_alive, here)
        (clear-IsBounded (record s { peer_lru = without_peer s.peer_lru peer ++ (peer ∷ []) }) peer
          (record {
            few = omega (arith, k.few, moved_few s.peer_lru peer here);
            until = IsListed-moved s.until s.peer_lru peer k.until;
            fail_streak = IsListed-moved s.fail_streak s.peer_lru peer k.fail_streak;
            peer_errors = IsListed-moved s.peer_errors s.peer_lru peer k.peer_errors;
            last_good = IsListed-moved s.last_good s.peer_lru peer k.last_good;
          }))
  | inr unknown ↦ rw (mark_probe_alive, unknown) (clear-IsBounded s peer k)
]

-- A call of the class.
pub data Call : Type 0 where
  asking failing serving : (peer now_ms : ℕ) → Call
  probing : (peer : ℕ) → Call

unfoldable pub after_call : PeerHealth → Call → PeerHealth
after_call s (asking peer now_ms) = (healthy s peer now_ms).0
after_call s (failing peer now_ms) = mark_bad s peer now_ms
after_call s (serving peer now_ms) = mark_good s peer now_ms
after_call s (probing peer) = mark_probe_alive s peer

unfoldable pub after_calls : PeerHealth → List Call → PeerHealth
after_calls s [] = s
after_calls s (call ∷ calls) = after_calls (after_call s call) calls

after_call-IsBounded : (s : PeerHealth) (call : Call) → IsBounded s → IsBounded (after_call s call)
unfolding after_call
after_call-IsBounded s (asking peer now_ms) k =
    unfold healthy in
    (record {
      few = k.few;
      until = k.until;
      fail_streak = k.fail_streak;
      peer_errors = k.peer_errors;
      last_good = k.last_good;
    })
after_call-IsBounded s (failing peer now_ms) k = mark_bad-IsBounded s peer now_ms k
after_call-IsBounded s (serving peer now_ms) k = mark_good-IsBounded s peer now_ms k
after_call-IsBounded s (probing peer) k = mark_probe_alive-IsBounded s peer k

kept-IsBounded :
    (s : PeerHealth) (calls : List Call) → IsBounded s → IsBounded (after_calls s calls)
unfolding after_calls
kept-IsBounded s [] k = k
kept-IsBounded s (call ∷ calls) k =
    kept-IsBounded (after_call s call) calls (after_call-IsBounded s call k)

-- Over every sequence of Healthy, MarkBad, MarkGood and MarkProbeAlive from the constructor, at most 4096 peers
-- are tracked, and every peer that any of the four maps has an entry for is one of them.
pub after_calls-IsBounded :
    (base max_cooldown grace : ℕ) (calls : List Call)
    → IsBounded (after_calls (new_peer_health base max_cooldown grace) calls)
after_calls-IsBounded base max_cooldown grace calls =
    kept-IsBounded (new_peer_health base max_cooldown grace) calls (record {
      few = omega arith;
      until = λ p some_value. absurd (some_value refl);
      fail_streak = λ p some_value. absurd (some_value refl);
      peer_errors = λ p some_value. absurd (some_value refl);
      last_good = λ p some_value. absurd (some_value refl);
    })
