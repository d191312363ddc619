-- ===== src/PeerHealth.antt =====
-- src/client/peer_health.h: class PeerHealth. Each operation runs under one mutex and is one step. Names of
-- peers are only compared here, and a number stands for a name; a hash map is the function from keys to what it
-- holds. `tracked_`, the index of `peer_lru_`, is the list itself. Times are 64-bit words.
pub mod Bounded
pub mod Calls
pub mod Tests
use dingo_cache.Common.{
  ℕ, zero, suc, ◌+◌, ◌-◌, ◌*◌, ◌%◌, ◌^◌, Bool, true, false, not, ◌&&◌, ◌||◌, List, [], ◌∷◌, ◌++◌,
  Option, none, some, ltb, leb, ◌==◌, if◌then◌else◌, length, add32, add64, sub64,
}

abbrev pub PeerMap : Type 0
PeerMap = ℕ → Option ℕ

pub record PeerHealth : Type 0 where
  pub base_cooldown_ms : ℕ
  pub max_cooldown_ms : ℕ
  pub busy_grace_ms : ℕ
  pub until : PeerMap
  pub fail_streak : PeerMap
  pub peer_errors : PeerMap
  pub last_good : PeerMap
  pub peer_lru : List ℕ
  pub checks : ℕ
  pub unhealthy_skips : ℕ
  pub errors : ℕ
  pub busy_suppressed : ℕ
  pub marked_bad : ℕ
  pub served : ℕ
  pub recovered : ℕ

-- kMaxPeers.
abbrev pub max_peers : ℕ
max_peers = 4096

abbrev pub no_peers : PeerMap
no_peers p = none

-- The constructor.
abbrev pub new_peer_health : ℕ → ℕ → ℕ → PeerHealth
new_peer_health base_cooldown_ms max_cooldown_ms busy_grace_ms = record {
  base_cooldown_ms = base_cooldown_ms;
  max_cooldown_ms = max_cooldown_ms;
  busy_grace_ms = busy_grace_ms;
  until = no_peers;
  fail_streak = no_peers;
  peer_errors = no_peers;
  last_good = no_peers;
  peer_lru = [];
  checks = 0;
  unhealthy_skips = 0;
  errors = 0;
  busy_suppressed = 0;
  marked_bad = 0;
  served = 0;
  recovered = 0;
}

-- `erase` and `m[peer] = v`.
abbrev pub erase_peer : PeerMap → ℕ → PeerMap
erase_peer m peer = λ p. if p == peer then none else m p

abbrev pub set_peer : PeerMap → ℕ → ℕ → PeerMap
set_peer m peer v = λ p. if p == peer then some v else m p

abbrev pub value_of : Option ℕ → ℕ
value_of none = 0
value_of (some v) = v

-- Whether a peer is tracked, and the list without it.
abbrev pub is_tracked : List ℕ → ℕ → Bool
is_tracked [] peer = false
is_tracked (p ∷ lru) peer = p == peer || is_tracked lru peer

abbrev pub without_peer : List ℕ → ℕ → List ℕ
without_peer [] peer = []
without_peer (p ∷ lru) peer =
    let rest = without_peer lru peer in if p == peer then lru else p ∷ rest

-- TrackLocked: a tracked peer moves to the end; beyond the cap the first one is forgotten by every map.
unfoldable pub forget_peer : PeerHealth → ℕ → List ℕ → PeerHealth
forget_peer s victim lru = record s {
  until = erase_peer s.until victim;
  fail_streak = erase_peer s.fail_streak victim;
  peer_errors = erase_peer s.peer_errors victim;
  last_good = erase_peer s.last_good victim;
  peer_lru = lru;
}

unfoldable pub make_peer_room : PeerHealth → PeerHealth
unfolding forget_peer
make_peer_room s =
    if length s.peer_lru == max_peers
    then elim s.peer_lru [ [] ↦ s | victim ∷ lru ↦ forget_peer s victim lru ]
    else s

unfoldable pub track : PeerHealth → ℕ → PeerHealth
unfolding make_peer_room
track s peer =
    let roomy = make_peer_room s in
    if is_tracked s.peer_lru peer
    then record s { peer_lru = without_peer s.peer_lru peer ++ (peer ∷ []) }
    else record roomy { peer_lru = roomy.peer_lru ++ (peer ∷ []) }

-- ClearLocked.
unfoldable pub clear : PeerHealth → ℕ → PeerHealth
clear s peer = record s {
  fail_streak = erase_peer s.fail_streak peer;
  until = erase_peer s.until peer;
  recovered = elim (s.until peer) [ none ↦ s.recovered | some t ↦ add64 s.recovered 1 ];
}

-- Whether a peer is not cooling down.
unfoldable pub is_up : PeerHealth → ℕ → ℕ → Bool
is_up s peer now_ms = elim (s.until peer) [ none ↦ true | some t ↦ leb t now_ms ]

-- Healthy.
unfoldable pub healthy : PeerHealth → ℕ → ℕ → PeerHealth × Bool
unfolding is_up
healthy s peer now_ms =
    let ok = is_up s peer now_ms in
    (
      record s {
        checks = add64 s.checks 1;
        unhealthy_skips = if ok then s.unhealthy_skips else add64 s.unhealthy_skips 1;
      },
      ok,
    )

-- The cooldown after a streak of failures, which is not 0 before 2 ^ 32 failures in a row.
unfoldable pub cooldown : PeerHealth → ℕ → ℕ
cooldown s fails =
    let shift = if ltb 31 fails then 31 else fails - 1 in
    let cd = s.base_cooldown_ms * 2 ^ shift % 2 ^ 64 in
    if ltb s.max_cooldown_ms cd || ltb cd s.base_cooldown_ms then s.max_cooldown_ms else cd

-- Whether the peer has served within the grace.
unfoldable pub is_busy : PeerHealth → ℕ → ℕ → Bool
is_busy s peer now_ms = elim (s.last_good peer) [
  | none ↦ false
  | some t ↦ ltb (sub64 now_ms t) s.busy_grace_ms
]

-- MarkBad.
unfoldable pub mark_bad : PeerHealth → ℕ → ℕ → PeerHealth
unfolding track is_busy is_up cooldown
mark_bad s peer now_ms =
    let t = track (record s { errors = add64 s.errors 1 }) peer in
    let fails = add32 (value_of (t.fail_streak peer)) 1 in
    if is_busy t peer now_ms
    then record t { busy_suppressed = add64 t.busy_suppressed 1 }
    else record t {
      fail_streak = set_peer t.fail_streak peer fails;
      until = set_peer t.until peer (add64 now_ms (cooldown t fails));
      marked_bad = if is_up t peer now_ms then add64 t.marked_bad 1 else t.marked_bad;
      peer_errors = set_peer t.peer_errors peer (add64 (value_of (t.peer_errors peer)) 1);
    }

-- MarkGood.
unfoldable pub mark_good : PeerHealth → ℕ → ℕ → PeerHealth
unfolding track clear
mark_good s peer now_ms =
    let t = track (record s { served = add64 s.served 1 }) peer in
    clear (record t { last_good = set_peer t.last_good peer now_ms }) peer

-- MarkProbeAlive.
unfoldable pub mark_probe_alive : PeerHealth → ℕ → PeerHealth
unfolding clear
mark_probe_alive s peer =
    if is_tracked s.peer_lru peer
    then clear (record s { peer_lru = without_peer s.peer_lru peer ++ (peer ∷ []) }) peer
    else clear s peer
