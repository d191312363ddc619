-- ===== src/PeerHealth/Bounded.antt =====
-- What the steps on the list of tracked peers keep: what a map has is tracked, and the list has a cap.
use dingo_cache.Common.{
  ℕ, ◌+◌, ◌≤◌, ◌≡◌, ◌≢◌, refl, subst, ap, arith, true, ◌||◌, List, [], ◌∷◌, ◌++◌, none, ◌==◌,
  length, length-append, Bool-cases, inl, inr, ==_iff,
}
use dingo_cache.PeerHealth.{
  PeerMap, PeerHealth, max_peers, erase_peer, set_peer, is_tracked, without_peer, forget_peer,
  make_peer_room, track,
}

-- What a map has is tracked.
abbrev pub IsListed : PeerMap → List ℕ → Type 0
IsListed m lru = (p : ℕ) → m p ≢ none → is_tracked lru p ≡ true

pub record IsBounded (s : PeerHealth) : Type 0 where
  pub few : length s.peer_lru ≤ max_peers
  pub until : IsListed s.until s.peer_lru
  pub fail_streak : IsListed s.fail_streak s.peer_lru
  pub peer_errors : IsListed s.peer_errors s.peer_lru
  pub last_good : IsListed s.last_good s.peer_lru

is_tracked-append :
    (lru : List ℕ) (peer p : ℕ)
    → is_tracked (lru ++ (peer ∷ [])) p ≡ (is_tracked lru p || peer == p)
is_tracked-append [] peer p = ground arith
is_tracked-append (x ∷ lru) peer p = let ih = is_tracked-append lru peer p in ground (arith, ih)

is_tracked-without_peer :
    (lru : List ℕ) (peer p : ℕ)
    → (is_tracked (without_peer lru peer) p || peer == p) ≡ (is_tracked lru p || peer == p)
is_tracked-without_peer [] peer p = refl
is_tracked-without_peer (x ∷ lru) peer p =
    let ih = is_tracked-without_peer lru peer p in ground (arith, ih)

length-without_peer :
    (lru : List ℕ) (peer : ℕ)
    → is_tracked lru peer ≡ true
    → length (without_peer lru peer) + 1 ≡ length lru
length-without_peer [] peer h = absurd (cc h)
length-without_peer (x ∷ lru) peer h = elim (Bool-cases (x == peer)) [
  | inl here ↦ rw here (omega arith)
  | inr there ↦
      let ih = length-without_peer lru peer (ground (arith, h, there)) in
      rw there (omega (arith, ih))
]

-- A tracked peer at the end of the list: the same peers, and as many.
pub moved_few :
    (lru : List ℕ) (peer : ℕ)
    → is_tracked lru peer ≡ true
    → length (without_peer lru peer ++ (peer ∷ [])) ≡ length lru
moved_few lru peer h =
    omega (arith, length-append (without_peer lru peer) (peer ∷ []), length-without_peer lru peer h)

pub IsListed-moved :
    (m : PeerMap) (lru : List ℕ) (peer : ℕ)
    → IsListed m lru
    → IsListed m (without_peer lru peer ++ (peer ∷ []))
IsListed-moved m lru peer k p some_value =
    let before = k p some_value in
    ground (
      arith,
      before,
      is_tracked-append (without_peer lru peer) peer p,
      is_tracked-without_peer lru peer p,
    )

IsListed-added :
    (m : PeerMap) (lru : List ℕ) (peer : ℕ) → IsListed m lru → IsListed m (lru ++ (peer ∷ []))
IsListed-added m lru peer k p some_value =
    let before = k p some_value in ground (arith, before, is_tracked-append lru peer p)

IsListed-forgotten :
    (m : PeerMap) (victim : ℕ) (lru : List ℕ)
    → IsListed m (victim ∷ lru)
    → IsListed (erase_peer m victim) lru
IsListed-forgotten m victim lru k p some_value = elim (Bool-cases (p == victim)) [
  | inl gone ↦ absurd (some_value (rw gone refl))
  | inr left ↦
      let kept : m p ≢ none = λ e. some_value (rw left e) in
      let before = k p kept in ground (arith, before, left)
]

pub IsListed-erased :
    (m : PeerMap) (peer : ℕ) (lru : List ℕ) → IsListed m lru → IsListed (erase_peer m peer) lru
IsListed-erased m peer lru k p some_value = elim (Bool-cases (p == peer)) [
  | inl gone ↦ absurd (some_value (rw gone refl))
  | inr left ↦ k p (λ e. some_value (rw left e))
]

pub IsListed-set :
    (m : PeerMap) (peer v : ℕ) (lru : List ℕ)
    → is_tracked lru peer ≡ true
    → IsListed m lru
    → IsListed (set_peer m peer v) lru
IsListed-set m peer v lru here k p some_value = elim (Bool-cases (p == peer)) [
  | inl same ↦ let e : p ≡ peer = (==_iff p peer).0 same in rw e here
  | inr other ↦ k p (λ e. some_value (rw other e))
]

moved_to : (m : PeerMap) (a b : List ℕ) → a ≡ b → IsListed m a → IsListed m b
moved_to m a b e k = subst (λ (lru : List ℕ). IsListed m lru) e k

forgotten-IsBounded :
    (s : PeerHealth) (victim : ℕ) (lru : List ℕ)
    → s.peer_lru ≡ victim ∷ lru
    → IsBounded s
    → IsBounded (forget_peer s victim lru)
unfolding forget_peer
forgotten-IsBounded s victim lru e k = record {
  few = omega (arith, k.few, ap length e);
  until =
      IsListed-forgotten s.until victim lru (moved_to s.until s.peer_lru (victim ∷ lru) e k.until);
  fail_streak =
      IsListed-forgotten s.fail_streak victim lru
        (moved_to s.fail_streak s.peer_lru (victim ∷ lru) e k.fail_streak);
  peer_errors =
      IsListed-forgotten s.peer_errors victim lru
        (moved_to s.peer_errors s.peer_lru (victim ∷ lru) e k.peer_errors);
  last_good =
      IsListed-forgotten s.last_good victim lru
        (moved_to s.last_good s.peer_lru (victim ∷ lru) e k.last_good);
}

forgotten_lru :
    (s : PeerHealth) (victim : ℕ) (lru : List ℕ) → (forget_peer s victim lru).peer_lru ≡ lru
unfolding forget_peer
forgotten_lru s victim lru = refl

room_full :
    (s : PeerHealth) (lru : List ℕ)
    → s.peer_lru ≡ lru
    → IsBounded s
    → (length s.peer_lru == max_peers) ≡ true
    → IsBounded (make_peer_room s) × (length (make_peer_room s).peer_lru + 1 ≤ max_peers)
unfolding make_peer_room
room_full s [] e k full = let none_yet = ap length e in absurd (ground (arith, full, none_yet))
room_full s (victim ∷ lru) e k full =
    let shorter = forgotten_lru s victim lru in
    rw (make_peer_room, full, e)
      (forgotten-IsBounded s victim lru e k, rw shorter (omega (arith, k.few, ap length e)))

room_case :
    (s : PeerHealth) (lru : List ℕ)
    → s.peer_lru ≡ lru
    → IsBounded s
    → IsBounded (make_peer_room s) × (length (make_peer_room s).peer_lru + 1 ≤ max_peers)
unfolding make_peer_room
room_case s lru e k = elim (Bool-cases (length s.peer_lru == max_peers)) [
  | inr room ↦ rw (make_peer_room, room) (k, ground (arith, room, k.few))
  | inl full ↦ room_full s lru e k full
]

-- A tracked peer is in the list.
pub track-IsBounded :
    (s : PeerHealth) (peer : ℕ)
    → IsBounded s
    → IsBounded (track s peer) × (is_tracked (track s peer).peer_lru peer ≡ true)
unfolding track
track-IsBounded s peer k =
    let (room, space) = room_case s s.peer_lru refl k in
    let roomy = make_peer_room s in
    elim (Bool-cases (is_tracked s.peer_lru peer)) [
      | inl here ↦
          rw (track, here)
            (
              record {
                few = omega (arith, k.few, moved_few s.peer_lru peer here);
                until = IsListed-moved s.until s.peer_lru peer k.until;
                fail_streak = IsListed-moved s.fail_streak s.peer_lru peer k.fail_streak;
                peer_errors = IsListed-moved s.peer_errors s.peer_lru peer k.peer_errors;
                last_good = IsListed-moved s.last_good s.peer_lru peer k.last_good;
              },
              ground (arith, is_tracked-append (without_peer s.peer_lru peer) peer peer),
            )
      | inr new ↦
          rw (track, new)
            (
              record {
                few = omega (arith, space, length-append roomy.peer_lru (peer ∷ []));
                until = IsListed-added roomy.until roomy.peer_lru peer room.until;
                fail_streak = IsListed-added roomy.fail_streak roomy.peer_lru peer room.fail_streak;
                peer_errors = IsListed-added roomy.peer_errors roomy.peer_lru peer room.peer_errors;
                last_good = IsListed-added roomy.last_good roomy.peer_lru peer room.last_good;
              },
              ground (arith, is_tracked-append roomy.peer_lru peer peer),
            )
    ]
