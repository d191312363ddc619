-- ===== src/Transport/RailHealth/Leases.antt =====
-- The leases of a rail: their numbers are distinct, and at most one of them is a recovery probe.
use dingo_cache.Common.{
  ℕ, ◌+◌, ◌<◌, ◌≤◌, ◌≡◌, refl, sym, List, [], ◌∷◌, none, some, ◌==◌, if◌then◌else◌, arith,
  Bool-cases, inl, inr, ==_iff,
}
use dingo_cache.Transport.RailHealth.State.{Lease, RailState, find_lease, erase_lease}

-- How many of the leases are recovery probes.
abbrev pub probes : List Lease → ℕ
probes [] = 0
probes (l ∷ ls) = (if l.recovery_probe then 1 else 0) + probes ls

-- The numbers of the leases are below `next`, and no two are the same.
abbrev pub Numbered : ℕ → List Lease → Type 0
Numbered next [] = Unit
Numbered next (l ∷ ls) =
    (l.generation < next) × (find_lease ls l.generation ≡ none) × Numbered next ls

pub find_lease-beyond :
    (next g : ℕ) (ls : List Lease) → Numbered next ls → next ≤ g → find_lease ls g ≡ none
find_lease-beyond next g [] n h = refl
find_lease-beyond next g (l ∷ ls) n h =
    let rest = find_lease-beyond next g ls n.2 h in ground (arith, rest, n.0)

pub Numbered-later :
    (next later : ℕ) (ls : List Lease) → next ≤ later → Numbered next ls → Numbered later ls
Numbered-later next later [] h n = n
Numbered-later next later (l ∷ ls) h n =
    (omega (arith, n.0), n.1, Numbered-later next later ls h n.2)

pub probes-erase_lease :
    (ls : List Lease) (g : ℕ) (l : Lease)
    → find_lease ls g ≡ some l
    → probes ls ≡ (if l.recovery_probe then 1 else 0) + probes (erase_lease ls g)
probes-erase_lease [] g l h = absurd (cc h)
probes-erase_lease (x ∷ ls) g l h = elim (Bool-cases (x.generation == g)) [
  | inl here ↦ let same : x ≡ l = ground (arith, h, here) in rw (here, sym same) refl
  | inr there ↦
      let found : find_lease ls g ≡ some l = ground (arith, h, there) in
      let ih = probes-erase_lease ls g l found in rw there (omega (arith, ih))
]

pub find_lease-erase_lease :
    (ls : List Lease) (g i : ℕ) → find_lease ls i ≡ none → find_lease (erase_lease ls g) i ≡ none
find_lease-erase_lease [] g i h = refl
find_lease-erase_lease (x ∷ ls) g i h =
    let ih = λ (e : find_lease ls i ≡ none). find_lease-erase_lease ls g i e in
    elim (Bool-cases (x.generation == g)) [
      | inl here ↦ rw here (ground (arith, h))
      | inr there ↦
          let rest : find_lease ls i ≡ none = ground (arith, h) in
          rw there (ground (arith, h, ih rest))
    ]

pub Numbered-erase_lease :
    (next g : ℕ) (ls : List Lease) → Numbered next ls → Numbered next (erase_lease ls g)
Numbered-erase_lease next g [] n = n
Numbered-erase_lease next g (x ∷ ls) n = elim (Bool-cases (x.generation == g)) [
  | inl here ↦ rw here n.2
  | inr there ↦
      rw there
        (n.0, find_lease-erase_lease ls g x.generation n.1, Numbered-erase_lease next g ls n.2)
]

-- A lease that was erased is gone.
pub find_lease-erased :
    (next g : ℕ) (ls : List Lease) → Numbered next ls → find_lease (erase_lease ls g) g ≡ none
find_lease-erased next g [] n = refl
find_lease-erased next g (x ∷ ls) n = elim (Bool-cases (x.generation == g)) [
  | inl here ↦
      let same : x.generation ≡ g = (==_iff x.generation g).0 here in rw (here, sym same) n.1
  | inr there ↦ rw there (rw there (find_lease-erased next g ls n.2))
]

-- What holds of every rail: the flag says whether a recovery probe is out, and then it is one.
pub record IsRail (next : ℕ) (r : RailState) : Type 0 where
  pub one_probe : probes r.active_leases ≡ (if r.recovery_probe_active then 1 else 0)
  pub numbered : Numbered next r.active_leases
