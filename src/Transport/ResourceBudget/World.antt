-- ===== src/Transport/ResourceBudget/World.antt =====
-- The callers of a ResourceBudget (src/transport/rdma_resource_budget.h), and the order of their calls.
use dingo_cache.Common.{
  ℕ, zero, suc, ◌+◌, ◌^◌, ◌<◌, Bool, List, [], ◌∷◌, if◌then◌else◌, Option, none, some,
}
use dingo_cache.Transport.ResourceBudget.{
  ResourceRequest, ResourceBudget, try_acquire, granted, begin_acquire, end_acquire, release,
  raise_limit,
}

pub data Dimension : Type 0 where
  in_endpoints in_qps in_wr_slots in_bytes : Dimension

unfoldable pub amount : Dimension → ResourceRequest → ℕ
amount in_endpoints r = r.endpoints
amount in_qps r = r.qps
amount in_wr_slots r = r.wr_slots
amount in_bytes r = r.registered_bytes

-- The budget, with the requests that have been granted and not released yet.
pub record World : Type 0 where
  pub budget : ResourceBudget
  pub leases : List ResourceRequest

unfoldable pub held : Dimension → List ResourceRequest → ℕ
unfolding amount
held d [] = 0
held d (r ∷ rs) = amount d r + held d rs

-- The calls of the threads, each under the mutex; a wait of Acquire begins with one and ends with another.
pub data Event : Type 0 where
  tries : ResourceRequest → Event
  begins : ResourceRequest → Bool → Event
  ends : ResourceRequest → Event
  releases : ℕ → Event
  raises_to : ResourceRequest → Event

unfoldable pub nth : List ResourceRequest → ℕ → Option ResourceRequest
nth [] i = none
nth (r ∷ rs) zero = some r
nth (r ∷ rs) (suc i) = nth rs i

unfoldable pub without : List ResourceRequest → ℕ → List ResourceRequest
without [] i = []
without (r ∷ rs) zero = rs
without (r ∷ rs) (suc i) = r ∷ without rs i

-- Who is granted a request holds it; who holds one may release it, once.
unfoldable pub happen : Event → World → World
happen (tries r) w =
    let (b, done) = try_acquire r w.budget in
    record { budget = b; leases = if done then r ∷ w.leases else w.leases }
happen (begins r may_wait) w =
    let (b, asked) = begin_acquire r may_wait w.budget in
    record { budget = b; leases = elim asked [ granted ↦ r ∷ w.leases | _ ↦ w.leases ] }
happen (ends r) w =
    let (b, done) = end_acquire r w.budget in
    record { budget = b; leases = if done then r ∷ w.leases else w.leases }
happen (releases i) w = elim (nth w.leases i) [
  | none ↦ w
  | some r ↦ record { budget = release r w.budget; leases = without w.leases i }
]
happen (raises_to t) w = record w { budget = (raise_limit t w.budget).0 }

unfoldable pub happen_all : List Event → World → World
happen_all [] w = w
happen_all (e ∷ es) w = happen_all es (happen e w)

-- The amounts of a target are 64-bit words.
abbrev pub IsWide : ResourceRequest → Type 0
IsWide r = (d : Dimension) → amount d r < 2 ^ 64

pub data AllWide : List Event → Type 0 where
  no_event : AllWide []
  raised :
      (t : ResourceRequest) (es : List Event) → IsWide t → AllWide es → AllWide (raises_to t ∷ es)
  tried : (r : ResourceRequest) (es : List Event) → AllWide es → AllWide (tries r ∷ es)
  begun :
      (r : ResourceRequest) (may_wait : Bool) (es : List Event)
      → AllWide es
      → AllWide (begins r may_wait ∷ es)
  ended : (r : ResourceRequest) (es : List Event) → AllWide es → AllWide (ends r ∷ es)
  released : (i : ℕ) (es : List Event) → AllWide es → AllWide (releases i ∷ es)
