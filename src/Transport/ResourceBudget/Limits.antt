-- ===== src/Transport/ResourceBudget/Limits.antt =====
-- Over every sequence of calls, what is used is what the callers hold, and it stays within the limits.
use dingo_cache.Common.{
  ℕ, zero, suc, ◌+◌, ◌^◌, ◌≤◌, ◌<◌, ◌≡◌, refl, ap, inl, inr, Bool, true, not, ◌||◌, arith, List, [],
  ◌∷◌, Bool-cases, some, Option-cases, max,
}
use dingo_cache.Transport.ResourceBudget.{
  ResourceRequest, ResourceBudget, new_budget, add_fits, fits_limit, fits_available, add, subtract,
  take, nothing, try_acquire, give_up, begin_acquire, end_acquire, release, raise, raise_limit,
}
use dingo_cache.Transport.ResourceBudget.World.{
  Dimension, in_endpoints, in_qps, in_wr_slots, in_bytes, amount, World, held, Event, tries, begins,
  ends, releases, raises_to, nth, without, happen, happen_all, IsWide, AllWide, no_event, raised,
  tried, begun, ended, released,
}

record IsWithin (w : World) : Type 0 where
  wide : (d : Dimension) → amount d w.budget.limit < 2 ^ 64
  exact : (d : Dimension) → amount d w.budget.used ≡ held d w.leases
  within : (d : Dimension) → amount d w.budget.used ≤ amount d w.budget.limit

fits_available_lem :
    (b : ResourceBudget) (r : ResourceRequest)
    → fits_available b r ≡ true
    → (d : Dimension) → amount d b.used + amount d r ≤ amount d b.limit
unfolding fits_available add_fits amount
fits_available_lem b r h in_endpoints = ground arith
fits_available_lem b r h in_qps = ground arith
fits_available_lem b r h in_wr_slots = ground arith
fits_available_lem b r h in_bytes = ground arith

amount-add :
    (d : Dimension) (v r : ResourceRequest)
    → amount d v + amount d r < 2 ^ 64
    → amount d (add v r) ≡ amount d v + amount d r
unfolding amount add
amount-add in_endpoints v r h = omega arith
amount-add in_qps v r h = omega arith
amount-add in_wr_slots v r h = omega arith
amount-add in_bytes v r h = omega arith

amount-subtract :
    (d : Dimension) (v r : ResourceRequest)
    → amount d r ≤ amount d v
    → amount d v < 2 ^ 64
    → amount d (subtract v r) + amount d r ≡ amount d v
unfolding amount subtract
amount-subtract in_endpoints v r h k = omega arith
amount-subtract in_qps v r h k = omega arith
amount-subtract in_wr_slots v r h k = omega arith
amount-subtract in_bytes v r h k = omega arith

held-without :
    (d : Dimension) (rs : List ResourceRequest) (i : ℕ) (r : ResourceRequest)
    → nth rs i ≡ some r
    → held d (without rs i) + amount d r ≡ held d rs
unfolding nth without held
held-without d [] i r h = cc
held-without d (x ∷ rs) zero r h = ground arith
held-without d (x ∷ rs) (suc i) r h = omega (arith, held-without d rs i r h)

amount-raise_limit :
    (d : Dimension) (t : ResourceRequest) (b : ResourceBudget)
    → amount d (raise_limit t b).0.limit ≡ max (amount d t) (amount d b.limit)
unfolding amount raise_limit raise
amount-raise_limit in_endpoints t b = ground arith
amount-raise_limit in_qps t b = ground arith
amount-raise_limit in_wr_slots t b = ground arith
amount-raise_limit in_bytes t b = ground arith

-- The budget has given one more request.
take-IsWithin :
    (b : ResourceBudget) (ls : List ResourceRequest) (r : ResourceRequest)
    → fits_available b r ≡ true
    → IsWithin (record { budget = b; leases = ls })
    → IsWithin (record { budget = take r b; leases = r ∷ ls })
unfolding take held
take-IsWithin b ls r fits w =
    let room = fits_available_lem b r fits in
    let sum : (d : Dimension) → amount d (add b.used r) ≡ amount d b.used + amount d r =
      λ d. amount-add d b.used r (omega (arith, room d, w.wide d)) in
    record {
      wide = w.wide;
      exact = λ d. omega (arith, sum d, w.exact d);
      within = λ d. omega (arith, sum d, room d);
    }

-- Only counters of the budget have changed.
count-IsWithin :
    (w : World) (b : ResourceBudget)
    → b.limit ≡ w.budget.limit
    → b.used ≡ w.budget.used
    → IsWithin w
    → IsWithin (record { budget = b; leases = w.leases })
count-IsWithin w b limit used h = record {
  wide = λ d. rw limit (h.wide d);
  exact = λ d. rw used (h.exact d);
  within = λ d. rw limit (rw used (h.within d));
}

tries-IsWithin : (r : ResourceRequest) (w : World) → IsWithin w → IsWithin (happen (tries r) w)
unfolding happen try_acquire
tries-IsWithin r w h =
    elim (Bool-cases (not (fits_limit w.budget r) || not (fits_available w.budget r))) [
      | inl none_fits ↦ rw none_fits h
      | inr some_fits ↦
          let fits : fits_available w.budget r ≡ true = ground arith in
          rw some_fits (take-IsWithin w.budget w.leases r fits h)
    ]

begins-IsWithin :
    (r : ResourceRequest) (may_wait : Bool) (w : World)
    → IsWithin w
    → IsWithin (happen (begins r may_wait) w)
unfolding happen begin_acquire give_up
begins-IsWithin r may_wait w h = elim (Bool-cases (not (fits_limit w.budget r))) [
  | inl none_fits ↦ rw none_fits h
  | inr small ↦ elim (Bool-cases (fits_available w.budget r)) [
    | inl fits ↦ rw (small, fits) (take-IsWithin w.budget w.leases r fits h)
    | inr full ↦ elim (Bool-cases may_wait) [
      | inl waits ↦ rw (small, full, waits) h
      | inr not_now ↦ rw (small, full, not_now) (count-IsWithin w _ refl refl h)
    ]
  ]
]

ends-IsWithin : (r : ResourceRequest) (w : World) → IsWithin w → IsWithin (happen (ends r) w)
unfolding happen end_acquire give_up
ends-IsWithin r w h = elim (Bool-cases (fits_available w.budget r)) [
  | inl fits ↦ rw fits (take-IsWithin w.budget w.leases r fits h)
  | inr full ↦ rw full (count-IsWithin w _ refl refl h)
]

releases-IsWithin : (i : ℕ) (w : World) → IsWithin w → IsWithin (happen (releases i) w)
unfolding happen release
releases-IsWithin i w h = elim (Option-cases (nth w.leases i)) [
  | inl missing ↦ rw (missing, happen) h
  | inr (r, found) ↦
      let back : (d : Dimension)
          → amount d (subtract w.budget.used r) + amount d r ≡ amount d w.budget.used =
        λ d.
          amount-subtract d w.budget.used r
            (omega (arith, held-without d w.leases i r found, h.exact d))
            (omega (arith, h.wide d, h.within d)) in
      rw (found, happen)
        (record {
          wide = h.wide;
          exact = λ d. omega (arith, back d, held-without d w.leases i r found, h.exact d);
          within = λ d. omega (arith, back d, h.within d);
        })
]

raise_limit_used : (t : ResourceRequest) (b : ResourceBudget) → (raise_limit t b).0.used ≡ b.used
unfolding raise_limit
raise_limit_used t b = refl

raises-IsWithin :
    (t : ResourceRequest) (w : World) → IsWide t → IsWithin w → IsWithin (happen (raises_to t) w)
unfolding happen
raises-IsWithin t w wide h =
    let grown : (d : Dimension)
        → amount d (raise_limit t w.budget).0.limit ≡ max (amount d t) (amount d w.budget.limit) =
      λ d. amount-raise_limit d t w.budget in
    record {
      wide = λ d. ground (arith, grown d, wide d, h.wide d);
      exact = λ d. omega (arith, h.exact d, ap (amount d) (raise_limit_used t w.budget));
      within =
          λ d. ground (arith, grown d, h.within d, ap (amount d) (raise_limit_used t w.budget));
    }

happen_all-IsWithin :
    (es : List Event) (w : World) → AllWide es → IsWithin w → IsWithin (happen_all es w)
unfolding happen_all
happen_all-IsWithin [] w no_event h = h
happen_all-IsWithin (raises_to t ∷ es) w (raised _ _ wide rest) h =
    happen_all-IsWithin es (happen (raises_to t) w) rest (raises-IsWithin t w wide h)
happen_all-IsWithin (tries r ∷ es) w (tried _ _ rest) h =
    happen_all-IsWithin es (happen (tries r) w) rest (tries-IsWithin r w h)
happen_all-IsWithin (begins r may_wait ∷ es) w (begun _ _ _ rest) h =
    happen_all-IsWithin es (happen (begins r may_wait) w) rest (begins-IsWithin r may_wait w h)
happen_all-IsWithin (ends r ∷ es) w (ended _ _ rest) h =
    happen_all-IsWithin es (happen (ends r) w) rest (ends-IsWithin r w h)
happen_all-IsWithin (releases i ∷ es) w (released _ _ rest) h =
    happen_all-IsWithin es (happen (releases i) w) rest (releases-IsWithin i w h)

-- The world before any call.
abbrev pub start : ResourceRequest → World
start limit = record { budget = new_budget limit; leases = [] }

zero_amount : (d : Dimension) → amount d nothing ≡ 0
unfolding amount
zero_amount in_endpoints = refl
zero_amount in_qps = refl
zero_amount in_wr_slots = refl
zero_amount in_bytes = refl

start-IsWithin : (limit : ResourceRequest) → IsWide limit → IsWithin (start limit)
unfolding new_budget held
start-IsWithin limit wide = record {
  wide = wide;
  exact = zero_amount;
  within = λ d. omega (arith, zero_amount d);
}

-- From a fresh budget with a limit of 64-bit words, over every sequence of calls in which limits are raised
-- to 64-bit words only: in each dimension, what is used is the sum of what the callers hold, and it is not
-- above the limit.
pub happen_all-limits :
    (limit : ResourceRequest) (es : List Event) (d : Dimension)
    → IsWide limit
    → AllWide es
    → let w = happen_all es (start limit) in
      (amount d w.budget.used ≡ held d w.leases)
      × (amount d w.budget.used ≤ amount d w.budget.limit)
happen_all-limits limit es d wide all =
    let w : IsWithin (happen_all es (start limit)) =
      happen_all-IsWithin es (start limit) all (start-IsWithin limit wide) in
    (w.exact d, w.within d)
