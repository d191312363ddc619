-- ===== src/Transport/ResourceBudget/Target.antt =====
-- AdaptiveBudgetTarget (src/transport/rdma_resource_budget.h) stays in range, and its bytes never wrap around.
use native.Mathlib.Nat.{le-div_iff_mul-le}
use dingo_cache.Common.{
  ℕ, ◌*◌, ◌/◌, ◌%◌, ◌^◌, ◌-◌, ◌≤◌, ◌<◌, ◌≡◌, ◌⊎◌, inl, inr, not, ◌&&◌, arith, leb, ltb, ◌==◌,
  if◌then◌else◌, Bool-cases, min, max, refl, ap, ◌∙◌,
}
use dingo_cache.Transport.ResourceBudget.{max_endpoints, target_endpoints, adaptive_budget_target}

-- The last two steps, whatever comes before.
cap_bounds :
    (x least : ℕ)
    → let floored = if ltb x least then least else x in
      let e = if ltb max_endpoints floored then max_endpoints else floored in
      (e ≤ max_endpoints) × (min least max_endpoints ≤ e)
cap_bounds x least = ground arith

target_endpoints_bounds :
    (nodes pool least : ℕ)
    → (target_endpoints nodes pool least ≤ max_endpoints)
      × (min least max_endpoints ≤ target_endpoints nodes pool least)
unfolding target_endpoints
target_endpoints_bounds nodes pool least = cap_bounds _ least

-- The guard of the product rules out that it wraps around.
product_fits :
    (e s d : ℕ) → 0 < s → 0 < d → e ≤ (2 ^ 64 - 1) / s / d / 2 → 2 * s * d * e ≤ 2 ^ 64 - 1
product_fits e s d ps pd h =
    let half : e * 2 ≤ (2 ^ 64 - 1) / s / d = (le-div_iff_mul-le (omega arith)).0 h in
    let deep : e * 2 * d ≤ (2 ^ 64 - 1) / s = (le-div_iff_mul-le pd).0 half in
    let all : e * 2 * d * s ≤ 2 ^ 64 - 1 = (le-div_iff_mul-le ps).0 deep in grind (arith, all)

-- For a slot of some bytes: AdaptiveBudgetTarget gives at most 65536 endpoints and no fewer than the floor
-- asks for below that, and the registered bytes are either the whole product of twice the bytes of a slot,
-- the depth, which counts as 1 if it is 0, and the endpoints, without wrapping around, or the largest word.
pub adaptive_budget_target_bounds :
    (nodes pool depth slot_bytes least : ℕ)
    → 0 < slot_bytes
    → let t = adaptive_budget_target nodes pool depth slot_bytes least in
      (t.endpoints ≤ max_endpoints)
      × (min least max_endpoints ≤ t.endpoints)
      × ((t.registered_bytes ≡ 2 * slot_bytes * max 1 depth * t.endpoints)
          ⊎ (t.registered_bytes ≡ 2 ^ 64 - 1))
unfolding adaptive_budget_target
adaptive_budget_target_bounds nodes pool depth slot_bytes least ps =
    let e = target_endpoints nodes pool least in
    let d = if depth == 0 then 1 else depth in
    let deep : d ≡ max 1 depth = ground arith in
    let (high, low) = target_endpoints_bounds nodes pool least in
    elim (Bool-cases (not (slot_bytes == 0) && leb e ((2 ^ 64 - 1) / slot_bytes / d / 2))) [
      | inr no_room ↦ rw no_room (high, low, inr refl)
      | inl room ↦
          let fits : 2 * slot_bytes * d * e ≤ 2 ^ 64 - 1 =
            product_fits e slot_bytes d ps (ground arith) (ground (arith, room)) in
          let whole : 2 * slot_bytes * d * e % 2 ^ 64 ≡ 2 * slot_bytes * d * e =
            omega (arith, fits) in
          rw room (high, low, inl (whole ∙ ap (λ k. 2 * slot_bytes * k * e) deep))
    ]
