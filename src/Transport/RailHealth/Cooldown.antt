-- ===== src/Transport/RailHealth/Cooldown.antt =====
-- How long a failed rail is left alone.
use dingo_cache.Common.{
  ℕ, zero, suc, ◌+◌, ◌-◌, ◌*◌, ◌/◌, ◌^◌, ◌<◌, ◌≤◌, ◌≡◌, ◌⊎◌, min, max, true, false, not, ◌&&◌, ◌||◌,
  ltb, ◌==◌, if◌then◌else◌, arith, ap, Bool-cases, inl, inr,
}
use dingo_cache.Transport.RailHealth.State.{
  Config, endpoint_failure, Lease, RailState, hard_max_cooldown_us, largest_word,
}
use dingo_cache.Transport.RailHealth.{
  clamp, saturating_add, double_cooldown, cooldown_for, unavailable, complete_rail,
}

clamp_bounds :
    (c : Config)
    → (1 ≤ (clamp c).base_cooldown_us)
      × ((clamp c).base_cooldown_us ≤ (clamp c).max_cooldown_us)
      × ((clamp c).max_cooldown_us ≤ hard_max_cooldown_us)
unfolding clamp
clamp_bounds c = ground arith

-- A number doubled `n` times.
abbrev doubled : ℕ → ℕ → ℕ
doubled zero x = x
doubled (suc n) x = doubled n (x * 2)

doubled_le : (n x : ℕ) → x ≤ doubled n x
doubled_le zero x = omega arith
doubled_le (suc n) x = omega (arith, doubled_le n (x * 2))

doubled-pow : (n x : ℕ) → doubled n x ≡ x * 2 ^ n
doubled-pow zero x = omega arith
doubled-pow (suc n) x =
    let power : 2 ^ suc n ≡ 2 ^ n * 2 = omega arith in
    omega (arith, ap (λ (t : ℕ). x * t) power, doubled-pow n (x * 2))

double_cooldown-doubled :
    (highest n x : ℕ) → x ≤ highest → double_cooldown highest n x ≡ min (doubled n x) highest
unfolding double_cooldown
double_cooldown-doubled highest zero x h = ground arith
double_cooldown-doubled highest (suc n) x h =
    let more = doubled_le n (x * 2) in
    elim (Bool-cases (ltb (highest / 2) x)) [
      | inl large ↦ rw large (
          ground (
            arith,
            large,
            double_cooldown-doubled highest n highest (omega arith),
            doubled_le n highest,
            more,
          ))
      | inr small ↦ rw small (
          ground
            (arith, small, double_cooldown-doubled highest n (x * 2) (ground (arith, small)), more))
    ]

-- After n + 1 failures in a row, the cooldown is the base, doubled n times, or the maximum if that is less;
-- whatever the configuration was, it is between a microsecond and half a minute.
pub cooldown_for-doubles :
    (c : Config) (n : ℕ)
    → (cooldown_for (clamp c) (suc n)
        ≡ min ((clamp c).base_cooldown_us * 2 ^ n) (clamp c).max_cooldown_us)
      × (1 ≤ cooldown_for (clamp c) (suc n))
      × (cooldown_for (clamp c) (suc n) ≤ hard_max_cooldown_us)
unfolding cooldown_for
cooldown_for-doubles c n =
    let k = clamp c in
    let (least, ordered, most) = clamp_bounds c in
    let rounds : suc n - 1 ≡ n = omega arith in
    let loop = double_cooldown-doubled k.max_cooldown_us n k.base_cooldown_us ordered in
    let power = doubled-pow n k.base_cooldown_us in
    let more = doubled_le n k.base_cooldown_us in
    rw (rounds, loop) (ground (arith, power, more, least, ordered, most))

cooldown_for_bounds :
    (c : Config) (n : ℕ)
    → 0 < n
    → (1 ≤ cooldown_for (clamp c) n) × (cooldown_for (clamp c) n ≤ hard_max_cooldown_us)
cooldown_for_bounds c zero h = absurd (omega arith)
cooldown_for_bounds c (suc n) h =
    let (power, least, most) = cooldown_for-doubles c n in (least, most)

-- When a recovery probe, or a lease of the present epoch, fails at its endpoint, the rail has failures on
-- record, and from then on it is unavailable at exactly the times before its deadline, and while another
-- recovery probe is out. The deadline is after the failure, unless the clock is at its end, never earlier than
-- the deadline before, and, where it was moved, at most half a minute after the failure.
pub complete_rail-unavailable :
    (c : Config) (r : RailState) (l : Lease) (now_us t : ℕ)
    → (l.recovery_probe ≡ true) ⊎ (l.health_epoch ≡ r.health_epoch)
    → now_us < largest_word
    → let r' = (complete_rail (clamp c) r l endpoint_failure now_us).0 in
      (unavailable r' t
        ≡ (ltb t r'.cooldown_until_us || (not l.recovery_probe && r.recovery_probe_active)))
      × (now_us < r'.cooldown_until_us)
      × (r.cooldown_until_us ≤ r'.cooldown_until_us)
      × (r'.cooldown_until_us ≤ max r.cooldown_until_us (now_us + hard_max_cooldown_us))
unfolding unavailable complete_rail saturating_add
complete_rail-unavailable c r l now_us t current word =
    let fresh : (not l.recovery_probe && not (l.health_epoch == r.health_epoch)) ≡ false =
      ground (arith, current) in
    let failures =
      if r.consecutive_failures == largest_word
      then r.consecutive_failures
      else r.consecutive_failures + 1 in
    let some_failure : 0 < failures = ground arith in
    let (least, most) = cooldown_for_bounds c failures some_failure in
    rw (complete_rail, fresh) (ground (arith, least, most, some_failure))
