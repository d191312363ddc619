-- ===== src/Common/Bits.antt =====
-- The binary `&` with a mask of low ones, as a remainder.
use Prim.Native.Nat.{
  ℕ, zero, suc, ◌+◌, ◌-◌, ◌*◌, ◌/◌, ◌%◌, ◌≤◌, ◌<◌, min, bit_and, digits, bit_and-bitwise,
}
use mathlib.Core.Path.{◌≡◌, refl, sym, ap, ◌∙◌}
use native.Mathlib.Nat.{mod-lt, mod-eq_of_lt, div-add-mod, add-mul-mod_self_right}
use native.Mathlib.Omega.{arith}

-- The powers of two, which hash tables have for capacities.
pub data IsPowTwo : ℕ → Type 0 where
  one : {n : ℕ} → n ≡ 1 → IsPowTwo n
  double : {n m : ℕ} → IsPowTwo n → m ≡ n * 2 → IsPowTwo m

pub IsPowTwo-pos : {n : ℕ} → IsPowTwo n → 0 < n
IsPowTwo-pos (one e) = omega arith
IsPowTwo-pos (double p e) = omega (arith, IsPowTwo-pos p)

abbrev conj_digits : ℕ → ℕ → ℕ → ℕ
conj_digits rounds a b = digits (λ b. zero) min rounds a b

-- Any two counts of rounds that cover the digits agree.
conj_digits_enough : (k m a b : ℕ) → a ≤ k → a ≤ m → conj_digits k a b ≡ conj_digits m a b
conj_digits_enough zero zero zero b h g = refl
conj_digits_enough zero (suc m) zero b h g = refl
conj_digits_enough (suc k) zero zero b h g = refl
conj_digits_enough (suc k) (suc m) zero b h g = refl
conj_digits_enough zero m (suc a) b h g = absurd (omega arith)
conj_digits_enough (suc k) zero (suc a) b h g = absurd (omega arith)
conj_digits_enough (suc k) (suc m) (suc a) b h g =
    omega (arith, conj_digits_enough k m (suc a / 2) (b / 2) (omega arith) (omega arith))

-- The lowest digit of a conjunction.
bit_and-halves : (a b : ℕ) → bit_and a b ≡ bit_and (a / 2) (b / 2) * 2 + min (a % 2) (b % 2)
bit_and-halves zero b = omega (arith, bit_and-bitwise 0 b, bit_and-bitwise 0 (b / 2))
bit_and-halves (suc a) b =
    let half = suc a / 2 in
    omega (
      arith,
      bit_and-bitwise (suc a) b,
      bit_and-bitwise half (b / 2),
      conj_digits_enough a half half (b / 2) (omega arith) (omega arith),
    )

conj_digits-zero : (k a : ℕ) → conj_digits k a 0 ≡ 0
conj_digits-zero zero a = refl
conj_digits-zero (suc k) zero = refl
conj_digits-zero (suc k) (suc a) = omega (arith, conj_digits-zero k (suc a / 2))

bit_and-none : (a : ℕ) → bit_and a 0 ≡ 0
bit_and-none a = bit_and-bitwise a 0 ∙ conj_digits-zero a a

-- A remainder by twice a number, from the remainder of the half.
mod-double : (a n : ℕ) → 0 < n → (a / 2 % n) * 2 + a % 2 ≡ a % (n * 2)
mod-double a n h =
    let q = a / 2 / n in
    let r = a / 2 % n in
    let low : r * 2 + a % 2 < n * 2 = omega (arith, mod-lt (a / 2) h) in
    let split : a ≡ (r * 2 + a % 2) + q * (n * 2) = grind (arith, div-add-mod (a / 2) n) in
    sym (
      ap (λ t. t % (n * 2)) split
      ∙ add-mul-mod_self_right (r * 2 + a % 2) q (n * 2)
      ∙ mod-eq_of_lt low)

-- A mask of a power of two less one takes the remainder.
pub bit_and-mask : {n : ℕ} (a : ℕ) → IsPowTwo n → bit_and a (n - 1) ≡ a % n
bit_and-mask a (one e) = rw e (omega (arith, bit_and-none a))
bit_and-mask a (double {n = n} p e) =
    let half : bit_and (a / 2) (n - 1) ≡ a / 2 % n = bit_and-mask (a / 2) p in
    let pos : 0 < n = IsPowTwo-pos p in
    let parts : bit_and (a / 2) ((n * 2 - 1) / 2) ≡ a / 2 % n =
      ap (bit_and (a / 2)) (omega arith) ∙ half in
    rw e (omega (arith, bit_and-halves a (n * 2 - 1), parts, mod-double a n pos))
