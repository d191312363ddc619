-- ===== src/SlabAllocator/FreeList/Weights.antt =====
-- The sum of a weight over a vector, and how the vector operations change it. With the weight 1 at one
-- number and 0 elsewhere it counts the number.
use native.Mathlib.Numerals.{add-one}
use dingo_cache.Common.{
  ℕ, zero, suc, ◌+◌, ◌-◌, ◌≤◌, ◌<◌, ◌≡◌, refl, ap, ◌≢◌, inl, inr, arith, List, [], ◌∷◌, ◌++◌,
  length, get_or, set, ◌==◌, Bool-cases, if◌then◌else◌, length-set,
}
use dingo_cache.SlabAllocator.FreeList.{back, pop_back, position, swap_remove, is_empty}

abbrev pub weigh : (ℕ → ℕ) → List ℕ → ℕ
weigh g [] = 0
weigh g (x ∷ xs) = g x + weigh g xs

abbrev pub only : ℕ → ℕ → ℕ
only a x = if x == a then 1 else 0

pub weigh-append : (g : ℕ → ℕ) (xs ys : List ℕ) → weigh g (xs ++ ys) ≡ weigh g xs + weigh g ys
weigh-append g [] ys = omega arith
weigh-append g (x ∷ xs) ys = omega (arith, weigh-append g xs ys)

weigh-set :
    (g : ℕ → ℕ) (xs : List ℕ) (i v : ℕ)
    → i < length xs
    → weigh g (set xs i v) + g (get_or xs i 0) ≡ weigh g xs + g v
weigh-set g [] i v h = elim h [ ]
weigh-set g (x ∷ xs) zero v h = omega arith
weigh-set g (x ∷ xs) (suc i) v h = omega (arith, weigh-set g xs i v (omega arith))

pub weigh-pop_back :
    (g : ℕ → ℕ) (xs : List ℕ) → 0 < length xs → weigh g (pop_back xs) + g (back xs) ≡ weigh g xs
unfolding pop_back back
weigh-pop_back g [] h = absurd (omega arith)
weigh-pop_back g (x ∷ []) h = omega arith
weigh-pop_back g (x ∷ y ∷ ys) h = omega (arith, weigh-pop_back g (y ∷ ys) (omega arith))

back-set : (xs : List ℕ) (i : ℕ) → back (set xs i (back xs)) ≡ back xs
unfolding back
back-set [] i = refl
back-set (x ∷ []) zero = refl
back-set (x ∷ []) (suc i) = refl
back-set (x ∷ y ∷ ys) zero = refl
back-set (x ∷ y ∷ ys) (suc zero) = back-set (y ∷ ys) zero
back-set (x ∷ y ∷ ys) (suc (suc i)) = back-set (y ∷ ys) (suc i)

-- Swapping with the back and dropping it takes out one element.
pub weigh-swap_remove :
    (g : ℕ → ℕ) (xs : List ℕ) (i : ℕ)
    → i < length xs
    → weigh g (swap_remove xs i) + g (get_or xs i 0) ≡ weigh g xs
unfolding swap_remove
weigh-swap_remove g xs i h =
    let ys : List ℕ = set xs i (back xs) in
    let long : length ys ≡ length xs = length-set xs i (back xs) in
    let popped = weigh-pop_back g ys (omega (arith, long)) in
    let last : g (back ys) ≡ g (back xs) = ap g (back-set xs i) in
    omega (arith, weigh-set g xs i (back xs) h, popped, last)

pub length-pop_back : (xs : List ℕ) → length (pop_back xs) ≡ length xs - 1
unfolding pop_back
length-pop_back [] = omega arith
length-pop_back (x ∷ []) = omega arith
length-pop_back (x ∷ y ∷ ys) = omega (arith, length-pop_back (y ∷ ys))

pub length-swap_remove : (xs : List ℕ) (i : ℕ) → length (swap_remove xs i) ≡ length xs - 1
unfolding swap_remove
length-swap_remove xs i =
    omega (arith, length-pop_back (set xs i (back xs)), length-set xs i (back xs))

-- A weight changed at one number changes the sum as often as the number occurs.
pub weigh-change :
    (g h : ℕ → ℕ) (a : ℕ) (xs : List ℕ)
    → ((x : ℕ) → x ≢ a → h x ≡ g x)
    → weigh (only a) xs ≡ 0
    → weigh h xs ≡ weigh g xs
weigh-change g h a [] same out = refl
weigh-change g h a (x ∷ xs) same out = ground (arith, same x, weigh-change g h a xs same)

pub weigh-change_once :
    (g h : ℕ → ℕ) (a : ℕ) (xs : List ℕ)
    → ((x : ℕ) → x ≢ a → h x ≡ g x)
    → weigh (only a) xs ≡ 1
    → weigh h xs + g a ≡ weigh g xs + h a
weigh-change_once g h a [] same out = absurd (omega arith)
weigh-change_once g h a (x ∷ xs) same out = elim (Bool-cases (x == a)) [
  | inl here ↦
      let e : x ≡ a = ground arith in
      let none_later : weigh (only a) xs ≡ 0 = ground arith in
      let rest = weigh-change g h a xs same none_later in
      let gx : g x ≡ g a = ap g e in let hx : h x ≡ h a = ap h e in omega arith
  | inr other ↦
      let ne : x ≢ a = ground arith in
      let once : weigh (only a) xs ≡ 1 = ground arith in
      omega (arith, same x ne, weigh-change_once g h a xs same once)
]

-- A number that occurs stands at its position.
pub position-lt : (xs : List ℕ) (a : ℕ) → 0 < weigh (only a) xs → position xs a < length xs
unfolding position
position-lt [] a h = absurd (omega arith)
position-lt (x ∷ xs) a h = ground (arith, position-lt xs a)

pub get_or-position :
    (xs : List ℕ) (a : ℕ) → position xs a < length xs → get_or xs (position xs a) 0 ≡ a
unfolding position
get_or-position [] a h = elim h [ ]
get_or-position (x ∷ xs) a h = elim (Bool-cases (x == a)) [
  | inl here ↦ rw here (ground arith)
  | inr other ↦ rw (other, add-one) (get_or-position xs a (ground arith))
]

pub weigh-absent : (xs : List ℕ) (a : ℕ) → length xs ≤ position xs a → weigh (only a) xs ≡ 0
unfolding position
weigh-absent [] a h = refl
weigh-absent (x ∷ xs) a h = ground (arith, weigh-absent xs a)

pub is_empty-length : (xs : List ℕ) → is_empty xs ≡ (length xs == 0)
is_empty-length [] = refl
is_empty-length (x ∷ xs) = ground arith
