-- ===== src/Repository/FloatBounds.antt =====
-- The float64 arithmetic of repository/page.go is exact enough: for numbers below 2^46 and divisors up
-- to 2^7 the ceiling of the float64 quotient is that of the quotient.
use native.Mathlib.Nat.{mul-le-mul_right}
use ais_pkg.Prelude.{
  ℕ, zero, suc, ◌+◌, ◌*◌, ◌/◌, ◌%◌, ◌^◌, ◌≤◌, ◌<◌, ◌≡◌, arith, Bool-cases, inl, inr, ◌⊎◌, ltb,
}
use ais_pkg.Repository.Floats.{
  round_half_even, unit_of, parts_of, float64, ceil_parts, ceil_quotient,
}

scaled : (a b d : ℕ) → a < b → a * d + d ≤ b * d
scaled a b d h = let more = mul-le-mul_right {m = suc a} {n = b} d h in omega arith

quotient_above : (k n d : ℕ) → 1 ≤ d → k * d ≤ n → k ≤ n / d
quotient_above k n d pos h = elim (Bool-cases (ltb (n / d) k)) [
  | inl e ↦ let more = scaled (n / d) k d (ground arith) in absurd (omega arith)
  | inr e ↦ ground arith
]

quotient_below : (k n d : ℕ) → 1 ≤ d → n ≤ k * d → (n / d < k) ⊎ ((n / d ≤ k) × (n % d ≡ 0))
quotient_below k n d pos h = elim (Bool-cases (ltb (n / d) k)) [
  | inl e ↦ inl (ground arith)
  | inr e ↦
      let least : k ≤ n / d = ground arith in
      let more = mul-le-mul_right {m = k} {n = n / d} d least in inr (not_above, omega arith)
]
  where
    not_above : n / d ≤ k
    not_above = elim (Bool-cases (ltb k (n / d))) [
      | inl e ↦ let more = scaled k (n / d) d (ground arith) in absurd (omega arith)
      | inr e ↦ ground arith
    ]

-- Rounding keeps to the whole numbers on both sides.
round_above : (k n d : ℕ) → 1 ≤ d → k * d ≤ n → k ≤ round_half_even n d
unfolding round_half_even
round_above k n d pos h = let least = quotient_above k n d pos h in ground arith

round_below : (k n d : ℕ) → 1 ≤ d → n ≤ k * d → round_half_even n d ≤ k
unfolding round_half_even
round_below k n d pos h = elim (quotient_below k n d pos h) [
  | inl less ↦ ground arith
  | inr (most, exact) ↦ ground arith
]

enough_parts : (n d p q m : ℕ) → d < p → m ≤ q * p → ((k : ℕ) → k * d ≤ n * p → k ≤ m) → n ≤ d * q
enough_parts n d p q m fine most above = elim (Bool-cases (ltb (d * q) n)) [
  | inl e ↦
      let more = scaled (d * q) n p (ground arith) in
      let over = above (q * p + 1) (omega arith) in absurd (omega arith)
  | inr e ↦ ground arith
]

spare_parts :
    (n d p q m : ℕ) → 1 ≤ d → q * p < m + p → ((k : ℕ) → n * p ≤ k * d → m ≤ k) → d * q < n + d
spare_parts n d p zero m pos least below = omega arith
spare_parts n d p (suc j) m pos least below = elim (Bool-cases (ltb n (d * j + 1))) [
  | inl e ↦
      let small : n ≤ d * j = ground arith in
      let more = mul-le-mul_right {m = n} {n = d * j} p small in
      let under = below (j * p) (omega arith) in absurd (omega arith)
  | inr e ↦ let large : d * j + 1 ≤ n = ground arith in omega arith
]

-- The ceiling of a rounded quotient with more parts than the divisor.
ceil_parts_exact :
    (n d p : ℕ)
    → 1 ≤ d
    → d < p
    → (n ≤ d * ceil_parts 1 (round_half_even (n * p) (d * 1)) p)
      × (d * ceil_parts 1 (round_half_even (n * p) (d * 1)) p < n + d)
ceil_parts_exact n d p pos fine = (
  enough_parts n d p q m fine (omega arith)
      (λ k h. round_above k (n * p) (d * 1) (omega arith) (omega arith)),
  spare_parts n d p q m pos (omega arith)
      (λ k h. round_below k (n * p) (d * 1) (omega arith) (omega arith)),
)
  where
    m : ℕ
    m = round_half_even (n * p) (d * 1)

    q : ℕ
    q = ceil_parts 1 m p

unit_of-small : (fuel n d : ℕ) → n < 2 ^ 53 * d → unit_of (suc fuel) n d 1 ≡ 1
unfolding unit_of
unit_of-small fuel n d h = ground arith

pub float64-small : (n : ℕ) → n < 2 ^ 53 → float64 n ≡ n
unfolding float64 round_half_even
float64-small n h = rw (unit_of-small 10 n 1 (omega arith)) (ground arith)

parts_of-grows : (fuel n d p : ℕ) → p ≤ parts_of fuel n d p
unfolding parts_of
parts_of-grows zero n d p = omega arith
parts_of-grows (suc fuel) n d p = let more = parts_of-grows fuel n d (2 * p) in ground arith

parts_of-doubles :
    (fuel n d p : ℕ) → n * p < 2 ^ 52 * d → parts_of (suc fuel) n d p ≡ parts_of fuel n d (2 * p)
unfolding parts_of
parts_of-doubles fuel n d p h = ground arith

parts_of-128 : (n d : ℕ) → 1 ≤ d → n < 2 ^ 46 → 128 ≤ parts_of 60 n d 1
parts_of-128 n d pos h =
    rw
      (
        parts_of-doubles 59 n d 1 (omega arith),
        parts_of-doubles 58 n d 2 (omega arith),
        parts_of-doubles 57 n d 4 (omega arith),
        parts_of-doubles 56 n d 8 (omega arith),
        parts_of-doubles 55 n d 16 (omega arith),
        parts_of-doubles 54 n d 32 (omega arith),
        parts_of-doubles 53 n d 64 (omega arith),
      )
      (parts_of-grows 53 n d 128)

-- The ceiling of n / d.
pub ceil_quotient-exact :
    (n d : ℕ)
    → 1 ≤ d
    → d ≤ 100
    → n < 2 ^ 46
    → (n ≤ d * ceil_quotient n d) × (d * ceil_quotient n d < n + d)
unfolding ceil_quotient
ceil_quotient-exact n d pos few small =
    let fine = parts_of-128 n d pos small in
    rw (unit_of-small 10 n d (omega arith))
      (ceil_parts_exact n d (parts_of 60 n d 1) pos (omega arith))
