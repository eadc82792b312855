-- ===== src/Repository/Floats.antt =====
-- The floating-point arithmetic of repository/page.go: conversion of an int64 to a float64, division,
-- and math.Ceil, for numbers that are not negative. A float64 has 53 bits of mantissa, and rounding
-- goes to the nearest one, in the middle to the even one.
use ais_pkg.Prelude.{ℕ, zero, suc, ◌+◌, ◌-◌, ◌*◌, ◌/◌, ◌%◌, ◌^◌, ltb, if◌then◌else◌}

-- n / d rounded to a whole number
unfoldable pub round_half_even : ℕ → ℕ → ℕ
round_half_even n d =
    if ltb (2 * (n % d)) d
    then n / d
    else if ltb d (2 * (n % d))
    then n / d + 1
    else n / d + (n / d) % 2

-- The unit in the last place of n / d, if it is 1 or more, found by doubling `u`.
unfoldable pub unit_of : ℕ → ℕ → ℕ → ℕ → ℕ
unit_of zero n d u = u
unit_of (suc fuel) n d u =
    let larger = unit_of fuel n d (2 * u) in if ltb n (2 ^ 53 * (d * u)) then u else larger

-- The number of units in the last place in 1, for n / d below 2^52, found by doubling `p`.
unfoldable pub parts_of : ℕ → ℕ → ℕ → ℕ → ℕ
parts_of zero n d p = p
parts_of (suc fuel) n d p =
    let finer = parts_of fuel n d (2 * p) in if ltb (n * p) (2 ^ 52 * d) then finer else p

-- float64(n) for n below 2^63, which is a whole number
unfoldable pub float64 : ℕ → ℕ
unfolding round_half_even unit_of
float64 n = let u = unit_of 11 n 1 1 in u * round_half_even n u

-- The ceiling of `u * m / p`.
abbrev pub ceil_parts : ℕ → ℕ → ℕ → ℕ
ceil_parts u m p = (u * m + p - 1) / p

-- math.Ceil of the float64 quotient of two float64 numbers that are whole, with 2^63 as the bound of
-- the first. A unit of 1 or more needs 11 doublings at most, and one of less needs at most 60 for
-- divisors up to 2^8.
unfoldable pub ceil_quotient : ℕ → ℕ → ℕ
unfolding round_half_even unit_of parts_of
ceil_quotient n d =
    let u = unit_of 11 n d 1 in
    let p = parts_of 60 n d 1 in ceil_parts u (round_half_even (n * p) (d * u)) p
