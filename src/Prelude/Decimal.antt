-- ===== src/Prelude/Decimal.antt =====
-- strconv.FormatInt and strconv.ParseInt in base 10, for int64.
use mathlib.Core.Logic.{◌≢◌, inl, inr}
use ais_pkg.Prelude.Tests.{ltb, leb, ◌==◌, if◌then◌else◌, Bool-cases}
use ais_pkg.Prelude.Text.{Text, Free, Free-append}
use ais_pkg.Prelude.Int.{ℤ, pos, negsuc, neg}
use Prim.Native.Nat.{ℕ, zero, suc, ◌+◌, ◌-◌, ◌*◌, ◌/◌, ◌%◌, ◌<◌, ◌^◌}
use mathlib.Core.Path.{◌≡◌, refl, ap}
use mathlib.Core.Bool.{Bool, true, ◌&&◌}
use mathlib.Core.Option.{Option, none, some}
use mathlib.Core.List.{[], ◌∷◌, ◌++◌}
use native.Mathlib.Omega.{arith}

-- The digits of `n`; the fuel `suc n` is more than the number of digits.
digits : ℕ → ℕ → Text
digits zero n = []
digits (suc f) n =
    let rest = digits f (n / 10) in if ltb n 10 then (48 + n) ∷ [] else rest ++ (48 + n % 10) ∷ []

unfoldable pub format_nat : ℕ → Text
unfolding digits
format_nat n = digits (suc n) n

unfoldable pub format_int : ℤ → Text
unfolding format_nat
format_int (pos n) = format_nat n
format_int (negsuc n) = b'-' ∷ format_nat (suc n)

-- The number that a run of digits stands for, after what was read before.
abbrev pub value : ℕ → Text → ℕ
value acc [] = acc
value acc (c ∷ s) = value (acc * 10 + (c - 48)) s

abbrev pub all_digits : Text → Bool
all_digits [] = true
all_digits (c ∷ s) = leb 48 c && leb c 57 && all_digits s

-- The digits after the sign, no more than `bound`.
unfoldable pub parse_digits : ℕ → Text → Option ℕ
parse_digits bound [] = none
parse_digits bound (c ∷ s) =
    if all_digits (c ∷ s) && leb (value 0 (c ∷ s)) bound then some (value 0 (c ∷ s)) else none

abbrev signed : (ℕ → ℤ) → Option ℕ → Option ℤ
signed f none = none
signed f (some n) = some (f n)

-- `none` is any error, of syntax or of range.
unfoldable pub parse_int64 : Text → Option ℤ
unfolding parse_digits
parse_int64 [] = none
parse_int64 (c ∷ s) =
    if c == b'-'
    then signed neg (parse_digits (2 ^ 63) s)
    else if c == b'+'
    then signed pos (parse_digits (2 ^ 63 - 1) s)
    else signed pos (parse_digits (2 ^ 63 - 1) (c ∷ s))

value-append : (a : ℕ) (s t : Text) → value a (s ++ t) ≡ value (value a s) t
value-append a [] t = refl
value-append a (c ∷ s) t = value-append (a * 10 + (c - 48)) s t

value-digits : (f n : ℕ) → n < f → value 0 (digits f n) ≡ n
unfolding digits
value-digits zero n h = absurd (omega arith)
value-digits (suc f) n h =
    ground (arith, value-append 0 (digits f (n / 10)) ((48 + n % 10) ∷ []), value-digits f (n / 10))

-- Decimal print is one to one.
pub format_nat_injective : (n m : ℕ) → format_nat n ≡ format_nat m → n ≡ m
unfolding format_nat
format_nat_injective n m e = omega (
  arith,
  value-digits (suc n) n (omega arith),
  value-digits (suc m) m (omega arith),
  ap (value 0) e,
)

-- Digits are none of the bytes below b'0', as the separator b'-', or above b'9', as b'|'.
digits_free : (sep f n : ℕ) → 57 < sep → Free sep (digits f n)
unfolding digits
digits_free sep zero n h = tt
digits_free sep (suc f) n h = elim (Bool-cases (ltb n 10)) [
  | inl e ↦ rw e (ground arith, tt)
  | inr e ↦
      rw e (
        (Free-append sep (digits f (n / 10)) _).1 (digits_free sep f (n / 10) h, (omega arith, tt)))
]

-- The decimal form of an integer holds no byte above the digits.
pub format_int_free : (sep : ℕ) (n : ℤ) → 57 < sep → Free sep (format_int n)
unfolding format_int
format_int_free sep (pos n) h = digits_free sep (suc n) n h
format_int_free sep (negsuc n) h = (omega arith, digits_free sep (suc (suc n)) (suc n) h)

first_digit : (f n : ℕ) → n < f → (c : ℕ) × (s : Text) × (digits f n ≡ c ∷ s) × (47 < c)
unfolding digits
first_digit zero n h = absurd (omega arith)
first_digit (suc f) n h = elim (Bool-cases (ltb n 10)) [
  | inl e ↦ (48 + n, [], rw e, omega arith)
  | inr e ↦
      let (c, s, p, q) = first_digit f (n / 10) (ground arith) in
      (c, s ++ (48 + n % 10) ∷ [], rw (e, p), q)
]

signs_differ : (n m : ℕ) → format_int (pos n) ≢ format_int (negsuc m)
unfolding format_int
signs_differ n m e = let (c, s, p, q) = first_digit (suc n) n (omega arith) in ground (arith, p, e)

pub format_int_injective : (n m : ℤ) → format_int n ≡ format_int m → n ≡ m
unfolding format_int
format_int_injective (pos n) (pos m) e = ap pos (format_nat_injective n m e)
format_int_injective (negsuc n) (negsuc m) e =
    ground (arith, format_nat_injective (suc n) (suc m) (cc))
format_int_injective (pos n) (negsuc m) e = absurd (signs_differ n m e)
format_int_injective (negsuc n) (pos m) e = absurd (signs_differ m n (cc))
