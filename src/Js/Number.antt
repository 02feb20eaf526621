-- ===== src/Js/Number.antt =====
-- JavaScript's `number`, as far as the sources look at it. A number is a signed integer, or one of
-- the values for which `Number.isInteger` answers false: fractions, NaN and the infinities. The
-- two zeros are one value here, as they are under `===`, `<` and `>=`.
pub mod Doubles
use tanta.Base.{
  ℕ, zero, suc, ◌+◌, ◌*◌, ◌/◌, ◌%◌, ◌^◌, ◌<◌, ◌≡◌, Option, none, some, arith, ltb, lt→ltb,
  if◌then◌else◌,
}
use tanta.Js.Int.{ℤ, pos}

pub data Number : Type 0 where
  int : ℤ → Number
  non_int : Number

-- The least e at or above the one given with n / 2^e below 2^53, if the fuel reaches it.
exponent : ℕ → ℕ → ℕ → Option ℕ
exponent zero n e = none
exponent (suc fuel) n e =
    let larger = exponent fuel n (e + 1) in if ltb (n / 2 ^ e) (2 ^ 53) then some e else larger

-- n to the nearest multiple of 2^e, a tie going to the even quotient.
round_at : ℕ → ℕ → ℕ
round_at n e =
    let q = n / 2 ^ e in
    let twice_rest = 2 * (n % 2 ^ e) in
    if ltb twice_rest (2 ^ e)
    then q * 2 ^ e
    else if ltb (2 ^ e) twice_rest
    then (q + 1) * 2 ^ e
    else (q + q % 2) * 2 ^ e

finite : ℕ → Number
finite n = if ltb n (2 ^ 1024) then int (pos n) else non_int

rounded : ℕ → Option ℕ → Number
unfolding round_at finite
rounded n none = non_int
rounded n (some e) = finite (round_at n e)

-- The IEEE 754 double that an integer result n is rounded to. Exponents above 971 are an overflow
-- to Infinity, so the fuel 972 covers every finite double.
unfoldable pub double : ℕ → Number
unfolding rounded exponent
double n = rounded n (exponent 972 n 0)

exponent_small : (fuel n : ℕ) → n < 2 ^ 53 → exponent (suc fuel) n 0 ≡ some 0
unfolding exponent
exponent_small fuel n h = rw (lt→ltb (n / 1) (2 ^ 53) (omega arith))

round_at_zero : (n : ℕ) → round_at n 0 ≡ n
unfolding round_at
round_at_zero n = ground arith

finite_small : (n : ℕ) → n < 2 ^ 53 → finite n ≡ int (pos n)
unfolding finite
finite_small n h = rw (lt→ltb n (2 ^ 1024) (omega arith))

-- Below 2^53 every integer is a double.
pub double_exact : (n : ℕ) → n < 2 ^ 53 → double n ≡ int (pos n)
unfolding rounded
double_exact n h =
    unfold double in rw (exponent_small 971 n h, rounded, round_at_zero n) (finite_small n h)
