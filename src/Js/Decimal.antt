-- ===== src/Js/Decimal.antt =====
-- `Number.prototype.toString` and unary `+` for the columns of type bigint, whose texts are an
-- optional minus and digits. A text is the list of its character codes. The printed digits are
-- those of JavaScript for every integer below 2^53; the other forms that `+` accepts (spaces,
-- exponents, hexadecimal) do not come out of such a column and are read as NaN.
use tanta.Base.{
  ℕ, zero, suc, ◌+◌, ◌-◌, ◌*◌, ◌/◌, ◌%◌, ◌^◌, ◌<◌, ◌≤◌, ◌≡◌, refl, ◌∙◌, Bool, false, ◌&&◌, Option,
  none, some, List, [], ◌∷◌, arith, ltb, leb, Bool-cases, inl, inr, ◌==◌, if◌then◌else◌,
}
use tanta.Js.Int.{pos, negsuc, ◌-ℤ◌}
use tanta.Js.Number.{Number, int, non_int, double, double_exact}

abbrev pub Text : Type 0
Text = List ℕ

digits : ℕ → ℕ → Text → Text
digits zero n acc = acc
digits (suc fuel) n acc =
    let longer = digits fuel (n / 10) ((b'0' + n % 10) ∷ acc) in
    if ltb n 10 then (b'0' + n) ∷ acc else longer

-- The value halves at least in each round, so n + 1 rounds are enough.
unfoldable pub to_string : ℕ → Text
unfolding digits
to_string n = digits (suc n) n []

is_digit : ℕ → Bool
is_digit c = leb b'0' c && leb c b'9'

pub parse_digits : ℕ → Text → Option ℕ
parse_digits acc [] = some acc
parse_digits acc (c ∷ cs) =
    let rest = parse_digits (acc * 10 + (c - b'0')) cs in if is_digit c then rest else none

negated : Number → Number
unfolding ◌-ℤ◌
negated (int z) = int (pos 0 -ℤ z)
negated non_int = non_int

magnitude : Option ℕ → Number
magnitude none = non_int
magnitude (some n) = double n

-- What follows a minus: at least one digit.
minus : Text → Number
unfolding negated magnitude
minus [] = non_int
minus (c ∷ cs) = negated (magnitude (parse_digits 0 (c ∷ cs)))

unfoldable pub unary_plus : Text → Number
unfolding minus magnitude
unary_plus [] = int (pos 0)
unary_plus (c ∷ cs) = if c == b'-' then minus cs else magnitude (parse_digits 0 (c ∷ cs))

parse-digits :
    (fuel n : ℕ) (acc : Text) → n < fuel → parse_digits 0 (digits fuel n acc) ≡ parse_digits n acc
unfolding parse_digits digits is_digit
parse-digits zero n acc h = absurd (omega arith)
parse-digits (suc fuel) n acc h = ground (arith, parse-digits fuel (n / 10) ((b'0' + n % 10) ∷ acc))

-- What is printed begins with a digit, never with a minus.
starts_with_digit :
    (fuel n : ℕ) (acc : Text)
    → n < fuel
    → (c : ℕ) × (cs : Text) × (digits fuel n acc ≡ c ∷ cs) × (b'0' ≤ c)
unfolding digits
starts_with_digit zero n acc h = absurd (omega arith)
starts_with_digit (suc fuel) n acc h = elim (Bool-cases (ltb n 10)) [
  | inl last ↦ (b'0' + n, acc, rw last, omega arith)
  | inr more ↦ rw more (starts_with_digit fuel (n / 10) ((b'0' + n % 10) ∷ acc) (ground arith))
]

unary_plus_digits :
    (t : Text) (c : ℕ) (cs : Text) (n : ℕ)
    → t ≡ c ∷ cs
    → b'0' ≤ c
    → parse_digits 0 t ≡ some n
    → unary_plus t ≡ double n
unfolding unary_plus
unary_plus_digits t c cs n e d p =
    let parsed : parse_digits 0 (c ∷ cs) ≡ some n = rw e at p in
    let no_minus : (c == b'-') ≡ false = ground arith in rw (e, no_minus, parsed)

pub parse_digits-to_string : (n : ℕ) → parse_digits 0 (to_string n) ≡ some n
unfolding to_string parse_digits
parse_digits-to_string n = parse-digits (suc n) n [] (omega arith)

-- Reading what was printed gives the number as a double.
pub unary_plus_printed : (n : ℕ) → unary_plus (to_string n) ≡ double n
unfolding to_string parse_digits
unary_plus_printed n =
    let (c, cs, printed, digit) = starts_with_digit (suc n) n [] (omega arith) in
    unary_plus_digits (digits (suc n) n []) c cs n printed digit
      (parse-digits (suc n) n [] (omega arith))

-- Below 2^53 it gives the number back.
pub unary_plus-to_string : (n : ℕ) → n < 2 ^ 53 → unary_plus (to_string n) ≡ int (pos n)
unary_plus-to_string n h = unary_plus_printed n ∙ double_exact n h

-- Opens what printing and reading numbers compute through, for tests.
unfoldable pub decimals : Unit {0}
unfolding unary_plus to_string double parse_digits is_digit
decimals = tt

reads_signed : unary_plus (b'-' ∷ b'4' ∷ b'2' ∷ []) ≡ int (negsuc 41)
unfolding decimals
reads_signed = refl

prints_digits : to_string 1050 ≡ b'1' ∷ b'0' ∷ b'5' ∷ b'0' ∷ []
unfolding decimals
prints_digits = refl

-- 2^53 + 1 is no double and rounds to even.
rounds_to_even : double (2 ^ 53 + 1) ≡ int (pos (2 ^ 53))
unfolding decimals
rounds_to_even = refl
