-- ===== src/Money.antt =====
-- wallet/src/features/wallet/money.ts and currency.ts. A constructed `Money` holds an integer of at
-- least 0, so its value is a natural number; sums and differences are rounded to doubles before
-- the constructor sees them. `multiply` takes the product of
-- two numbers as a parameter.
pub mod Laws
use tanta.Base.{ℕ, ◌+◌, ◌-◌, Bool, true, false, not, ◌&&◌, leb, ltb, ◌==◌, if◌then◌else◌}
use tanta.Js.Int.{pos, negsuc}
use tanta.Js.Number.{Number, int, non_int, double}
use tanta.Shared.Exception.{
  Result, ok, throw, throw_if, ◌>>◌, wallet, invalid_money, incompatiable_currency,
}

pub data Currency : Type 0 where
  ngn usd : Currency

-- `===` on currencies.
abbrev pub same_currency : Currency → Currency → Bool
same_currency ngn ngn = true
same_currency usd usd = true
same_currency _ _ = false

pub record Money : Type 0 where
  pub value : ℕ
  pub currency : Currency

abbrev pub get_value : Money → ℕ
get_value m = m.value

abbrev pub get_currency : Money → Currency
get_currency m = m.currency

-- The constructor: `value` has to be an integer, and not negative.
unfoldable pub new_money : Number → Currency → Result Money
new_money (int (pos value)) currency = ok (record { value = value; currency = currency })
new_money (int (negsuc _)) currency = throw (wallet invalid_money)
new_money non_int currency = throw (wallet invalid_money)

-- `Math.abs(a - b)` before rounding.
abbrev pub distance : ℕ → ℕ → ℕ
distance a b = (a - b) + (b - a)

unfoldable pub add : Money → Money → Result Money
add m other = do
  throw_if (not (same_currency other.currency m.currency)) (wallet incompatiable_currency)
  new_money (double (m.value + other.value)) m.currency

unfoldable pub difference : Money → Money → Result Money
difference m other = do
  throw_if (not (same_currency other.currency m.currency)) (wallet incompatiable_currency)
  new_money (double (distance m.value other.value)) m.currency

-- `times` is `*` on numbers.
unfoldable pub multiply : (times : Number → Number → Number) → Money → Number → Result Money
multiply times m by = new_money (times (int (pos m.value)) by) m.currency

unfoldable pub equals : Money → Money → Bool
equals m other = (m.value == other.value) && same_currency m.currency other.currency

unfoldable pub greater_or_equal : Money → Money → Bool
greater_or_equal m other = leb other.value m.value && same_currency m.currency other.currency

unfoldable pub less_or_equal : Money → Money → Bool
less_or_equal m other = leb m.value other.value && same_currency m.currency other.currency

unfoldable pub less_than : Money → Money → Bool
less_than m other = ltb m.value other.value && same_currency m.currency other.currency

unfoldable pub greater_than : Money → Money → Bool
greater_than m other = ltb other.value m.value && same_currency m.currency other.currency
