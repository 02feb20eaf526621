-- ===== src/Shared/DateTime/Comparisons.antt =====
-- wallet/src/lib/date-time.ts: `equals`, `greaterOrEqual` and `lessOrEqual`, on every kind of
-- argument that the source tells apart. A time is an integer or NaN, `non_int`.
use tanta.Base.{◌+◌, ◌≡◌, refl, Bool, true, false, ◌&&◌, leb, arith}
use tanta.Js.Int.{ℤ, pos, pos_part, neg_part}
use tanta.Js.Number.{Number, int, non_int}
use tanta.Shared.DateTime.{DateTime}

-- `date` holds a `Date`'s `getTime()`.
pub data Argument : Type 0 where
  null itself incompatible : Argument
  date_time : DateTime → Argument
  date number : Number → Argument
  bigint : ℤ → Argument

abbrev at_most : ℤ → ℤ → Bool
at_most a b = leb (pos_part a + neg_part b) (pos_part b + neg_part a)

-- `<=` and `===` on times; NaN is neither.
abbrev less_equal : Number → Number → Bool
less_equal (int a) (int b) = at_most a b
less_equal _ _ = false

abbrev same : Number → Number → Bool
same (int a) (int b) = at_most a b && at_most b a
same _ _ = false

-- `parse_number` and `parse_bigint` are `parseInt(time.toString())`.
module _ (parse_number : Number → Number) (parse_bigint : ℤ → Number) where
  -- `new DateTime(obj).timeInMs`
  abbrev pub time_of : DateTime → Argument → Number
  time_of this null = non_int
  time_of this incompatible = non_int
  time_of this itself = int (pos this.time_in_ms)
  time_of this (date_time other) = int (pos other.time_in_ms)
  time_of this (date time) = time
  time_of this (number time) = parse_number time
  time_of this (bigint time) = parse_bigint time

  abbrev pub is_compatible : Argument → Bool
  is_compatible null = false
  is_compatible incompatible = false
  is_compatible _ = true

  -- The three tests that the methods begin with, and the comparison they end with.
  abbrev compare_with : (Number → Number → Bool) → DateTime → Argument → Bool
  compare_with test this itself = true
  compare_with test this null = false
  compare_with test this obj =
      is_compatible obj && test (int (pos this.time_in_ms)) (time_of this obj)

  unfoldable pub equals : DateTime → Argument → Bool
  equals this obj = compare_with same this obj

  unfoldable pub greater_or_equal : DateTime → Argument → Bool
  greater_or_equal this obj = compare_with (λ a b. less_equal b a) this obj

  unfoldable pub less_or_equal : DateTime → Argument → Bool
  less_or_equal this obj = compare_with less_equal this obj

  same-less_equal : (a b : Number) → same a b ≡ less_equal b a && less_equal a b
  same-less_equal (int a) (int b) = ground arith
  same-less_equal (int a) non_int = refl
  same-less_equal non_int (int b) = refl
  same-less_equal non_int non_int = refl

  -- On every argument `equals` answers true exactly if both `greaterOrEqual` and `lessOrEqual` do.
  pub equals-greater_or_equal :
      (this : DateTime) (obj : Argument)
      → equals this obj ≡ greater_or_equal this obj && less_or_equal this obj
  unfolding equals greater_or_equal less_or_equal
  equals-greater_or_equal this null = refl
  equals-greater_or_equal this itself = refl
  equals-greater_or_equal this incompatible = refl
  equals-greater_or_equal this (date_time other) =
      same-less_equal (int (pos this.time_in_ms)) (int (pos other.time_in_ms))
  equals-greater_or_equal this (date time) = same-less_equal (int (pos this.time_in_ms)) time
  equals-greater_or_equal this (number time) =
      same-less_equal (int (pos this.time_in_ms)) (parse_number time)
  equals-greater_or_equal this (bigint time) =
      same-less_equal (int (pos this.time_in_ms)) (parse_bigint time)
