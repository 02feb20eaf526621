-- ===== src/Money/Laws.antt =====
-- money.ts: arithmetic and comparison on amounts of one currency and of two.
use tanta.Base.{
  ◌+◌, ◌^◌, ◌<◌, ◌≤◌, ◌≡◌, ◌≢◌, ◌⊎◌, ◌↔◌, refl, sym, inl, inr, Bool-cases, true, false, not, arith,
}
use tanta.Js.Number.{double_exact}
use tanta.Shared.Exception.{ok, throw, wallet, incompatiable_currency}
use tanta.Money.{
  Money, Currency, ngn, usd, same_currency, new_money, distance, add, difference, equals,
  greater_or_equal, less_or_equal, less_than, greater_than,
}

pub same_currency_refl : (c : Currency) → same_currency c c ≡ true
same_currency_refl ngn = refl
same_currency_refl usd = refl

pub same_currency_iff : (c d : Currency) → (same_currency c d ≡ true) ↔ (c ≡ d)
same_currency_iff c d = (ground arith, λ h. rw h (same_currency_refl d))

-- Below 2^53 amounts of one currency add exactly.
pub add_exact :
    (m other : Money)
    → m.currency ≡ other.currency
    → m.value + other.value < 2 ^ 53
    → add m other ≡ ok (record { value = m.value + other.value; currency = m.currency })
unfolding add new_money
add_exact m other same small = rw (
  (same_currency_iff other.currency m.currency).1 (sym same),
  double_exact (m.value + other.value) small,
)

pub difference_exact :
    (m other : Money)
    → m.currency ≡ other.currency
    → m.value + other.value < 2 ^ 53
    → difference m other
      ≡ ok (record { value = distance m.value other.value; currency = m.currency })
unfolding difference new_money
difference_exact m other same small = rw (
  (same_currency_iff other.currency m.currency).1 (sym same),
  double_exact (distance m.value other.value) (omega arith),
)

-- Amounts of two currencies neither add nor subtract.
pub add_incompatible :
    (m other : Money)
    → m.currency ≢ other.currency
    → (add m other ≡ throw (wallet incompatiable_currency))
      × (difference m other ≡ throw (wallet incompatiable_currency))
unfolding add difference
add_incompatible m other h = ground arith

-- On one currency the five comparisons are those of the values; across currencies all are false.
pub comparisons :
    (m other : Money)
    → ((m.currency ≢ other.currency)
        × (equals m other ≡ false)
        × (greater_or_equal m other ≡ false)
        × (less_or_equal m other ≡ false)
        × (less_than m other ≡ false)
        × (greater_than m other ≡ false))
      ⊎ ((m.currency ≡ other.currency)
          × (less_than m other ≡ not (greater_or_equal m other))
          × (greater_than m other ≡ not (less_or_equal m other))
          × ((equals m other ≡ true) ↔ (m ≡ other))
          × ((greater_or_equal m other ≡ true) ↔ (other.value ≤ m.value))
          × ((less_or_equal m other ≡ true) ↔ (m.value ≤ other.value)))
unfolding equals greater_or_equal less_or_equal less_than greater_than
comparisons m other = elim (Bool-cases (same_currency m.currency other.currency)) [
  | inl same ↦
      let c = (same_currency_iff m.currency other.currency).0 same in
      inr (
        c,
        ground arith,
        ground arith,
        (ground arith, ground (arith, same_currency_refl other.currency)),
        (ground arith, ground arith),
        (ground arith, ground arith),
      )
  | inr differ ↦
      let ne : m.currency ≢ other.currency =
        λ c. ground (arith, (same_currency_iff m.currency other.currency).1 c) in
      inl (ne, ground arith, ground arith, ground arith, ground arith, ground arith)
]
