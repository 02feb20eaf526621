-- ===== src/Balance/Step.antt =====
-- One round of the loop of `updateBalance`, against the signed balance that the wallet reports.
use tanta.Base.{ℕ, ◌+◌, ◌^◌, ◌<◌, ◌≤◌, ◌≡◌, ◌⊎◌, ◌↔◌, sym, true, false, arith, leb}
use tanta.Js.Int.{ℤ, pos, ◌+ℤ◌, ◌-ℤ◌}
use tanta.Money.{Money, distance, greater_or_equal}
use tanta.Money.Laws.{add_exact, difference_exact, same_currency_iff}
use tanta.Shared.Exception.{ok}
use tanta.Transaction.{TransactionType, in_, out}
use tanta.Wallet.{BalanceType, ideal, overdraft, signed}
use tanta.Balance.{next_balance}

-- What a transaction is meant to do to the signed balance.
abbrev pub delta : TransactionType → ℕ → ℤ
delta in_ amount = pos amount
delta out amount = pos 0 -ℤ pos amount

-- The value and the type after a transaction of `amount` on a balance of `value`.
abbrev pub next_type : TransactionType → BalanceType → ℕ → ℕ → BalanceType
next_type in_ ideal value amount = ideal
next_type in_ overdraft value amount = elim (leb value amount) [ true ↦ ideal | false ↦ overdraft ]
next_type out overdraft value amount = overdraft
next_type out ideal value amount = elim (leb value amount) [ true ↦ overdraft | false ↦ ideal ]

abbrev pub next_value : TransactionType → BalanceType → ℕ → ℕ → ℕ
next_value in_ ideal value amount = value + amount
next_value in_ overdraft value amount = elim (leb value amount) [
  | true ↦ distance value amount
  | false ↦ value + amount
]
next_value out type value amount = distance value amount

covers :
    (balance amount : Money)
    → balance.currency ≡ amount.currency
    → greater_or_equal amount balance ≡ leb balance.value amount.value
unfolding greater_or_equal
covers balance amount same =
    ground (arith, (same_currency_iff amount.currency balance.currency).1 (sym same))

-- Below 2^53 and in one currency no round throws in the arithmetic, and this is its result.
pub next_balance_exact :
    (t : TransactionType) (balance : Money) (type : BalanceType) (amount : Money)
    → balance.currency ≡ amount.currency
    → balance.value + amount.value < 2 ^ 53
    → next_balance t balance type amount
      ≡ ok (
        record {
          value = next_value t type balance.value amount.value;
          currency = balance.currency;
        },
        next_type t type balance.value amount.value,
      )
unfolding next_balance
next_balance_exact in_ balance ideal amount same small = rw (add_exact balance amount same small)
next_balance_exact in_ balance overdraft amount same small = ground (
  arith,
  covers balance amount same,
  add_exact balance amount same small,
  difference_exact balance amount same small,
)
next_balance_exact out balance ideal amount same small =
    ground (arith, covers balance amount same, difference_exact balance amount same small)
next_balance_exact out balance overdraft amount same small =
    rw (difference_exact balance amount same small)

-- The cases in which the signed balance moves by what the transaction says.
abbrev pub IsSound : TransactionType → BalanceType → ℕ → ℕ → Type 0
IsSound in_ ideal value amount = Unit
IsSound out ideal value amount = Unit
IsSound in_ overdraft value amount = (value ≤ amount) ⊎ (amount ≡ 0)
IsSound out overdraft value amount = (value ≡ 0) ⊎ (amount ≡ 0)

pub next_value-IsSound_iff :
    (t : TransactionType) (type : BalanceType) (value amount : ℕ)
    → (signed (next_type t type value amount) (next_value t type value amount)
        ≡ signed type value +ℤ delta t amount)
      ↔ IsSound t type value amount
unfolding ◌+ℤ◌ ◌-ℤ◌
next_value-IsSound_iff in_ ideal value amount = (ground arith, ground arith)
next_value-IsSound_iff in_ overdraft value amount = (ground arith, ground arith)
next_value-IsSound_iff out ideal value amount = (ground arith, ground arith)
next_value-IsSound_iff out overdraft value amount = (ground arith, ground arith)
