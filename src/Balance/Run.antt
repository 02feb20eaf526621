-- ===== src/Balance/Run.antt =====
-- The whole loop of `updateBalance`: which transactions it accepts, what it throws on the others,
-- and the wallet that it computes.
use tanta.Base.{
  ℕ, ◌+◌, ◌^◌, ◌<◌, ◌≤◌, ◌≡◌, ◌≢◌, refl, sym, ap, ◌∙◌, inl, inr, Bool-cases, arith, Option, none,
  some, List, [], ◌∷◌, ◌==◌, if◌then◌else◌,
}
use tanta.Money.{Money, Currency, same_currency, greater_or_equal}
use tanta.Money.Laws.{add_incompatible, same_currency_iff}
use tanta.Shared.ConcurrencyControl.{get_version}
use tanta.Shared.Exception.{
  Exception, Result, ok, throw, wallet, invalid_transactions, incompatiable_currency, ok_injective,
}
use tanta.Transaction.{Transaction, TransactionType, in_, out}
use tanta.Wallet.{Wallet, BalanceType, ideal, overdraft}
use tanta.Balance.{next_balance, apply_transaction, apply_transactions}
use tanta.Balance.Step.{next_value, next_type, next_balance_exact}

-- The first fault of a batch, found without computing a balance: the versions have to count up by
-- one from the wallet's, and the amounts to be in the wallet's currency.
abbrev pub fault_of : ℕ → Currency → Transaction → Option Exception
fault_of v c t =
    if v + 1 == get_version t.transaction_control
    then (if same_currency t.amount.currency c then none else some (wallet incompatiable_currency))
    else some (wallet invalid_transactions)

abbrev or_fault : Option Exception → Option Exception → Option Exception
or_fault none rest = rest
or_fault (some e) rest = some e

abbrev pub first_fault : ℕ → Currency → List Transaction → Option Exception
first_fault v c [] = none
first_fault v c (t ∷ ts) = or_fault (fault_of v c t) (first_fault (v + 1) c ts)

-- The wallet after one transaction, and after a list of them, with no check.
abbrev pub replay_one : Wallet → Transaction → Wallet
replay_one w t = record w {
  balance = record {
    value = next_value t.type w.balance_type w.balance.value t.amount.value;
    currency = w.balance.currency;
  };
  balance_type = next_type t.type w.balance_type w.balance.value t.amount.value;
  last_transaction_version = w.last_transaction_version + 1;
}

abbrev pub replay : Wallet → List Transaction → Wallet
replay w [] = w
replay w (t ∷ ts) = replay (replay_one w t) ts

-- All the amounts together.
abbrev pub volume : List Transaction → ℕ
volume [] = 0
volume (t ∷ ts) = t.amount.value + volume ts

abbrev pub outcome : Option Exception → Wallet → Result Wallet
outcome none w = ok w
outcome (some e) w = throw e

next_value-le :
    (t : TransactionType) (type : BalanceType) (value amount : ℕ)
    → next_value t type value amount ≤ value + amount
next_value-le in_ ideal value amount = ground arith
next_value-le in_ overdraft value amount = ground arith
next_value-le out type value amount = ground arith

replay-le :
    (w : Wallet) (ts : List Transaction) → (replay w ts).balance.value ≤ w.balance.value + volume ts
replay-le w [] = omega arith
replay-le w (t ∷ ts) = omega (
  arith,
  replay-le (replay_one w t) ts,
  next_value-le t.type w.balance_type w.balance.value t.amount.value,
)

module _ (balance amount : Money) (differ : balance.currency ≢ amount.currency) where
  next_balance_incompatible :
      (t : TransactionType) (type : BalanceType)
      → next_balance t balance type amount ≡ throw (wallet incompatiable_currency)
  unfolding next_balance greater_or_equal
  next_balance_incompatible in_ ideal = ground (arith, add_incompatible balance amount differ)
  next_balance_incompatible _ _ = ground (
    arith,
    add_incompatible balance amount differ,
    same_currency_iff amount.currency balance.currency,
  )

pub apply_transaction-outcome :
    (w : Wallet) (t : Transaction)
    → w.balance.value + t.amount.value < 2 ^ 53
    → apply_transaction w t
      ≡ outcome (fault_of w.last_transaction_version w.balance.currency t) (replay_one w t)
unfolding apply_transaction
apply_transaction-outcome w t small =
    elim (Bool-cases (same_currency t.amount.currency w.balance.currency)) [
      | inl same ↦ ground (
        arith,
        next_balance_exact t.type w.balance w.balance_type t.amount
            (sym ((same_currency_iff t.amount.currency w.balance.currency).0 same)) small,
      )
      | inr differ ↦ ground (
        arith,
        next_balance_incompatible w.balance t.amount
            (λ e.
              ground (arith, (same_currency_iff t.amount.currency w.balance.currency).1 (sym e)))
            t.type w.balance_type,
      )
    ]

-- Within 2^53, the loop throws the first fault if there is one, and else computes the replay.
pub apply_transactions-outcome :
    (w : Wallet) (ts : List Transaction)
    → w.balance.value + volume ts < 2 ^ 53
    → apply_transactions w ts
      ≡ outcome (first_fault w.last_transaction_version w.balance.currency ts) (replay w ts)
unfolding apply_transactions
apply_transactions-outcome w [] small = refl
apply_transactions-outcome w (t ∷ ts) small = ground (
  arith,
  apply_transaction-outcome w t (omega arith),
  apply_transactions-outcome (replay_one w t) ts
      (omega (arith, next_value-le t.type w.balance_type w.balance.value t.amount.value)),
)

-- Within 2^53, a batch that is accepted leaves a balance of at most the old one and all amounts.
pub apply_transactions-le :
    (w : Wallet) (ts : List Transaction) {w' : Wallet}
    → w.balance.value + volume ts < 2 ^ 53
    → apply_transactions w ts ≡ ok w'
    → w'.balance.value ≤ w.balance.value + volume ts
apply_transactions-le w ts small e =
    let run = apply_transactions-outcome w ts small in
    ended (first_fault w.last_transaction_version w.balance.currency ts) (sym run ∙ e)
  where
    ended :
        (fault : Option Exception) {w' : Wallet}
        → outcome fault (replay w ts) ≡ ok w'
        → w'.balance.value ≤ w.balance.value + volume ts
    ended none done = omega (arith, replay-le w ts, ap (λ v. v.balance.value) (ok_injective done))
    ended (some x) done = absurd (ground (arith, done))
