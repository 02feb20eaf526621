-- ===== src/Balance.antt =====
-- The loop of `WalletService.updateBalance` (wallet/src/features/wallet/wallet.service.ts) on the
-- wallet that it has loaded: one round for each transaction, each of which may throw.
pub mod Step
pub mod Run
pub mod Ledger
pub mod Frame
pub mod Replay
use tanta.Base.{ℕ, ◌+◌, Bool, true, false, not, ◌&&◌, List, [], ◌∷◌, ◌==◌, if◌then◌else◌}
use tanta.Money.{Money, add, difference, greater_or_equal}
use tanta.Shared.ConcurrencyControl.{get_version}
use tanta.Shared.Exception.{Result, ok, throw, throw_if, ◌>>=◌, ◌>>◌, wallet, invalid_transactions}
use tanta.Transaction.{
  Transaction, TransactionType, in_, out, get_transaction_control, get_type, get_amount,
}
use tanta.Wallet.{
  Wallet, BalanceType, ideal, overdraft, update_balance_data, get_balance, get_balance_type,
  get_last_transaction_version,
}

abbrev pub is_overdraft : BalanceType → Bool
is_overdraft overdraft = true
is_overdraft ideal = false

abbrev pub is_ideal : BalanceType → Bool
is_ideal ideal = true
is_ideal overdraft = false

-- The new balance and its type, by the type of the transaction.
unfoldable pub next_balance :
    TransactionType → Money → BalanceType → Money → Result (Money × BalanceType)
next_balance in_ balance type amount =
    if is_overdraft type && greater_or_equal amount balance
    then (difference balance amount >>= λ b. ok (b, ideal))
    else (add balance amount >>= λ b. ok (b, type))
next_balance out balance type amount =
    if is_ideal type && greater_or_equal amount balance
    then (difference balance amount >>= λ b. ok (b, overdraft))
    else (difference balance amount >>= λ b. ok (b, type))

-- One round of the loop.
unfoldable pub apply_transaction : Wallet → Transaction → Result Wallet
apply_transaction w t = do
  let version = get_version (get_transaction_control t)
  throw_if (not (get_last_transaction_version w + 1 == version)) (wallet invalid_transactions)
  (balance, type) ← next_balance (get_type t) (get_balance w) (get_balance_type w) (get_amount t)
  ok (update_balance_data w balance type version)

unfoldable pub apply_transactions : Wallet → List Transaction → Result Wallet
apply_transactions w [] = ok w
apply_transactions w (t ∷ ts) = apply_transaction w t >>= λ w'. apply_transactions w' ts
