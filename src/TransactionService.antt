-- ===== src/TransactionService.antt =====
-- wallet/src/features/transaction/transaction.service.ts. Its lines of `console.log` are left out.
pub mod Laws
pub mod Applied
pub mod Frame
pub mod Covered
pub mod Blocked
pub mod Version
use tanta.Base.{String, Bool, true, false, not, Option, if◌then◌else◌}
use tanta.Money.{Money}
use tanta.Notification.{NotificationType}
use tanta.Shared.DateTime.{new_date_time}
use tanta.Shared.Exception.{transaction, insufficient_fund}
use tanta.Transaction
use tanta.Transaction.{Transaction, in_, out}
use tanta.TransactionRepository
use tanta.Wallet.{Wallet, has_up_to, get_id, get_user_id, get_last_transaction_version}
use tanta.WalletService
use tanta.World.{Database, World, Action, pure, raise, now, notify_user, ◌>>=◌, ◌>>◌}

-- The text of the notification about a refused debit.
abbrev pub refusal : String
refusal = "Your transaction was not successful due to insufficient fund."

module _ (db : Database) where
  -- The private method `updateWallet`.
  unfoldable pub update_wallet : Wallet → Action db (Unit {0})
  update_wallet wallet = do
    transactions ←
        TransactionRepository.get_all_in_asc_order_after db (get_last_transaction_version wallet)
    WalletService.update_balance db (get_id wallet) transactions
    pure tt

  unfoldable pub credit : String → String → Money → Action db Transaction
  credit transaction_id wallet_id amount = do
    last_transaction ← TransactionRepository.get_last_if_exists_by db wallet_id
    created_at ← now
    saved ← TransactionRepository.save db (
        Transaction.create last_transaction wallet_id amount in_ transaction_id
          (new_date_time created_at))
    wallet ← WalletService.get_wallet_by_id db wallet_id
    update_wallet wallet
    pure saved

  -- The rest of `debit`, once the wallet is known to hold the amount.
  abbrev pub debit_held : Wallet → String → String → Money → Action db Transaction
  debit_held wallet transaction_id wallet_id amount = do
    last_transaction ← TransactionRepository.get_last_if_exists_by db wallet_id
    created_at ← now
    saved ← TransactionRepository.save db (
        Transaction.create last_transaction wallet_id amount out transaction_id
          (new_date_time created_at))
    update_wallet wallet
    pure saved

  abbrev pub refuse : Wallet → NotificationType → Action db Transaction
  refuse wallet notification_type = do
    notify_user (record {
      user_id = get_user_id wallet;
      message = refusal;
      notification_type = notification_type;
    })
    raise (transaction insufficient_fund)

  unfoldable pub debit : String → String → Money → NotificationType → Action db Transaction
  debit transaction_id wallet_id amount notification_type = do
    wallet ← WalletService.get_wallet_by_id db wallet_id
    if not (has_up_to wallet amount)
        then refuse wallet notification_type
        else debit_held wallet transaction_id wallet_id amount

  unfoldable pub get_transaction_if_exists : String → Action db (Option Transaction)
  get_transaction_if_exists transaction_id =
      TransactionRepository.get_transaction_if_exists db transaction_id
