-- ===== src/Thread/Requests.antt =====
-- The methods of wallet.service.ts, transaction.service.ts and transferring.service.ts, cut at their
-- `await`s.
use tanta.Base.{String, not, Option, none, some, List, str_eq, if◌then◌else◌}
use tanta.Balance.{apply_transactions}
use tanta.Money.{Money}
use tanta.Notification.{NotificationType}
use tanta.Shared.DateTime.{new_date_time}
use tanta.Shared.Exception.{transaction, insufficient_fund, transferring, not_allowed}
use tanta.Thread.{Thread, returned, call, pure, raise, ◌>>=◌, ◌>>◌}
use tanta.Transaction
use tanta.Transaction.{Transaction, in_, out}
use tanta.TransactionRepository
use tanta.TransactionService.{refusal}
use tanta.Transferring.{
  Transferring, initalize, get_receiver_credit_transaction_id, get_sender_debit_transaction_id,
  get_sender_wallet_id, get_amount, get_notification_type,
}
use tanta.Wallet
use tanta.Wallet.{Wallet, has_up_to, get_id, get_user_id, get_last_transaction_version}
use tanta.WalletRepository
use tanta.World.{Database, now, uuid, notify_user}

module _ (db : Database) where
  unfoldable pub create : String → Thread db Wallet
  create user_id = do
    id ← call uuid
    created_at ← call now
    call (WalletRepository.save db (Wallet.create user_id id (new_date_time created_at)))

  unfoldable pub update_balance : String → List Transaction → Thread db Wallet
  update_balance wallet_id transactions = do
    wallet ← call (WalletRepository.get_wallet_by_id db wallet_id)
    wallet' ← returned (apply_transactions wallet transactions)
    call (WalletRepository.save db wallet')

  unfoldable pub update_wallet : Wallet → Thread db (Unit {0})
  unfolding update_balance
  update_wallet wallet = do
    transactions ←
        call (
          TransactionRepository.get_all_in_asc_order_after db (get_last_transaction_version wallet))
    update_balance (get_id wallet) transactions
    pure tt

  unfoldable pub credit : String → String → Money → Thread db Transaction
  unfolding update_wallet
  credit transaction_id wallet_id amount = do
    last_transaction ← call (TransactionRepository.get_last_if_exists_by db wallet_id)
    created_at ← call now
    saved ← call (
        TransactionRepository.save db (
          Transaction.create last_transaction wallet_id amount in_ transaction_id
            (new_date_time created_at)))
    wallet ← call (WalletRepository.get_wallet_by_id db wallet_id)
    update_wallet wallet
    pure saved

  unfoldable pub debit_held : Wallet → String → String → Money → Thread db Transaction
  unfolding update_wallet
  debit_held wallet transaction_id wallet_id amount = do
    last_transaction ← call (TransactionRepository.get_last_if_exists_by db wallet_id)
    created_at ← call now
    saved ← call (
        TransactionRepository.save db (
          Transaction.create last_transaction wallet_id amount out transaction_id
            (new_date_time created_at)))
    update_wallet wallet
    pure saved

  unfoldable pub refuse : Wallet → NotificationType → Thread db Transaction
  refuse wallet notification_type = do
    call (
        notify_user (record {
          user_id = get_user_id wallet;
          message = refusal;
          notification_type = notification_type;
        }))
    raise (transaction insufficient_fund)

  unfoldable pub debit : String → String → Money → NotificationType → Thread db Transaction
  unfolding debit_held refuse
  debit transaction_id wallet_id amount notification_type = do
    wallet ← call (WalletRepository.get_wallet_by_id db wallet_id)
    if not (has_up_to wallet amount)
        then refuse wallet notification_type
        else debit_held wallet transaction_id wallet_id amount

  abbrev pub unless_exists : Option Transaction → Thread db Transaction → Thread db (Unit {0})
  unless_exists none t = do t; pure tt
  unless_exists (some _) t = pure tt

  unfoldable pub process : Transferring → Thread db (Unit {0})
  unfolding debit credit
  process t = do
    debited ←
        call
          (TransactionRepository.get_transaction_if_exists db (get_sender_debit_transaction_id t))
    unless_exists debited (
        debit (get_sender_debit_transaction_id t) (get_sender_wallet_id t) (get_amount t)
          (get_notification_type t))
    credited ←
        call (
          TransactionRepository.get_transaction_if_exists db (get_receiver_credit_transaction_id t))
    unless_exists credited
        (credit (get_receiver_credit_transaction_id t) (get_sender_wallet_id t) (get_amount t))

  unfoldable pub start : String → String → Money → NotificationType → Thread db Transferring
  unfolding process
  start sender_wallet_id receiver_wallet_id amount notification_type = do
    id ← call uuid
    debit_id ← call uuid
    credit_id ← call uuid
    let t =
        initalize sender_wallet_id receiver_wallet_id amount notification_type id debit_id credit_id
    process t
    pure t

  unfoldable pub transfer :
      String → String → String → Money → NotificationType → Thread db Transferring
  unfolding start
  transfer sender_user_id sender_wallet_id receiver_wallet_id amount notification_type = do
    wallet ← call (WalletRepository.get_wallet_by_id db sender_wallet_id)
    if not (str_eq (get_user_id wallet) sender_user_id)
        then raise (transferring not_allowed)
        else start sender_wallet_id receiver_wallet_id amount notification_type
