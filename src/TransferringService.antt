-- ===== src/TransferringService.antt =====
-- wallet/src/features/transferring/transferring.service.ts
pub mod Laws
pub mod Again
use tanta.Base.{String, Bool, true, false, not, Option, none, some, str_eq, if◌then◌else◌}
use tanta.Money.{Money}
use tanta.Notification.{NotificationType}
use tanta.Shared.Exception.{transferring, not_allowed}
use tanta.Transaction.{Transaction}
use tanta.TransactionService
use tanta.Transferring.{
  Transferring, initalize, get_receiver_credit_transaction_id, get_sender_debit_transaction_id,
  get_sender_wallet_id, get_amount, get_notification_type,
}
use tanta.Wallet.{get_user_id}
use tanta.WalletService
use tanta.World.{Database, World, Action, pure, raise, uuid, ◌>>=◌, ◌>>◌}

module _ (db : Database) where
  -- `if (transaction == null) await …`
  abbrev pub unless_exists : Option Transaction → Action db Transaction → Action db (Unit {0})
  unless_exists none act = do act; pure tt
  unless_exists (some _) act = pure tt

  -- The private method `process`. The second step credits the sender's wallet.
  unfoldable pub process : Transferring → Action db (Unit {0})
  process t = do
    debited ← TransactionService.get_transaction_if_exists db (get_sender_debit_transaction_id t)
    unless_exists debited (
        TransactionService.debit db (get_sender_debit_transaction_id t) (get_sender_wallet_id t)
          (get_amount t) (get_notification_type t))
    credited ←
        TransactionService.get_transaction_if_exists db (get_receiver_credit_transaction_id t)
    unless_exists credited (
        TransactionService.credit db (get_receiver_credit_transaction_id t) (get_sender_wallet_id t)
          (get_amount t))

  -- The rest of `transfer`, once the sender is known to own the wallet.
  abbrev pub start : String → String → Money → NotificationType → Action db Transferring
  start sender_wallet_id receiver_wallet_id amount notification_type = do
    id ← uuid
    debit_id ← uuid
    credit_id ← uuid
    let t =
        initalize sender_wallet_id receiver_wallet_id amount notification_type id debit_id credit_id
    process t
    pure t

  unfoldable pub transfer :
      String → String → String → Money → NotificationType → Action db Transferring
  transfer sender_user_id sender_wallet_id receiver_wallet_id amount notification_type = do
    wallet ← WalletService.get_wallet_by_id db sender_wallet_id
    if not (str_eq (get_user_id wallet) sender_user_id)
        then raise (transferring not_allowed)
        else start sender_wallet_id receiver_wallet_id amount notification_type
