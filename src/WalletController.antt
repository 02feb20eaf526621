-- ===== src/WalletController.antt =====
-- wallet/src/controllers/rest/wallet.controller.ts: the four handlers, once guards and pipes have let
-- the request through. A view holds the fields of the answer, without the objects round them;
-- `iso` is `Date.prototype.toISOString`.
pub mod Laws
use tanta.Base.{ℕ, String, List, [], ◌∷◌}
use tanta.Js.Int.{ℤ}
use tanta.Js.Number.{Number}
use tanta.Money.{ngn, new_money, get_value}
use tanta.Notification.{NotificationType}
use tanta.Shared.DateTime.{Date, to_date}
use tanta.Shared.Pagination.{new_pagination}
use tanta.Transaction
use tanta.Transaction.{Transaction, TransactionType, get_type}
use tanta.TransactionService
use tanta.Transferring
use tanta.Transferring.{
  Transferring, get_receiver_credit_transaction_id, get_sender_debit_transaction_id,
  get_sender_wallet_id, get_receiver_wallet_id,
}
use tanta.TransferringService
use tanta.Wallet
use tanta.Wallet.{Wallet, get_balance_as_num, get_user_id}
use tanta.WalletService
use tanta.World.{Database, World, Action, pure, lift, uuid, ◌>>=◌}

pub record WalletView : Type 0 where
  pub id : String
  pub balance : ℤ
  pub created_at : String
  pub user_id : String

pub record TransactionView : Type 0 where
  pub id : String
  pub amount_in_kobo : ℕ
  pub type : TransactionType
  pub created_at : String

pub record TransferringView : Type 0 where
  pub id : String
  pub amount_in_kobo : ℕ
  pub sender_debit_transaction : String
  pub receiver_credit_transaction : String
  pub sender_wallet : String
  pub receiver_wallet : String

abbrev pub view_transferring : Transferring → TransferringView
view_transferring t = record {
  id = Transferring.get_id t;
  amount_in_kobo = get_value (Transferring.get_amount t);
  sender_debit_transaction = get_sender_debit_transaction_id t;
  receiver_credit_transaction = get_receiver_credit_transaction_id t;
  sender_wallet = get_sender_wallet_id t;
  receiver_wallet = get_receiver_wallet_id t;
}

module _ (iso : Date → String) where
  abbrev pub view_wallet : Wallet → WalletView
  view_wallet w = record {
    id = Wallet.get_id w;
    balance = get_balance_as_num w;
    created_at = iso (to_date (Wallet.get_creation_time w));
    user_id = get_user_id w;
  }

  abbrev pub view_wallets : List Wallet → List WalletView
  view_wallets [] = []
  view_wallets (w ∷ ws) = view_wallet w ∷ view_wallets ws

  abbrev pub view_transaction : Transaction → TransactionView
  view_transaction t = record {
    id = Transaction.get_id t;
    amount_in_kobo = get_value (Transaction.get_amount t);
    type = get_type t;
    created_at = iso (to_date (Transaction.get_creation_time t));
  }

  module _ (db : Database) where
    unfoldable pub create_wallet : String → Action db WalletView
    create_wallet user_id = do wallet ← WalletService.create db user_id; pure (view_wallet wallet)

    -- The id is drawn before the amount is looked at.
    unfoldable pub fund_wallet : String → Number → Action db TransactionView
    fund_wallet wallet_id amount_in_kobo = do
      transaction_id ← uuid
      amount ← lift (new_money amount_in_kobo ngn)
      transaction ← TransactionService.credit db transaction_id wallet_id amount
      pure (view_transaction transaction)

    unfoldable pub get_wallets : String → Number → Number → Action db (List WalletView)
    get_wallets user_id offset limit = do
      page ← lift (new_pagination offset limit)
      wallets ← WalletService.get_wallets_by_user db user_id page
      pure (view_wallets wallets)

    unfoldable pub transfer :
        String → String → String → Number → NotificationType → Action db TransferringView
    transfer user_id sender_wallet_id receiver_wallet_id amount_in_kobo notification_type = do
      amount ← lift (new_money amount_in_kobo ngn)
      transferring ←
          TransferringService.transfer db user_id sender_wallet_id receiver_wallet_id amount
            notification_type
      pure (view_transferring transferring)
