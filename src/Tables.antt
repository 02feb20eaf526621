-- ===== src/Tables.antt =====
-- The rows of the three tables: the `Table` interfaces of the repositories, whose columns are those
-- of the migrations in wallet/src/database/migrations. String enums are stored as they are; an
-- amount is stored as the decimal text of its value.
use tanta.Base.{ℕ, String, Bool}
use tanta.Js.Decimal.{Text}
use tanta.Money.{Currency}
use tanta.Notification.{NotificationType}
use tanta.Shared.DateTime.{Date}
use tanta.Transaction.{TransactionType}
use tanta.Transferring.{Status}

pub record WalletRow : Type 0 where
  pub wallet_id : String
  pub user_id : String
  pub created_at : Date
  pub balance_value : Text
  pub balance_currency : Currency
  pub balance_type : Bool
  pub last_transaction_version : ℕ
  pub version : Bool

pub record TransactionRow : Type 0 where
  pub transaction_id : String
  pub wallet_id : String
  pub amount_value : Text
  pub amount_currency : Currency
  pub type : TransactionType
  pub created_at : Date
  pub version : ℕ

pub record TransferringRow : Type 0 where
  pub transferring_id : String
  pub sender_wallet_id : String
  pub receiver_wallet_id : String
  pub sender_debit_transaction_id : String
  pub receiver_debit_transaction_id : String
  pub amount_value : Text
  pub amount_currency : Currency
  pub status : Status
  pub notification_type : NotificationType
  pub version : ℕ
