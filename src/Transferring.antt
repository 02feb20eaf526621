-- ===== src/Transferring.antt =====
-- wallet/src/features/transferring/transferring.entity.ts
use mathlib.Core.Option
use tanta.Base.{String, Bool, Option}
use tanta.Money.{Money}
use tanta.Notification.{NotificationType}
use tanta.Shared.ConcurrencyControl.{TransactionControl, init}

pub data Status : Type 0 where
  ongoing : Status

pub record Transferring : Type 0 where
  pub transferring_id : String
  pub sender_wallet_id : String
  pub receiver_wallet_id : String
  pub sender_debit_transaction_id : String
  pub receiver_debit_transaction_id : String
  pub amount : Money
  pub status : Status
  pub notification_type : NotificationType
  pub transaction_control : TransactionControl

-- `Transferring.initalize`, with the three ids that `uuid.v4()` gives.
unfoldable pub initalize :
    String → String → Money → NotificationType → String → String → String → Transferring
unfolding init
initalize sender_wallet_id receiver_wallet_id amount notification_type id debit_id credit_id =
    record {
      transferring_id = id;
      sender_wallet_id = sender_wallet_id;
      receiver_wallet_id = receiver_wallet_id;
      sender_debit_transaction_id = debit_id;
      receiver_debit_transaction_id = credit_id;
      amount = amount;
      status = ongoing;
      notification_type = notification_type;
      transaction_control = init;
    }

-- The getters.
abbrev pub get_transaction_control : Transferring → TransactionControl
get_transaction_control t = t.transaction_control

abbrev pub get_id : Transferring → String
get_id t = t.transferring_id

abbrev pub get_sender_debit_transaction_id : Transferring → String
get_sender_debit_transaction_id t = t.sender_debit_transaction_id

abbrev pub get_sender_wallet_id : Transferring → String
get_sender_wallet_id t = t.sender_wallet_id

abbrev pub get_amount : Transferring → Money
get_amount t = t.amount

abbrev pub get_notification_type : Transferring → NotificationType
get_notification_type t = t.notification_type

abbrev pub get_receiver_wallet_id : Transferring → String
get_receiver_wallet_id t = t.receiver_wallet_id

-- `getReceiverCreditTransactionId` reads the field that is named after a debit.
abbrev pub get_receiver_credit_transaction_id : Transferring → String
get_receiver_credit_transaction_id t = t.receiver_debit_transaction_id

abbrev pub set_transaction_control : Transferring → TransactionControl → Transferring
set_transaction_control t control = record t { transaction_control = control }

-- `getState`: all fields but the control.
pub record TransferringState : Type 0 where
  pub transferring_id : String
  pub sender_wallet_id : String
  pub receiver_wallet_id : String
  pub sender_debit_transaction_id : String
  pub receiver_debit_transaction_id : String
  pub amount : Money
  pub status : Status
  pub notification_type : NotificationType

abbrev pub get_state : Transferring → TransferringState
get_state t = record {
  transferring_id = t.transferring_id;
  sender_wallet_id = t.sender_wallet_id;
  receiver_wallet_id = t.receiver_wallet_id;
  sender_debit_transaction_id = t.sender_debit_transaction_id;
  receiver_debit_transaction_id = t.receiver_debit_transaction_id;
  amount = t.amount;
  status = t.status;
  notification_type = t.notification_type;
}

-- `is_equal` is lodash's; the other object may be missing.
abbrev pub equals :
    (TransferringState → Option TransferringState → Bool)
    → Transferring
    → Option Transferring
    → Bool
equals is_equal this other = is_equal (get_state this) (Option.map get_state other)
