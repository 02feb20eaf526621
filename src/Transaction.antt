-- ===== src/Transaction.antt =====
-- wallet/src/features/transaction: transaction.entity.ts and transaction-type.ts.
use mathlib.Core.Option
use tanta.Base.{String, Bool, Option, none, some}
use tanta.Money.{Money}
use tanta.Shared.ConcurrencyControl.{TransactionControl, clone, init}
use tanta.Shared.DateTime.{DateTime}

pub data TransactionType : Type 0 where
  in_ out : TransactionType

pub record Transaction : Type 0 where
  pub transaction_id : String
  pub wallet_id : String
  pub amount : Money
  pub type : TransactionType
  pub created_at : DateTime
  pub transaction_control : TransactionControl

-- The getters.
abbrev pub get_transaction_control : Transaction → TransactionControl
get_transaction_control t = t.transaction_control

abbrev pub get_id : Transaction → String
get_id t = t.transaction_id

abbrev pub get_type : Transaction → TransactionType
get_type t = t.type

abbrev pub get_amount : Transaction → Money
get_amount t = t.amount

abbrev pub get_creation_time : Transaction → DateTime
get_creation_time t = t.created_at

-- `lastTransaction?.getTransactionControl().clone() ?? TransactionControl.init()`
abbrev pub control_after : Option Transaction → TransactionControl
control_after none = init
control_after (some last) = clone (get_transaction_control last)

-- `Transaction.create`; the time is that of `DateTime.now()`.
unfoldable pub create :
    Option Transaction → String → Money → TransactionType → String → DateTime → Transaction
create last_transaction wallet_id amount type transaction_id now = record {
  transaction_id = transaction_id;
  wallet_id = wallet_id;
  amount = amount;
  type = type;
  created_at = now;
  transaction_control = control_after last_transaction;
}

abbrev pub set_transaction_control : Transaction → TransactionControl → Transaction
set_transaction_control t control = record t { transaction_control = control }

-- `getState`: all fields but the control.
pub record TransactionState : Type 0 where
  pub transaction_id : String
  pub wallet_id : String
  pub amount : Money
  pub type : TransactionType
  pub created_at : DateTime

abbrev pub get_state : Transaction → TransactionState
get_state t = record {
  transaction_id = t.transaction_id;
  wallet_id = t.wallet_id;
  amount = t.amount;
  type = t.type;
  created_at = t.created_at;
}

-- `is_equal` is lodash's; the other object may be missing.
abbrev pub equals :
    (TransactionState → Option TransactionState → Bool) → Transaction → Option Transaction → Bool
equals is_equal this other = is_equal (get_state this) (Option.map get_state other)
