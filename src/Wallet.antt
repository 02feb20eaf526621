-- ===== src/Wallet.antt =====
-- wallet/src/features/wallet: wallet.entity.ts and balance-type.ts.
use mathlib.Core.Option
use tanta.Base.{ℕ, String, Bool, Option}
use tanta.Js.Int.{ℤ, pos, ◌-ℤ◌}
use tanta.Money.{Money, ngn, greater_or_equal}
use tanta.Shared.ConcurrencyControl.{TransactionControl, init}
use tanta.Shared.DateTime.{DateTime}

pub data BalanceType : Type 0 where
  ideal overdraft : BalanceType

pub record Wallet : Type 0 where
  pub wallet_id : String
  pub user_id : String
  pub balance : Money
  pub balance_type : BalanceType
  pub last_transaction_version : ℕ
  pub created_at : DateTime
  pub transaction_control : TransactionControl

-- The getters.
abbrev pub get_id : Wallet → String
get_id w = w.wallet_id

abbrev pub get_user_id : Wallet → String
get_user_id w = w.user_id

abbrev pub get_creation_time : Wallet → DateTime
get_creation_time w = w.created_at

abbrev pub get_balance : Wallet → Money
get_balance w = w.balance

abbrev pub get_balance_type : Wallet → BalanceType
get_balance_type w = w.balance_type

abbrev pub get_last_transaction_version : Wallet → ℕ
get_last_transaction_version w = w.last_transaction_version

abbrev pub get_transaction_control : Wallet → TransactionControl
get_transaction_control w = w.transaction_control

-- `Wallet.create`; the id is that of `uuid.v4()`, the time that of `DateTime.now()`, and 0 is an
-- amount that the constructor of `Money` takes.
unfoldable pub create : String → String → DateTime → Wallet
unfolding init
create user_id uuid now = record {
  wallet_id = uuid;
  user_id = user_id;
  balance = record { value = 0; currency = ngn };
  balance_type = ideal;
  last_transaction_version = 0;
  created_at = now;
  transaction_control = init;
}

unfoldable pub has_up_to : Wallet → Money → Bool
unfolding greater_or_equal
has_up_to w amount = greater_or_equal w.balance amount

abbrev pub signed : BalanceType → ℕ → ℤ
signed ideal value = pos value
signed overdraft value = pos 0 -ℤ pos value

-- `getBalanceAsNum`: the value, times 1 or times -1.
abbrev pub get_balance_as_num : Wallet → ℤ
get_balance_as_num w = signed w.balance_type w.balance.value

-- The method writes three fields of its object; the updated object is the result here.
abbrev pub update_balance_data : Wallet → Money → BalanceType → ℕ → Wallet
update_balance_data w balance type version = record w {
  balance = balance;
  balance_type = type;
  last_transaction_version = version;
}

abbrev pub set_transaction_control : Wallet → TransactionControl → Wallet
set_transaction_control w control = record w { transaction_control = control }

-- `getState`: all fields but the control.
pub record WalletState : Type 0 where
  pub wallet_id : String
  pub user_id : String
  pub created_at : DateTime
  pub balance : Money
  pub balance_type : BalanceType
  pub last_transaction_version : ℕ

abbrev pub get_state : Wallet → WalletState
get_state w = record {
  wallet_id = w.wallet_id;
  user_id = w.user_id;
  created_at = w.created_at;
  balance = w.balance;
  balance_type = w.balance_type;
  last_transaction_version = w.last_transaction_version;
}

-- `is_equal` is lodash's; the other object may be missing.
abbrev pub equals : (WalletState → Option WalletState → Bool) → Wallet → Option Wallet → Bool
equals is_equal this other = is_equal (get_state this) (Option.map get_state other)
