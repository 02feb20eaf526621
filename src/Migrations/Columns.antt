-- ===== src/Migrations/Columns.antt =====
-- The rows that the repositories write, cell by cell, against the columns of the migrations.
use tanta.Base.{
  ℕ, ◌^◌, ◌<◌, ◌≤◌, ◌≡◌, ◌↔◌, refl, String, Bool, true, false, ◌&&◌, Option, none, some, List, [],
  ◌∷◌, str_eq, ltb, leb, arith, if◌then◌else◌,
}
use Prim.Native.String.{count}
use tanta.Js.Decimal.{Text, parse_digits, parse_digits-to_string}
use tanta.Migrations.{
  ColumnType, string, big_integer, integer, boolean, timestamp, Column, TableSchema, wallet_table,
  transaction_table, transferring_table,
}
use tanta.Money.{Currency, ngn, usd}
use tanta.Notification.{NotificationType, email, mobile, text_of}
use tanta.Shared.ConcurrencyControl.{TransactionControl, get_version}
use tanta.Shared.DateTime.{Date}
use tanta.Tables.{WalletRow, TransactionRow, TransferringRow}
use tanta.Transaction.{Transaction, TransactionType, in_, out}
use tanta.Transferring.{Transferring, Status, ongoing}
use tanta.TransactionRepository
use tanta.TransferringRepository
use tanta.Wallet.{Wallet}
use tanta.WalletRepository

-- A value that is written to a column: a string, the digits of a bigint, a boolean, a number or a
-- date.
pub data Cell : Type 0 where
  characters : String → Cell
  decimal : Text → Cell
  flag : Bool → Cell
  number : ℕ → Cell
  date : Date → Cell

pub record Field : Type 0 where
  pub name : String
  pub cell : Cell

abbrev field : String → Cell → Field
field name cell = record { name = name; cell = cell }

-- The values of the other string enums.
abbrev currency_text : Currency → String
currency_text ngn = "NGN"
currency_text usd = "USD"

abbrev type_text : TransactionType → String
type_text in_ = "IN"
type_text out = "OUT"

abbrev status_text : Status → String
status_text ongoing = "ONGOING"

-- The objects that `toRow` builds, with the names of their fields.
abbrev pub wallet_fields : WalletRow → List Field
wallet_fields r =
    field "walletId" (characters r.wallet_id)
    ∷ field "userId" (characters r.user_id)
    ∷ field "balanceValue" (decimal r.balance_value)
    ∷ field "balanceCurrency" (characters (currency_text r.balance_currency))
    ∷ field "balanceType" (flag r.balance_type)
    ∷ field "lastTransactionVersion" (number r.last_transaction_version)
    ∷ field "createdAt" (date r.created_at)
    ∷ field "version" (flag r.version)
    ∷ []

abbrev pub transaction_fields : TransactionRow → List Field
transaction_fields r =
    field "walletId" (characters r.wallet_id)
    ∷ field "transactionId" (characters r.transaction_id)
    ∷ field "amountValue" (decimal r.amount_value)
    ∷ field "amountCurrency" (characters (currency_text r.amount_currency))
    ∷ field "type" (characters (type_text r.type))
    ∷ field "createdAt" (date r.created_at)
    ∷ field "version" (number r.version)
    ∷ []

abbrev pub transferring_fields : TransferringRow → List Field
transferring_fields r =
    field "transferringId" (characters r.transferring_id)
    ∷ field "senderWalletId" (characters r.sender_wallet_id)
    ∷ field "receiverWalletId" (characters r.receiver_wallet_id)
    ∷ field "senderDebitTransactionId" (characters r.sender_debit_transaction_id)
    ∷ field "receiverDebitTransactionId" (characters r.receiver_debit_transaction_id)
    ∷ field "amountValue" (decimal r.amount_value)
    ∷ field "amountCurrency" (characters (currency_text r.amount_currency))
    ∷ field "status" (characters (status_text r.status))
    ∷ field "notificationType" (characters (text_of r.notification_type))
    ∷ field "version" (number r.version)
    ∷ []

abbrev pub lookup : String → List Field → Option Cell
lookup name [] = none
lookup name (f ∷ fs) = if str_eq name f.name then some f.cell else lookup name fs

abbrev below : Option ℕ → ℕ → Bool
below none bound = false
below (some n) bound = ltb n bound

-- The ranges of Postgres: varchar(255), which is knex's `string`, int8 and int4.
abbrev accepts : ColumnType → Option Cell → Bool
accepts string (some (characters s)) = leb (count s) 255
accepts big_integer (some (decimal t)) = below (parse_digits 0 t) (2 ^ 63)
accepts integer (some (number n)) = ltb n (2 ^ 31)
accepts boolean (some (flag b)) = true
accepts timestamp (some (date d)) = true
accepts _ _ = false

-- Every column has a value in its range, and there is no other.
abbrev all_accept : List Column → List Field → Bool
all_accept [] fs = true
all_accept (c ∷ cs) fs = accepts c.type (lookup c.name fs) && all_accept cs fs

abbrev same_number : List Column → List Field → Bool
same_number [] [] = true
same_number (c ∷ cs) (f ∷ fs) = same_number cs fs
same_number _ _ = false

abbrev pub fits : TableSchema → List Field → Bool
fits schema fs = same_number schema.columns fs && all_accept schema.columns fs

-- The values of the enums are short.
currency_short : (c : Currency) → leb (count (currency_text c)) 255 ≡ true
currency_short ngn = refl
currency_short usd = refl

type_short : (t : TransactionType) → leb (count (type_text t)) 255 ≡ true
type_short in_ = refl
type_short out = refl

status_short : (s : Status) → leb (count (status_text s)) 255 ≡ true
status_short ongoing = refl

notification_type_short : (n : NotificationType) → leb (count (text_of n)) 255 ≡ true
notification_type_short email = refl
notification_type_short mobile = refl

-- The row of a wallet fits the columns of its table exactly if its balance fits an int8, its
-- version an int4, and both ids have at most 255 characters.
pub wallet-fits_iff :
    (w : Wallet) (control : TransactionControl)
    → (fits wallet_table (wallet_fields (WalletRepository.to_row w control)) ≡ true) ↔ (
        (w.balance.value < 2 ^ 63)
        × (w.last_transaction_version < 2 ^ 31)
        × (count w.wallet_id ≤ 255)
        × (count w.user_id ≤ 255))
unfolding WalletRepository.to_row
wallet-fits_iff w control =
    let value = parse_digits-to_string w.balance.value in
    let currency = currency_short w.balance.currency in
    (ground (arith, value, currency), ground (arith, value, currency))

-- The row of a transaction fits the columns of its table exactly if its amount fits an int8, the
-- version of the control an int4, and both ids have at most 255 characters.
transaction-fits_iff :
    (t : Transaction) (control : TransactionControl)
    → (fits transaction_table (transaction_fields (TransactionRepository.to_row t control)) ≡ true)
      ↔ ((t.amount.value < 2 ^ 63)
          × (get_version control < 2 ^ 31)
          × (count t.transaction_id ≤ 255)
          × (count t.wallet_id ≤ 255))
unfolding TransactionRepository.to_row
transaction-fits_iff t control =
    let value = parse_digits-to_string t.amount.value in
    let currency = currency_short t.amount.currency in
    let type = type_short t.type in
    (ground (arith, value, currency, type), ground (arith, value, currency, type))

-- The row of a transferring fits the columns of its table exactly if its amount fits an int8, the
-- version of the control an int4, and all five ids have at most 255 characters.
transferring-fits_iff :
    (t : Transferring) (control : TransactionControl)
    → (fits transferring_table (transferring_fields (TransferringRepository.to_row t control))
        ≡ true)
      ↔ ((t.amount.value < 2 ^ 63)
          × (get_version control < 2 ^ 31)
          × (count t.transferring_id ≤ 255)
          × (count t.sender_wallet_id ≤ 255)
          × (count t.receiver_wallet_id ≤ 255)
          × (count t.sender_debit_transaction_id ≤ 255)
          × (count t.receiver_debit_transaction_id ≤ 255))
unfolding TransferringRepository.to_row
transferring-fits_iff t control =
    let value = parse_digits-to_string t.amount.value in
    let currency = currency_short t.amount.currency in
    let status = status_short t.status in
    let kind = notification_type_short t.notification_type in
    (ground (arith, value, currency, status, kind), ground (arith, value, currency, status, kind))
