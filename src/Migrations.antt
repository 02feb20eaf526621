-- ===== src/Migrations.antt =====
-- wallet/src/database/migrations: the table that each `up` has knex create, as the calls of the
-- builder declare it. What knex and Postgres make of the calls is not modelled; `down` drops the
-- table of the same name.
pub mod Columns
pub mod Indexes
use tanta.Base.{String, List, [], ◌∷◌}

-- `string`, `bigInteger` (or `bigint`), `integer`, `boolean` and `timestamp`.
pub data ColumnType : Type 0 where
  string big_integer integer boolean timestamp : ColumnType

pub record Column : Type 0 where
  pub name : String
  pub type : ColumnType

-- `primary` marks one column, `unique` names the columns of an index.
pub record TableSchema : Type 0 where
  pub table_name : String
  pub columns : List Column
  pub primary : String
  pub unique_index : List String

abbrev column : String → ColumnType → Column
column name type = record { name = name; type = type }

abbrev pub wallet_table : TableSchema
wallet_table = record {
  table_name = "Wallet";
  columns =
      column "walletId" string
      ∷ column "userId" string
      ∷ column "balanceValue" big_integer
      ∷ column "balanceCurrency" string
      ∷ column "balanceType" boolean
      ∷ column "lastTransactionVersion" integer
      ∷ column "createdAt" timestamp
      ∷ column "version" boolean
      ∷ [];
  primary = "walletId";
  unique_index = "walletId" ∷ "version" ∷ [];
}

abbrev pub transaction_table : TableSchema
transaction_table = record {
  table_name = "Transaction";
  columns =
      column "transactionId" string
      ∷ column "walletId" string
      ∷ column "amountValue" big_integer
      ∷ column "amountCurrency" string
      ∷ column "type" string
      ∷ column "createdAt" timestamp
      ∷ column "version" integer
      ∷ [];
  primary = "transactionId";
  unique_index = "transactionId" ∷ "version" ∷ [];
}

abbrev pub transferring_table : TableSchema
transferring_table = record {
  table_name = "Transferring";
  columns =
      column "transferringId" string
      ∷ column "senderWalletId" string
      ∷ column "receiverWalletId" string
      ∷ column "senderDebitTransactionId" string
      ∷ column "receiverDebitTransactionId" string
      ∷ column "amountValue" big_integer
      ∷ column "amountCurrency" string
      ∷ column "status" string
      ∷ column "notificationType" string
      ∷ column "version" integer
      ∷ [];
  primary = "transferringId";
  unique_index = "transferringId" ∷ "version" ∷ [];
}
