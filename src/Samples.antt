-- ===== src/Samples.antt =====
-- A database held in lists, and requests run against it: the inputs of the witnesses.
use tanta.Base.{arith, eq_iff, ◌≢◌, ℕ, zero, suc, ◌+◌, String, List, [], Option, none, some}
use tanta.Database.Memory.{memory, empty, memory_runs}
use tanta.Js.Int.{ℤ, ◌-ℤ◌}
use tanta.Js.Decimal.{decimals}
use tanta.Money.{Money, ngn, new_money, add, difference, greater_or_equal}
use tanta.Shared.ConcurrencyControl.{
  is_new, clone, increment_version, init, from_state, from_version,
}
use tanta.Shared.Exception.{Result, ok, throw, map_ok}
use tanta.Balance.{apply_transaction, apply_transactions, next_balance}
use tanta.Tables.{TransactionRow}
use tanta.Transaction.{Transaction}
use tanta.WalletRepository.Laws.{write}
use tanta.TransactionService
use tanta.Transaction
use tanta.Wallet
use tanta.Transferring.{initalize}
use tanta.TransactionRepository
use tanta.TransferringService
use tanta.TransferringRepository
use tanta.WalletRepository
use tanta.WalletService
use tanta.Wallet.{get_balance_as_num, Wallet, ideal, overdraft, has_up_to}
use tanta.World.{Database, World}

abbrev pub listed : Database
listed = record {
  wallets = memory (λ r. r.wallet_id);
  transactions = memory (λ r. r.transaction_id);
  transferrings = memory (λ r. r.transferring_id);
}

-- The n-th id is the n-th of a few texts, and the clock advances by one each time it is read.
abbrev pub name : ℕ → String
name n = elim n [ zero ↦ "id-0" | suc m ↦ elim m [ zero ↦ "id-1" | suc _ ↦ "id-2" ] ]

abbrev pub fresh : World listed
fresh = record {
  wallets = empty (λ r. r.wallet_id);
  transactions = empty (λ r. r.transaction_id);
  transferrings = empty (λ r. r.transferring_id);
  times = λ n. 1000 + n;
  uuids = name;
  notified = [];
}

abbrev pub naira : ℕ → Money
naira value = record { value = value; currency = ngn }

-- Opens every operation of the services, for tests.
unfoldable pub services : Unit {0}
unfolding memory_runs decimals new_money add difference ◌-ℤ◌ has_up_to next_balance
    apply_transaction apply_transactions WalletRepository.save WalletRepository.to_row
    WalletRepository.to_entity TransactionRepository.to_row TransactionRepository.to_entity is_new
    clone increment_version init from_state from_version greater_or_equal Wallet.create
    Transaction.create initalize TransactionService.update_wallet TransferringService.process
    WalletRepository.get_wallet_by_id WalletService.create WalletService.get_wallet_by_id
    WalletService.update_balance TransactionRepository.save
    TransactionRepository.get_last_if_exists_by TransactionRepository.get_all_in_asc_order_after
    TransactionRepository.get_transaction_if_exists TransactionService.credit
    TransactionService.debit TransactionService.get_transaction_if_exists
    TransferringService.transfer WalletRepository.get_wallets_by_user TransferringRepository.save
    TransferringRepository.load TransferringRepository.to_row TransferringRepository.to_entity
services = tt

-- One wallet of user "ann", with the id "id-0".
abbrev pub created : World listed
created = (WalletService.create listed "ann" fresh).1

abbrev pub credited : ℕ → World listed → World listed
credited amount w = (TransactionService.credit listed (name 1) "id-0" (naira amount) w).1

-- The balance and the version of the wallet "id-0".
abbrev standing : Wallet → ℤ × ℕ
standing w = (get_balance_as_num w, w.last_transaction_version)

abbrev pub standing_of : World listed → Result (ℤ × ℕ)
standing_of w = map_ok standing (WalletService.get_wallet_by_id listed "id-0" w).0

-- A value out of a result or an option, with another in case there is none.
abbrev pub ok_or : {A : Type 0} → A → Result A → A
ok_or a (ok b) = b
ok_or a (throw _) = a

abbrev pub some_or : {A : Type 0} → A → Option A → A
some_or a none = a
some_or a (some b) = b

abbrev pub blank : Wallet
blank = record {
  wallet_id = "";
  user_id = "";
  balance = naira 0;
  balance_type = ideal;
  last_transaction_version = 0;
  created_at = record { time_in_ms = 0 };
  transaction_control = record { version = 0 };
}

-- The wallet "id-0" as it loads.
abbrev pub held : World listed → Wallet
held s = ok_or blank (WalletService.get_wallet_by_id listed "id-0" s).0

-- The oldest transaction of the wallet "id-0".
abbrev pub oldest : World listed → Option Transaction
oldest s = ok_or none (TransactionRepository.get_last_if_exists_by listed "id-0" s).0

-- The wallet as the loop computes it, and the tables as a write of a transaction or of the wallet
-- leaves them.
abbrev pub applied : Wallet → List Transaction → Wallet
applied w ts = ok_or blank (apply_transactions w ts)

abbrev pub with_transaction : TransactionRow → World listed → listed.transactions.Store
with_transaction row s = some_or s.transactions (listed.transactions.insert row s.transactions)

abbrev pub with_wallet : Wallet → World listed → listed.wallets.Store
with_wallet w s = some_or s.wallets (write listed w s.wallets)

pub ids_differ : ◌≢◌ {A = String} "id-0" "id-b"
ids_differ e = ground (arith, (eq_iff "id-0" "id-b").1 e)
