-- ===== src/Examples.antt =====
-- The services run on a database held in lists: tests, and a concrete input for each theorem.
pub mod Interleavings
pub mod Entry
pub mod Access
pub mod Serving
pub mod Server
pub mod Modules
pub mod Served
pub mod Audit
pub mod Barred
pub mod Balances
pub mod Transfers
pub mod Repositories
use tanta.Base.{
  select, ℕ, ◌+◌, ap, str_eq, zero, suc, Bool, true, false, String, ◌⊎◌, ◌≡◌, ◌≢◌, refl, sym, inl,
  inr, List, [], ◌∷◌, Option, none, some, arith,
}
use tanta.Samples.{
  ids_differ, listed, fresh, created, credited, naira, name, standing_of, services, held, oldest,
  applied, blank, ok_or, some_or, with_transaction, with_wallet,
}
use tanta.Js.Int.{pos}
use tanta.Shared.Exception.{
  Exception, Result, ok, throw, transaction, insufficient_fund, transferring, not_allowed,
}
use tanta.Transaction.{Transaction, in_, out}
use tanta.TransactionRepository.Laws.{row_of}
use tanta.TransactionService.{credit, debit, debit_held}
use tanta.TransactionService.Laws.{made, saved, recorded, told, debit_lem}
use tanta.TransactionService.Applied.{credit_adds, credit_lost, debit_takes}
use tanta.TransactionService.Version.{credit-version, credit_unloaded}
use tanta.Base.{All, ◌≤◌}
use tanta.Shared.ConcurrencyControl.{get_version}
use tanta.Shared.Exception.{wallet, not_found}
use tanta.TransactionService.Blocked.{credit_blocked}
use tanta.TransactionService.Frame.{LeavesOther, credit-LeavesOther, debit-LeavesOther}
use tanta.TransactionService
use tanta.TransactionService.Covered.{IsUntouched, IsCovered, debit-IsCovered}
use tanta.Tables.{TransactionRow}
use tanta.Database.Keyed
use tanta.TransferringService.Laws.{transfer-LeavesOther, transfer_lem, process_done}
use tanta.Transferring.{Transferring, initalize}
use tanta.WalletService
use tanta.WalletService.Laws.{create-get_wallet_by_id, new_wallet}
use tanta.Shared.ConcurrencyControl.{is_new}
use tanta.Wallet.{get_state, get_balance_as_num, Wallet, has_up_to}
use tanta.WalletRepository.Load.{load}
use tanta.TransferringService.{transfer, process, start}
use tanta.Notification.{mobile}
use tanta.World.{World}

first_credit : standing_of (credited 5000 created) ≡ ok (pos 5000, 1)
unfolding services
first_credit = refl

abbrev tx : Transaction
tx = saved listed (name 1) "id-0" (naira 5000) created in_ none

abbrev rows_after : listed.transactions.Store
rows_after =
    with_transaction (row_of (made listed (name 1) "id-0" (naira 5000) created in_ none)) created

abbrev wallet_after : Wallet
wallet_after = applied (held created) (tx ∷ [])

credit_adds_example : credit listed (name 1) "id-0" (naira 5000) created ≡ (
  ok tx,
  record (recorded listed created rows_after) { wallets = with_wallet wallet_after created },
)
unfolding services
credit_adds_example =
    (credit_adds listed (name 1) "id-0" (naira 5000) created (held created) none rows_after refl
      refl tt wallet_after (with_wallet wallet_after created) refl refl refl (omega arith)
      (inl refl) refl refl).1

-- A wallet with 5000, from which 2000 are drawn.
abbrev pub funded : World listed
funded = credited 5000 created

abbrev drawing : Transaction
drawing = saved listed "t2" "id-0" (naira 2000) funded out (oldest funded)

abbrev rows_drawn : listed.transactions.Store
rows_drawn =
    with_transaction (row_of (made listed "t2" "id-0" (naira 2000) funded out (oldest funded)))
      funded

abbrev wallet_drawn : Wallet
wallet_drawn = applied (held funded) (drawing ∷ [])

debit_takes_example : debit listed "t2" "id-0" (naira 2000) mobile funded ≡ (
  ok drawing,
  record (recorded listed funded rows_drawn) { wallets = with_wallet wallet_drawn funded },
)
unfolding services
debit_takes_example =
    (debit_takes listed "t2" "id-0" (naira 2000) funded (held funded) (oldest funded) rows_drawn
      refl refl (omega arith, tt) mobile wallet_drawn (with_wallet wallet_drawn funded) refl refl
      refl (omega arith) (inl refl) refl refl).1

debit-IsCovered_example :
    IsUntouched listed "t2" "id-0"
      (naira 2000)
      mobile
      funded
      (debit listed "t2" "id-0" (naira 2000) mobile funded)
    ⊎ IsCovered listed "t2" "id-0"
        (naira 2000)
        mobile
        funded
        (debit listed "t2" "id-0" (naira 2000) mobile funded)
debit-IsCovered_example = debit-IsCovered listed "t2" "id-0" (naira 2000) mobile funded

-- A debit of more than the wallet has is refused, and the balance stays.
debit_refused :
    standing_of (debit listed "t2" "id-0" (naira 9000) mobile funded).1 ≡ ok (pos 5000, 1)
unfolding services
debit_refused = refl

-- The oldest transaction of a wallet is taken for its last one: a third credit gets version 2 again
-- and does not reach the balance.
third_credit_lost :
    standing_of
      (credit listed "t3" "id-0" (naira 70) (credit listed "t2" "id-0" (naira 600) funded).1).1
    ≡ ok (pos 5600, 2)
unfolding services
third_credit_lost = refl

abbrev pub twice : World listed
twice = (credit listed "t2" "id-0" (naira 600) funded).1

abbrev pub third : Transaction
third = saved listed "t3" "id-0" (naira 70) twice in_ (oldest twice)

abbrev rows_third : listed.transactions.Store
rows_third =
    with_transaction (row_of (made listed "t3" "id-0" (naira 70) twice in_ (oldest twice))) twice

credit_lost_example : credit listed "t3" "id-0" (naira 70) twice ≡ (
  ok third,
  record (recorded listed twice rows_third) { wallets = with_wallet (held twice) twice },
)
unfolding services
credit_lost_example =
    (credit_lost listed "t3" "id-0" (naira 70) twice (held twice) (oldest twice) rows_third refl
      refl (omega arith, (omega arith, tt)) (with_wallet (held twice) twice) refl (omega arith)
      (omega arith) refl).1

-- A second wallet, with its own credit of version 1.
abbrev pub both : World listed
both = record (WalletService.create listed "bob" (record funded { uuids = λ n. "id-b" })).1 {
  times = λ n. 2000 + n;
}

abbrev blocked : Transaction
blocked = saved listed "t4" "id-b" (naira 70) both in_ none

abbrev rows_blocked : listed.transactions.Store
rows_blocked = with_transaction (row_of (made listed "t4" "id-b" (naira 70) both in_ none)) both

abbrev other_wallet : Wallet
other_wallet = ok_or blank (load listed "id-b" both)

credit_blocked_example :
    (e : Exception) × (credit listed "t4" "id-b" (naira 70) both
      ≡ (throw e, recorded listed both rows_blocked))
unfolding services
credit_blocked_example =
    credit_blocked listed "t4" "id-b" (naira 70) both other_wallet none rows_blocked refl refl refl
      (omega arith) (omega arith)

create_example :
    (w : Wallet) × (w' : Wallet) × (s' : World listed) × (WalletService.create listed "ann" fresh
      ≡ (ok w, s'))
    × (WalletService.get_wallet_by_id listed "id-0" s' ≡ (ok w', s'))
    × (get_state w ≡ get_state w')
    × (w.wallet_id ≡ "id-0")
    × (w.user_id ≡ "ann")
    × (get_balance_as_num w ≡ pos 0)
    × (w.last_transaction_version ≡ 0)
    × (is_new w'.transaction_control ≡ true)
unfolding services
create_example =
    create-get_wallet_by_id listed "ann" fresh (with_wallet (new_wallet listed "ann" fresh) fresh)
      refl

credit-version_example :
    (row : TransactionRow) × (Keyed.first listed.transactions row.transaction_id twice.transactions
      ≡ some row)
    × (row.wallet_id ≡ "id-0")
    × ((some_or blocked (oldest twice)).transaction_id ≡ row.transaction_id)
    × (get_version third.transaction_control ≡ row.version + 1)
    × All
        (λ r. row.created_at ≤ r.created_at)
        (select (λ r. str_eq r.wallet_id "id-0") (listed.transactions.rows twice.transactions))
unfolding services
credit-version_example =
    credit-version listed "t3" "id-0" (naira 70) twice {first = some_or blocked (oldest twice)} refl
      refl

-- No wallet "id-0" has been created yet.
credit_unloaded_example : credit listed (name 1) "id-0" (naira 5000) fresh ≡ (
  throw (wallet not_found),
  recorded listed fresh
      (with_transaction (row_of (made listed (name 1) "id-0" (naira 5000) fresh in_ none)) fresh),
)
unfolding services
credit_unloaded_example =
    credit_unloaded listed (name 1) "id-0" (naira 5000) fresh none
      (with_transaction (row_of (made listed (name 1) "id-0" (naira 5000) fresh in_ none)) fresh)
      refl refl refl
