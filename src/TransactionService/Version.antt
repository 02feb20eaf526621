-- ===== src/TransactionService/Version.antt =====
-- transaction.service.ts: the version that a credit gives its transaction, and a credit of a wallet
-- that does not load.
use tanta.Base.{
  String, ◌+◌, ◌≤◌, ◌≡◌, sym, ap, ◌∙◌, refl, inl, inr, Option, some, Option-cases, List, arith,
  str_eq, All, select,
}
use mathlib.Core.Path.{subst}
use tanta.Database.Keyed
use tanta.Money.{Money}
use tanta.Shared.ConcurrencyControl.{get_version, increment_version, clone}
use tanta.Shared.Exception.{Exception, Result, ok, throw, ok_injective, Result-cases}
use tanta.Transaction
use tanta.Transaction.{Transaction, in_}
use tanta.TransactionRepository
use tanta.TransactionRepository.Laws.{row_of, last_of, all_after, to_entity-transaction_id}
use tanta.Tables.{TransactionRow}
use tanta.TransactionRepository.Oldest.{last_of-IsOldest, last_of-Read, to_entity-created_at}
use tanta.TransactionService.{credit}
use tanta.TransactionService.Applied.{load-recorded}
use tanta.TransactionService.Laws.{
  made, saved, recorded, settle_up, apply_listed, then_return, credit_lem, credit_refused,
}
use tanta.Wallet.{Wallet}
use tanta.WalletRepository.Load.{load}
use tanta.WalletService.{update_balance}
use tanta.World.{Database, World}

module _ (db : Database) where
  then_return-inv :
      {A B : Type 0} (b : B) (r : Result A × World db) {t : B} {s' : World db}
      → then_return db b r ≡ (ok t, s')
      → b ≡ t
  then_return-inv b (ok a, s) e = ok_injective (ap (λ r. r.0) e)
  then_return-inv b (throw c, s) e = absurd (ground (arith, ap (λ r. r.0) e))

  apply_listed-inv :
      {B : Type 0} (b : B) (w : Wallet) (r : Result (List Transaction)) (s : World db) {t : B}
      {s' : World db}
      → apply_listed db b w r s ≡ (ok t, s')
      → b ≡ t
  apply_listed-inv b w (ok ts) s e = then_return-inv b (update_balance db w.wallet_id ts s) e
  apply_listed-inv b w (throw c) s e = absurd (ground (arith, ap (λ r. r.0) e))

  settle_up-inv :
      {B : Type 0} (b : B) (r : Result Wallet) (s : World db) {t : B} {s' : World db}
      → settle_up db b r s ≡ (ok t, s')
      → b ≡ t
  settle_up-inv b (ok w) s e = apply_listed-inv b w (all_after db w.last_transaction_version s) s e
  settle_up-inv b (throw c) s e = absurd (ground (arith, ap (λ r. r.0) e))

  module _ (id wallet_id : String) (amount : Money) (s : World db) where
    -- What a credit returns, if it returns, is the transaction that it saved.
    credit-saved :
        (last : Option Transaction) {t : Transaction} {s' : World db}
        → last_of db wallet_id s ≡ ok last
        → credit db id wallet_id amount s ≡ (ok t, s')
        → saved db id wallet_id amount s in_ last ≡ t
    credit-saved last found returned =
        elim (Option-cases (
          db.transactions.insert (row_of (made db id wallet_id amount s in_ last))
            s.transactions)) [
              | inl refused ↦ absurd (
                  ground (
                    arith,
                    ap (λ r. r.0)
                        (sym (credit_refused db id wallet_id amount s last found refused)
                          ∙ returned),
                  ))
              | inr (u, taken) ↦
                  settle_up-inv (saved db id wallet_id amount s in_ last)
                    (load db wallet_id (recorded db s u)) (recorded db s u)
                    (sym (credit_lem db id wallet_id amount s last u found taken) ∙ returned)
            ]

    -- A credit that returns, of a wallet with recorded transactions, has given its transaction the
    -- version after that of the wallet's oldest transaction: the one whose version it counts from is
    -- read from a recorded row of this wallet, and no recorded transaction of the wallet is older.
    pub credit-version :
        {first t : Transaction} {s' : World db}
        → last_of db wallet_id s ≡ ok (some first)
        → credit db id wallet_id amount s ≡ (ok t, s')
        → (row : TransactionRow) × (Keyed.first db.transactions row.transaction_id s.transactions
            ≡ some row)
          × (row.wallet_id ≡ wallet_id)
          × (first.transaction_id ≡ row.transaction_id)
          × (get_version t.transaction_control ≡ row.version + 1)
          × All
              (λ r. row.created_at ≤ r.created_at)
              (select (λ r. str_eq r.wallet_id wallet_id) (db.transactions.rows s.transactions))
    unfolding Transaction.create increment_version clone
    credit-version {first} {t} found returned =
        let (row, there, owner, read) = last_of-Read db wallet_id s found in
        let (same, version) = to_entity-transaction_id row read in
        let counted : get_version t.transaction_control
            ≡ get_version first.transaction_control + 1 =
          ap (λ t. get_version t.transaction_control)
            (sym (credit-saved (some first) found returned)) in
        (
          row,
          there,
          owner,
          same,
          counted ∙ ap (λ n. n + 1) version,
          subst
              (λ n.
                All (λ r. n ≤ r.created_at)
                  (select (λ r. str_eq r.wallet_id wallet_id)
                    (db.transactions.rows s.transactions)))
              (to_entity-created_at row read) (last_of-IsOldest db wallet_id s found),
        )

    -- A credit of a wallet that does not load, whose row the server takes, throws what the load
    -- throws and leaves the transaction recorded.
    pub credit_unloaded :
        (last : Option Transaction) (u : db.transactions.Store) {e : Exception}
        → last_of db wallet_id s ≡ ok last
        → load db wallet_id s ≡ throw e
        → db.transactions.insert (row_of (made db id wallet_id amount s in_ last)) s.transactions
          ≡ some u
        → credit db id wallet_id amount s ≡ (throw e, recorded db s u)
    credit_unloaded last u found absent taken =
        credit_lem db id wallet_id amount s last u found taken
        ∙ ap (λ l. settle_up db (saved db id wallet_id amount s in_ last) l (recorded db s u))
            (load-recorded db wallet_id s u ∙ absent)

    -- A credit that cannot read the transactions of the wallet throws, and nothing has changed.
    credit_unread :
        {e : Exception}
        → last_of db wallet_id s ≡ throw e
        → credit db id wallet_id amount s ≡ (throw e, s)
    unfolding credit TransactionRepository.get_last_if_exists_by
    credit_unread unread = rw unread refl

    -- A credit of a wallet that does not load leaves the table of the wallets alone, whether the
    -- server takes its row or not.
    pub credit_unloaded-wallets :
        {e : Exception}
        → load db wallet_id s ≡ throw e
        → (credit db id wallet_id amount s).1.wallets ≡ s.wallets
    credit_unloaded-wallets absent = elim (Result-cases (last_of db wallet_id s)) [
      | inl (e, unread) ↦ ap (λ r. r.1.wallets) (credit_unread unread)
      | inr (last, found) ↦
          elim (Option-cases (
            db.transactions.insert (row_of (made db id wallet_id amount s in_ last))
              s.transactions)) [
                | inl refused ↦
                    ap (λ r. r.1.wallets)
                      (credit_refused db id wallet_id amount s last found refused)
                | inr (u, taken) ↦ ap (λ r. r.1.wallets) (credit_unloaded last u found absent taken)
              ]
    ]
