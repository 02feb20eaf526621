-- ===== src/TransactionService/Covered.antt =====
-- transaction.service.ts: what must hold for a debit to leave a trace in the tables.
use tanta.Base.{String, ◌≡◌, ◌≤◌, ◌⊎◌, refl, ap, ◌∙◌, inl, inr, some, List, Option-cases}
use tanta.Database.Keyed.{first, first-insert_self}
use tanta.Js.Decimal.{to_string}
use tanta.Money.{Money}
use tanta.Notification.{NotificationType}
use tanta.Shared.Exception.{Exception, Result, ok, throw, Result-cases}
use tanta.Tables.{TransactionRow}
use tanta.Transaction
use tanta.Transaction.{Transaction, out}
use tanta.TransactionRepository
use tanta.TransactionRepository.Laws.{row_of, last_of, all_after}
use tanta.TransactionService.{debit, debit_held}
use tanta.TransactionService.Applied.{held-covers}
use tanta.TransactionService.Laws.{
  made, saved, recorded, apply_listed, debit_lem, debit_held_lem, debit_held_refused,
}
use tanta.Wallet.{Wallet}
use tanta.WalletRepository.Load.{load}
use tanta.WalletService.Update.{update_balance_atomic}
use tanta.World.{Database, World}

module _ (db : Database) where
  -- The end of a credit or a debit leaves the transactions alone.
  apply_listed-transactions :
      {B : Type 0} (b : B) (w : Wallet) (r : Result (List Transaction)) (s : World db)
      → (apply_listed db b w r s).1.transactions ≡ s.transactions
  apply_listed-transactions b w (throw e) s = refl
  apply_listed-transactions b w (ok ts) s = elim (update_balance_atomic db w.wallet_id ts s) [
    | inl (e, fails) ↦ rw fails refl
    | inr (w', t, returns) ↦ rw returns refl
  ]

  module _ (id wallet_id : String) (amount : Money) (kind : NotificationType) (s : World db) where
    -- The debit throws, and no table has changed.
    abbrev pub IsUntouched : Result Transaction × World db → Type 0
    IsUntouched r =
        (e : Exception) × (r.0 ≡ throw e)
        × (r.1.wallets ≡ s.wallets)
        × (r.1.transactions ≡ s.transactions)
        × (r.1.transferrings ≡ s.transferrings)

    -- The value of the wallet's balance, owed or not, is at least the amount, in the same currency, and
    -- the transaction stands recorded.
    abbrev pub IsCovered : Result Transaction × World db → Type 0
    IsCovered r =
        (w : Wallet) × (row : TransactionRow) × (load db wallet_id s ≡ ok w)
        × (amount.currency ≡ w.balance.currency)
        × (amount.value ≤ w.balance.value)
        × (first db.transactions id r.1.transactions ≡ some row)
        × (row.wallet_id ≡ wallet_id)
        × (row.type ≡ out)
        × (row.amount_value ≡ to_string amount.value)
        × (row.amount_currency ≡ amount.currency)

    untouched :
        {r : Result Transaction × World db} {e : Exception} {t : World db}
        → r ≡ (throw e, t)
        → t.wallets ≡ s.wallets
        → t.transactions ≡ s.transactions
        → t.transferrings ≡ s.transferrings
        → IsUntouched r
    untouched {e = e} fails a b c = (
      e,
      ap (λ r. r.0) fails,
      ap (λ r. r.1.wallets) fails ∙ a,
      ap (λ r. r.1.transactions) fails ∙ b,
      ap (λ r. r.1.transferrings) fails ∙ c,
    )

    debit_held_unread :
        (w : Wallet) {e : Exception}
        → last_of db wallet_id s ≡ throw e
        → debit_held db w id wallet_id amount s ≡ (throw e, s)
    unfolding TransactionRepository.get_last_if_exists_by
    debit_held_unread w unread = rw unread refl

    -- What a held debit leaves, by what the read and the insert come to.
    debit_held-ends :
        (w : Wallet)
        → load db wallet_id s ≡ ok w
        → amount.currency ≡ w.balance.currency
        → amount.value ≤ w.balance.value
        → IsUntouched (debit_held db w id wallet_id amount s)
          ⊎ IsCovered (debit_held db w id wallet_id amount s)
    unfolding Transaction.create TransactionRepository.to_row
    debit_held-ends w found same covered = elim (Result-cases (last_of db wallet_id s)) [
      | inl (e, unread) ↦
          let fails = debit_held_unread w unread in inl (untouched fails refl refl refl)
      | inr (last, read) ↦
          let row = row_of (made db id wallet_id amount s out last) in
          elim (Option-cases (db.transactions.insert row s.transactions)) [
            | inl refused ↦
                let fails = debit_held_refused db id wallet_id amount s w last read refused in
                inl (untouched fails refl refl refl)
            | inr (u, taken) ↦
                let kept =
                  ap (λ r. r.1.transactions)
                    (debit_held_lem db id wallet_id amount s w last u read taken)
                  ∙ apply_listed-transactions (saved db id wallet_id amount s out last) w
                      (all_after db w.last_transaction_version (recorded db s u))
                      (recorded db s u) in
                inr (
                  w,
                  row,
                  found,
                  same,
                  covered,
                  ap (first db.transactions id) kept
                      ∙ first-insert_self db.transactions row s.transactions u taken,
                  refl,
                  refl,
                  refl,
                  refl,
                )
          ]
    ]

    -- A debit throws and leaves every table as it was, or it was covered: the wallet loads, the value
    -- of its balance, owed or not, is at least the amount, in the same currency, and whether the debit
    -- then returns or throws, a transaction of the wallet with its id, of type OUT and over the
    -- amount, is recorded.
    pub debit-IsCovered :
        IsUntouched (debit db id wallet_id amount kind s)
        ⊎ IsCovered (debit db id wallet_id amount kind s)
    debit-IsCovered = elim (debit_lem db id wallet_id amount s kind) [
      | inl (e, absent, fails) ↦ inl (untouched fails refl refl refl)
      | inr (inl (w, found, short, fails)) ↦ inl (untouched fails refl refl refl)
      | inr (inr (w, found, held, goes_on)) ↦
          let (same, covered) = held-covers w amount held in
          rw goes_on (debit_held-ends w found same covered)
    ]
