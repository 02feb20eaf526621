-- ===== src/Thread/Recorded.antt =====
-- The row of a transaction, through the methods of transaction.service.ts.
use tanta.Base.{
  String, ◌≡◌, ◌<◌, ◌^◌, refl, sym, ap, ◌∙◌, inl, inr, Option, some, Option-cases, List, arith,
}
use mathlib.Core.Path.{subst}
use tanta.Database.Keyed.{first-insert_self}
use tanta.Money.{Money}
use tanta.Notification.{NotificationType}
use tanta.Shared.Exception.{Exception, Result, ok, throw, Result-cases}
use tanta.Shared.ConcurrencyControl.{next}
use tanta.Tables.{TransactionRow}
use tanta.Thread.{Thread, returned, await, alone}
use tanta.Thread.Alone.{update_balance-Runs, credit-Runs}
use tanta.Thread.Ensures.{Ensures, only}
use tanta.Thread.Kept.{IsRecorded, IsRecorded-Stable}
use tanta.Thread.Preserved.{update_balance-Keeps, credit-Keeps}
use tanta.Thread.Requests
use tanta.Transaction.{Transaction, TransactionType, in_, out, set_transaction_control}
use tanta.Transaction
use tanta.TransactionRepository
use tanta.TransactionRepository.Laws.{row_of, to_entity-to_row, last_of, all_after, existing}
use tanta.TransactionService.{credit, debit, debit_held}
use tanta.TransactionService.Laws.{
  made, saved, recorded, settle_up, apply_listed, then_return, credit_lem, credit_refused,
  debit_held_lem, debit_held_refused, debit_lem,
}
use tanta.Wallet.{Wallet}
use tanta.WalletRepository.Load.{load}
use tanta.WalletService
use tanta.World.{Database, World}

module _ {db : Database} where
  -- What every step keeps, a request alone keeps.
  alone-Ensures :
      (P : World db → Type 0) {A : Type 0} {Q : A → Type 0} (t : Thread db A) (s : World db)
      → Ensures (only P) Q t
      → P s
      → P (alone t s).1
  alone-Ensures P (returned r) s h p = p
  alone-Ensures P (await act rest) s h p =
      let ((p', _), left) = h.at s p tt in
      alone-Ensures P (rest s) (act s) (record { at = left }) p'

module _ (db : Database) (id : String) (r : TransactionRow) where
  update_balance-IsRecorded :
      (wallet_id : String) (ts : List Transaction) (s : World db)
      → IsRecorded db id r s
      → IsRecorded db id r (WalletService.update_balance db wallet_id ts s).1
  update_balance-IsRecorded wallet_id ts s j =
      subst (λ x. IsRecorded db id r x.1) ((update_balance-Runs db wallet_id ts).at s)
        (alone-Ensures (IsRecorded db id r) (Requests.update_balance db wallet_id ts) s
          (update_balance-Keeps (IsRecorded-Stable db id r) wallet_id ts tt tt) j)

  pub credit-IsRecorded :
      (key wallet_id : String) (amount : Money) (s : World db)
      → IsRecorded db id r s
      → IsRecorded db id r (credit db key wallet_id amount s).1
  credit-IsRecorded key wallet_id amount s j =
      subst (λ x. IsRecorded db id r x.1) ((credit-Runs db key wallet_id amount).at s)
        (alone-Ensures (IsRecorded db id r) (Requests.credit db key wallet_id amount) s
          (credit-Keeps (IsRecorded-Stable db id r) key wallet_id amount tt) j)

  returned-IsRecorded :
      {A B : Type 0} (b : B) (x : Result A × World db)
      → IsRecorded db id r x.1
      → IsRecorded db id r (then_return db b x).1
  returned-IsRecorded b (ok _, s) j = j
  returned-IsRecorded b (throw _, s) j = j

  listed-IsRecorded :
      {B : Type 0} (b : B) (w : Wallet) (ts : Result (List Transaction)) (s : World db)
      → IsRecorded db id r s
      → IsRecorded db id r (apply_listed db b w ts s).1
  listed-IsRecorded b w (throw e) s j = j
  listed-IsRecorded b w (ok ts) s j =
      returned-IsRecorded b (WalletService.update_balance db w.wallet_id ts s)
        (update_balance-IsRecorded w.wallet_id ts s j)

  settled-IsRecorded :
      {B : Type 0} (b : B) (w : Result Wallet) (s : World db)
      → IsRecorded db id r s
      → IsRecorded db id r (settle_up db b w s).1
  settled-IsRecorded b (throw e) s j = j
  settled-IsRecorded b (ok w) s j =
      listed-IsRecorded b w (all_after db w.last_transaction_version s) s j

module _ (db : Database) (id wallet_id : String) (amount : Money) (s : World db) where
  -- The row that a credit or a debit records is found under its id.
  abbrev row : TransactionType → Option Transaction → TransactionRow
  row type last = row_of (made db id wallet_id amount s type last)

  taken-IsRecorded :
      (type : TransactionType) (last : Option Transaction) (u : db.transactions.Store)
      → db.transactions.insert (row type last) s.transactions ≡ some u
      → IsRecorded db id (row type last) (recorded db s u)
  unfolding Transaction.create TransactionRepository.to_row
  taken-IsRecorded type last u taken =
      first-insert_self db.transactions (row type last) s.transactions u taken

  credit_unlisted :
      {e : Exception}
      → last_of db wallet_id s ≡ throw e
      → (credit db id wallet_id amount s).0 ≡ throw e
  unfolding credit TransactionRepository.get_last_if_exists_by
  credit_unlisted failed = rw failed refl

  -- A credit that returns has recorded a transaction under its id.
  pub credit_records :
      {t : Transaction} {s' : World db}
      → credit db id wallet_id amount s ≡ (ok t, s')
      → (last : Option Transaction) × IsRecorded db id (row in_ last) s'
  credit_records {t} {s'} e = elim (Result-cases (last_of db wallet_id s)) [
    | inl (x, failed) ↦ absurd (ground (arith, sym (credit_unlisted failed) ∙ ap (λ y. y.0) e))
    | inr (last, found) ↦
        elim (Option-cases (db.transactions.insert (row in_ last) s.transactions)) [
          | inl refused ↦ absurd (
              ground (
                arith,
                sym (ap (λ y. y.0) (credit_refused db id wallet_id amount s last found refused))
                    ∙ ap (λ y. y.0) e,
              ))
          | inr (u, taken) ↦ (
            last,
            subst (λ y. IsRecorded db id (row in_ last) y.1)
                (sym (credit_lem db id wallet_id amount s last u found taken) ∙ e)
                (settled-IsRecorded db id (row in_ last) (saved db id wallet_id amount s in_ last)
                  (load db wallet_id (recorded db s u)) (recorded db s u)
                  (taken-IsRecorded in_ last u taken)),
          )
        ]
  ]

  debit_held_unlisted :
      {e : Exception} (w : Wallet)
      → last_of db wallet_id s ≡ throw e
      → (debit_held db w id wallet_id amount s).0 ≡ throw e
  unfolding TransactionRepository.get_last_if_exists_by
  debit_held_unlisted w failed = rw failed refl

  debit_held_records :
      (w : Wallet) {t : Transaction} {s' : World db}
      → debit_held db w id wallet_id amount s ≡ (ok t, s')
      → (last : Option Transaction) × IsRecorded db id (row out last) s'
  debit_held_records w {t} {s'} e = elim (Result-cases (last_of db wallet_id s)) [
    | inl (x, failed) ↦
        absurd (ground (arith, sym (debit_held_unlisted w failed) ∙ ap (λ y. y.0) e))
    | inr (last, found) ↦
        elim (Option-cases (db.transactions.insert (row out last) s.transactions)) [
          | inl refused ↦ absurd (
              ground (
                arith,
                sym (
                      ap (λ y. y.0)
                        (debit_held_refused db id wallet_id amount s w last found refused))
                    ∙ ap (λ y. y.0) e,
              ))
          | inr (u, taken) ↦ (
            last,
            subst (λ y. IsRecorded db id (row out last) y.1)
                (sym (debit_held_lem db id wallet_id amount s w last u found taken) ∙ e)
                (listed-IsRecorded db id (row out last) (saved db id wallet_id amount s out last) w
                  (all_after db w.last_transaction_version (recorded db s u)) (recorded db s u)
                  (taken-IsRecorded out last u taken)),
          )
        ]
  ]

  -- A debit that returns has recorded a transaction under its id.
  pub debit_records :
      (kind : NotificationType) {t : Transaction} {s' : World db}
      → debit db id wallet_id amount kind s ≡ (ok t, s')
      → (last : Option Transaction) × IsRecorded db id (row out last) s'
  debit_records kind {t} {s'} e = elim (debit_lem db id wallet_id amount s kind) [
    | inl (x, absent, failed) ↦
        absurd (ground (arith, sym (ap (λ y. y.0) failed) ∙ ap (λ y. y.0) e))
    | inr (inl (w, found, short, failed)) ↦
        absurd (ground (arith, sym (ap (λ y. y.0) failed) ∙ ap (λ y. y.0) e))
    | inr (inr (w, found, held, goes)) ↦ debit_held_records w (sym goes ∙ e)
  ]

  -- A transaction that a credit or a debit has recorded is found as an entity, if its amount is
  -- exact.
  pub existing-IsRecorded :
      (type : TransactionType) (last : Option Transaction) (s' : World db)
      → amount.value < 2 ^ 53
      → IsRecorded db id (row type last) s'
      → (t : Transaction) × (existing db id s' ≡ ok (some t))
  unfolding TransactionRepository.get_transaction_if_exists Transaction.create
  existing-IsRecorded type last s' small j =
      let t = made db id wallet_id amount s type last in
      (
        set_transaction_control t (next t.transaction_control),
        rw (j, to_entity-to_row t (next t.transaction_control) small) refl,
      )
