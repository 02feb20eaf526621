-- ===== src/TransactionService/Blocked.antt =====
-- transaction.service.ts: `updateWallet` lists the transactions of all wallets, so a version that
-- is taken, by whichever wallet, blocks a credit.
use tanta.Base.{
  ℕ, suc, String, ◌+◌, ◌<◌, ◌≤◌, ◌≡◌, refl, sym, ap, ◌∙◌, inl, inr, Bool-cases, Option, some, List,
  [], ◌∷◌, arith, ◌==◌, ==→eq, length, select, select-perm, length-perm,
}
use mathlib.Core.Path.{subst}
use tanta.Balance.Ledger.{Consecutive}
use tanta.Js.Decimal.{unary_plus}
use tanta.Money.{Money, new_money}
use tanta.Shared.ConcurrencyControl.{get_version, from_version}
use tanta.Shared.Exception.{Exception, ok, throw, Result-cases, >>=-eq-ok, ok_injective}
use tanta.Tables.{TransactionRow}
use tanta.Transaction.{Transaction, in_}
use tanta.TransactionRepository.{to_entity, to_entities}
use tanta.TransactionRepository.After.{
  is_after, listed, all_after-listed, listed-perm, grown-perm, row_of-version,
}
use tanta.TransactionRepository.Laws.{row_of, last_of, all_after}
use tanta.TransactionService.{credit}
use tanta.TransactionService.Applied.{load-recorded}
use tanta.TransactionService.Laws.{
  made, saved, recorded, ticked, settle_up, apply_listed, then_return, credit_lem,
}
use tanta.Wallet.{Wallet}
use tanta.WalletRepository.Load.{load, load-wallet_id}
use tanta.WalletService.Update.{update_balance_atomic, update_balance-Consecutive}
use tanta.World.{Database, World}

-- How many transactions, and how many rows, have the version k.
abbrev count : ℕ → List Transaction → ℕ
count k ts = length (select (λ t. get_version t.transaction_control == k) ts)

abbrev pub count_rows : ℕ → List TransactionRow → ℕ
count_rows k rs = length (select (λ r. r.version == k) rs)

Consecutive-once :
    (v k : ℕ) (ts : List Transaction)
    → Consecutive v ts
    → (count k ts ≤ 1) × (k ≤ v → count k ts ≡ 0)
Consecutive-once v k [] h = (omega arith, λ _. refl)
Consecutive-once v k (t ∷ ts) (here, later) =
    let (once, never) = Consecutive-once (v + 1) k ts later in
    elim (Bool-cases (get_version t.transaction_control == k)) [
      | inl same ↦
          let k_is : k ≡ v + 1 = sym (==→eq _ _ same) ∙ here in
          rw same (omega (arith, never (omega arith)), λ below. absurd (omega arith))
      | inr other ↦ rw other (once, λ below. never (omega arith))
    ]

to_entity-version :
    (r : TransactionRow) {t : Transaction}
    → to_entity r ≡ ok t
    → get_version t.transaction_control ≡ r.version
unfolding to_entity from_version
to_entity-version r e =
    let (amount, read, done) =
      >>=-eq-ok (new_money (unary_plus r.amount_value) r.amount_currency) _ e in
    ap (λ t. get_version t.transaction_control) (sym (ok_injective done))

count-to_entities :
    (k : ℕ) (rs : List TransactionRow) {ts : List Transaction}
    → to_entities rs ≡ ok ts
    → count k ts ≡ count_rows k rs
count-to_entities k [] e = ap (count k) (sym (ok_injective e))
count-to_entities k (r ∷ rs) e =
    let (t, read, rest) = >>=-eq-ok (to_entity r) _ e in
    let (ts, reads, done) = >>=-eq-ok (to_entities rs) _ rest in
    let here = to_entity-version r read in
    let there = count-to_entities k rs reads in
    ap (count k) (sym (ok_injective done)) ∙ rw here (ground arith)

count-after :
    (v k : ℕ) (rs : List TransactionRow)
    → v < k
    → count_rows k (select (is_after v) rs) ≡ count_rows k rs
count-after v k [] above = refl
count-after v k (r ∷ rs) above = ground (arith, count-after v k rs above)

module _ (db : Database) (id wallet_id : String) (amount : Money) (s : World db) (w : Wallet)
    (last : Option Transaction) (u : db.transactions.Store) where
  abbrev k : ℕ
  k = get_version (saved db id wallet_id amount s in_ last).transaction_control

  -- Once recorded, the new transaction is one more of its version among those that are listed.
  counted :
      db.transactions.insert (row_of (made db id wallet_id amount s in_ last)) s.transactions
        ≡ some u
      → w.last_transaction_version < k
      → count_rows k (listed db w.last_transaction_version (recorded db s u))
        ≡ suc (count_rows k (db.transactions.rows s.transactions))
  counted taken above =
      let new = made db id wallet_id amount s in_ last in
      let rows = row_of new ∷ db.transactions.rows s.transactions in
      length-perm (
        select-perm (λ r. r.version == k)
          (listed-perm db w.last_transaction_version (recorded db s u) rows
            (grown-perm db new w.last_transaction_version (ticked db s) u taken)))
      ∙ count-after w.last_transaction_version k rows above
      ∙ ground (arith, row_of-version new)

  -- If the new transaction's version is above the wallet's and some recorded transaction, of
  -- whichever wallet, has it already, the credit throws. Its transaction stays recorded, and no
  -- wallet has changed.
  pub credit_blocked :
      load db wallet_id s ≡ ok w
      → last_of db wallet_id s ≡ ok last
      → db.transactions.insert (row_of (made db id wallet_id amount s in_ last)) s.transactions
        ≡ some u
      → w.last_transaction_version
        < get_version (saved db id wallet_id amount s in_ last).transaction_control
      → 0
        < count_rows
            (get_version (saved db id wallet_id amount s in_ last).transaction_control)
            (db.transactions.rows s.transactions)
      → (e : Exception) × (credit db id wallet_id amount s ≡ (throw e, recorded db s u))
  credit_blocked loaded found taken above used =
      elim (Result-cases (all_after db w.last_transaction_version after)) [
        | inl (e, unreadable) ↦ (e, begun ∙ ap (λ l. apply_listed db tx w l after) unreadable)
        | inr (ts, read) ↦ elim (update_balance_atomic db w.wallet_id ts after) [
          | inl (e, thrown) ↦ (
            e,
            begun ∙ ap (λ l. apply_listed db tx w l after) read ∙ ap (then_return db tx) thrown,
          )
          | inr (v, t, returned) ↦ absurd (
              twice_is_too_often ts read
                (update_balance-Consecutive db w.wallet_id ts after w loads returned))
        ]
      ]
    where
      after : World db
      after = recorded db s u

      tx : Transaction
      tx = saved db id wallet_id amount s in_ last

      begun :
          credit db id wallet_id amount s
          ≡ apply_listed db tx w (all_after db w.last_transaction_version after) after
      begun =
          credit_lem db id wallet_id amount s last u found taken
          ∙ ap (λ l. settle_up db tx l after) (load-recorded db wallet_id s u ∙ loaded)

      loads : load db w.wallet_id after ≡ ok w
      loads =
          subst (λ j. load db j after ≡ ok w) (sym (load-wallet_id db wallet_id s loaded).0)
            (load-recorded db wallet_id s u ∙ loaded)

      twice_is_too_often :
          (ts : List Transaction)
          → all_after db w.last_transaction_version after ≡ ok ts
          → Consecutive w.last_transaction_version ts
          → ⊥
      twice_is_too_often ts read numbered = omega (
        arith,
        (Consecutive-once w.last_transaction_version k ts numbered).0,
        count-to_entities k (listed db w.last_transaction_version after)
            (sym (all_after-listed db w.last_transaction_version after) ∙ read),
        counted taken above,
      )
