-- ===== src/TransactionService/Applied.antt =====
-- transaction.service.ts: when a credit or a debit reaches the balance, and when it does not.
use tanta.Base.{
  ℕ, String, ◌+◌, ◌^◌, ◌<◌, ◌≤◌, ◌≡◌, refl, sym, ap, ◌∙◌, Option, some, List, [], ◌∷◌, arith, true,
}
use tanta.Balance.{apply_transactions}
use tanta.Balance.Ledger.{IsInCredit}
use tanta.Money.{Money, greater_or_equal}
use tanta.Money.Laws.{same_currency_iff}
use tanta.Notification.{NotificationType}
use tanta.Shared.ConcurrencyControl.{get_version}
use tanta.Shared.Exception.{Result, ok}
use tanta.Transaction
use tanta.Transaction.{Transaction, TransactionType, in_, out}
use tanta.TransactionRepository.After.{NoneAfter, all_after-insert_new, all_after-insert_old}
use tanta.TransactionRepository.Laws.{row_of, last_of, all_after}
use tanta.TransactionService.{credit, debit}
use tanta.TransactionService.Laws.{
  made, saved, recorded, ticked, settle_up, apply_listed, then_return, credit_lem, debit_held_lem,
  debit-eq-debit_held,
}
use tanta.Wallet.{Wallet, has_up_to, get_state}
use tanta.WalletRepository.Laws.{write, reloaded}
use tanta.WalletRepository.{get_wallet_by_id}
use tanta.WalletRepository.Load.{load, load-wallet_id}
use tanta.WalletService.Update.{load-update_balance, load-update_balance_nil}
use tanta.WalletService.{update_balance}
use tanta.World.{Database, World}

pub held-covers :
    (w : Wallet) (amount : Money)
    → has_up_to w amount ≡ true
    → (amount.currency ≡ w.balance.currency) × (amount.value ≤ w.balance.value)
unfolding has_up_to greater_or_equal
held-covers w amount h =
    (sym ((same_currency_iff w.balance.currency amount.currency).0 (ground arith)), ground arith)

module _ (db : Database) where
  -- The load of a wallet does not look at the transactions or the clock.
  pub load-recorded :
      (id : String) (s : World db) (u : db.transactions.Store)
      → load db id (recorded db s u) ≡ load db id s
  unfolding get_wallet_by_id
  load-recorded id s u = refl

  module _ (id wallet_id : String) (amount : Money) (s : World db) (w : Wallet)
      (last : Option Transaction) (u : db.transactions.Store) (loaded : load db wallet_id s ≡ ok w)
      (found : last_of db wallet_id s ≡ ok last)
      (none_before : NoneAfter db w.last_transaction_version s) where
    abbrev version_of : TransactionType → ℕ
    version_of type = get_version (saved db id wallet_id amount s type last).transaction_control

    ended :
        {B : Type 0} (b : B) (ts : List Transaction) {r : Result Wallet × World db}
        → all_after db w.last_transaction_version (recorded db s u) ≡ ok ts
        → update_balance db wallet_id ts (recorded db s u) ≡ r
        → apply_listed db b w
            (all_after db w.last_transaction_version (recorded db s u))
            (recorded db s u)
          ≡ then_return db b r
    ended b ts listed updated =
        ap (λ l. apply_listed db b w l (recorded db s u)) listed
        ∙ ap (λ k. then_return db b (update_balance db k ts (recorded db s u)))
            (load-wallet_id db wallet_id s loaded).0
        ∙ ap (then_return db b) updated

    loaded_still : load db wallet_id (recorded db s u) ≡ ok w
    loaded_still = load-recorded wallet_id s u ∙ loaded

    credited :
        (ts : List Transaction) {r : Result Wallet × World db}
        → db.transactions.insert (row_of (made db id wallet_id amount s in_ last)) s.transactions
          ≡ some u
        → all_after db w.last_transaction_version (recorded db s u) ≡ ok ts
        → update_balance db wallet_id ts (recorded db s u) ≡ r
        → credit db id wallet_id amount s
          ≡ then_return db (saved db id wallet_id amount s in_ last) r
    credited ts taken listed updated =
        let tx = saved db id wallet_id amount s in_ last in
        credit_lem db id wallet_id amount s last u found taken
        ∙ ap (λ l. settle_up db tx l (recorded db s u)) loaded_still
        ∙ ended tx ts listed updated

    -- A credit whose version is the next one of the wallet, in the wallet's currency and within 2^53,
    -- while no transaction is above the wallet's version and nothing is owed: if the server takes
    -- both rows, it returns, and the wallet that loads has the amount more and is one version up.
    pub credit_adds :
        (w' : Wallet) (t : db.wallets.Store)
        → db.transactions.insert (row_of (made db id wallet_id amount s in_ last)) s.transactions
          ≡ some u
        → version_of in_ ≡ w.last_transaction_version + 1
        → amount.currency ≡ w.balance.currency
        → w.balance.value + amount.value < 2 ^ 53
        → IsInCredit w
        → apply_transactions w (saved db id wallet_id amount s in_ last ∷ []) ≡ ok w'
        → write db w' s.wallets ≡ some t
        → (v : Wallet) × (credit db id wallet_id amount s ≡ (
          ok (saved db id wallet_id amount s in_ last),
          record (recorded db s u) { wallets = t },
        ))
          × (load db wallet_id (record (recorded db s u) { wallets = t }) ≡ ok v)
          × (v.balance.value ≡ w.balance.value + amount.value)
          × IsInCredit v
          × (v.last_transaction_version ≡ w.last_transaction_version + 1)
    unfolding Transaction.create
    credit_adds w' t taken version same small credit_ loop taken' =
        let tx = saved db id wallet_id amount s in_ last in
        let listed =
          all_after-insert_new db (made db id wallet_id amount s in_ last)
            w.last_transaction_version (ticked db s) u taken (omega arith) none_before
            (omega arith) in
        let (v, returns, loads, value, nothing_owed, moved, _) =
          load-update_balance db wallet_id (tx ∷ []) (recorded db s u) w w' t loaded_still
            (omega arith) (version, tt) (same, tt) credit_ (tt, tt) loop taken' in
        (v, credited (tx ∷ []) taken listed returns, loads, value, nothing_owed, omega arith)

    -- A credit whose version is not above the wallet's, while no transaction is: if the server takes
    -- both rows, it returns and its transaction is recorded, but the wallet that loads has the state
    -- that it had, the balance and the version included.
    pub credit_lost :
        (t : db.wallets.Store)
        → db.transactions.insert (row_of (made db id wallet_id amount s in_ last)) s.transactions
          ≡ some u
        → version_of in_ ≤ w.last_transaction_version
        → w.balance.value < 2 ^ 53
        → write db w s.wallets ≡ some t
        → (v : Wallet) × (credit db id wallet_id amount s ≡ (
          ok (saved db id wallet_id amount s in_ last),
          record (recorded db s u) { wallets = t },
        ))
          × (load db wallet_id (record (recorded db s u) { wallets = t }) ≡ ok v)
          × (get_state v ≡ get_state w)
    credit_lost t taken version small taken' =
        let listed =
          all_after-insert_old db (made db id wallet_id amount s in_ last)
            w.last_transaction_version (ticked db s) u taken none_before version in
        let (returns, loads) =
          load-update_balance_nil db wallet_id (recorded db s u) w t loaded_still small taken' in
        (reloaded w, credited [] taken listed returns, loads, refl)

    -- A debit of an amount that the wallet is found to hold, whose version is the next one of the
    -- wallet, with balance and amount together within 2^53, while no transaction is above the wallet's
    -- version and nothing is owed: if the server takes both rows, it returns, and the wallet that loads
    -- has the amount less and is one version up.
    pub debit_takes :
        (kind : NotificationType) (w' : Wallet) (t : db.wallets.Store)
        → has_up_to w amount ≡ true
        → db.transactions.insert (row_of (made db id wallet_id amount s out last)) s.transactions
          ≡ some u
        → version_of out ≡ w.last_transaction_version + 1
        → w.balance.value + amount.value < 2 ^ 53
        → IsInCredit w
        → apply_transactions w (saved db id wallet_id amount s out last ∷ []) ≡ ok w'
        → write db w' s.wallets ≡ some t
        → (v : Wallet) × (debit db id wallet_id amount kind s ≡ (
          ok (saved db id wallet_id amount s out last),
          record (recorded db s u) { wallets = t },
        ))
          × (load db wallet_id (record (recorded db s u) { wallets = t }) ≡ ok v)
          × (v.balance.value + amount.value ≡ w.balance.value)
          × IsInCredit v
          × (v.last_transaction_version ≡ w.last_transaction_version + 1)
    unfolding Transaction.create
    debit_takes kind w' t held taken version small credit_ loop taken' =
        let tx = saved db id wallet_id amount s out last in
        let (same, covered) = held-covers w amount held in
        let listed =
          all_after-insert_new db (made db id wallet_id amount s out last)
            w.last_transaction_version (ticked db s) u taken (omega arith) none_before
            (omega arith) in
        let (v, returns, loads, value, nothing_owed, moved, _) =
          load-update_balance db wallet_id (tx ∷ []) (recorded db s u) w w' t loaded_still
            (omega arith) (version, tt) (same, tt) credit_ (covered, tt) loop taken' in
        (
          v,
          debit-eq-debit_held db id wallet_id amount s kind w loaded held
              ∙ debit_held_lem db id wallet_id amount s w last u found taken
              ∙ ended tx (tx ∷ []) listed returns,
          loads,
          omega arith,
          nothing_owed,
          omega arith,
        )
