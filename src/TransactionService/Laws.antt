-- ===== src/TransactionService/Laws.antt =====
-- transaction.service.ts: `credit` and `debit` on every path, by what their parts do.
use tanta.Base.{
  suc, String, ◌≡◌, ◌⊎◌, refl, inl, inr, Bool-cases, true, false, Option, none, some, List, [], ◌∷◌,
  ◌++◌,
}
use tanta.Money.{Money}
use tanta.Notification.{NotificationType}
use tanta.Shared.ConcurrencyControl.{next}
use tanta.Shared.DateTime.{new_date_time}
use tanta.Shared.Exception.{
  Exception, Result, ok, throw, transaction, persistence, insufficient_fund, Result-cases,
}
use tanta.Transaction
use tanta.Transaction.{Transaction, TransactionType, in_, out, set_transaction_control}
use tanta.TransactionRepository
use tanta.TransactionRepository.Laws.{row_of, save_taken, save_refused, last_of, all_after}
use tanta.TransactionService.{credit, debit, debit_held, update_wallet, refusal}
use tanta.Wallet.{Wallet, has_up_to}
use tanta.WalletRepository
use tanta.WalletRepository.Load.{load}
use tanta.WalletService
use tanta.World.{Database, World, lift, pure, ◌>>=◌}

module _ (db : Database) where
  -- What a method answers that goes on to return `b`.
  abbrev pub then_return : {A B : Type 0} → B → Result A × World db → Result B × World db
  then_return b (ok _, s) = (ok b, s)
  then_return b (throw e, s) = (throw e, s)

  -- The end of a credit or a debit: the listed transactions are handed to `updateBalance`.
  abbrev pub apply_listed :
      {B : Type 0} → B → Wallet → Result (List Transaction) → World db → Result B × World db
  apply_listed b w (throw e) s = (throw e, s)
  apply_listed b w (ok ts) s = then_return b (WalletService.update_balance db w.wallet_id ts s)

  abbrev pub settle_up : {B : Type 0} → B → Result Wallet → World db → Result B × World db
  settle_up b (throw e) s = (throw e, s)
  settle_up b (ok w) s = apply_listed b w (all_after db w.last_transaction_version s) s

  returning :
      {A B : Type 0} (b : B) (r : Result A × World db)
      → (lift r.0 >>= λ _. pure b) r.1 ≡ then_return b r
  returning b (ok a, s) = refl
  returning b (throw e, s) = refl

  listing :
      {B : Type 0} (b : B) (w : Wallet) (r : Result (List Transaction)) (s : World db)
      → (lift r >>= λ ts. WalletService.update_balance db w.wallet_id ts >>= λ _. pure b) s
        ≡ apply_listed b w r s
  listing b w (ok ts) s = returning b (WalletService.update_balance db w.wallet_id ts s)
  listing b w (throw e) s = refl

  -- `updateWallet` hands the transactions above the wallet's version to `updateBalance`.
  pub update_wallet_lem :
      (w : Wallet) (s : World db)
      → update_wallet db w s ≡ apply_listed tt w (all_after db w.last_transaction_version s) s
  unfolding update_wallet TransactionRepository.get_all_in_asc_order_after
  update_wallet_lem w s = listing tt w (all_after db w.last_transaction_version s) s

  -- So the same end, with another value to return.
  updating :
      {B : Type 0} (b : B) (w : Wallet) (s : World db)
      → (update_wallet db w >>= λ _. pure b) s
        ≡ apply_listed b w (all_after db w.last_transaction_version s) s
  updating b w s = rw (update_wallet_lem w s) (again (all_after db w.last_transaction_version s))
    where
      thrice :
          (r : Result Wallet × World db)
          → (lift (then_return tt r).0 >>= λ _. pure b) (then_return tt r).1 ≡ then_return b r
      thrice (ok a, s) = refl
      thrice (throw e, s) = refl

      again :
          (r : Result (List Transaction))
          → (lift (apply_listed tt w r s).0 >>= λ _. pure b) (apply_listed tt w r s).1
            ≡ apply_listed b w r s
      again (ok ts) = thrice (WalletService.update_balance db w.wallet_id ts s)
      again (throw e) = refl

  settling :
      {B : Type 0} (b : B) (r : Result Wallet) (s : World db)
      → (lift r >>= λ w. update_wallet db w >>= λ _. pure b) s ≡ settle_up b r s
  settling b (ok w) s = updating b w s
  settling b (throw e) s = refl

  -- The world with a time drawn, and with the transactions replaced too.
  abbrev pub ticked : World db → World db
  ticked s = record s { times = λ n. s.times (suc n) }

  abbrev pub recorded : World db → db.transactions.Store → World db
  recorded s u = record s { transactions = u; times = λ n. s.times (suc n) }

  module _ (id wallet_id : String) (amount : Money) (s : World db) where
    -- The transaction that a credit or a debit makes, after the last one that was found.
    abbrev pub made : TransactionType → Option Transaction → Transaction
    made type last = Transaction.create last wallet_id amount type id (new_date_time (s.times 0))

    -- The same, as `save` leaves it.
    abbrev pub saved : TransactionType → Option Transaction → Transaction
    saved type last =
        set_transaction_control (made type last) (next (made type last).transaction_control)

    -- A credit first records its transaction; only then the wallet is looked up.
    pub credit_lem :
        (last : Option Transaction) (u : db.transactions.Store)
        → last_of db wallet_id s ≡ ok last
        → db.transactions.insert (row_of (made in_ last)) s.transactions ≡ some u
        → credit db id wallet_id amount s
          ≡ settle_up (saved in_ last) (load db wallet_id (recorded s u)) (recorded s u)
    unfolding credit WalletService.get_wallet_by_id WalletRepository.get_wallet_by_id
        TransactionRepository.get_last_if_exists_by
    credit_lem last u found taken =
        rw (found, save_taken db (made in_ last) (ticked s) u taken)
          (settling (saved in_ last) (load db wallet_id (recorded s u)) (recorded s u))

    -- A credit whose row the server refuses throws and leaves the tables alone.
    pub credit_refused :
        (last : Option Transaction)
        → last_of db wallet_id s ≡ ok last
        → db.transactions.insert (row_of (made in_ last)) s.transactions ≡ none
        → credit db id wallet_id amount s ≡ (throw (transaction persistence), (ticked s))
    unfolding credit TransactionRepository.get_last_if_exists_by
    credit_refused last found refused =
        rw (found, save_refused db (made in_ last) (ticked s) refused) refl

    -- A debit that the wallet is found to hold goes on.
    pub debit-eq-debit_held :
        (kind : NotificationType) (w : Wallet)
        → load db wallet_id s ≡ ok w
        → has_up_to w amount ≡ true
        → debit db id wallet_id amount kind s ≡ debit_held db w id wallet_id amount s
    unfolding debit WalletService.get_wallet_by_id WalletRepository.get_wallet_by_id
    debit-eq-debit_held kind w found held = rw (found, held) refl

    -- The world in which the owner has been told about a refused debit.
    abbrev pub told : Wallet → NotificationType → World db
    told w kind = record s {
      notified =
          s.notified
          ++ record { user_id = w.user_id; message = refusal; notification_type = kind } ∷ [];
    }

    -- If the wallet does not load, a debit throws what the load throws and changes nothing. If it does
    -- not hold the amount, it tells the owner and throws, and no table has changed. Else it goes on
    -- with what is left to do of a debit.
    pub debit_lem :
        (kind : NotificationType)
        → ((e : Exception) × (load db wallet_id s ≡ throw e)
            × (debit db id wallet_id amount kind s ≡ (throw e, s)))
          ⊎ ((w : Wallet) × (load db wallet_id s ≡ ok w)
              × (has_up_to w amount ≡ false)
              × (debit db id wallet_id amount kind s
                  ≡ (throw (transaction insufficient_fund), told w kind)))
          ⊎ ((w : Wallet) × (load db wallet_id s ≡ ok w)
              × (has_up_to w amount ≡ true)
              × (debit db id wallet_id amount kind s ≡ debit_held db w id wallet_id amount s))
    unfolding debit WalletService.get_wallet_by_id WalletRepository.get_wallet_by_id
    debit_lem kind = elim (Result-cases (load db wallet_id s)) [
      | inl (e, absent) ↦ inl (e, absent, rw absent refl)
      | inr (w, found) ↦ elim (Bool-cases (has_up_to w amount)) [
        | inl held ↦ inr (inr (w, found, held, debit-eq-debit_held kind w found held))
        | inr short ↦ inr (inl (w, found, short, rw (found, short) refl))
      ]
    ]

    pub debit_held_lem :
        (w : Wallet) (last : Option Transaction) (u : db.transactions.Store)
        → last_of db wallet_id s ≡ ok last
        → db.transactions.insert (row_of (made out last)) s.transactions ≡ some u
        → debit_held db w id wallet_id amount s
          ≡ apply_listed
              (saved out last)
              w
              (all_after db w.last_transaction_version (recorded s u))
              (recorded s u)
    unfolding TransactionRepository.get_last_if_exists_by
    debit_held_lem w last u found taken =
        rw (found, save_taken db (made out last) (ticked s) u taken)
          (updating (saved out last) w (recorded s u))

    pub debit_held_refused :
        (w : Wallet) (last : Option Transaction)
        → last_of db wallet_id s ≡ ok last
        → db.transactions.insert (row_of (made out last)) s.transactions ≡ none
        → debit_held db w id wallet_id amount s ≡ (throw (transaction persistence), (ticked s))
    unfolding TransactionRepository.get_last_if_exists_by
    debit_held_refused w last found refused =
        rw (found, save_refused db (made out last) (ticked s) refused) refl
