-- ===== src/TransactionService/Frame.antt =====
-- transaction.service.ts: a credit or a debit of one wallet changes no other.
use tanta.Base.{ℕ, String, ◌≡◌, ◌≢◌, refl, sym, ◌∙◌, Option, not, Option-cases, inl, inr}
use tanta.Money.{Money}
use tanta.Notification.{NotificationType}
use tanta.Shared.DateTime.{new_date_time}
use tanta.Shared.Exception.{Result, ok}
use tanta.Transaction
use tanta.Transaction.{Transaction, in_, out}
use tanta.TransactionRepository
use tanta.TransactionRepository.Laws.{row_of, save_taken, save_refused}
use tanta.TransactionService.{credit, debit, debit_held, refuse, update_wallet}
use tanta.Wallet.{Wallet, has_up_to}
use tanta.WalletRepository
use tanta.WalletRepository.Load.{load, load_pure, load-wallet_id}
use tanta.WalletService
use tanta.WalletService.Update.{load-update_balance_ne}
use tanta.World.{Database, World, Action, now, pure, ◌>>=◌}
use tanta.World.Leaves.{Leaves, Leaves-pure, Leaves-if, Leaves-bind}

module _ (db : Database) (other : String) where
  abbrev view : World db → Result Wallet
  view = load db other

  abbrev pub LeavesOther : {A : Type 0} → (World db → Result A × World db) → Type 0
  LeavesOther m = Leaves view m

  now-LeavesOther : LeavesOther (now {db = db})
  unfolding WalletRepository.get_wallet_by_id
  now-LeavesOther = record { at = λ s. refl }

  last-LeavesOther : (id : String) → LeavesOther (TransactionRepository.get_last_if_exists_by db id)
  unfolding TransactionRepository.get_last_if_exists_by
  last-LeavesOther id = record { at = λ s. refl }

  save-LeavesOther : (t : Transaction) → LeavesOther (TransactionRepository.save db t)
  unfolding WalletRepository.get_wallet_by_id
  save-LeavesOther t = record {
    at = λ s. elim (Option-cases (db.transactions.insert (row_of t) s.transactions)) [
      | inl refused ↦ rw (save_refused db t s refused)
      | inr (u, taken) ↦ rw (save_taken db t s u taken)
    ];
  }

  pub get_wallet_by_id-LeavesOther :
      (id : String) → LeavesOther (WalletService.get_wallet_by_id db id)
  unfolding WalletService.get_wallet_by_id
  get_wallet_by_id-LeavesOther id = record { at = λ s. rw (load_pure db id s) refl }

  found_id :
      (id : String) (s : World db) (w : Wallet)
      → (WalletService.get_wallet_by_id db id s).0 ≡ ok w
      → w.wallet_id ≡ id
  unfolding WalletService.get_wallet_by_id
  found_id id s w e = (load-wallet_id db id s e).0

  pub update_wallet-LeavesOther :
      (w : Wallet) → w.wallet_id ≢ other → LeavesOther (update_wallet db w)
  unfolding update_wallet TransactionRepository.get_all_in_asc_order_after
  update_wallet-LeavesOther w ne =
      Leaves-bind view
        (TransactionRepository.get_all_in_asc_order_after db w.last_transaction_version)
        (λ ts. WalletService.update_balance db w.wallet_id ts >>= λ _. pure tt)
        (record { at = λ s. refl })
        λ ts _ _.
          Leaves-bind view (WalletService.update_balance db w.wallet_id ts) (λ _. pure tt)
            (record { at = λ s. load-update_balance_ne db w.wallet_id other ts s ne })
            λ _ _ _. Leaves-pure view tt

  -- The rest of a credit or a debit of another wallet, once its transaction is saved.
  finish-LeavesOther :
      (w : Wallet) (t : Transaction)
      → w.wallet_id ≢ other
      → LeavesOther (update_wallet db w >>= λ _. pure t)
  finish-LeavesOther w t ne =
      Leaves-bind view (update_wallet db w) (λ _. pure t) (update_wallet-LeavesOther w ne)
        λ _ _ _. Leaves-pure view t

  -- The common beginning of a credit and a debit: it only records a transaction.
  recording-LeavesOther :
      (id : String) (make : Option Transaction → ℕ → Transaction)
      (rest : Transaction → Action db Transaction)
      → ((t : Transaction) → LeavesOther (rest t))
      → LeavesOther (
          TransactionRepository.get_last_if_exists_by db id >>= λ last.
          now >>= λ created_at. TransactionRepository.save db (make last created_at) >>= rest)
  recording-LeavesOther id make rest ends =
      Leaves-bind view (TransactionRepository.get_last_if_exists_by db id)
        (λ last.
          now >>= λ created_at. TransactionRepository.save db (make last created_at) >>= rest)
        (last-LeavesOther id)
        λ last _ _.
          Leaves-bind view now
            (λ created_at. TransactionRepository.save db (make last created_at) >>= rest)
            now-LeavesOther
            λ created_at _ _.
              Leaves-bind view (TransactionRepository.save db (make last created_at)) rest
                (save-LeavesOther (make last created_at)) λ t _ _. ends t

  -- A credit of one wallet, returning or throwing, changes what is loaded for no other.
  pub credit-LeavesOther :
      (id wallet_id : String) (amount : Money)
      → wallet_id ≢ other
      → LeavesOther (credit db id wallet_id amount)
  unfolding credit
  credit-LeavesOther id wallet_id amount ne =
      recording-LeavesOther wallet_id
        (λ last created_at.
          Transaction.create last wallet_id amount in_ id (new_date_time created_at))
        (λ saved. WalletService.get_wallet_by_id db wallet_id >>= λ w.
          update_wallet db w >>= λ _. pure saved)
        λ saved.
          Leaves-bind view (WalletService.get_wallet_by_id db wallet_id)
            (λ w. update_wallet db w >>= λ _. pure saved) (get_wallet_by_id-LeavesOther wallet_id)
            λ w s found.
              finish-LeavesOther w saved (λ e. ne (sym (found_id wallet_id s w found) ∙ e))

  refuse-LeavesOther : (w : Wallet) (kind : NotificationType) → LeavesOther (refuse db w kind)
  unfolding WalletRepository.get_wallet_by_id
  refuse-LeavesOther w kind = record { at = λ s. refl }

  debit_held-LeavesOther :
      (w : Wallet) (id wallet_id : String) (amount : Money)
      → w.wallet_id ≢ other
      → LeavesOther (debit_held db w id wallet_id amount)
  debit_held-LeavesOther w id wallet_id amount ne =
      recording-LeavesOther wallet_id
        (λ last created_at.
          Transaction.create last wallet_id amount out id (new_date_time created_at))
        (λ saved. update_wallet db w >>= λ _. pure saved) λ saved. finish-LeavesOther w saved ne

  -- A debit of one wallet, returning or throwing, changes what is loaded for no other.
  pub debit-LeavesOther :
      (id wallet_id : String) (amount : Money) (kind : NotificationType)
      → wallet_id ≢ other
      → LeavesOther (debit db id wallet_id amount kind)
  unfolding debit
  debit-LeavesOther id wallet_id amount kind ne =
      Leaves-bind view (WalletService.get_wallet_by_id db wallet_id) _
        (get_wallet_by_id-LeavesOther wallet_id)
        λ w s found. Leaves-if view (not (has_up_to w amount)) (refuse-LeavesOther w kind) (
          debit_held-LeavesOther w id wallet_id amount
            (λ e. ne (sym (found_id wallet_id s w found) ∙ e)))
