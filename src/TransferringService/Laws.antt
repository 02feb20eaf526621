-- ===== src/TransferringService/Laws.antt =====
-- transferring.service.ts: who may transfer, what a repeated step does, and which wallets change.
use tanta.Base.{
  String, ◌≡◌, ◌≢◌, ◌⊎◌, refl, inl, inr, Bool-cases, not, Option, none, some, str_eq, eq_iff, arith,
}
use tanta.Money.{Money}
use tanta.Notification.{NotificationType}
use tanta.Shared.Exception.{Exception, Result, ok, throw, transferring, not_allowed, Result-cases}
use tanta.Transaction.{Transaction}
use tanta.TransactionRepository
use tanta.TransactionRepository.Laws.{existing}
use tanta.TransactionService
use tanta.TransactionService.Frame.{
  LeavesOther, credit-LeavesOther, debit-LeavesOther, get_wallet_by_id-LeavesOther,
}
use tanta.Transferring.{Transferring, initalize, get_receiver_credit_transaction_id}
use tanta.TransferringService.{process, transfer, start, unless_exists}
use tanta.WalletRepository
use tanta.WalletRepository.Load.{load}
use tanta.WalletService
use tanta.Wallet.{Wallet}
use tanta.World.{Database, World, Action, pure, uuid, ◌>>=◌}
use tanta.World.Leaves.{Leaves-pure, Leaves-raise, Leaves-if, Leaves-bind}

module _ (db : Database) where
  -- A transfer reads the sender's wallet first. If that fails, or if the wallet is another user's, it
  -- throws and nothing has changed, no id drawn included; else it starts.
  pub transfer_lem :
      (user_id sender receiver : String) (amount : Money) (kind : NotificationType) (s : World db)
      → ((e : Exception) × (load db sender s ≡ throw e)
          × (transfer db user_id sender receiver amount kind s ≡ (throw e, s)))
        ⊎ ((w : Wallet) × (load db sender s ≡ ok w)
            × (w.user_id ≢ user_id)
            × (transfer db user_id sender receiver amount kind s
                ≡ (throw (transferring not_allowed), s)))
        ⊎ ((w : Wallet) × (load db sender s ≡ ok w)
            × (w.user_id ≡ user_id)
            × (transfer db user_id sender receiver amount kind s
                ≡ start db sender receiver amount kind s))
  unfolding transfer WalletService.get_wallet_by_id WalletRepository.get_wallet_by_id
  transfer_lem user_id sender receiver amount kind s = elim (Result-cases (load db sender s)) [
    | inl (e, absent) ↦ inl (e, absent, rw absent refl)
    | inr (w, found) ↦ elim (Bool-cases (str_eq w.user_id user_id)) [
      | inl owner ↦
          inr (inr (w, found, ground (arith, eq_iff w.user_id user_id), rw (found, owner) refl))
      | inr stranger ↦
          inr (inl (w, found, ground (arith, eq_iff w.user_id user_id), rw (found, stranger) refl))
    ]
  ]

  -- `process` of a transfer whose two transactions are both recorded does nothing.
  pub process_done :
      (t : Transferring) (s : World db) {debited credited : Transaction}
      → existing db t.sender_debit_transaction_id s ≡ ok (some debited)
      → existing db (get_receiver_credit_transaction_id t) s ≡ ok (some credited)
      → process db t s ≡ (ok tt, s)
  unfolding process TransactionService.get_transaction_if_exists
      TransactionRepository.get_transaction_if_exists
  process_done t s d c = rw (d, c) refl

  module _ (other : String) where
    abbrev view : World db → Result Wallet
    view = load db other

    unless_exists-LeavesOther :
        (found : Option Transaction) (act : Action db Transaction)
        → LeavesOther db other act
        → LeavesOther db other (unless_exists db found act)
    unless_exists-LeavesOther (some _) act leaves = Leaves-pure view tt
    unless_exists-LeavesOther none act leaves =
        Leaves-bind view act (λ _. pure tt) leaves λ _ _ _. Leaves-pure view tt

    look-LeavesOther :
        (id : String) → LeavesOther db other (TransactionService.get_transaction_if_exists db id)
    unfolding TransactionService.get_transaction_if_exists
        TransactionRepository.get_transaction_if_exists
    look-LeavesOther id = record { at = λ s. refl }

    -- `process` changes what is loaded for no wallet but the sender's: not for the receiver's either.
    pub process-LeavesOther :
        (t : Transferring) → t.sender_wallet_id ≢ other → LeavesOther db other (process db t)
    unfolding process
    process-LeavesOther t ne =
        let credit_id = get_receiver_credit_transaction_id t in
        let crediting = TransactionService.credit db credit_id t.sender_wallet_id t.amount in
        let debiting =
          TransactionService.debit db t.sender_debit_transaction_id t.sender_wallet_id t.amount
            t.notification_type in
        let then_credit : Action db (Unit {0}) =
          TransactionService.get_transaction_if_exists db credit_id >>= λ credited.
          unless_exists db credited crediting in
        Leaves-bind view
          (TransactionService.get_transaction_if_exists db t.sender_debit_transaction_id)
          (λ debited. unless_exists db debited debiting >>= λ _. then_credit)
          (look-LeavesOther t.sender_debit_transaction_id)
          λ debited _ _.
            Leaves-bind view (unless_exists db debited debiting) (λ _. then_credit)
              (unless_exists-LeavesOther debited debiting
                (debit-LeavesOther db other _ t.sender_wallet_id t.amount t.notification_type ne))
              λ _ _ _.
                Leaves-bind view (TransactionService.get_transaction_if_exists db credit_id)
                  (λ credited. unless_exists db credited crediting) (look-LeavesOther credit_id)
                  λ credited _ _.
                    unless_exists-LeavesOther credited crediting
                      (credit-LeavesOther db other credit_id t.sender_wallet_id t.amount ne)

    -- Drawing an id changes no wallet.
    drawing-LeavesOther :
        {A : Type 0} (rest : String → Action db A)
        → ((id : String) → LeavesOther db other (rest id))
        → LeavesOther db other (uuid >>= rest)
    unfolding WalletRepository.get_wallet_by_id
    drawing-LeavesOther rest ends =
        Leaves-bind view uuid rest (record { at = λ s. refl }) λ id _ _. ends id

    process_then-LeavesOther :
        (t : Transferring)
        → t.sender_wallet_id ≢ other
        → LeavesOther db other (process db t >>= λ _. pure t)
    process_then-LeavesOther t ne =
        Leaves-bind view (process db t) (λ _. pure t) (process-LeavesOther t ne)
          λ _ _ _. Leaves-pure view t

    start-LeavesOther :
        (sender receiver : String) (amount : Money) (kind : NotificationType)
        → sender ≢ other
        → LeavesOther db other (start db sender receiver amount kind)
    unfolding initalize
    start-LeavesOther sender receiver amount kind ne = drawing-LeavesOther _ λ id.
        drawing-LeavesOther _ λ debit_id. drawing-LeavesOther _ λ credit_id.
          process_then-LeavesOther (initalize sender receiver amount kind id debit_id credit_id) ne

    -- A transfer changes what is loaded for no wallet but the sender's.
    pub transfer-LeavesOther :
        (user_id sender receiver : String) (amount : Money) (kind : NotificationType)
        → sender ≢ other
        → LeavesOther db other (transfer db user_id sender receiver amount kind)
    unfolding transfer
    transfer-LeavesOther user_id sender receiver amount kind ne =
        Leaves-bind view (WalletService.get_wallet_by_id db sender) _
          (get_wallet_by_id-LeavesOther db other sender)
          λ w _ _.
            Leaves-if view (not (str_eq w.user_id user_id))
              (Leaves-raise view (transferring not_allowed))
              (start-LeavesOther sender receiver amount kind ne)
