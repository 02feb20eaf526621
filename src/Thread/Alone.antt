-- ===== src/Thread/Alone.antt =====
-- A request that no other interrupts does what the method of the service does.
use tanta.Base.{String, refl, not, Option, none, some, List, str_eq}
use tanta.Balance.{apply_transactions}
use tanta.Money.{Money}
use tanta.Notification.{NotificationType}
use tanta.Shared.DateTime.{new_date_time}
use tanta.Shared.Exception.{ok, transferring, not_allowed, throw}
use tanta.Thread.{Thread, returned, call}
use tanta.Thread
use tanta.Thread.Requests
use tanta.Thread.Runs.{Runs, Runs-call, Runs-lift, Runs-if, Runs-bind}
use tanta.Transaction
use tanta.Transaction.{Transaction, TransactionType, in_, out}
use tanta.TransactionRepository
use tanta.TransactionService
use tanta.TransferringService
use tanta.Transferring.{Transferring, initalize, get_receiver_credit_transaction_id}
use tanta.Wallet.{Wallet, has_up_to}
use tanta.WalletRepository
use tanta.WalletService
use tanta.World.{Database, World, Action, now, uuid}
use tanta.World

module _ (db : Database) where
  pub create-Runs :
      (user_id : String) → Runs (Requests.create db user_id) (WalletService.create db user_id)
  unfolding Requests.create WalletService.create
  create-Runs user_id = record { at = λ s. refl }

  pub update_balance-Runs :
      (id : String) (ts : List Transaction)
      → Runs (Requests.update_balance db id ts) (WalletService.update_balance db id ts)
  unfolding Requests.update_balance WalletService.update_balance
  update_balance-Runs id ts =
      Runs-bind (call (WalletRepository.get_wallet_by_id db id))
        (WalletRepository.get_wallet_by_id db id) _ _
        (Runs-call (WalletRepository.get_wallet_by_id db id))
        λ w.
          Runs-bind (returned (apply_transactions w ts)) (World.lift (apply_transactions w ts)) _ _
            (Runs-lift (apply_transactions w ts)) λ w'. Runs-call (WalletRepository.save db w')

  pub update_wallet-Runs :
      (w : Wallet) → Runs (Requests.update_wallet db w) (TransactionService.update_wallet db w)
  unfolding Requests.update_wallet TransactionService.update_wallet
  update_wallet-Runs w =
      Runs-bind
        (call (TransactionRepository.get_all_in_asc_order_after db w.last_transaction_version))
        (TransactionRepository.get_all_in_asc_order_after db w.last_transaction_version) _ _
        (Runs-call (TransactionRepository.get_all_in_asc_order_after db w.last_transaction_version))
        λ ts.
          Runs-bind (Requests.update_balance db w.wallet_id ts)
            (WalletService.update_balance db w.wallet_id ts) _ _
            (update_balance-Runs w.wallet_id ts) λ _. Runs-lift (ok tt)

  finish-Runs :
      (w : Wallet) (t : Transaction)
      → Runs
          (Thread.◌>>=◌ (Requests.update_wallet db w) (λ _. Thread.pure t))
          (World.◌>>=◌ (TransactionService.update_wallet db w) (λ _. World.pure t))
  finish-Runs w t =
      Runs-bind (Requests.update_wallet db w) (TransactionService.update_wallet db w)
        (λ _. Thread.pure t) (λ _. World.pure t) (update_wallet-Runs w) λ _. Runs-lift (ok t)

  -- A new transaction is saved, and the rest follows.
  recording-Runs :
      (id wallet_id : String) (amount : Money) (type : TransactionType)
      (f : Transaction → Thread db Transaction) (g : Transaction → Action db Transaction)
      → ((t : Transaction) → Runs (f t) (g t))
      → Runs
          (Thread.◌>>=◌ (call (TransactionRepository.get_last_if_exists_by db wallet_id)) λ last.
            Thread.◌>>=◌ (call now) λ created_at.
              Thread.◌>>=◌
                (call (
                  TransactionRepository.save db
                    (Transaction.create last wallet_id amount type id (new_date_time created_at))))
                f)
          (World.◌>>=◌ (TransactionRepository.get_last_if_exists_by db wallet_id) λ last.
            World.◌>>=◌ now λ created_at.
              World.◌>>=◌
                (TransactionRepository.save db
                  (Transaction.create last wallet_id amount type id (new_date_time created_at)))
                g)
  recording-Runs id wallet_id amount type f g ends =
      Runs-bind (call (TransactionRepository.get_last_if_exists_by db wallet_id))
        (TransactionRepository.get_last_if_exists_by db wallet_id) _ _
        (Runs-call (TransactionRepository.get_last_if_exists_by db wallet_id))
        λ last. Runs-bind (call now) now _ _ (Runs-call now) λ created_at.
          let save =
            TransactionRepository.save db
              (Transaction.create last wallet_id amount type id (new_date_time created_at)) in
          Runs-bind (call save) save f g (Runs-call save) ends

  pub credit-Runs :
      (id wallet_id : String) (amount : Money)
      → Runs
          (Requests.credit db id wallet_id amount)
          (TransactionService.credit db id wallet_id amount)
  unfolding Requests.credit TransactionService.credit WalletService.get_wallet_by_id
  credit-Runs id wallet_id amount = recording-Runs id wallet_id amount in_ _ _ λ t.
      Runs-bind (call (WalletRepository.get_wallet_by_id db wallet_id))
        (WalletService.get_wallet_by_id db wallet_id) _ _
        (Runs-call (WalletService.get_wallet_by_id db wallet_id)) λ w. finish-Runs w t

  debit_held-Runs :
      (w : Wallet) (id wallet_id : String) (amount : Money)
      → Runs
          (Requests.debit_held db w id wallet_id amount)
          (TransactionService.debit_held db w id wallet_id amount)
  unfolding Requests.debit_held
  debit_held-Runs w id wallet_id amount =
      recording-Runs id wallet_id amount out _ _ λ t. finish-Runs w t

  pub debit-Runs :
      (id wallet_id : String) (amount : Money) (kind : NotificationType)
      → Runs
          (Requests.debit db id wallet_id amount kind)
          (TransactionService.debit db id wallet_id amount kind)
  unfolding Requests.debit TransactionService.debit WalletService.get_wallet_by_id
  debit-Runs id wallet_id amount kind =
      Runs-bind (call (WalletRepository.get_wallet_by_id db wallet_id))
        (WalletService.get_wallet_by_id db wallet_id) _ _
        (Runs-call (WalletService.get_wallet_by_id db wallet_id))
        λ w.
          Runs-if (not (has_up_to w amount)) (refuse-Runs w kind)
            (debit_held-Runs w id wallet_id amount)
    where
      refuse-Runs :
          (w : Wallet) (k : NotificationType)
          → Runs (Requests.refuse db w k) (TransactionService.refuse db w k)
      refuse-Runs w k = record { at = λ s. refl }

  unless_exists-Runs :
      (found : Option Transaction) (t : Thread db Transaction) (m : Action db Transaction)
      → Runs t m
      → Runs (Requests.unless_exists db found t) (TransferringService.unless_exists db found m)
  unless_exists-Runs (some _) t m h = Runs-lift (ok tt)
  unless_exists-Runs none t m h = Runs-bind t m _ _ h λ _. Runs-lift (ok tt)

  look-Runs :
      (id : String)
      → Runs
          (call (TransactionRepository.get_transaction_if_exists db id))
          (TransactionService.get_transaction_if_exists db id)
  unfolding TransactionService.get_transaction_if_exists
  look-Runs id = record { at = λ s. refl }

  process-Runs :
      (t : Transferring) → Runs (Requests.process db t) (TransferringService.process db t)
  unfolding Requests.process TransferringService.process
  process-Runs t =
      let credit_id = get_receiver_credit_transaction_id t in
      Runs-bind
        (call (TransactionRepository.get_transaction_if_exists db t.sender_debit_transaction_id))
        (TransactionService.get_transaction_if_exists db t.sender_debit_transaction_id) _ _
        (look-Runs t.sender_debit_transaction_id)
        λ debited.
          Runs-bind _ _ _ _
            (unless_exists-Runs debited _ _ (
              debit-Runs t.sender_debit_transaction_id t.sender_wallet_id t.amount
                t.notification_type))
            λ _.
              Runs-bind (call (TransactionRepository.get_transaction_if_exists db credit_id))
                (TransactionService.get_transaction_if_exists db credit_id) _ _
                (look-Runs credit_id)
                λ credited.
                  unless_exists-Runs credited _ _
                    (credit-Runs credit_id t.sender_wallet_id t.amount)

  start-Runs :
      (sender receiver : String) (amount : Money) (kind : NotificationType)
      → Runs
          (Requests.start db sender receiver amount kind)
          (TransferringService.start db sender receiver amount kind)
  unfolding Requests.start
  start-Runs sender receiver amount kind = Runs-bind (call uuid) uuid _ _ (Runs-call uuid) λ id.
      Runs-bind (call uuid) uuid _ _ (Runs-call uuid) λ debit_id.
        Runs-bind (call uuid) uuid _ _ (Runs-call uuid) λ credit_id.
          let t = initalize sender receiver amount kind id debit_id credit_id in
          Runs-bind (Requests.process db t) (TransferringService.process db t) (λ _. Thread.pure t)
            (λ _. World.pure t) (process-Runs t) λ _. Runs-lift (ok t)

  pub transfer-Runs :
      (user sender receiver : String) (amount : Money) (kind : NotificationType)
      → Runs
          (Requests.transfer db user sender receiver amount kind)
          (TransferringService.transfer db user sender receiver amount kind)
  unfolding Requests.transfer TransferringService.transfer WalletService.get_wallet_by_id
  transfer-Runs user sender receiver amount kind =
      Runs-bind (call (WalletRepository.get_wallet_by_id db sender))
        (WalletService.get_wallet_by_id db sender) _ _
        (Runs-call (WalletService.get_wallet_by_id db sender))
        λ w.
          Runs-if (not (str_eq w.user_id user)) (Runs-lift (throw (transferring not_allowed)))
            (start-Runs sender receiver amount kind)
