-- ===== src/Thread/Preserved.antt =====
-- Invariants of the tables, through whole requests.
use tanta.Base.{ℕ, String, not, Option, none, some, List, str_eq, ◌≡◌, sym}
use mathlib.Core.Path.{subst}
use tanta.Balance.{apply_transactions}
use tanta.Money.{Money}
use tanta.Notification.{NotificationType}
use tanta.Shared.DateTime.{new_date_time}
use tanta.Shared.Exception.{ok, throw, transaction, insufficient_fund, transferring, not_allowed}
use tanta.Thread.{Thread, returned, call, pure, raise, ◌>>=◌}
use tanta.Thread.Ensures.{Invariant, Ensures-if}
use tanta.Thread.Requests
use tanta.Transaction
use tanta.Transaction.{Transaction, in_, out}
use tanta.TransactionRepository
use tanta.Transferring.{Transferring, initalize, get_receiver_credit_transaction_id}
use tanta.Wallet
use tanta.Wallet.{Wallet, has_up_to}
use tanta.WalletRepository
use tanta.World.{Database, now, uuid, notify_user}
use tanta.Thread.Keeps.{Keeps, changes, ends, then_keeps, holding_keeps, last-Keeps, look-Keeps}
use tanta.Thread.Stable.{
  Stable, load-Ensures, list-Ensures, now-Keeps, uuid-Keeps, save-Keeps, save_wallet-Keeps,
  apply-Ensures,
}

module _ {db : Database} {J : Invariant db} {N : String → Type 0} {Q : Wallet → Type 0}
    {R : String → List Transaction → Type 0} (stable : Stable db J N Q R) where
  pub create-Keeps : (user_id : String) → Keeps J (Requests.create db user_id)
  unfolding Requests.create
  create-Keeps user_id = then_keeps J (call uuid) _ (uuid-Keeps stable) λ id.
      then_keeps J (call now) _ (now-Keeps stable) λ created_at.
        changes J (WalletRepository.save db (Wallet.create user_id id (new_date_time created_at)))
          (stable.creates user_id id (new_date_time created_at))

  pub update_balance-Keeps :
      (id : String) (ts : List Transaction)
      → N id
      → R id ts
      → Keeps J (Requests.update_balance db id ts)
  unfolding Requests.update_balance
  update_balance-Keeps id ts n r =
      holding_keeps J (λ w. Q w × (w.wallet_id ≡ id))
        (call (WalletRepository.get_wallet_by_id db id)) _ (load-Ensures stable id n)
        λ w (q, is).
          holding_keeps J Q (returned (apply_transactions w ts)) _
            (apply-Ensures stable w ts q (subst (λ k. R k ts) (sym is) r))
            λ w' q'. save_wallet-Keeps stable w' q'

  update_wallet-Keeps : (w : Wallet) → Q w → Keeps J (Requests.update_wallet db w)
  unfolding Requests.update_wallet
  update_wallet-Keeps w q =
      holding_keeps J (R w.wallet_id)
        (call (TransactionRepository.get_all_in_asc_order_after db w.last_transaction_version)) _
        (list-Ensures stable w q)
        λ ts r.
          then_keeps J (Requests.update_balance db w.wallet_id ts) _
            (update_balance-Keeps w.wallet_id ts (stable.names w q) r) λ _. ends J (ok _)

  finish-Keeps :
      (w : Wallet) (t : Transaction) → Q w → Keeps J (Requests.update_wallet db w >>= λ _. pure t)
  finish-Keeps w t q =
      then_keeps J (Requests.update_wallet db w) (λ _. pure t) (update_wallet-Keeps w q)
        λ _. ends J (ok _)

  -- A new transaction is saved, and the rest follows.
  recording_keeps :
      {B : Type 0} (wallet_id : String) (make : Option Transaction → ℕ → Transaction)
      (rest : Transaction → Thread db B)
      → ((t : Transaction) → Keeps J (rest t))
      → Keeps J (
          call (TransactionRepository.get_last_if_exists_by db wallet_id) >>= λ last.
          call now >>= λ created_at.
          call (TransactionRepository.save db (make last created_at)) >>= rest)
  recording_keeps wallet_id make rest h =
      then_keeps J (call (TransactionRepository.get_last_if_exists_by db wallet_id)) _
        (last-Keeps J wallet_id)
        λ last. then_keeps J (call now) _ (now-Keeps stable) λ created_at.
          then_keeps J (call (TransactionRepository.save db (make last created_at))) rest
            (save-Keeps stable (make last created_at)) h

  pub credit-Keeps :
      (id wallet_id : String) (amount : Money)
      → N wallet_id
      → Keeps J (Requests.credit db id wallet_id amount)
  unfolding Requests.credit
  credit-Keeps id wallet_id amount n =
      recording_keeps wallet_id
        (λ last created_at.
          Transaction.create last wallet_id amount in_ id (new_date_time created_at))
        _
        λ saved.
          holding_keeps J (λ w. Q w × (w.wallet_id ≡ wallet_id))
            (call (WalletRepository.get_wallet_by_id db wallet_id)) _
            (load-Ensures stable wallet_id n) λ w (q, _). finish-Keeps w saved q

  debit_held-Keeps :
      (w : Wallet) (id wallet_id : String) (amount : Money)
      → Q w
      → Keeps J (Requests.debit_held db w id wallet_id amount)
  unfolding Requests.debit_held
  debit_held-Keeps w id wallet_id amount q =
      recording_keeps wallet_id
        (λ last created_at.
          Transaction.create last wallet_id amount out id (new_date_time created_at))
        _ λ saved. finish-Keeps w saved q

  refuse-Keeps : (w : Wallet) (kind : NotificationType) → Keeps J (Requests.refuse db w kind)
  unfolding Requests.refuse
  refuse-Keeps w kind =
      then_keeps J (call (notify_user _)) (λ _. raise (transaction insufficient_fund))
        (changes J (notify_user _) λ s. stable.draws s s.times s.uuids _)
        λ _. ends J (throw (transaction insufficient_fund))

  pub debit-Keeps :
      (id wallet_id : String) (amount : Money) (kind : NotificationType)
      → N wallet_id
      → Keeps J (Requests.debit db id wallet_id amount kind)
  unfolding Requests.debit
  debit-Keeps id wallet_id amount kind n =
      holding_keeps J (λ w. Q w × (w.wallet_id ≡ wallet_id))
        (call (WalletRepository.get_wallet_by_id db wallet_id)) _ (load-Ensures stable wallet_id n)
        λ w (q, _).
          Ensures-if J (λ _. Unit {0}) (not (has_up_to w amount)) (Requests.refuse db w kind) _
            (refuse-Keeps w kind) (debit_held-Keeps w id wallet_id amount q)

  unless_exists-Keeps :
      (found : Option Transaction) (t : Thread db Transaction)
      → Keeps J t
      → Keeps J (Requests.unless_exists db found t)
  unless_exists-Keeps (some _) t h = ends J (ok tt)
  unless_exists-Keeps none t h = then_keeps J t _ h λ _. ends J (ok _)

  process-Keeps : (t : Transferring) → N t.sender_wallet_id → Keeps J (Requests.process db t)
  unfolding Requests.process
  process-Keeps t n =
      let credit_id = get_receiver_credit_transaction_id t in
      then_keeps J
        (call (TransactionRepository.get_transaction_if_exists db t.sender_debit_transaction_id)) _
        (look-Keeps J t.sender_debit_transaction_id)
        λ debited.
          then_keeps J (Requests.unless_exists db debited _) _
            (unless_exists-Keeps debited _ (
              debit-Keeps t.sender_debit_transaction_id t.sender_wallet_id t.amount
                t.notification_type n))
            λ _.
              then_keeps J (call (TransactionRepository.get_transaction_if_exists db credit_id)) _
                (look-Keeps J credit_id)
                λ credited.
                  unless_exists-Keeps credited _
                    (credit-Keeps credit_id t.sender_wallet_id t.amount n)

  start-Keeps :
      (sender receiver : String) (amount : Money) (kind : NotificationType)
      → N sender
      → Keeps J (Requests.start db sender receiver amount kind)
  unfolding Requests.start initalize
  start-Keeps sender receiver amount kind n = then_keeps J (call uuid) _ (uuid-Keeps stable) λ id.
      then_keeps J (call uuid) _ (uuid-Keeps stable) λ debit_id.
        then_keeps J (call uuid) _ (uuid-Keeps stable) λ credit_id.
          let t = initalize sender receiver amount kind id debit_id credit_id in
          then_keeps J (Requests.process db t) (λ _. pure t) (process-Keeps t n) λ _. ends J (ok _)

  pub transfer-Keeps :
      (user sender receiver : String) (amount : Money) (kind : NotificationType)
      → N sender
      → Keeps J (Requests.transfer db user sender receiver amount kind)
  unfolding Requests.transfer
  transfer-Keeps user sender receiver amount kind n =
      holding_keeps J (λ w. Q w × (w.wallet_id ≡ sender))
        (call (WalletRepository.get_wallet_by_id db sender)) _ (load-Ensures stable sender n)
        λ w _.
          Ensures-if J (λ _. Unit {0}) (not (str_eq w.user_id user))
            (raise (transferring not_allowed)) _ (ends J (throw (transferring not_allowed)))
            (start-Keeps sender receiver amount kind n)
