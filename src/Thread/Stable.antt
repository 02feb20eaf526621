-- ===== src/Thread/Stable.antt =====
-- Invariants of the tables that no request breaks: what has to be shown of each call.
use tanta.Base.{ℕ, String, ◌≡◌, ap, List, inl, inr}
use tanta.Balance.{apply_transactions}
use tanta.Notification.{NotifyUser}
use tanta.Shared.DateTime.{DateTime}
use tanta.Shared.Exception.{ok, Result-cases}
use tanta.Thread.{returned, call}
use tanta.Thread.Ensures.{Invariant, Kept, Ensures, Ensures-look, Ensures-returned}
use tanta.Transaction.{Transaction}
use tanta.TransactionRepository
use tanta.TransactionRepository.Laws.{all_after, get_all_in_asc_order_after_lem}
use tanta.Wallet
use tanta.Wallet.{Wallet, has_up_to}
use tanta.WalletRepository
use tanta.WalletRepository.Load.{load, load_pure, load-wallet_id}
use tanta.World.{Database, World, now, uuid}
use tanta.Thread.Keeps.{Keeps, changes}

-- `J` is the invariant, `N` says which wallets requests name, `Q` what is known of a wallet that a
-- request holds, `R` of a batch of transactions that it has read for the
-- wallet with an id.
pub record Stable (db : Database) (J : Invariant db) (N : String → Type 0) (Q : Wallet → Type 0)
    (R : String → List Transaction → Type 0) : Type 0 where
  pub draws :
      (s : World db) (times : ℕ → ℕ) (uuids : ℕ → String) (notified : List NotifyUser)
      → Kept J s (record s { times = times; uuids = uuids; notified = notified })
  pub records : (t : Transaction) (s : World db) → Kept J s (TransactionRepository.save db t s).1
  pub loads :
      (id : String) (s : World db) (w : Wallet)
      → N id
      → J.holds s
      → J.ahead s
      → load db id s ≡ ok w
      → Q w
  pub lists :
      (w : Wallet) (s : World db) (ts : List Transaction)
      → Q w
      → J.holds s
      → J.ahead s
      → all_after db w.last_transaction_version s ≡ ok ts
      → R w.wallet_id ts
  pub names : (w : Wallet) → Q w → N w.wallet_id
  pub moves :
      (w w' : Wallet) (ts : List Transaction)
      → R w.wallet_id ts
      → apply_transactions w ts ≡ ok w'
      → Q w
      → Q w'
  pub saves : (w : Wallet) (s : World db) → Q w → Kept J s (WalletRepository.save db w s).1
  pub creates :
      (user_id id : String) (now : DateTime) (s : World db)
      → Kept J s (WalletRepository.save db (Wallet.create user_id id now) s).1

module _ {db : Database} {J : Invariant db} {N : String → Type 0} {Q : Wallet → Type 0}
    {R : String → List Transaction → Type 0} (stable : Stable db J N Q R) where
  pub load-Ensures :
      (id : String)
      → N id
      → Ensures J (λ w. Q w × (w.wallet_id ≡ id)) (call (WalletRepository.get_wallet_by_id db id))
  load-Ensures id n =
      Ensures-look J (λ w. Q w × (w.wallet_id ≡ id)) (WalletRepository.get_wallet_by_id db id)
        (λ s. ap (λ r. r.1) (load_pure db id s))
        λ s j a. elim (Result-cases (load db id s)) [
          | inl (e, absent) ↦ rw absent tt
          | inr (w, found) ↦
              rw found (stable.loads id s w n j a found, (load-wallet_id db id s found).0)
        ]

  pub list-Ensures :
      (w : Wallet)
      → Q w
      → Ensures J
          (R w.wallet_id)
          (call (TransactionRepository.get_all_in_asc_order_after db w.last_transaction_version))
  list-Ensures w q =
      let version = w.last_transaction_version in
      Ensures-look J (R w.wallet_id) (TransactionRepository.get_all_in_asc_order_after db version)
        (λ s. ap (λ r. r.1) (get_all_in_asc_order_after_lem db version s))
        λ s j a. elim (Result-cases (all_after db version s)) [
          | inl (e, failed) ↦ rw failed tt
          | inr (ts, read) ↦ rw read (stable.lists w s ts q j a read)
        ]

  pub now-Keeps : Keeps J (call (now {db = db}))
  now-Keeps = changes J now λ s. stable.draws s _ s.uuids s.notified

  pub uuid-Keeps : Keeps J (call (uuid {db = db}))
  uuid-Keeps = changes J uuid λ s. stable.draws s s.times _ s.notified

  pub save-Keeps : (t : Transaction) → Keeps J (call (TransactionRepository.save db t))
  save-Keeps t = changes J (TransactionRepository.save db t) (stable.records t)

  pub save_wallet-Keeps : (w : Wallet) → Q w → Keeps J (call (WalletRepository.save db w))
  save_wallet-Keeps w q = changes J (WalletRepository.save db w) λ s. stable.saves w s q

  pub apply-Ensures :
      (w : Wallet) (ts : List Transaction)
      → Q w
      → R w.wallet_id ts
      → Ensures J Q (returned (apply_transactions w ts))
  apply-Ensures w ts q r =
      Ensures-returned J Q (apply_transactions w ts)
        (elim (Result-cases (apply_transactions w ts)) [
          | inl (e, refused) ↦ rw refused tt
          | inr (w', computed) ↦ rw computed (stable.moves w w' ts r computed q)
        ])
