-- ===== src/Thread/Launch.antt =====
-- The requests that clients make, started together.
use tanta.Base.{ℕ, String, ◌≡◌, List, [], ◌∷◌, All}
use tanta.Money.{Money}
use tanta.Notification.{NotificationType}
use tanta.Shared.Exception.{ok}
use tanta.Thread.{Thread, alone, pure}
use tanta.Thread
use tanta.Thread.Alone.{create-Runs, credit-Runs, debit-Runs, transfer-Runs}
use tanta.Thread.Ensures.{Invariant, only, Ensures, Ensures-bind, Ensures-returned}
use tanta.Thread.Requests
use tanta.Thread.Runs.{Runs, Runs-bind, Runs-lift}
use tanta.Thread.Schedule.{System, Run, Along, Along-any, Sound, Run-Sound, Run-Along}
use tanta.Thread.Stable.{Stable}
use tanta.Thread.Preserved.{create-Keeps, credit-Keeps, debit-Keeps, transfer-Keeps}
use tanta.Transaction.{Transaction}
use tanta.TransactionService
use tanta.TransferringService
use tanta.Wallet.{Wallet}
use tanta.WalletService
use tanta.World.{Database, World, Action}
use tanta.World

pub data Request : Type 0 where
  create : (user_id : String) → Request
  credit : (transaction_id wallet_id : String) (amount : Money) → Request
  debit :
      (transaction_id wallet_id : String) (amount : Money) (notification_type : NotificationType)
      → Request
  transfer :
      (sender_user_id sender_wallet_id receiver_wallet_id : String) (amount : Money)
      (notification_type : NotificationType)
      → Request

-- The wallets that the requests name have the property; a transfer names the wallet of its sender.
abbrev pub Names : (N : String → Type 0) → Request → Type 0
Names N (create _) = Unit
Names N (credit _ wallet _) = N wallet
Names N (debit _ wallet _ _) = N wallet
Names N (transfer _ sender _ _ _) = N sender

pub All-Names :
    (N : String → Type 0) (rs : List Request) → ((id : String) → N id) → All (Names N) rs
All-Names N [] any = tt
All-Names N (create _ ∷ rs) any = (tt, All-Names N rs any)
All-Names N (credit _ wallet _ ∷ rs) any = (any wallet, All-Names N rs any)
All-Names N (debit _ wallet _ _ ∷ rs) any = (any wallet, All-Names N rs any)
All-Names N (transfer _ sender _ _ _ ∷ rs) any = (any sender, All-Names N rs any)

module _ {db : Database} where
  abbrev pub finished : {A : Type 0} → Thread db A → Thread db (Unit {0})
  finished t = Thread.◌>>=◌ t (λ _. pure tt)

  abbrev done : {A : Type 0} → Action db A → Action db (Unit {0})
  done m = World.◌>>=◌ m (λ _. World.pure tt)

  finished-Runs :
      {A : Type 0} (t : Thread db A) (m : Action db A) → Runs t m → Runs (finished t) (done m)
  finished-Runs t m h = Runs-bind t m (λ _. pure tt) (λ _. World.pure tt) h λ _. Runs-lift (ok tt)

module _ (db : Database) where
  -- A request as a thread, and as the method of the service.
  abbrev pub thread_of : Request → Thread db (Unit {0})
  thread_of (create user) = finished (Requests.create db user)
  thread_of (credit id wallet amount) = finished (Requests.credit db id wallet amount)
  thread_of (debit id wallet amount kind) = finished (Requests.debit db id wallet amount kind)
  thread_of (transfer user sender receiver amount kind) =
      finished (Requests.transfer db user sender receiver amount kind)

  abbrev pub perform : Request → Action db (Unit {0})
  perform (create user) = done (WalletService.create db user)
  perform (credit id wallet amount) = done (TransactionService.credit db id wallet amount)
  perform (debit id wallet amount kind) = done (TransactionService.debit db id wallet amount kind)
  perform (transfer user sender receiver amount kind) =
      done (TransferringService.transfer db user sender receiver amount kind)

  thread_of-Runs : (r : Request) → Runs (thread_of r) (perform r)
  thread_of-Runs (create user) = finished-Runs _ _ (create-Runs db user)
  thread_of-Runs (credit id wallet amount) = finished-Runs _ _ (credit-Runs db id wallet amount)
  thread_of-Runs (debit id wallet amount kind) =
      finished-Runs _ _ (debit-Runs db id wallet amount kind)
  thread_of-Runs (transfer user sender receiver amount kind) =
      finished-Runs _ _ (transfer-Runs db user sender receiver amount kind)

  -- A request whose steps no other request interrupts ends as the method of its service does: it
  -- returns, or throws the same exception, in the same world.
  pub alone-thread_of : (r : Request) (s : World db) → alone (thread_of r) s ≡ perform r s
  alone-thread_of r = (thread_of-Runs r).at

  abbrev pub threads_of : List Request → List (Thread db (Unit {0}))
  threads_of [] = []
  threads_of (r ∷ rs) = thread_of r ∷ threads_of rs

  abbrev pub launch : List Request → World db → System db
  launch rs s = record { world = s; threads = threads_of rs }

  module _ (J : Invariant db) (N : String → Type 0) (Q : Wallet → Type 0)
      (R : String → List Transaction → Type 0) (stable : Stable db J N Q R) where
    finished-Keeps :
        {A : Type 0} (t : Thread db A)
        → Ensures J (λ _. Unit {0}) t
        → Ensures J (λ _. Unit {0}) (finished t)
    finished-Keeps t h =
        Ensures-bind J (λ _. Unit {0}) (λ _. Unit {0}) t (λ _. pure tt) h
          λ _ _. Ensures-returned J (λ _. Unit {0}) (ok tt) tt

    thread_of-Keeps : (r : Request) → Names N r → Ensures J (λ _. Unit {0}) (thread_of r)
    thread_of-Keeps (create user) _ = finished-Keeps _ (create-Keeps stable user)
    thread_of-Keeps (credit id wallet amount) n =
        finished-Keeps _ (credit-Keeps stable id wallet amount n)
    thread_of-Keeps (debit id wallet amount kind) n =
        finished-Keeps _ (debit-Keeps stable id wallet amount kind n)
    thread_of-Keeps (transfer user sender receiver amount kind) n =
        finished-Keeps _ (transfer-Keeps stable user sender receiver amount kind n)

    threads_of-Keeps :
        (rs : List Request)
        → All (Names N) rs
        → All (λ t. Ensures J (λ _. Unit {0}) t) (threads_of rs)
    threads_of-Keeps [] ns = tt
    threads_of-Keeps (r ∷ rs) (n, ns) = (thread_of-Keeps r n, threads_of-Keeps rs ns)

    launch-Sound :
        (rs : List Request) (s : World db) → All (Names N) rs → J.holds s → Sound J (launch rs s)
    launch-Sound rs s ns j = (j, threads_of-Keeps rs ns)

    -- What each call keeps, every run of requests keeps, however they interleave.
    pub launch-Along :
        (rs : List Request) (s : World db) {n : ℕ} {y : System db}
        → All (Names N) rs
        → J.holds s
        → (r : Run n (launch rs s) y) → Along J.ahead r
        → J.holds y.world
    launch-Along rs s ns j r along = (Run-Sound J r along (launch-Sound rs s ns j)).0

    pub launch-grows :
        ((s t u : World db) → J.grows s t → J.grows t u → J.grows s u)
        → (rs : List Request) (s : World db) {n : ℕ} {y : System db} → All (Names N) rs
        → J.holds s
        → (r : Run n (launch rs s) y) → Along J.ahead r
        → Along (λ s. J.grows s y.world) r × J.grows s y.world
    launch-grows trans rs s ns j r along = Run-Along J trans r along (launch-Sound rs s ns j)

  -- The same for a condition on the world alone.
  pub launch-Stable :
      (P : World db → Type 0) (N : String → Type 0) (Q : Wallet → Type 0)
      (R : String → List Transaction → Type 0)
      → Stable db (only P) N Q R
      → (rs : List Request) (s : World db) {n : ℕ} {y : System db} → All (Names N) rs
      → P s
      → Run n (launch rs s) y
      → P y.world
  launch-Stable P N Q R stable rs s ns p r =
      launch-Along (only P) N Q R stable rs s ns p r (Along-any _ (λ _. tt) r)
