-- ===== src/Thread/Kept.antt =====
-- Runs of requests, the row of a transaction, and the owner of a wallet.
use tanta.Base.{ℕ, String, ◌≡◌, sym, ap, ◌∙◌, inl, inr, false, some, Option-cases, List, arith}
use tanta.Balance.Frame.{apply_transactions-SameWallet}
use tanta.Balance.{apply_transactions}
use tanta.Database.Keyed.{first, first-insert_kept}
use tanta.Shared.ConcurrencyControl.{next, is_new, init, from_version, increment_version, clone}
use tanta.Shared.DateTime.{Date}
use tanta.Shared.Exception.{ok}
use tanta.WalletRepository.{to_row}
use tanta.WalletRepository.Load.{load}
use tanta.WalletRepository.Pages.{to_entity-row}
use tanta.Tables.{WalletRow, TransactionRow}
use tanta.Thread.Ensures.{only}
use tanta.Thread.Rows.{HasRow, save-HasRow, load-HasRow}
use tanta.Thread.Launch.{Request, All-Names, launch, launch-Stable}
use tanta.Thread.Schedule.{System, Run}
use tanta.Thread.Stable.{Stable}
use tanta.Transaction.{Transaction}
use tanta.TransactionRepository.Laws.{row_of}
use tanta.TransactionRepository
use tanta.Wallet.{Wallet}
use tanta.Wallet
use tanta.WalletRepository
use tanta.WalletRepository.Laws.{write, put}
use tanta.World.{Database, World}

-- No condition on the wallets that requests name.
abbrev pub Anything : String → Type 0
Anything _ = Unit

module _ (db : Database) where
  -- A wallet's save leaves the transactions, and a transaction's save the wallets.
  pub save-transactions :
      (w : Wallet) (s : World db) → (WalletRepository.save db w s).1.transactions ≡ s.transactions
  save-transactions w s = elim (Option-cases (write db w s.wallets)) [
    | inl refused ↦ rw (WalletRepository.Laws.save_refused db w s refused)
    | inr (t, taken) ↦ rw (WalletRepository.Laws.save_taken db w s t taken)
  ]

  pub save-wallets :
      (t : Transaction) (s : World db) → (TransactionRepository.save db t s).1.wallets ≡ s.wallets
  save-wallets t s = elim (Option-cases (db.transactions.insert (row_of t) s.transactions)) [
    | inl refused ↦ rw (TransactionRepository.Laws.save_refused db t s refused)
    | inr (u, taken) ↦ rw (TransactionRepository.Laws.save_taken db t s u taken)
  ]

  module _ (id : String) (r : TransactionRow) where
    abbrev pub IsRecorded : World db → Type 0
    IsRecorded s = first db.transactions id s.transactions ≡ some r

    pub save-IsRecorded :
        (t : Transaction) (s : World db)
        → IsRecorded s
        → IsRecorded (TransactionRepository.save db t s).1
    save-IsRecorded t s j = elim (Option-cases (db.transactions.insert (row_of t) s.transactions)) [
      | inl refused ↦ rw (TransactionRepository.Laws.save_refused db t s refused) j
      | inr (u, taken) ↦
          rw (TransactionRepository.Laws.save_taken db t s u taken)
            (first-insert_kept db.transactions id (row_of t) s.transactions u taken j)
    ]

    pub IsRecorded-Stable : Stable db (only IsRecorded) Anything (λ _. Unit {0}) (λ _ _. Unit {0})
    IsRecorded-Stable = record {
      draws = λ s times uuids notified j _. (j, tt);
      records = λ t s j _. (save-IsRecorded t s j, tt);
      loads = λ k s w n j _ e. tt;
      lists = λ w s ts q j _ e. tt;
      names = λ w q. tt;
      moves = λ w w' ts _ e q. tt;
      saves = λ w s q j _. rw (save-transactions w s) (j, tt);
      creates = λ u k now s j _. rw (save-transactions (Wallet.create u k now) s) (j, tt);
    }

    -- A recorded transaction is found under its id, unchanged in every column, after any run of
    -- requests, however they interleave.
    pub launch-IsRecorded :
        (rs : List Request) (s : World db) {n : ℕ} {y : System db}
        → first db.transactions id s.transactions ≡ some r
        → Run n (launch db rs s) y
        → first db.transactions id y.world.transactions ≡ some r
    launch-IsRecorded rs s j run =
        launch-Stable db IsRecorded Anything (λ _. Unit {0}) (λ _ _. Unit {0}) IsRecorded-Stable rs
          s (All-Names Anything rs λ _. tt) j run

  module _ (id owner : String) (created_at : Date) where
    abbrev pub IsOwned : World db → Type 0
    IsOwned = HasRow db id (λ r. (r.user_id ≡ owner) × (r.created_at ≡ created_at))

    -- What that says of a wallet that was loaded.
    abbrev Holds : Wallet → Type 0
    Holds w = w.wallet_id ≡ id → (w.user_id ≡ owner) × (w.created_at.time_in_ms ≡ created_at)

    loaded-Holds :
        (k : String) (s : World db) (w : Wallet) → IsOwned s → load db k s ≡ ok w → Holds w
    loaded-Holds k s w owned e is =
        let (row, (of, at), reads) = load-HasRow db id _ k s w owned e is in
        let (owns, begun) = to_entity-row row reads in (owns ∙ of, begun ∙ at)

    save-IsOwned :
        (w : Wallet) (s : World db)
        → (is_new (next w.transaction_control) ≡ false → Holds w)
        → IsOwned s
        → IsOwned (WalletRepository.save db w s).1
    unfolding to_row
    save-IsOwned w s holds =
        save-HasRow db id (λ r. (r.user_id ≡ owner) × (r.created_at ≡ created_at)) w s holds

    moves-Holds :
        (w w' : Wallet) (ts : List Transaction)
        → apply_transactions w ts ≡ ok w'
        → Holds w
        → Holds w'
    moves-Holds w w' ts e q is =
        let (_, _, (ids, owners, times, _)) = apply_transactions-SameWallet w ts e in
        let (owns, begun) = q (sym ids ∙ is) in
        (owners ∙ owns, ap (λ d. d.time_in_ms) times ∙ begun)

    IsOwned-Stable : Stable db (only IsOwned) Anything Holds (λ _ _. Unit {0})
    unfolding Wallet.create init from_version is_new increment_version clone
    IsOwned-Stable = record {
      draws = λ s times uuids notified j _. (j, tt);
      records = λ t s (row, found, has) _.
          ((row, ap (λ v. first db.wallets id v) (save-wallets t s) ∙ found, has), tt);
      loads = λ k s w _ j _ e. loaded-Holds k s w j e;
      lists = λ w s ts q j _ e. tt;
      names = λ w q. tt;
      moves = λ w w' ts _ e q. moves-Holds w w' ts e q;
      saves = λ w s q j _. (save-IsOwned w s (λ _. q) j, tt);
      creates = λ u k now s j _.
          (save-IsOwned (Wallet.create u k now) s (λ never. absurd (ground (arith, never))) j, tt);
    }

    -- A wallet in the table keeps its owner and its creation time after any run of requests,
    -- however they interleave.
    pub launch-IsOwned :
        (rs : List Request) (s : World db) {n : ℕ} {y : System db} (row : WalletRow)
        → first db.wallets id s.wallets ≡ some row
        → row.user_id ≡ owner
        → row.created_at ≡ created_at
        → Run n (launch db rs s) y
        → (row' : WalletRow) × (first db.wallets id y.world.wallets ≡ some row')
          × (row'.user_id ≡ owner)
          × (row'.created_at ≡ created_at)
    launch-IsOwned rs s row found of at run =
        let (row', found', (of', at')) =
          launch-Stable db IsOwned Anything Holds (λ _ _. Unit {0}) IsOwned-Stable rs s
            (All-Names Anything rs λ _. tt) (row, found, (of, at)) run in
        (row', found', of', at')
