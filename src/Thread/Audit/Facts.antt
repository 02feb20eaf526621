-- ===== src/Thread/Audit/Facts.antt =====
-- The predicates of the audit, and what the calls of the repositories do to them.
use tanta.Base.{
  ℕ, String, ◌≡◌, ◌⊎◌, sym, ap, ◌∙◌, inl, inr, ◌≤◌, ◌^◌, ltb, Bool-cases, Option-cases, some, List,
  ◌++◌, All, length, All-map_imp, All-append, arith,
}
use mathlib.Core.Path.{subst}
use tanta.Balance.{apply_transactions}
use tanta.Balance.Frame.{apply_transactions-SameWallet}
use tanta.Balance.Ledger.{apply_transactions-append, Consecutive}
use tanta.Balance.Run.{volume, apply_transactions-le}
use tanta.Balance.Replay.{IsDouble, apply_transactions-IsDouble, apply_transactions-control}
use tanta.Database.Keyed.{first, first-listed}
use tanta.Js.Number.{double_exact}
use tanta.Shared.ConcurrencyControl.{TransactionControl, next, is_new, from_state}
use tanta.Shared.Exception.{ok, throw, wallet, not_found, map_ok, map_ok-eq-ok, ◌>>=◌, ok_injective}
use tanta.Tables.{WalletRow, TransactionRow}
use tanta.Transaction.{Transaction}
use tanta.TransactionRepository
use tanta.TransactionRepository.{to_entities}
use tanta.TransactionRepository.After.{listed, is_after, all_after-listed}
use tanta.TransactionRepository.Laws.{all_after, to_entities-All, to_entity-transaction_id}
use tanta.Wallet
use tanta.Wallet.{Wallet, set_transaction_control}
use tanta.WalletRepository
use tanta.WalletRepository.{to_row}
use tanta.WalletRepository.Found.{put-found}
use tanta.WalletRepository.Laws.{write, save_taken, save_refused, to_entity-to_row-double}
use tanta.WalletRepository.Load.{load, load_lem, load-wallet_id}
use tanta.World.{Database, World}

module _ (db : Database) where
  -- Each transaction that is recorded in the one world is recorded in the other, unchanged.
  abbrev pub Grows : World db → World db → Type 0
  Grows s t =
      (id : String) (r : TransactionRow)
      → first db.transactions id s.transactions ≡ some r
      → first db.transactions id t.transactions ≡ some r

  -- The transaction is what its row, found under its id, reads as.
  abbrev pub IsFound : World db → Transaction → Type 0
  IsFound s t =
      (r : TransactionRow) × (first db.transactions t.transaction_id s.transactions ≡ some r)
      × (TransactionRepository.to_entity r ≡ ok t)

  -- The wallet is what the loop computes from it as created and some recorded transactions.
  abbrev pub IsReplayed : World db → Wallet → Type 0
  IsReplayed s w =
      (ts : List Transaction) × All (IsFound s) ts
      × (apply_transactions (Wallet.create w.user_id w.wallet_id w.created_at) ts ≡ ok w)

  -- Every wallet in the table is the row of such a wallet, under some control.
  abbrev pub IsAudited : World db → World db → Type 0
  IsAudited y s =
      (id : String) (row : WalletRow)
      → first db.wallets id s.wallets ≡ some row
      → (w : Wallet) × (c : TransactionControl) × (row ≡ to_row w c) × IsReplayed y w

  -- A wallet in the hands of a request: such a wallet, under another control.
  abbrev pub IsHeld : World db → Wallet → Type 0
  IsHeld y w =
      (v : Wallet) × (c : TransactionControl) × (w ≡ set_transaction_control v c) × IsReplayed y v

  pub IsFound-Grows :
      (s y : World db) (ts : List Transaction) → Grows s y → All (IsFound s) ts → All (IsFound y) ts
  IsFound-Grows s y ts grown found =
      All-map_imp (λ t (r, there, read). (r, grown t.transaction_id r there, read)) ts found

  pub IsReplayed-Grows : (s y : World db) (w : Wallet) → Grows s y → IsReplayed s w → IsReplayed y w
  IsReplayed-Grows s y w grown (ts, found, computed) =
      (ts, IsFound-Grows s y ts grown found, computed)

  pub IsReplayed-IsDouble : (y : World db) (w : Wallet) → IsReplayed y w → IsDouble w.balance
  unfolding Wallet.create
  IsReplayed-IsDouble y w (ts, found, computed) =
      apply_transactions-IsDouble (Wallet.create w.user_id w.wallet_id w.created_at) ts computed
        (double_exact 0 (omega arith))

  -- More recorded transactions lead to another such wallet.
  pub IsHeld-apply :
      (y : World db) (w w' : Wallet) (ts : List Transaction)
      → All (IsFound y) ts
      → apply_transactions w ts ≡ ok w'
      → IsHeld y w
      → IsHeld y w'
  IsHeld-apply y w w' ts found computed (v, c, is, (us, found', computed')) =
      let through : map_ok (λ u. set_transaction_control u c) (apply_transactions v ts) ≡ ok w' =
        sym (apply_transactions-control v c ts)
        ∙ ap (λ u. apply_transactions u ts) (sym is)
        ∙ computed in
      let (v', reached, is') =
        map_ok-eq-ok (λ u. set_transaction_control u c) (apply_transactions v ts) through in
      let (_, _, (ids, users, times, _)) = apply_transactions-SameWallet v ts reached in
      let start = Wallet.create v.user_id v.wallet_id v.created_at in
      (
        v',
        c,
        sym is',
        (
          us ++ ts,
          All-append (IsFound y) us ts found' found,
          rw (ids, users, times)
              (apply_transactions-append start us ts
                ∙ ap (λ r. r >>= λ u. apply_transactions u ts) computed'
                ∙ reached),
        ),
      )

  -- What is listed is recorded.
  pub all_after-IsFound :
      (version : ℕ) (s : World db) (ts : List Transaction)
      → all_after db version s ≡ ok ts
      → All (IsFound s) ts
  unfolding listed
  all_after-IsFound version s ts read =
      to_entities-All (λ r. first db.transactions r.transaction_id s.transactions ≡ some r)
        (IsFound s)
        (λ r t reads there. (
          r,
          subst (λ id. first db.transactions id s.transactions ≡ some r)
              (sym (to_entity-transaction_id r reads).0) there,
          reads,
        ))
        (listed db version s) (sym (all_after-listed db version s) ∙ read)
        (first-listed db.transactions (is_after version) (λ r. r.created_at) s.transactions)

  pub load-IsHeld :
      (y : World db) (id : String) (s : World db) (w : Wallet)
      → IsAudited y s
      → load db id s ≡ ok w
      → IsHeld y w
  load-IsHeld y id s w audited read = elim (load_lem db id s) [
    | inl (gone, failed) ↦ absurd (ground (arith, sym (ap (λ r. r.0) failed) ∙ read))
    | inr (row, found, loaded) ↦
        let (v, c, is, replayed) = audited id row found in
        let reads =
          sym (to_entity-to_row-double v c (IsReplayed-IsDouble y v replayed))
          ∙ ap WalletRepository.to_entity (sym is)
          ∙ sym (ap (λ r. r.0) loaded)
          ∙ read in
        (v, from_state (is_new c), sym (ok_injective reads), replayed)
  ]

  pub loads-IsAudited :
      (s : World db) (id : String)
      → IsAudited s s
      → (load db id s ≡ throw (wallet not_found))
        ⊎ ((w : Wallet) × (ts : List Transaction) × (load db id s ≡ ok w)
            × (w.wallet_id ≡ id)
            × All (IsFound s) ts
            × Consecutive 0 ts
            × (w.last_transaction_version ≡ length ts)
            × ((2 ^ 53 ≤ volume ts) ⊎ (w.balance.value ≤ volume ts)))
  unfolding Wallet.create
  loads-IsAudited s id audited = elim (load_lem db id s) [
    | inl (gone, failed) ↦ inl (ap (λ r. r.0) failed)
    | inr (row, found, loaded) ↦
        let (v, c, is, (ts, recorded, computed)) = audited id row found in
        let reads =
          ap (λ r. r.0) loaded
          ∙ ap WalletRepository.to_entity is
          ∙ to_entity-to_row-double v c (IsReplayed-IsDouble s v (ts, recorded, computed)) in
        let (numbered, total, _) =
          apply_transactions-SameWallet (Wallet.create v.user_id v.wallet_id v.created_at) ts
            computed in
        inr (
          set_transaction_control v (from_state (is_new c)),
          ts,
          reads,
          (load-wallet_id db id s reads).0,
          recorded,
          numbered,
          omega (arith, total),
          elim (Bool-cases (ltb (volume ts) (2 ^ 53))) [
            | inl small ↦ inr (
                omega (
                  arith,
                  apply_transactions-le (Wallet.create v.user_id v.wallet_id v.created_at) ts
                      (ground arith) computed,
                ))
            | inr large ↦ inl (ground arith)
          ],
        )
  ]

  pub save-IsAudited :
      (y : World db) (w : Wallet) (s : World db)
      → IsHeld y w
      → IsAudited y s
      → IsAudited y (WalletRepository.save db w s).1
  unfolding to_row
  save-IsAudited y w s (v, c, is, replayed) audited = elim (Option-cases (write db w s.wallets)) [
    | inl refused ↦ rw (save_refused db w s refused) audited
    | inr (t, taken) ↦
        let control = next w.transaction_control in
        rw (save_taken db w s t taken) (λ id row found.
          elim (put-found db (is_new control) (to_row w control) id s.wallets t taken found) [
            | inl before ↦ audited id row before
            | inr written ↦ (v, control, sym written ∙ ap (λ u. to_row u control) is, replayed)
          ])
  ]
