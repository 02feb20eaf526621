-- ===== src/Thread/Barred.antt =====
-- Runs of requests in a database with two transactions of version 1.
use tanta.Base.{
  ℕ, String, ◌≡◌, ◌≢◌, refl, sym, ap, ◌∙◌, some, List, [], ◌∷◌, All, length, All-perm, All-unselect,
  arith,
}
use mathlib.Core.Path.{subst}
use mathlib.Core.List.Permᴰ
use tanta.Balance.{apply_transactions}
use tanta.Balance.Frame.{apply_transactions-SameWallet}
use tanta.Balance.Ledger.{Consecutive}
use tanta.Database.Keyed.{first, first-All, first-key}
use tanta.Shared.ConcurrencyControl.{init, from_version, is_new, increment_version, clone}
use tanta.Shared.Exception.{ok, ok_injective}
use tanta.Tables.{WalletRow, TransactionRow}
use tanta.TransactionRepository.After.{listed, is_after, all_after-listed, listed-perm}
use tanta.TransactionRepository.Laws.{all_after}
use tanta.TransactionRepository.Numbered.{Consecutive-one}
use tanta.Thread.Audit.Facts.{IsAudited, IsReplayed-IsDouble}
use tanta.Thread.Audit.{launch-IsAudited}
use tanta.Thread.Launch.{Request, All-Names, launch, launch-Stable}
use tanta.Thread.Schedule.{System, Run}
use tanta.WalletRepository.Load.{load}
use tanta.WalletRepository.Laws.{to_entity-to_row-double, get_wallet_by_id-some}
use tanta.Shared.ConcurrencyControl.{from_state}
use tanta.Js.Int.{pos}
use tanta.WalletRepository
use tanta.Transaction.{Transaction}
use tanta.Thread.Ensures.{only}
use tanta.Thread.Kept.{Anything, save-IsRecorded, save-wallets, save-transactions}
use tanta.Thread.Rows.{HasRow, save-HasRow, load-HasRow}
use tanta.Thread.Stable.{Stable}
use tanta.Wallet
use tanta.Wallet.{Wallet, get_balance_as_num, set_transaction_control}
use tanta.WalletRepository.{to_row}
use tanta.WalletRepository.Load.{to_entity-last_transaction_version}
use tanta.World.{Database, World}

module _ (db : Database) (a b : String) (r q : TransactionRow) (apart : a ≢ b)
    (r_one : r.version ≡ 1) (q_one : q.version ≡ 1) where
  -- Two transactions of version 1.
  abbrev TwoFirst : World db → Type 0
  TwoFirst s =
      (first db.transactions a s.transactions ≡ some r)
      × (first db.transactions b s.transactions ≡ some q)

  -- Then no list of all transactions is numbered from 1.
  all_after-TwoFirst :
      (s : World db) (ts : List Transaction)
      → TwoFirst s
      → all_after db 0 s ≡ ok ts
      → Consecutive 0 ts
      → ⊥
  all_after-TwoFirst s ts (found, found') read numbered =
      let rows = db.transactions.rows s.transactions in
      let (id, one) =
        Consecutive-one (listed db 0 s) ts (sym (all_after-listed db 0 s) ∙ read) numbered in
      let everywhere : All (λ x. x.version ≡ 1 → x.transaction_id ≡ id) rows =
        All-unselect (λ x. x.version ≡ 1 → x.transaction_id ≡ id) (is_after 0) rows
          (λ x not_after is. ground (arith, not_after, is))
          (All-perm (λ x. x.version ≡ 1 → x.transaction_id ≡ id)
            (listed-perm db 0 s rows (Permᴰ.refl _)) one) in
      let same : r.transaction_id ≡ q.transaction_id =
        first-All db.transactions (λ x. x.version ≡ 1 → x.transaction_id ≡ id) a s.transactions
          {r = r} found everywhere r_one
        ∙ sym (
            first-All db.transactions (λ x. x.version ≡ 1 → x.transaction_id ≡ id) b s.transactions
              {r = q} found' everywhere q_one) in
      apart (
        sym (first-key db.transactions a s.transactions found)
        ∙ same
        ∙ first-key db.transactions b s.transactions found')

  module _ (id : String) where
    abbrev AtStart : WalletRow → Type 0
    AtStart row = row.last_transaction_version ≡ 0

    abbrev IsBarred : World db → Type 0
    IsBarred s = TwoFirst s × HasRow db id AtStart s

    -- What a request knows of the wallet, if it holds it, and of a batch, if it is for the wallet.
    abbrev StaysAtStart : Wallet → Type 0
    StaysAtStart w = w.wallet_id ≡ id → w.last_transaction_version ≡ 0

    abbrev NotFromStart : String → List Transaction → Type 0
    NotFromStart k ts = k ≡ id → Consecutive 0 ts → ⊥

    IsBarred-Stable : Stable db (only IsBarred) Anything StaysAtStart NotFromStart
    unfolding Wallet.create init from_version is_new increment_version clone to_row
    IsBarred-Stable = record {
      draws = λ s times uuids notified j _. (j, tt);
      records = λ t s ((found, found'), (row, there, zero)) _. (
        (
          (save-IsRecorded db a r t s found, save-IsRecorded db b q t s found'),
          (row, ap (λ v. first db.wallets id v) (save-wallets db t s) ∙ there, zero),
        ),
        tt,
      );
      loads = λ k s w _ (_, has) _ e is.
          let (row, zero, reads) = load-HasRow db id AtStart k s w has e is in
          to_entity-last_transaction_version db row reads ∙ zero;
      lists = λ w s ts stays (two, _) _ read is numbered.
          all_after-TwoFirst s ts two (subst (λ v. all_after db v s ≡ ok ts) (stays is) read)
            numbered;
      names = λ w _. tt;
      moves = λ w w' ts refused e stays is'.
          let (numbered, _, (ids, _, _, _)) = apply_transactions-SameWallet w ts e in
          let is = sym ids ∙ is' in
          absurd (refused is (subst (λ v. Consecutive v ts) (stays is) numbered));
      saves = λ w s stays (two, has) _.
          ((rw (save-transactions db w s) two, save-HasRow db id AtStart w s (λ _. stays) has), tt);
      creates = λ user key now s (two, has) _. (
        (
          rw (save-transactions db (Wallet.create user key now) s) two,
          save-HasRow db id AtStart (Wallet.create user key now) s (λ _ _. refl) has,
        ),
        tt,
      );
    }

    -- An audited wallet at version 0 is as it was created.
    untouched :
        (start : Wallet) (ts : List Transaction) {w : Wallet}
        → apply_transactions start ts ≡ ok w
        → length ts ≡ 0
        → start ≡ w
    unfolding apply_transactions
    untouched start [] e none = ok_injective e
    untouched start (t ∷ ts) e none = absurd (omega arith)

    load-IsBarred :
        (s : World db)
        → IsAudited db s s
        → HasRow db id AtStart s
        → (w : Wallet) × (load db id s ≡ ok w)
          × (w.last_transaction_version ≡ 0)
          × (get_balance_as_num w ≡ pos 0)
    unfolding Wallet.create to_row
    load-IsBarred s audited (row, found, zero) =
        let (v, c, is, (ts, recorded, computed)) = audited id row found in
        let at_start : v.last_transaction_version ≡ 0 =
          ap (λ x. x.last_transaction_version) (sym is) ∙ zero in
        let start = Wallet.create v.user_id v.wallet_id v.created_at in
        let (_, total, _) = apply_transactions-SameWallet start ts computed in
        let same = untouched start ts computed (omega (arith, total)) in
        (
          set_transaction_control v (from_state (is_new c)),
          ap (λ x. x.0) (get_wallet_by_id-some db id s row found)
              ∙ ap WalletRepository.to_entity is
              ∙ to_entity-to_row-double v c (IsReplayed-IsDouble db s v (ts, recorded, computed)),
          at_start,
          ap get_balance_as_num (sym same),
        )

    -- If two transactions of version 1 are recorded, under two ids, and the wallets are as
    -- `launch-IsAudited` asks, then a wallet whose version is still 0 loads with version 0 and
    -- balance 0 after any run of requests, however they interleave and whatever they credit.
    pub launch-IsBarred :
        (rs : List Request) (s : World db) {n : ℕ} {y : System db} (row : WalletRow)
        → IsAudited db s s
        → first db.transactions a s.transactions ≡ some r
        → first db.transactions b s.transactions ≡ some q
        → first db.wallets id s.wallets ≡ some row
        → row.last_transaction_version ≡ 0
        → Run n (launch db rs s) y
        → (w : Wallet) × (load db id y.world ≡ ok w)
          × (w.last_transaction_version ≡ 0)
          × (get_balance_as_num w ≡ pos 0)
    launch-IsBarred rs s {y = y} row audited one other there zero run =
        let (_, has) =
          launch-Stable db IsBarred Anything StaysAtStart NotFromStart IsBarred-Stable rs s
            (All-Names Anything rs λ _. tt) ((one, other), (row, there, zero)) run in
        load-IsBarred y.world (launch-IsAudited db rs s audited run) has
