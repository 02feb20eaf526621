-- ===== src/Thread/Elsewhere.antt =====
-- Runs of requests, and a wallet that none of them names.
use tanta.Base.{
  ℕ, String, ◌≡◌, ◌≢◌, refl, sym, ap, ◌∙◌, inl, inr, Bool, Bool-cases, true, false, Option-cases,
  some, List, str_eq, eq_iff, eq_refl, All, arith,
}
use tanta.Balance.Frame.{apply_transactions-SameWallet}
use tanta.Database.Keyed.{first, first-insert_kept, first-update_ne}
use tanta.Shared.ConcurrencyControl.{next, is_new, init, from_version, increment_version, clone}
use tanta.Tables.{WalletRow}
use tanta.Thread.Ensures.{only}
use tanta.Thread.Kept.{save-wallets}
use tanta.Thread.Launch.{Request, Names, launch, launch-Stable}
use tanta.Thread.Schedule.{System, Run}
use tanta.Thread.Stable.{Stable}
use tanta.Wallet.{Wallet}
use tanta.Wallet
use tanta.WalletRepository
use tanta.WalletRepository.{to_row}
use tanta.WalletRepository.Laws.{write, put}
use tanta.WalletRepository.Load.{load-wallet_id}
use tanta.World.{Database, World}

module _ (db : Database) (id : String) (row : WalletRow) where
  abbrev IsThere : World db → Type 0
  IsThere s = first db.wallets id s.wallets ≡ some row

  -- A write of another wallet, or of a new one, that goes through leaves the row.
  put-IsThere :
      (new : Bool) (written : WalletRow) (s t : db.wallets.Store)
      → put db new written s ≡ some t
      → (new ≡ false → written.wallet_id ≢ id)
      → first db.wallets id s ≡ some row
      → first db.wallets id t ≡ some row
  put-IsThere true written s t taken other found =
      first-insert_kept db.wallets id written s t taken found
  put-IsThere false written s t taken other found =
      elim (Bool-cases (str_eq written.wallet_id id)) [
        | inl same ↦ absurd (other refl ((eq_iff written.wallet_id id).0 same))
        | inr differs ↦
            first-update_ne db.wallets id written.wallet_id written s t (eq_refl written.wallet_id)
              differs taken
            ∙ found
      ]

  save-IsThere :
      (w : Wallet) (s : World db)
      → (is_new (next w.transaction_control) ≡ false → w.wallet_id ≢ id)
      → IsThere s
      → IsThere (WalletRepository.save db w s).1
  unfolding to_row
  save-IsThere w s other found = elim (Option-cases (write db w s.wallets)) [
    | inl refused ↦ rw (WalletRepository.Laws.save_refused db w s refused) found
    | inr (t, taken) ↦ rw (WalletRepository.Laws.save_taken db w s t taken) (
        put-IsThere (is_new (next w.transaction_control)) (to_row w (next w.transaction_control))
          s.wallets t taken other found)
  ]

  IsThere-Stable : Stable db (only IsThere) (λ k. k ≢ id) (λ w. w.wallet_id ≢ id) (λ _ _. Unit {0})
  unfolding Wallet.create init from_version is_new increment_version clone
  IsThere-Stable = record {
    draws = λ s times uuids notified found _. (found, tt);
    records = λ t s found _. (ap (λ v. first db.wallets id v) (save-wallets db t s) ∙ found, tt);
    lists = λ w s ts other found _ e. tt;
    loads = λ k s w other found _ e is. other (sym (load-wallet_id db k s e).0 ∙ is);
    names = λ w other. other;
    moves = λ w w' ts _ e other is.
        let (_, _, (ids, _, _, _)) = apply_transactions-SameWallet w ts e in other (sym ids ∙ is);
    saves = λ w s other found _. (save-IsThere w s (λ _. other) found, tt);
    creates = λ u k now s found _. (
      save-IsThere (Wallet.create u k now) s (λ never. absurd (ground (arith, never))) found,
      tt,
    );
  }

  -- The row of a wallet that no request credits, debits or sends from is the same after any run of
  -- the requests, however they interleave.
  pub launch-IsThere :
      (rs : List Request) (s : World db) {n : ℕ} {y : System db}
      → All (Names (λ k. k ≢ id)) rs
      → first db.wallets id s.wallets ≡ some row
      → Run n (launch db rs s) y
      → first db.wallets id y.world.wallets ≡ some row
  launch-IsThere rs s others found run =
      launch-Stable db IsThere (λ k. k ≢ id) (λ w. w.wallet_id ≢ id) (λ _ _. Unit {0})
        IsThere-Stable rs s others found run
