-- ===== src/Thread/Audit.antt =====
-- Runs of requests, and the transactions behind each row of the wallets.
pub mod Facts
use tanta.Base.{ℕ, ◌≤◌, ◌^◌, String, ◌≡◌, ◌⊎◌, refl, sym, ap, ◌∙◌, inl, inr, List, [], All, length}
use mathlib.Core.Path.{subst}
use tanta.Balance.{apply_transactions}
use tanta.Balance.Ledger.{Consecutive}
use tanta.Balance.Run.{volume}
use tanta.Database.Keyed.{first}
use tanta.Shared.DateTime.{DateTime}
use tanta.Shared.ConcurrencyControl.{init}
use tanta.Shared.Exception.{Exception, ok, throw, wallet, not_found}
use tanta.Thread.Audit.Facts.{
  Grows, IsFound, IsReplayed, IsAudited, IsHeld, IsFound-Grows, IsReplayed-Grows, IsHeld-apply,
  all_after-IsFound, load-IsHeld, save-IsAudited, loads-IsAudited,
}
use tanta.Thread.Ensures.{Invariant}
use tanta.Thread.Kept.{Anything, save-IsRecorded, save-wallets, save-transactions}
use tanta.Thread.Launch.{Request, All-Names, launch, launch-Along, launch-grows}
use tanta.Thread.Schedule.{System, Run, Along, Along-any}
use tanta.Thread.Stable.{Stable}
use tanta.Transaction.{Transaction}
use tanta.Wallet
use tanta.Wallet.{Wallet}
use tanta.WalletRepository
use tanta.WalletRepository.Load.{load}
use tanta.World.{Database, World}

module _ (db : Database) where
  -- No step removes or changes a recorded transaction.
  abbrev growing : Invariant db
  growing = record {
    holds = λ _. Unit;
    ahead = λ _. Unit;
    grows = Grows db;
    stays = λ s id r there. there;
  }

  save-Grows : (w : Wallet) (s : World db) → Grows db s (WalletRepository.save db w s).1
  save-Grows w s id r there = rw (save-transactions db w s) there

  growing-Stable : Stable db growing Anything (λ _. Unit {0}) (λ _ _. Unit {0})
  growing-Stable = record {
    draws = λ s times uuids notified _ _. (tt, λ id r there. there);
    records = λ t s _ _. (tt, λ id r. save-IsRecorded db id r t s);
    loads = λ id s w _ _ _ e. tt;
    lists = λ w s ts _ _ _ e. tt;
    names = λ w _. tt;
    moves = λ w w' ts _ e _. tt;
    saves = λ w s _ _ _. (tt, save-Grows w s);
    creates = λ user id now s _ _. (tt, save-Grows (Wallet.create user id now) s);
  }

  -- The audit, by the transactions that are recorded in the world y, on the way to y.
  module _ (y : World db) where
    abbrev auditing : Invariant db
    auditing = record {
      holds = IsAudited db y;
      ahead = λ s. Grows db s y;
      grows = λ _ _. Unit;
      stays = λ _. tt;
    }

    created-IsHeld : (user id : String) (now : DateTime) → IsHeld db y (Wallet.create user id now)
    unfolding Wallet.create apply_transactions
    created-IsHeld user id now = (Wallet.create user id now, init, refl, ([], tt, refl))

    auditing-Stable : Stable db auditing Anything (IsHeld db y) (λ _. All (IsFound db y))
    auditing-Stable = record {
      draws = λ s times uuids notified j _. (j, tt);
      records = λ t s j _. (
        λ id row found.
            j id row (ap (λ v. first db.wallets id v) (sym (save-wallets db t s)) ∙ found),
        tt,
      );
      loads = λ id s w _ j _ e. load-IsHeld db y id s w j e;
      lists = λ w s ts _ _ grown e.
          IsFound-Grows db s y ts grown (all_after-IsFound db w.last_transaction_version s ts e);
      names = λ w _. tt;
      moves = λ w w' ts found e held. IsHeld-apply db y w w' ts found e held;
      saves = λ w s held j _. (save-IsAudited db y w s held j, tt);
      creates = λ user id now s j _.
          (save-IsAudited db y (Wallet.create user id now) s (created-IsHeld user id now) j, tt);
    }

  IsAudited-Grows : (s y : World db) → Grows db s y → IsAudited db s s → IsAudited db y s
  IsAudited-Grows s y grown audited id row found =
      let (w, c, is, replayed) = audited id row found in
      (w, c, is, IsReplayed-Grows db s y w grown replayed)

  -- If each row of the wallets is that of a wallet which the loop of `updateBalance` computes from
  -- the wallet as created and a list of recorded transactions, of whichever wallets, it is so after
  -- any run of requests, however they interleave, throws included.
  pub launch-IsAudited :
      (rs : List Request) (s : World db) {n : ℕ} {y : System db}
      → IsAudited db s s
      → Run n (launch db rs s) y
      → IsAudited db y.world y.world
  launch-IsAudited rs s {y = y} audited run =
      let named = All-Names Anything rs λ _. tt in
      let (along, grown) =
        launch-grows db growing Anything (λ _. Unit {0}) (λ _ _. Unit {0}) growing-Stable
          (λ a b c first second id r there. second id r (first id r there)) rs s named tt run
          (Along-any _ (λ _. tt) run) in
      launch-Along db (auditing y.world) Anything (IsHeld db y.world)
        (λ _. All (IsFound db y.world)) (auditing-Stable y.world) rs s named
        (IsAudited-Grows s y.world grown audited) run along

  -- If the wallets of a world are as `launch-IsAudited` asks, then after any run of requests,
  -- however they interleave, a load throws NOT_FOUND or gives a wallet: the stored balance always
  -- reads back. The wallet has the id that was asked for, and there is a list of recorded
  -- transactions whose versions count up by one from 1 and whose number is the version of the
  -- wallet; unless their amounts add up to 2^53 or more, the balance is at most their sum.
  pub launch-load :
      (rs : List Request) (s : World db) {n : ℕ} {y : System db} (id : String)
      → IsAudited db s s
      → Run n (launch db rs s) y
      → (load db id y.world ≡ throw (wallet not_found))
        ⊎ ((w : Wallet) × (ts : List Transaction) × (load db id y.world ≡ ok w)
            × (w.wallet_id ≡ id)
            × All (IsFound db y.world) ts
            × Consecutive 0 ts
            × (w.last_transaction_version ≡ length ts)
            × ((2 ^ 53 ≤ volume ts) ⊎ (w.balance.value ≤ volume ts)))
  launch-load rs s {y = y} id audited run =
      loads-IsAudited db y.world id (launch-IsAudited rs s audited run)
