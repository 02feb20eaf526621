-- ===== src/Balance/Frame.antt =====
-- What a batch that is accepted has in common with the wallet it began with, with no bound on the
-- amounts: rounding touches balances only.
use tanta.Base.{
  ◌+◌, ◌≡◌, refl, sym, ◌∙◌, inl, inr, Bool-cases, arith, List, [], ◌∷◌, ◌==◌, length, ==→eq,
}
use mathlib.Core.Path.{subst}
use tanta.Shared.ConcurrencyControl.{get_version}
use tanta.Shared.Exception.{ok, >>=-eq-ok, ok_injective}
use tanta.Transaction.{Transaction}
use tanta.Wallet.{Wallet}
use tanta.Balance.{next_balance, apply_transaction, apply_transactions}
use tanta.Balance.Ledger.{Consecutive}

-- The ids, the owner, the creation time and the control.
abbrev pub SameWallet : Wallet → Wallet → Type 0
SameWallet w w' =
    (w'.wallet_id ≡ w.wallet_id)
    × (w'.user_id ≡ w.user_id)
    × (w'.created_at ≡ w.created_at)
    × (w'.transaction_control ≡ w.transaction_control)

apply_transaction-inv :
    (w : Wallet) (t : Transaction) {w' : Wallet}
    → apply_transaction w t ≡ ok w'
    → (get_version t.transaction_control ≡ w.last_transaction_version + 1)
      × (w'.last_transaction_version ≡ w.last_transaction_version + 1)
      × SameWallet w w'
unfolding apply_transaction
apply_transaction-inv w t {w'} e =
    elim (Bool-cases (w.last_transaction_version + 1 == get_version t.transaction_control)) [
      | inl numbered ↦
          let version = ==→eq _ _ numbered in
          let (balance, computed, done) =
            >>=-eq-ok (next_balance t.type w.balance w.balance_type t.amount) _
              (rw numbered at e) in
          subst
            (λ v.
              (get_version t.transaction_control ≡ w.last_transaction_version + 1)
              × (v.last_transaction_version ≡ w.last_transaction_version + 1)
              × SameWallet w v)
            (ok_injective done) (sym version, sym version, (refl, refl, refl, refl))
      | inr other ↦ absurd (ground arith)
    ]

-- An accepted batch is numbered from the wallet's version, which moves on by its length, and the
-- wallet keeps its ids, its owner, its creation time and its control.
pub apply_transactions-SameWallet :
    (w : Wallet) (ts : List Transaction) {w' : Wallet}
    → apply_transactions w ts ≡ ok w'
    → Consecutive w.last_transaction_version ts
      × (w'.last_transaction_version ≡ w.last_transaction_version + length ts)
      × SameWallet w w'
unfolding apply_transactions
apply_transactions-SameWallet w [] e =
    subst
      (λ v.
        Unit {0} × (v.last_transaction_version ≡ w.last_transaction_version + 0) × SameWallet w v)
      (ok_injective e) (tt, omega arith, (refl, refl, refl, refl))
apply_transactions-SameWallet w (t ∷ ts) e =
    let (v, first, rest) = >>=-eq-ok (apply_transaction w t) _ e in
    let (numbered, moved, same) = apply_transaction-inv w t first in
    let (later, total, same') = apply_transactions-SameWallet v ts rest in
    let (id, user, created, control) = same in
    let (id', user', created', control') = same' in
    (
      (numbered, subst (λ n. Consecutive n ts) moved later),
      omega arith,
      (id' ∙ id, user' ∙ user, created' ∙ created, control' ∙ control),
    )
