-- ===== src/Balance/Replay.antt =====
-- Batches that the loop accepts, with no bound on the amounts.
use tanta.Base.{
  ℕ, ◌≡◌, refl, ap, ◌∙◌, inl, inr, Bool-cases, arith, not, List, [], ◌∷◌, ◌==◌, ◌+◌, ◌&&◌,
}
use mathlib.Core.Path.{subst}
use tanta.Js.Int.{pos}
use tanta.Js.Number.{Number, int, double}
use tanta.Js.Number.Doubles.{double_idempotent}
use tanta.Money.{
  Money, Currency, new_money, add, difference, distance, same_currency, greater_or_equal,
}
use tanta.Shared.ConcurrencyControl.{TransactionControl, get_version}
use tanta.Shared.Exception.{
  Result, ok, throw, throw_if, map_ok, wallet, incompatiable_currency, invalid_transactions, ◌>>=◌,
  >>=-eq-ok, >>-eq-ok, ok_injective,
}
use tanta.Transaction.{Transaction, TransactionType, in_, out}
use tanta.Wallet.{
  Wallet, BalanceType, ideal, overdraft, update_balance_data, set_transaction_control,
}
use tanta.Balance.{next_balance, apply_transaction, apply_transactions, is_overdraft, is_ideal}

-- The amount is a double, so that reading it back from its digits gives it again.
abbrev pub IsDouble : Money → Type 0
IsDouble m = double m.value ≡ int (pos m.value)

new_money-inv :
    (n : Number) (c : Currency) {m : Money} → new_money n c ≡ ok m → n ≡ int (pos m.value)
unfolding new_money
new_money-inv n c h = ground (arith, h)

new_money-IsDouble : (n : ℕ) (c : Currency) {m : Money} → new_money (double n) c ≡ ok m → IsDouble m
new_money-IsDouble n c {m} h = double_idempotent n m.value (new_money-inv (double n) c h)

add-IsDouble : (m other : Money) (sum : Money) → add m other ≡ ok sum → IsDouble sum
unfolding add
add-IsDouble m other sum h = new_money-IsDouble (m.value + other.value) m.currency (
    >>-eq-ok (not (same_currency other.currency m.currency)) (wallet incompatiable_currency)
      (new_money (double (m.value + other.value)) m.currency) h)

difference-IsDouble :
    (m other : Money) (rest : Money) → difference m other ≡ ok rest → IsDouble rest
unfolding difference
difference-IsDouble m other rest h = new_money-IsDouble (distance m.value other.value) m.currency (
    >>-eq-ok (not (same_currency other.currency m.currency)) (wallet incompatiable_currency)
      (new_money (double (distance m.value other.value)) m.currency) h)

typed-IsDouble :
    (r : Result Money) (type : BalanceType) {b : Money × BalanceType}
    → ((m : Money) → r ≡ ok m → IsDouble m)
    → (r >>= λ m. ok (m, type)) ≡ ok b
    → IsDouble b.0
typed-IsDouble r type each h =
    let (m, computed, done) = >>=-eq-ok r _ h in
    subst (λ v. IsDouble v.0) (ok_injective done) (each m computed)

-- Whichever way a round computes the balance, it comes out of the constructor of `Money`.
next_balance-IsDouble :
    (t : TransactionType) (balance : Money) (type : BalanceType) (amount : Money)
    {b : Money × BalanceType}
    → next_balance t balance type amount ≡ ok b
    → IsDouble b.0
unfolding next_balance
next_balance-IsDouble in_ balance type amount h =
    elim (Bool-cases (is_overdraft type && greater_or_equal amount balance)) [
      | inl pays_off ↦
          typed-IsDouble (difference balance amount) ideal (difference-IsDouble balance amount)
            (rw pays_off at h)
      | inr other ↦
          typed-IsDouble (add balance amount) type (add-IsDouble balance amount) (rw other at h)
    ]
next_balance-IsDouble out balance type amount h =
    elim (Bool-cases (is_ideal type && greater_or_equal amount balance)) [
      | inl goes_under ↦
          typed-IsDouble (difference balance amount) overdraft (difference-IsDouble balance amount)
            (rw goes_under at h)
      | inr other ↦
          typed-IsDouble (difference balance amount) type (difference-IsDouble balance amount)
            (rw other at h)
    ]

-- What a round that goes through has computed.
round :
    (w : Wallet) (t : Transaction) {w' : Wallet}
    → apply_transaction w t ≡ ok w'
    → (b : Money × BalanceType) × (next_balance t.type w.balance w.balance_type t.amount ≡ ok b)
      × (update_balance_data w b.0 b.1 (get_version t.transaction_control) ≡ w')
unfolding apply_transaction
round w t h =
    let version = get_version t.transaction_control in
    let computing = next_balance t.type w.balance w.balance_type t.amount in
    let updating : Money × BalanceType → Result Wallet =
      λ b. ok (update_balance_data w b.0 b.1 version) in
    let (b, computed, done) = >>=-eq-ok computing updating (
      >>-eq-ok (not (w.last_transaction_version + 1 == version)) (wallet invalid_transactions)
        (computing >>= updating) h) in
    (b, computed, ok_injective done)

pub apply_transactions-IsDouble :
    (w : Wallet) (ts : List Transaction) {w' : Wallet}
    → apply_transactions w ts ≡ ok w'
    → IsDouble w.balance
    → IsDouble w'.balance
unfolding apply_transactions
apply_transactions-IsDouble w [] h d = subst (λ v. IsDouble v.balance) (ok_injective h) d
apply_transactions-IsDouble w (t ∷ ts) h d =
    let (v, first, rest) = >>=-eq-ok (apply_transaction w t) _ h in
    let (b, computed, done) = round w t first in
    apply_transactions-IsDouble v ts rest (
      subst (λ u. IsDouble u.balance) done
        (next_balance-IsDouble t.type w.balance w.balance_type t.amount computed))

-- A wallet with another control goes through the loop in the same way.
apply_transaction-control :
    (w : Wallet) (c : TransactionControl) (t : Transaction)
    → apply_transaction (set_transaction_control w c) t
      ≡ map_ok (λ v. set_transaction_control v c) (apply_transaction w t)
unfolding apply_transaction
apply_transaction-control w c t =
    same
      (throw_if (not (w.last_transaction_version + 1 == get_version t.transaction_control))
        (wallet invalid_transactions))
      (next_balance t.type w.balance w.balance_type t.amount)
  where
    same :
        (check : Result (Unit {0})) (b : Result (Money × BalanceType))
        → (check >>= λ _. b >>= λ (balance, type). ok (
            update_balance_data
              (set_transaction_control w c)
              balance
              type
              (get_version t.transaction_control)))
          ≡ map_ok
              (λ v. set_transaction_control v c)
              (check >>= λ _. b >>= λ (balance, type).
                ok (update_balance_data w balance type (get_version t.transaction_control)))
    same (throw e) b = refl
    same (ok _) (throw e) = refl
    same (ok _) (ok b) = refl

pub apply_transactions-control :
    (w : Wallet) (c : TransactionControl) (ts : List Transaction)
    → apply_transactions (set_transaction_control w c) ts
      ≡ map_ok (λ v. set_transaction_control v c) (apply_transactions w ts)
unfolding apply_transactions
apply_transactions-control w c [] = refl
apply_transactions-control w c (t ∷ ts) =
    ap (λ r. r >>= λ v. apply_transactions v ts) (apply_transaction-control w c t)
    ∙ later (λ v. apply_transactions-control v c ts) (apply_transaction w t)
  where
    later :
        ((v : Wallet)
          → apply_transactions (set_transaction_control v c) ts
            ≡ map_ok (λ v. set_transaction_control v c) (apply_transactions v ts))
        → (r : Result Wallet)
        → (map_ok (λ v. set_transaction_control v c) r >>= λ v. apply_transactions v ts)
          ≡ map_ok (λ v. set_transaction_control v c) (r >>= λ v. apply_transactions v ts)
    later each (throw e) = refl
    later each (ok v) = each v
