-- ===== src/Balance/Ledger.antt =====
-- The loop of `updateBalance` against a ledger: the reported balance is the old one plus what came
-- in, minus what went out.
use tanta.Base.{
  ℕ, ◌+◌, ◌^◌, ◌<◌, ◌≤◌, ◌≡◌, ◌∙◌, ◌⊎◌, ◌↔◌, refl, inl, inr, arith, none, Option-cases, List, [],
  ◌∷◌, ◌++◌, length, ap, ◌-◌, All,
}
use tanta.Js.Int.{◌+ℤ◌}
use tanta.Money.{Currency}
use tanta.Money.Laws.{same_currency_iff}
use tanta.Shared.ConcurrencyControl.{get_version}
use tanta.Shared.Exception.{Result, ok, throw, ◌>>=◌}
use tanta.Transaction.{Transaction, TransactionType, in_, out}
use tanta.Wallet.{Wallet, BalanceType, ideal, get_balance_as_num}
use tanta.Balance.{apply_transaction, apply_transactions}
use tanta.Balance.Step.{delta, IsSound, next_value, next_type, next_value-IsSound_iff}
use tanta.Balance.Run.{
  apply_transaction-outcome, fault_of, first_fault, replay_one, replay, volume,
  apply_transactions-outcome,
}

-- The versions count up by one from v + 1.
abbrev pub Consecutive : ℕ → List Transaction → Type 0
Consecutive v [] = Unit
Consecutive v (t ∷ ts) = (get_version t.transaction_control ≡ v + 1) × Consecutive (v + 1) ts

abbrev pub InCurrency : Currency → List Transaction → Type 0
InCurrency c = All (λ t. t.amount.currency ≡ c)

fault_of-none_iff :
    (v : ℕ) (c : Currency) (t : Transaction)
    → (fault_of v c t ≡ none)
      ↔ ((get_version t.transaction_control ≡ v + 1) × (t.amount.currency ≡ c))
fault_of-none_iff v c t = (
  λ h. (ground arith, ground (arith, (same_currency_iff t.amount.currency c).0)),
  λ (version, currency). ground (arith, (same_currency_iff t.amount.currency c).1 currency),
)

first_fault-none_iff :
    (v : ℕ) (c : Currency) (ts : List Transaction)
    → (first_fault v c ts ≡ none) ↔ (Consecutive v ts × InCurrency c ts)
first_fault-none_iff v c [] = (λ _. (tt, tt), λ _. refl)
first_fault-none_iff v c (t ∷ ts) =
    let (sound, complete) = fault_of-none_iff v c t in
    let (sound', complete') = first_fault-none_iff (v + 1) c ts in
    elim (Option-cases (fault_of v c t)) [
      | inl none_here ↦ (
        λ h.
            let (version, currency) = sound none_here in
            let (versions, currencies) = sound' (ground arith) in
            ((version, versions), (currency, currencies)),
        λ (versions, currencies). rw none_here (complete' (versions.1, currencies.1)),
      )
      | inr (e, faulty) ↦ (
        λ h. absurd (ground arith),
        λ (versions, currencies). absurd (ground (arith, complete (versions.0, currencies.0))),
      )
    ]

-- Within 2^53 the loop accepts a batch exactly if its versions count up from the wallet's and its
-- amounts are in the wallet's currency.
pub apply_transactions_accepts_iff :
    (w : Wallet) (ts : List Transaction)
    → w.balance.value + volume ts < 2 ^ 53
    → ((w' : Wallet) × (apply_transactions w ts ≡ ok w'))
      ↔ (Consecutive w.last_transaction_version ts × InCurrency w.balance.currency ts)
apply_transactions_accepts_iff w ts small =
    let run = apply_transactions-outcome w ts small in
    let (sound, complete) = first_fault-none_iff w.last_transaction_version w.balance.currency ts in
    (λ (w', e). sound (ground arith), λ h. (replay w ts, rw (run, complete h) refl))

bind_assoc :
    (r : Result Wallet) (f g h : Wallet → Result Wallet)
    → ((w : Wallet) → f w ≡ (g w >>= h))
    → (r >>= f) ≡ ((r >>= g) >>= h)
bind_assoc (ok w) f g h e = e w
bind_assoc (throw c) f g h e = refl

-- Two batches, one after the other, do what one batch of both does.
pub apply_transactions-append :
    (w : Wallet) (ts us : List Transaction)
    → apply_transactions w (ts ++ us) ≡ (apply_transactions w ts >>= λ w'. apply_transactions w' us)
unfolding apply_transactions
apply_transactions-append w [] us = refl
apply_transactions-append w (t ∷ ts) us =
    bind_assoc (apply_transaction w t) (λ w'. apply_transactions w' (ts ++ us))
      (λ w'. apply_transactions w' ts) (λ w'. apply_transactions w' us)
      (λ w'. apply_transactions-append w' ts us)

-- The ledger: the balance as a plain running number, and that no debit exceeds what it meets.
abbrev pub settle_one : TransactionType → ℕ → ℕ → ℕ
settle_one in_ value amount = value + amount
settle_one out value amount = value - amount

abbrev pub settled : ℕ → List Transaction → ℕ
settled value [] = value
settled value (t ∷ ts) = settled (settle_one t.type value t.amount.value) ts

abbrev pub Fits : TransactionType → ℕ → ℕ → Type 0
Fits in_ value amount = Unit
Fits out value amount = amount ≤ value

abbrev pub IsFunded : ℕ → List Transaction → Type 0
IsFunded value [] = Unit
IsFunded value (t ∷ ts) =
    Fits t.type value t.amount.value × IsFunded (settle_one t.type value t.amount.value) ts

-- Nothing is owed: a balance of 0 may be marked as overdraft, which a debit of all of it does.
abbrev pub IsInCredit : Wallet → Type 0
IsInCredit w = (w.balance_type ≡ ideal) ⊎ (w.balance.value ≡ 0)

settle_one_lem :
    (t : TransactionType) (type : BalanceType) (value amount : ℕ)
    → (type ≡ ideal) ⊎ (value ≡ 0)
    → Fits t value amount
    → (next_value t type value amount ≡ settle_one t value amount)
      × ((next_type t type value amount ≡ ideal) ⊎ (next_value t type value amount ≡ 0))
settle_one_lem in_ ideal value amount c f = (ground arith, ground arith)
settle_one_lem _ _ value amount c f = (ground arith, ground arith)

replay-settled :
    (w : Wallet) (ts : List Transaction)
    → IsInCredit w
    → IsFunded w.balance.value ts
    → ((replay w ts).balance.value ≡ settled w.balance.value ts) × IsInCredit (replay w ts)
replay-settled w [] c f = (refl, c)
replay-settled w (t ∷ ts) c (fits, f) =
    let (here, c') = settle_one_lem t.type w.balance_type w.balance.value t.amount.value c fits in
    let (rest, c'') = replay-settled (replay_one w t) ts c' (rw here f) in
    (rest ∙ ap (λ v. settled v ts) here, c'')

-- What a batch leaves alone, and the version that it reaches.
abbrev pub Continues : Wallet → List Transaction → Wallet → Type 0
Continues w ts w' =
    (w'.wallet_id ≡ w.wallet_id)
    × (w'.user_id ≡ w.user_id)
    × (w'.created_at ≡ w.created_at)
    × (w'.transaction_control ≡ w.transaction_control)
    × (w'.balance.currency ≡ w.balance.currency)
    × (w'.last_transaction_version ≡ w.last_transaction_version + length ts)

replay-Continues : (w : Wallet) (ts : List Transaction) → Continues w ts (replay w ts)
replay-Continues w [] = (refl, refl, refl, refl, refl, omega arith)
replay-Continues w (t ∷ ts) =
    let (id, user, created, control, currency, version) = replay-Continues (replay_one w t) ts in
    (id, user, created, control, currency, omega arith)

-- From a wallet that owes nothing, a batch that is numbered from its version, in its currency,
-- within 2^53 and never debits more than the running balance is accepted; the balance becomes that
-- of the ledger, nothing is owed, the version moves on by the number of transactions, and the
-- ids, the owner, the creation time, the currency and the control stay.
pub apply_transactions-settled :
    (w : Wallet) (ts : List Transaction)
    → w.balance.value + volume ts < 2 ^ 53
    → Consecutive w.last_transaction_version ts
    → InCurrency w.balance.currency ts
    → IsInCredit w
    → IsFunded w.balance.value ts
    → (w' : Wallet) × (apply_transactions w ts ≡ ok w')
      × (w'.balance.value ≡ settled w.balance.value ts)
      × IsInCredit w'
      × Continues w ts w'
apply_transactions-settled w ts small numbered same credit funded =
    let complete =
      (first_fault-none_iff w.last_transaction_version w.balance.currency ts).1 (numbered, same) in
    let (value, credit') = replay-settled w ts credit funded in
    (
      replay w ts,
      rw (apply_transactions-outcome w ts small, complete) refl,
      value,
      credit',
      replay-Continues w ts,
    )

-- One transaction of the right version, in the wallet's currency and within 2^53, is accepted, and
-- the reported balance moves by its amount exactly in the sound cases: from an ideal balance, by a
-- credit that covers the debt, by nothing, or out of a debt of nothing.
pub apply_transaction_moves_iff :
    (w : Wallet) (t : Transaction)
    → w.balance.value + t.amount.value < 2 ^ 53
    → get_version t.transaction_control ≡ w.last_transaction_version + 1
    → t.amount.currency ≡ w.balance.currency
    → (w' : Wallet) × (apply_transaction w t ≡ ok w')
      × ((get_balance_as_num w' ≡ get_balance_as_num w +ℤ delta t.type t.amount.value)
          ↔ IsSound t.type w.balance_type w.balance.value t.amount.value)
apply_transaction_moves_iff w t small version same = (
  replay_one w t,
  rw
      (
        apply_transaction-outcome w t small,
        (fault_of-none_iff w.last_transaction_version w.balance.currency t).1 (version, same),
      )
      refl,
  next_value-IsSound_iff t.type w.balance_type w.balance.value t.amount.value,
)

pub settled-le : (value : ℕ) (ts : List Transaction) → settled value ts ≤ value + volume ts
settled-le value [] = omega arith
settled-le value (t ∷ ts) = one t.type (settled-le (settle_one t.type value t.amount.value) ts)
  where
    one :
        (k : TransactionType)
        → settled (settle_one k value t.amount.value) ts
          ≤ settle_one k value t.amount.value + volume ts
        → settled (settle_one k value t.amount.value) ts ≤ value + (t.amount.value + volume ts)
    one in_ h = omega arith
    one out h = omega arith
