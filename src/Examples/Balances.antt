-- ===== src/Examples/Balances.antt =====
-- Balances, rows and the values they are made of: a concrete input for each theorem.
use tanta.Base.{ℕ, ◌⊎◌, ◌↔◌, ◌≡◌, refl, inl, List, [], ◌∷◌, arith}
use tanta.Balance.{apply_transaction, apply_transactions}
use tanta.Balance.Ledger.{
  Consecutive, InCurrency, IsInCredit, Continues, apply_transactions-settled,
  apply_transactions_accepts_iff, apply_transaction_moves_iff,
}
use tanta.Balance.Step.{IsSound}
use tanta.Js.Int.{pos, ◌+ℤ◌}
use tanta.Money.{ngn}
use tanta.Samples.{listed, created, credited, naira, blank, held, applied, with_wallet, services}
use tanta.Shared.ConcurrencyControl.{next}
use tanta.Shared.Exception.{Exception, ok, throw}
use tanta.Transaction.{Transaction, TransactionType, in_, out}
use tanta.Wallet.{Wallet, ideal, overdraft, get_balance_as_num}
use tanta.Wallet
use tanta.WalletRepository
use tanta.WalletRepository.Laws.{reloaded, get_wallet_by_id-save}
use tanta.WalletRepository.Load.{load}
use tanta.WalletService.{update_balance}
use tanta.WalletService.Update.{update_balance_atomic, load-update_balance}
use tanta.World.{World}

abbrev funded : World listed
funded = credited 5000 created

abbrev numbered : ℕ → TransactionType → ℕ → Transaction
numbered version type value = record {
  transaction_id = "t";
  wallet_id = "id-0";
  amount = naira value;
  type = type;
  created_at = record { time_in_ms = 0 };
  transaction_control = record { version = version };
}

-- In 100, out 30, in 5.
abbrev batch : List Transaction
batch = numbered 1 in_ 100 ∷ numbered 2 out 30 ∷ numbered 3 in_ 5 ∷ []

apply_transactions-settled_example :
    (w' : Wallet) × (apply_transactions blank batch ≡ ok w')
    × (w'.balance.value ≡ 75)
    × IsInCredit w'
    × Continues blank batch w'
apply_transactions-settled_example =
    apply_transactions-settled blank batch (omega arith) (refl, (refl, (refl, tt)))
      (refl, (refl, (refl, tt))) (inl refl) (tt, (omega arith, (tt, tt)))

apply_transactions_accepts_iff_example :
    ((w' : Wallet) × (apply_transactions blank batch ≡ ok w'))
    ↔ (Consecutive 0 batch × InCurrency ngn batch)
apply_transactions_accepts_iff_example = apply_transactions_accepts_iff blank batch (omega arith)

-- A debt of 10.
abbrev owing : Wallet
owing = record blank { balance = naira 10; balance_type = overdraft }

apply_transaction_moves_iff_example :
    (w' : Wallet) × (apply_transaction owing (numbered 1 in_ 3) ≡ ok w')
    × ((get_balance_as_num w' ≡ get_balance_as_num owing +ℤ pos 3) ↔ IsSound in_ overdraft 10 3)
apply_transaction_moves_iff_example =
    apply_transaction_moves_iff owing (numbered 1 in_ 3) (omega arith) refl refl

-- The same batch for the wallet "id-0", which is at version 1.
abbrev later : List Transaction
later = numbered 2 out 1000 ∷ numbered 3 in_ 70 ∷ []

abbrev moved : Wallet
moved = applied (held funded) later

load-update_balance_example :
    (v : Wallet) × (update_balance listed "id-0" later funded ≡ (
      ok (Wallet.set_transaction_control moved (next moved.transaction_control)),
      record funded { wallets = with_wallet moved funded },
    ))
    × (load listed "id-0" (record funded { wallets = with_wallet moved funded }) ≡ ok v)
    × (v.balance.value ≡ 4070)
    × IsInCredit v
    × (v.last_transaction_version ≡ 3)
    × (v.user_id ≡ "ann")
unfolding services
load-update_balance_example =
    load-update_balance listed "id-0" later funded (held funded) moved (with_wallet moved funded)
      refl (omega arith) (refl, (refl, tt)) (refl, (refl, tt)) (inl refl) (omega arith, (tt, tt))
      refl refl

update_balance_atomic_example :
    ((e : Exception) × (update_balance listed "id-0" batch funded ≡ (throw e, funded)))
    ⊎ ((w : Wallet) × (t : listed.wallets.Store) × (update_balance listed "id-0" batch funded
          ≡ (ok w, record funded { wallets = t })))
update_balance_atomic_example = update_balance_atomic listed "id-0" batch funded

abbrev changed : Wallet
changed = record (held funded) { balance = naira 12; balance_type = overdraft }

get_wallet_by_id-save_example :
    (WalletRepository.save listed changed funded ≡ (
      ok (Wallet.set_transaction_control changed (next changed.transaction_control)),
      record funded { wallets = with_wallet changed funded },
    ))
    × (WalletRepository.get_wallet_by_id listed "id-0"
          (record funded { wallets = with_wallet changed funded })
        ≡ (ok (reloaded changed), record funded { wallets = with_wallet changed funded }))
unfolding services
get_wallet_by_id-save_example =
    get_wallet_by_id-save listed changed funded (with_wallet changed funded) (omega arith)
      (λ _. (_, refl)) refl
