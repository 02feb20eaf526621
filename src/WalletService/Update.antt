-- ===== src/WalletService/Update.antt =====
-- wallet.service.ts: `updateBalance` is all or nothing, touches one wallet, and keeps the ledger.
use tanta.Base.{
  String, ◌+◌, ◌^◌, ◌<◌, ◌≡◌, ◌≢◌, ◌⊎◌, refl, sym, ap, ◌∙◌, inl, inr, some, Option-cases, arith,
  List, [], length,
}
use mathlib.Core.Path.{subst}
use tanta.Balance.{apply_transactions}
use tanta.Balance.Run.{volume}
use tanta.Balance.Frame.{apply_transactions-SameWallet}
use tanta.Balance.Ledger.{
  Consecutive, InCurrency, IsInCredit, IsFunded, Continues, settled, settled-le,
  apply_transactions-settled,
}
use tanta.Database.Keyed.{first}
use tanta.Shared.ConcurrencyControl.{next}
use tanta.Shared.Exception.{Exception, Result, ok, throw, ok_injective, Result-cases}
use tanta.Transaction.{Transaction}
use tanta.Wallet.{Wallet, set_transaction_control}
use tanta.WalletRepository.{save}
use tanta.WalletRepository.Laws.{
  write, reloaded, save_taken, save_refused, get_wallet_by_id-save, get_wallet_by_id-save_ne,
}
use tanta.WalletRepository.Load.{load, load-wallet_id}
use tanta.WalletService.{update_balance}
use tanta.WalletService.Laws.{after_loop, after_load, update_balance_lem}
use tanta.World.{Database, World}

-- The facts of `apply_transactions-settled`, about the wallet that the loop is known to give.
settled_of_ok :
    (w w' : Wallet) (ts : List Transaction)
    → w.balance.value + volume ts < 2 ^ 53
    → Consecutive w.last_transaction_version ts
    → InCurrency w.balance.currency ts
    → IsInCredit w
    → IsFunded w.balance.value ts
    → apply_transactions w ts ≡ ok w'
    → (w'.balance.value ≡ settled w.balance.value ts) × IsInCredit w' × Continues w ts w'
settled_of_ok w w' ts small numbered same credit funded loop =
    let (v, computed, value, credit', continues) =
      apply_transactions-settled w ts small numbered same credit funded in
    subst (λ x. (x.balance.value ≡ settled w.balance.value ts) × IsInCredit x × Continues w ts x)
      (ok_injective (sym computed ∙ loop)) (value, credit', continues)

module _ (db : Database) where
  save-tables :
      (w : Wallet) (s : World db)
      → ((e : Exception) × (save db w s ≡ (throw e, s)))
        ⊎ ((t : db.wallets.Store) × (save db w s ≡ (
          ok (set_transaction_control w (next w.transaction_control)),
          record s { wallets = t },
        )))
  save-tables w s = elim (Option-cases (write db w s.wallets)) [
    | inl refused ↦ inl (_, save_refused db w s refused)
    | inr (t, taken) ↦ inr (t, save_taken db w s t taken)
  ]

  -- Whatever it throws, and on whatever it throws, `update_balance` has then changed nothing; and if
  -- it returns, it has changed no table but that of the wallets.
  pub update_balance_atomic :
      (id : String) (ts : List Transaction) (s : World db)
      → ((e : Exception) × (update_balance db id ts s ≡ (throw e, s)))
        ⊎ ((w : Wallet) × (t : db.wallets.Store) × (update_balance db id ts s
              ≡ (ok w, record s { wallets = t })))
  update_balance_atomic id ts s = rw (update_balance_lem db id ts s) (by_load (load db id s))
    where
      Ends : Result Wallet × World db → Type 0
      Ends r =
          ((e : Exception) × (r ≡ (throw e, s)))
          ⊎ ((w : Wallet) × (t : db.wallets.Store) × (r ≡ (ok w, record s { wallets = t })))

      by_loop : (r : Result Wallet) → Ends (after_loop db r s)
      by_loop (throw e) = inl (e, refl)
      by_loop (ok w) = elim (save-tables w s) [
        | inl (e, fails) ↦ inl (e, fails)
        | inr (t, returns) ↦ inr (_, t, returns)
      ]

      by_load : (r : Result Wallet) → Ends (after_load db ts r s)
      by_load (throw e) = inl (e, refl)
      by_load (ok w) = by_loop (apply_transactions w ts)

  -- `update_balance` of one wallet, returning or throwing, changes what is loaded for no other.
  pub load-update_balance_ne :
      (id other : String) (ts : List Transaction) (s : World db)
      → id ≢ other
      → load db other (update_balance db id ts s).1 ≡ load db other s
  load-update_balance_ne id other ts s ne =
      rw (update_balance_lem db id ts s) (by_load (load db id s) refl)
    where
      by_loop :
          (w : Wallet)
          → w.wallet_id ≡ id
          → (r : Result Wallet) → apply_transactions w ts ≡ r
          → load db other (after_loop db r s).1 ≡ load db other s
      by_loop w same (throw e) loop = refl
      by_loop w same (ok w') loop =
          let (_, _, (kept, _, _, _)) = apply_transactions-SameWallet w ts loop in
          get_wallet_by_id-save_ne db w' other s (λ e. ne (sym (kept ∙ same) ∙ e))

      by_load :
          (r : Result Wallet)
          → load db id s ≡ r
          → load db other (after_load db ts r s).1 ≡ load db other s
      by_load (throw e) loaded = refl
      by_load (ok w) loaded =
          by_loop w (load-wallet_id db id s loaded).0 (apply_transactions w ts) refl

  -- For a wallet that loads and owes nothing and a batch in its currency, numbered from its version,
  -- within 2^53 and funded: if the server takes the row of the wallet that the loop computes,
  -- `update_balance` returns, and the wallet that loads then has the balance of the ledger, owes
  -- nothing, has moved on by the length of the batch and has kept its owner.
  pub load-update_balance :
      (id : String) (ts : List Transaction) (s : World db) (w w' : Wallet) (t : db.wallets.Store)
      → load db id s ≡ ok w
      → w.balance.value + volume ts < 2 ^ 53
      → Consecutive w.last_transaction_version ts
      → InCurrency w.balance.currency ts
      → IsInCredit w
      → IsFunded w.balance.value ts
      → apply_transactions w ts ≡ ok w'
      → write db w' s.wallets ≡ some t
      → (v : Wallet) × (update_balance db id ts s ≡ (
        ok (set_transaction_control w' (next w'.transaction_control)),
        record s { wallets = t },
      ))
        × (load db id (record s { wallets = t }) ≡ ok v)
        × (v.balance.value ≡ settled w.balance.value ts)
        × IsInCredit v
        × (v.last_transaction_version ≡ w.last_transaction_version + length ts)
        × (v.user_id ≡ w.user_id)
  load-update_balance id ts s w w' t loaded small numbered same credit funded loop taken =
      let (value, credit', (kept, user, _, _, _, version)) =
        settled_of_ok w w' ts small numbered same credit funded loop in
      let (asked, (row, found)) = load-wallet_id db id s loaded in
      let here : w'.wallet_id ≡ id = kept ∙ asked in
      let small' : w'.balance.value < 2 ^ 53 = omega (arith, settled-le w.balance.value ts) in
      let (returns, loads) =
        get_wallet_by_id-save db w' s t small'
          (λ _. (row, subst (λ k. first db.wallets k s.wallets ≡ some row) (sym here) found))
          taken in
      (
        reloaded w',
        update_balance_lem db id ts s
            ∙ ap (λ r. after_load db ts r s) loaded
            ∙ ap (λ r. after_loop db r s) loop
            ∙ returns,
        subst (λ k. load db k (record s { wallets = t }) ≡ ok (reloaded w')) here
            (ap (λ r. r.0) loads),
        value,
        credit',
        version,
        user,
      )

  -- On no transactions the wallet is saved as it was loaded.
  pub load-update_balance_nil :
      (id : String) (s : World db) (w : Wallet) (t : db.wallets.Store)
      → load db id s ≡ ok w
      → w.balance.value < 2 ^ 53
      → write db w s.wallets ≡ some t
      → (update_balance db id [] s
          ≡ (ok (set_transaction_control w (next w.transaction_control)), record s { wallets = t }))
        × (load db id (record s { wallets = t }) ≡ ok (reloaded w))
  unfolding apply_transactions
  load-update_balance_nil id s w t loaded small taken =
      let (here, (row, found)) = load-wallet_id db id s loaded in
      let (returns, loads) =
        get_wallet_by_id-save db w s t small
          (λ _. (row, subst (λ k. first db.wallets k s.wallets ≡ some row) (sym here) found))
          taken in
      (
        update_balance_lem db id [] s ∙ ap (λ r. after_load db [] r s) loaded ∙ returns,
        subst (λ k. load db k (record s { wallets = t }) ≡ ok (reloaded w)) here
            (ap (λ r. r.0) loads),
      )

  -- If `update_balance` returns, the batch was numbered from the version of the wallet that loaded.
  pub update_balance-Consecutive :
      (id : String) (ts : List Transaction) (s : World db) (w : Wallet) {v : Wallet} {s' : World db}
      → load db id s ≡ ok w
      → update_balance db id ts s ≡ (ok v, s')
      → Consecutive w.last_transaction_version ts
  update_balance-Consecutive id ts s w {v} {s'} loaded returned =
      elim (Result-cases (apply_transactions w ts)) [
        | inl (e, thrown) ↦ absurd (
            ground (
              arith,
              ap (λ r. r.0)
                  (sym (ap (λ r. after_loop db r s) thrown)
                    ∙ sym (ap (λ r. after_load db ts r s) loaded)
                    ∙ sym (update_balance_lem db id ts s)
                    ∙ returned),
            ))
        | inr (w', accepted) ↦ (apply_transactions-SameWallet w ts accepted).0
      ]
