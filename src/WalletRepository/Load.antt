-- ===== src/WalletRepository/Load.antt =====
-- wallet.repository.ts: `getWalletById` only reads, and gives the wallet that was asked for.
use tanta.Base.{String, ◌≡◌, ◌⊎◌, refl, sym, ap, ◌∙◌, inl, inr, Option-cases, none, some}
use tanta.Database.Keyed.{first, first-key}
use tanta.Js.Decimal.{unary_plus}
use tanta.Money.{new_money}
use tanta.Shared.Exception.{Result, ok, throw, wallet, not_found, ok_injective, >>=-eq-ok}
use tanta.Tables.{WalletRow}
use tanta.Wallet.{Wallet}
use tanta.WalletRepository.{to_entity, get_wallet_by_id}
use tanta.WalletRepository.Laws.{get_wallet_by_id-some, get_wallet_by_id-none}
use tanta.World.{Database, World}

module _ (db : Database) where
  -- The wallet that a load gives, if it gives one.
  abbrev pub load : String → World db → Result Wallet
  load id s = (get_wallet_by_id db id s).0

  pub load_lem :
      (id : String) (s : World db)
      → ((first db.wallets id s.wallets ≡ none)
          × (get_wallet_by_id db id s ≡ (throw (wallet not_found), s)))
        ⊎ ((row : WalletRow) × (first db.wallets id s.wallets ≡ some row)
            × (get_wallet_by_id db id s ≡ (to_entity row, s)))
  load_lem id s = elim (Option-cases (first db.wallets id s.wallets)) [
    | inl gone ↦ inl (gone, get_wallet_by_id-none db id s gone)
    | inr (row, found) ↦ inr (row, found, get_wallet_by_id-some db id s row found)
  ]

  -- A load changes nothing.
  pub load_pure : (id : String) (s : World db) → get_wallet_by_id db id s ≡ (load id s, s)
  unfolding get_wallet_by_id
  load_pure id s = refl

  to_entity-wallet_id :
      (row : WalletRow) {w : Wallet} → to_entity row ≡ ok w → w.wallet_id ≡ row.wallet_id
  unfolding to_entity
  to_entity-wallet_id row e =
      let (balance, read, done) =
        >>=-eq-ok (new_money (unary_plus row.balance_value) row.balance_currency) _ e in
      ap (λ v. v.wallet_id) (sym (ok_injective done))

  pub to_entity-last_transaction_version :
      (row : WalletRow) {w : Wallet}
      → to_entity row ≡ ok w
      → w.last_transaction_version ≡ row.last_transaction_version
  unfolding to_entity
  to_entity-last_transaction_version row e =
      let (balance, read, done) =
        >>=-eq-ok (new_money (unary_plus row.balance_value) row.balance_currency) _ e in
      ap (λ v. v.last_transaction_version) (sym (ok_injective done))

  -- A wallet that loads has the id that was asked for, and its row is there.
  pub load-wallet_id :
      (id : String) (s : World db) {w : Wallet}
      → load id s ≡ ok w
      → (w.wallet_id ≡ id) × ((row : WalletRow) × (first db.wallets id s.wallets ≡ some row))
  load-wallet_id id s e = elim (load_lem id s) [
    | inl (gone, failed) ↦ absurd (ne (sym (ap (λ r. r.0) failed) ∙ e))
    | inr (row, found, loaded) ↦ (
      to_entity-wallet_id row (sym (ap (λ r. r.0) loaded) ∙ e)
          ∙ first-key db.wallets id s.wallets found,
      (row, found),
    )
  ]
    where
      ne : {w : Wallet} → throw (wallet not_found) ≡ ok w → ⊥
      ne h = cc
