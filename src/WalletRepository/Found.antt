-- ===== src/WalletRepository/Found.antt =====
-- wallet.repository.ts: where a row that is found after a write comes from.
use tanta.Base.{
  String, ◌≡◌, ◌⊎◌, sym, ◌∙◌, inl, inr, Bool, true, false, Bool-cases, some, Option-cases, str_eq,
  eq_iff, eq_refl, arith,
}
use mathlib.Core.Path.{subst}
use mathlib.Core.Option
use tanta.Database.Keyed.{first, first-insert_self, first-update_self, first-update_none}
use tanta.Tables.{WalletRow}
use tanta.WalletRepository.Laws.{put, put-first_ne}
use tanta.World.{Database}

module _ (db : Database) where
  put-found_self :
      (new : Bool) (row : WalletRow) (s t : db.wallets.Store) {there : WalletRow}
      → put db new row s ≡ some t
      → first db.wallets row.wallet_id t ≡ some there
      → row ≡ there
  put-found_self true row s t {there} taken found =
      Option.some-injective row there (sym (first-insert_self db.wallets row s t taken) ∙ found)
  put-found_self false row s t {there} taken found =
      elim (Option-cases (first db.wallets row.wallet_id s)) [
        | inl gone ↦
            absurd
              (ground (arith, found, first-update_none db.wallets row.wallet_id row s t gone taken))
        | inr (old, before) ↦ Option.some-injective row there (
            sym (
              first-update_self db.wallets row.wallet_id row s t (eq_refl row.wallet_id) before
                taken)
            ∙ found)
      ]

  -- After a write that goes through, a row that is found was there before, or is the one written.
  pub put-found :
      (new : Bool) (row : WalletRow) (id : String) (s t : db.wallets.Store) {there : WalletRow}
      → put db new row s ≡ some t
      → first db.wallets id t ≡ some there
      → (first db.wallets id s ≡ some there) ⊎ (row ≡ there)
  put-found new row id s t {there} taken found = elim (Bool-cases (str_eq row.wallet_id id)) [
    | inl same ↦
        let is : id ≡ row.wallet_id = sym ((eq_iff row.wallet_id id).0 same) in
        inr (
          put-found_self new row s t taken
            (subst (λ k. first db.wallets k t ≡ some there) is found))
    | inr differs ↦ inl (
        sym (
          put-first_ne db new row id s t
            (λ is. ground (arith, eq_iff row.wallet_id id, is, differs)) taken)
        ∙ found)
  ]
