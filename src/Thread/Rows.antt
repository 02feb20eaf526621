-- ===== src/Thread/Rows.antt =====
-- The row of one wallet, and the saves of any wallet.
use tanta.Base.{
  String, ◌≡◌, ◌⊎◌, refl, ◌∙◌, inl, inr, Bool, Bool-cases, true, false, some, Option-cases, str_eq,
  eq_iff, eq_refl, sym, ap, arith,
}
use mathlib.Core.Path.{subst}
use mathlib.Core.Option
use tanta.Shared.Exception.{ok}
use tanta.WalletRepository.Load.{load, load_lem, load-wallet_id}
use tanta.Database.Keyed.{first, first-insert_kept, first-update_self, first-update_ne}
use tanta.Shared.ConcurrencyControl.{next, is_new}
use tanta.Tables.{WalletRow}
use tanta.Wallet.{Wallet}
use tanta.WalletRepository
use tanta.WalletRepository.{to_row}
use tanta.WalletRepository.Laws.{write, put}
use tanta.World.{Database, World}

module _ (db : Database) where
  -- After a write that goes through, the row with an id is as it was, or it is the row written, by
  -- an update.
  put-first :
      (new : Bool) (row : WalletRow) (id : String) (s t : db.wallets.Store) {old : WalletRow}
      → put db new row s ≡ some t
      → first db.wallets id s ≡ some old
      → (first db.wallets id t ≡ some old)
        ⊎ ((row.wallet_id ≡ id) × (new ≡ false) × (first db.wallets id t ≡ some row))
  put-first true row id s t taken found = inl (first-insert_kept db.wallets id row s t taken found)
  put-first false row id s t taken found = elim (Bool-cases (str_eq row.wallet_id id)) [
    | inl same ↦
        let is = (eq_iff row.wallet_id id).0 same in
        inr (
          is,
          refl,
          first-update_self db.wallets id row s t same found
              (subst (λ k. db.wallets.update k row s ≡ some t) is taken),
        )
    | inr other ↦ inl (
        first-update_ne db.wallets id row.wallet_id row s t (eq_refl row.wallet_id) other taken
        ∙ found)
  ]

  module _ (id : String) (P : WalletRow → Type 0) where
    -- The wallet is there, and its row has the property.
    abbrev pub HasRow : World db → Type 0
    HasRow s = (row : WalletRow) × (first db.wallets id s.wallets ≡ some row) × P row

    -- A save keeps that, if it gives the property to the row it writes over that of the wallet.
    pub save-HasRow :
        (w : Wallet) (s : World db)
        → (is_new (next w.transaction_control) ≡ false
            → w.wallet_id ≡ id
            → P (to_row w (next w.transaction_control)))
        → HasRow s
        → HasRow (WalletRepository.save db w s).1
    unfolding to_row
    save-HasRow w s holds (row, found, has) =
        let control = next w.transaction_control in
        elim (Option-cases (write db w s.wallets)) [
          | inl refused ↦ rw (WalletRepository.Laws.save_refused db w s refused) (row, found, has)
          | inr (t, taken) ↦
              rw (WalletRepository.Laws.save_taken db w s t taken)
                (elim (put-first (is_new control) (to_row w control) id s.wallets t taken found) [
                  | inl kept ↦ (row, kept, has)
                  | inr (is, old, put_there) ↦ (to_row w control, put_there, holds old is)
                ])
        ]

    -- What loads under the id of the wallet is what such a row reads as.
    pub load-HasRow :
        (k : String) (s : World db) (w : Wallet)
        → HasRow s
        → load db k s ≡ ok w
        → w.wallet_id ≡ id
        → (row : WalletRow) × P row × (WalletRepository.to_entity row ≡ ok w)
    load-HasRow k s w (row, found, has) e is = elim (load_lem db k s) [
      | inl (gone, failed) ↦ absurd (ground (arith, sym (ap (λ r. r.0) failed) ∙ e))
      | inr (row', found', loaded) ↦
          let asked : k ≡ id = sym (load-wallet_id db k s e).0 ∙ is in
          let same : row ≡ row' =
            Option.some-injective row row'
              (sym found ∙ subst (λ j. first db.wallets j s.wallets ≡ some row') asked found') in
          (row', subst P same has, sym (ap (λ r. r.0) loaded) ∙ e)
    ]
