-- ===== src/WalletController/Laws.antt =====
-- wallet.controller.ts: what the handlers answer, and that a bad request changes no table.
use tanta.Base.{
  ℕ, suc, String, ◌≤◌, ◌≡◌, ◌≢◌, ◌⊎◌, inl, inr, refl, ap, ◌∙◌, List, [], ◌∷◌, All, length, arith,
}
use mathlib.Core.Path.{subst}
use tanta.Js.Int.{pos}
use tanta.Js.Number.{Number, int}
use tanta.Money.{Money, new_money, ngn}
use tanta.Notification.{NotificationType}
use tanta.Shared.DateTime.{Date}
use tanta.Shared.Exception.{
  Exception, Result, ok, throw, transferring, not_allowed, wallet, invalid_money, ok_injective,
}
use tanta.Shared.Pagination.{Pagination, new_pagination}
use tanta.Wallet.{Wallet}
use tanta.WalletController.{
  WalletView, view_wallets, view_transaction, fund_wallet, get_wallets, transfer,
}
use tanta.WalletRepository
use tanta.WalletRepository.Pages.{get_wallets_by_user_lem}
use tanta.WalletRepository.Load.{load}
use tanta.WalletService
use tanta.World.Leaves.{Leaves, Leaves-bind, Leaves-lift, Leaves-pure}
use tanta.Transaction.{Transaction}
use tanta.TransactionService
use tanta.TransferringService
use tanta.World.{Database, World, lift, pure, ◌>>=◌}

-- An amount that is no natural number is no money.
new_money_rejects :
    (amount : Number)
    → ((n : ℕ) → amount ≢ int (pos n))
    → new_money amount ngn ≡ throw (wallet invalid_money)
unfolding new_money
new_money_rejects (int (pos n)) odd = absurd (odd n refl)
new_money_rejects _ odd = refl

module _ (iso : Date → String) where
  length-view_wallets : (ws : List Wallet) → length (view_wallets iso ws) ≡ length ws
  length-view_wallets [] = refl
  length-view_wallets (w ∷ ws) = ap suc (length-view_wallets ws)

  view_wallets-All :
      (user_id : String) (ws : List Wallet)
      → All (λ w. w.user_id ≡ user_id) ws
      → All (λ v. v.user_id ≡ user_id) (view_wallets iso ws)
  view_wallets-All user_id [] h = tt
  view_wallets-All user_id (w ∷ ws) (h, hs) = (h, view_wallets-All user_id ws hs)

  module _ (db : Database) where
    -- Asked to fund or to transfer an amount that is no natural number, the handlers throw
    -- INVALID_MONEY: funding has drawn an id by then, and nothing else has changed.
    pub fund_wallet-transfer_rejects :
        (user_id wallet_id receiver_id : String) (amount : Number) (kind : NotificationType)
        (s : World db)
        → ((n : ℕ) → amount ≢ int (pos n))
        → (fund_wallet iso db wallet_id amount s
            ≡ (throw (wallet invalid_money), record s { uuids = λ n. s.uuids (suc n) }))
          × (transfer iso db user_id wallet_id receiver_id amount kind s
              ≡ (throw (wallet invalid_money), s))
    unfolding fund_wallet transfer
    fund_wallet-transfer_rejects user_id wallet_id receiver_id amount kind s odd =
        (rw (new_money_rejects amount odd) refl, rw (new_money_rejects amount odd) refl)

    -- If `get_wallets`, asked with a natural offset and limit, answers a list of wallets, it has
    -- changed nothing, and the wallets are the user's and not more than the limit.
    pub get_wallets_lem :
        (user_id : String) (offset limit : ℕ) (s : World db) {vs : List WalletView} {s' : World db}
        → get_wallets iso db user_id (int (pos offset)) (int (pos limit)) s ≡ (ok vs, s')
        → (s ≡ s') × All (λ v. v.user_id ≡ user_id) vs × (length vs ≤ limit)
    unfolding get_wallets new_pagination WalletService.get_wallets_by_user
    get_wallets_lem user_id offset limit s {vs} {s'} e =
        by_answer (WalletRepository.get_wallets_by_user db user_id page s) refl e
      where
        page : Pagination
        page = record { offset = offset; limit = limit }

        by_answer :
            (r : Result (List Wallet) × World db)
            → WalletRepository.get_wallets_by_user db user_id page s ≡ r
            → (lift r.0 >>= λ ws. pure (view_wallets iso ws)) r.1 ≡ (ok vs, s')
            → (s ≡ s') × All (λ v. v.user_id ≡ user_id) vs × (length vs ≤ limit)
        by_answer (throw c, t) found done = absurd (ground (arith, ap (λ r. r.0) done))
        by_answer (ok ws, t) found done =
            let (same, owners, _, few, _, _) = get_wallets_by_user_lem db user_id s page found in
            let is : view_wallets iso ws ≡ vs = ok_injective (ap (λ r. r.0) done) in
            (
              same ∙ ap (λ r. r.1) done,
              subst (All (λ v. v.user_id ≡ user_id)) is (view_wallets-All user_id ws owners),
              subst (λ l. length l ≤ limit) is (omega (arith, length-view_wallets ws)),
            )

    -- The handler of a transfer throws and changes nothing, unless the sender's wallet loads and is
    -- the user's.
    pub transfer-load :
        (user_id sender receiver : String) (n : ℕ) (kind : NotificationType) (s : World db)
        → ((e : Exception) × (transfer iso db user_id sender receiver (int (pos n)) kind s
              ≡ (throw e, s)))
          ⊎ ((w : Wallet) × (load db sender s ≡ ok w) × (w.user_id ≡ user_id))
    unfolding transfer new_money
    transfer-load user_id sender receiver n kind s =
        elim (TransferringService.Laws.transfer_lem db user_id sender receiver
          (record { value = n; currency = ngn }) kind s) [
            | inl (e, absent, same) ↦ inl (e, rw same refl)
            | inr (inl (w, found, stranger, same)) ↦ inl (transferring not_allowed, rw same refl)
            | inr (inr (w, found, owner, same)) ↦ inr (w, found, owner)
          ]

    -- `get_wallets` changes nothing, whether it answers or throws.
    pub get_wallets-Leaves :
        (user_id : String) (offset limit : Number)
        → Leaves (λ s. s) (get_wallets iso db user_id offset limit)
    unfolding get_wallets WalletService.get_wallets_by_user WalletRepository.get_wallets_by_user
    get_wallets-Leaves user_id offset limit =
        Leaves-bind (λ s. s) (lift (new_pagination offset limit)) _ (Leaves-lift (λ s. s) _)
          λ page _ _.
            Leaves-bind (λ s. s) (WalletRepository.get_wallets_by_user db user_id page) _
              (record { at = λ s. refl }) λ ws _ _. Leaves-pure (λ s. s) (view_wallets iso ws)

    -- Funding a wallet that does not load leaves the table of the wallets alone.
    pub fund_wallet_unloaded :
        (wallet_id : String) (n : ℕ) (s : World db) {e : Exception}
        → load db wallet_id s ≡ throw e
        → (fund_wallet iso db wallet_id (int (pos n)) s).1.wallets ≡ s.wallets
    unfolding fund_wallet new_money WalletRepository.get_wallet_by_id
    fund_wallet_unloaded wallet_id n s absent =
        viewed (TransactionService.credit db (s.uuids 0) wallet_id money drawn)
        ∙ TransactionService.Version.credit_unloaded-wallets db (s.uuids 0) wallet_id money drawn
            absent
      where
        money : Money
        money = record { value = n; currency = ngn }

        drawn : World db
        drawn = record s { uuids = λ k. s.uuids (suc k) }

        viewed :
            (r : Result Transaction × World db)
            → ((lift r.0 >>= λ t. pure (view_transaction iso t)) r.1).1.wallets ≡ r.1.wallets
        viewed (ok t, w) = refl
        viewed (throw c, w) = refl
