-- ===== src/Rest/Server/Served.antt =====
-- wallet.controller.ts and the services together: what a request to any route does to the world, and
-- what lists of requests keep.
use tanta.Base.{ℕ, suc, String, ◌≡◌, ◌⊎◌, refl, sym, ap, ◌∙◌, inl, inr, List, [], ◌∷◌, All}
use mathlib.Core.Path.{subst}
use tanta.Js.Int.{pos}
use tanta.Js.Number.{int}
use tanta.Money.{Money, new_money, ngn}
use tanta.Notification.{NotificationType, text_of}
use tanta.Rest.Dto.{string, number, property, Validation}
use tanta.Rest.Nest.{Nest}
use tanta.Rest.Routes
use tanta.Rest.Routes.{
  Endpoint, create_wallet, fund_wallet, get_wallets, transfer, wallet_data, route_of,
}
use tanta.Rest.Server.{HasNames, IsTimed, IsConfirmed}
use tanta.Rest.Server.Funding.{respond-fund_wallet}
use tanta.Rest.Server.Handled.{create_wallet_called}
use tanta.Rest.Server.Silence.{serve}
use tanta.Rest.Server.Users.{guarded_lem, respond-answer, respond-get_wallets, respond-transfer}
use tanta.Shared.DateTime.{Date}
use tanta.Shared.Exception.{Result, ok, throw}
use tanta.Thread.Audit.Facts.{IsAudited}
use tanta.Thread.Launch.{perform}
use tanta.Thread.Launch
use tanta.Thread.Single.{perform-IsAudited}
use tanta.TransactionService
use tanta.TransferringService
use tanta.WalletController
use tanta.WalletService
use tanta.World.{Database, World, lift, pure, ◌>>=◌}

abbrev pub naira : ℕ → Money
naira n = record { value = n; currency = ngn }

module _ {db : Database} where
  -- What follows a method only looks at its result.
  viewed_world :
      {A B : Type 0} (f : A → B) (p : Result A × World db)
      → ((lift p.0 >>= λ a. pure (f a)) p.1).1 ≡ p.1
  viewed_world f (ok a, s) = refl
  viewed_world f (throw e, s) = refl

  abbrev pub id_drawn : World db → World db
  id_drawn s = record s { uuids = λ n. s.uuids (suc n) }

module _ (iso : Date → String) {db : Database} where
  create_wallet-create :
      (u : String) (s : World db)
      → (WalletController.create_wallet iso db u s).1 ≡ (WalletService.create db u s).1
  unfolding WalletController.create_wallet
  create_wallet-create u s =
      viewed_world (WalletController.view_wallet iso) (WalletService.create db u s)

  transfer-transfer :
      (u sender receiver : String) (n : ℕ) (kind : NotificationType) (s : World db)
      → (WalletController.transfer iso db u sender receiver (int (pos n)) kind s).1
        ≡ (TransferringService.transfer db u sender receiver (naira n) kind s).1
  unfolding WalletController.transfer new_money
  transfer-transfer u sender receiver n kind s =
      viewed_world WalletController.view_transferring
        (TransferringService.transfer db u sender receiver (naira n) kind s)

  fund_wallet-credit :
      (id : String) (n : ℕ) (s : World db)
      → (WalletController.fund_wallet iso db id (int (pos n)) s).1
        ≡ (TransactionService.credit db (s.uuids 0) id (naira n) (id_drawn s)).1
  unfolding WalletController.fund_wallet new_money
  fund_wallet-credit id n s =
      viewed_world (WalletController.view_transaction iso)
        (TransactionService.credit db (s.uuids 0) id (naira n) (id_drawn s))

-- What a request to a route is to do to the world, in the terms of the services: the user is the one
-- whom the other service has confirmed, the wallets and the amount are those that the request names.
module _ {db : Database} where
  abbrev pub IsServed : Endpoint → Routes.Request → World db → World db → Type 0
  IsServed create_wallet r s s' =
      (s' ≡ s) ⊎ ((u : String) × IsConfirmed r u × (s' ≡ (WalletService.create db u s).1))
  IsServed fund_wallet r s s' =
      (s' ≡ s)
      ⊎ ((id : String) × (n : ℕ) × (property r.body "wallet_id" ≡ string id)
          × (property r.body "amount_in_kobo" ≡ number (int (pos n)))
          × (s' ≡ (TransactionService.credit db (s.uuids 0) id (naira n) (id_drawn s)).1))
  IsServed get_wallets r s s' = s' ≡ s
  IsServed transfer r s s' =
      (s' ≡ s)
      ⊎ ((u sender receiver : String) × (n : ℕ) × (kind : NotificationType) × IsConfirmed r u
          × (property r.param "sender_wallet_id" ≡ string sender)
          × (property r.body "receiver_wallet_id" ≡ string receiver)
          × (property r.body "amount_in_kobo" ≡ number (int (pos n)))
          × (property r.body "notification_type" ≡ string (text_of kind))
          × (s' ≡ (TransferringService.transfer db u sender receiver (naira n) kind s).1))

module _ (lib : Validation) {iso : Date → String} {db : Database} (nest : Nest lib iso db) where
  -- If the guard's timer fires and the other service names the users whom it authorizes, what a
  -- request does to the world, if it does anything, is what one call of a service does. A request
  -- for a new wallet calls `create` for a user whom the other service has confirmed. A request to
  -- fund draws an id and calls `credit` under that id, with the wallet and the amount of its body. A
  -- request for wallets does nothing. A request to transfer calls `transfer` for a confirmed user,
  -- from the wallet of its path to that of its body, with the amount and the kind of notification
  -- of its body.
  pub respond-IsServed :
      (e : Endpoint) (r : Routes.Request) (s : World db)
      → HasNames r.line
      → IsTimed r
      → IsServed e r s (nest.respond e r s).1
  unfolding route_of
  respond-IsServed create_wallet r s names timed =
      elim (guarded_lem lib nest create_wallet r s refl names timed) [
        | inl (_, fails) ↦ inl (ap (λ p. p.1) fails)
        | inr (u, act, confirmed, passed, runs, done) ↦
            let m = WalletController.create_wallet iso db u in
            let replies =
              respond-answer lib nest wallet_data m create_wallet r s (m s).0 runs done
                (create_wallet_called lib iso db r u) refl in
            inr (u, confirmed, ap (λ p. p.1) replies ∙ create_wallet-create iso u s)
      ]
  respond-IsServed fund_wallet r s names timed = elim (respond-fund_wallet lib nest r s) [
    | inl (_, _, refused) ↦ inl (ap (λ p. p.1) refused)
    | inr (id, n, named, amount, replies) ↦
        inr (id, n, named, amount, ap (λ p. p.1) replies ∙ fund_wallet-credit iso id n s)
  ]
  respond-IsServed get_wallets r s names timed =
      elim (respond-get_wallets lib nest r s names timed) [
        | inl (_, fails) ↦ ap (λ p. p.1) fails
        | inr (_, _, _, replies, _, _) ↦ ap (λ p. p.1) replies
      ]
  respond-IsServed transfer r s names timed = elim (respond-transfer lib nest r s names timed) [
    | inl (_, fails) ↦ inl (ap (λ p. p.1) fails)
    | inr (u, sender, receiver, n, kind, _, confirmed, from, to, amount, told, _, _, replies) ↦
        inr (
          u,
          sender,
          receiver,
          n,
          kind,
          confirmed,
          from,
          to,
          amount,
          told,
          ap (λ p. p.1) replies ∙ transfer-transfer iso u sender receiver n kind s,
        )
  ]

  -- One call of a service keeps the audit.
  performed-IsAudited :
      (q : Launch.Request) (s : World db) {s' : World db}
      → s' ≡ (perform db q s).1
      → IsAudited db s s
      → IsAudited db s' s'
  performed-IsAudited q s same audited =
      subst (λ t. IsAudited db t t) (sym same) (perform-IsAudited db q s audited)

  IsServed-IsAudited :
      (e : Endpoint) (r : Routes.Request) (s s' : World db)
      → IsServed e r s s'
      → IsAudited db s s
      → IsAudited db s' s'
  IsServed-IsAudited create_wallet r s s' (inl same) = subst (λ t. IsAudited db t t) (sym same)
  IsServed-IsAudited create_wallet r s s' (inr (u, _, same)) =
      performed-IsAudited (Launch.create u) s (same ∙ sym (viewed_world (λ _. tt) _))
  IsServed-IsAudited fund_wallet r s s' (inl same) = subst (λ t. IsAudited db t t) (sym same)
  IsServed-IsAudited fund_wallet r s s' (inr (id, n, _, _, same)) =
      performed-IsAudited (Launch.credit (s.uuids 0) id (naira n)) (id_drawn s)
        (same ∙ sym (viewed_world (λ _. tt) _))
  IsServed-IsAudited get_wallets r s s' same = subst (λ t. IsAudited db t t) (sym same)
  IsServed-IsAudited transfer r s s' (inl same) = subst (λ t. IsAudited db t t) (sym same)
  IsServed-IsAudited transfer r s s' (inr (u, sender, receiver, n, kind, _, _, _, _, _, same)) =
      performed-IsAudited (Launch.transfer u sender receiver (naira n) kind) s
        (same ∙ sym (viewed_world (λ _. tt) _))

  -- If each row of the wallets is that of a wallet which the loop of `updateBalance` computes from
  -- the wallet as created and a list of recorded transactions, it is so after any list of requests
  -- to any routes, answered one after the other, whoever sends them, refused and failed ones
  -- included, if the timer fires for each and the other service names the users whom it authorizes.
  pub serve-IsAudited :
      (rs : List (Endpoint × Routes.Request)) (s : World db)
      → All (λ p. HasNames p.1.line × IsTimed p.1) rs
      → IsAudited db s s
      → IsAudited db (serve lib nest rs s) (serve lib nest rs s)
  unfolding serve
  serve-IsAudited [] s _ audited = audited
  serve-IsAudited ((e, r) ∷ rs) s ((names, timed), rest) audited =
      serve-IsAudited rs (nest.respond e r s).1 rest
        (IsServed-IsAudited e r s _ (respond-IsServed e r s names timed) audited)
