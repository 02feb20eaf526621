-- ===== src/Rest/Server/Handled.antt =====
-- validation.pipe.ts, wallet.dto.ts and wallet.controller.ts together: the parameters that a handler
-- gets.
use tanta.Base.{ℕ, String, ◌≡◌, ◌≤◌, refl, ap, ◌∙◌, true, Option, some}
use mathlib.Core.Path.{subst}
use tanta.Js.Int.{pos}
use tanta.Js.Number.{int}
use tanta.Notification.{NotificationType, email, mobile, text_of}
use tanta.Rest.Bodies.{transform_fund, transform_transfer, transform_param, query_lem}
use tanta.Rest.Dto.{number, string, property, Validation}
use tanta.Rest.Nest.{Accepts}
use tanta.Rest.Routes.{
  Endpoint, create_wallet, fund_wallet, get_wallets, transfer, Request, Answer, route_of, taken,
  handler, answer, wallet_data, transaction_data, wallets_data, transferring_data, kind_from,
}
use tanta.Shared.DateTime.{Date}
use tanta.WalletController
use tanta.World.{Database, Action}

kind_from-text_of : (kind : NotificationType) → kind_from (text_of kind) ≡ some kind
kind_from-text_of email = refl
kind_from-text_of mobile = refl

module _ (lib : Validation) (iso : Date → String) (db : Database) where
  -- The handler of each route on parameters that the pipe has let through, for a user with a name.
  pub create_wallet_called :
      (r : Request) (u : String)
      → handler lib iso db create_wallet (taken r (some u))
        ≡ some (answer wallet_data (WalletController.create_wallet iso db u))
  unfolding handler
  create_wallet_called r u = refl

  pub fund_wallet_called :
      (r : Request) (user : Option String)
      → Accepts lib (taken r user) (route_of fund_wallet).parameters
      → (id : String) × (n : ℕ) × (property r.body "wallet_id" ≡ string id)
        × (property r.body "amount_in_kobo" ≡ number (int (pos n)))
        × (handler lib iso db fund_wallet (taken r user)
            ≡ some (answer transaction_data (WalletController.fund_wallet iso db id (int (pos n)))))
  unfolding handler route_of
  fund_wallet_called r user (body, _) =
      let (_, (id, has_id), (n, has_amount, _)) = transform_fund lib r.body body in
      (id, n, has_id, has_amount, rw (has_id, has_amount) refl)

  pub get_wallets_called :
      (r : Request) (u : String)
      → Accepts lib (taken r (some u)) (route_of get_wallets).parameters
      → (offset limit : ℕ) × (limit ≤ 100)
        × (handler lib iso db get_wallets (taken r (some u))
            ≡ some (
                answer wallets_data
                  (WalletController.get_wallets iso db u (int (pos offset)) (int (pos limit)))))
  unfolding handler route_of
  get_wallets_called r u (_, (query, _)) =
      let (_, offset, limit, from, most, bound) = query_lem lib r.query query in
      (offset, limit, bound, rw (from, most) refl)

  pub transfer_called :
      (r : Request) (u : String)
      → Accepts lib (taken r (some u)) (route_of transfer).parameters
      → (sender receiver : String) × (n : ℕ) × (kind : NotificationType) × (property r.param
            "sender_wallet_id"
          ≡ string sender)
        × (property r.body "receiver_wallet_id" ≡ string receiver)
        × (property r.body "amount_in_kobo" ≡ number (int (pos n)))
        × (property r.body "notification_type" ≡ string (text_of kind))
        × (handler lib iso db transfer (taken r (some u))
            ≡ some (
                answer transferring_data
                  (WalletController.transfer iso db u sender receiver (int (pos n)) kind)))
  unfolding handler route_of
  transfer_called r u (_, (param, (body, _))) =
      let (_, (sender, has_sender)) = transform_param lib r.param param in
      let (_, (id, has_id), (n, has_amount, _), (kind, has_kind)) =
        transform_transfer lib r.body body in
      (
        sender,
        id,
        n,
        kind,
        has_sender,
        has_id,
        has_amount,
        has_kind,
        rw (has_sender, has_id, has_amount, has_kind, kind_from-text_of kind) refl,
      )

  -- Once the guard has let a user with a name in, where there is a guard, and the pipe has let all
  -- parameters through, these have the types that the handler declares.
  pub handler-Accepts :
      (e : Endpoint) (r : Request) (user : Option String)
      → ((route_of e).use_guards ≡ true → (u : String) × (user ≡ some u))
      → Accepts lib (taken r user) (route_of e).parameters
      → (act : Action db Answer) × (handler lib iso db e (taken r user) ≡ some act)
  unfolding route_of
  handler-Accepts create_wallet r user named passed =
      let (u, is) = named refl in
      (_, ap (λ v. handler lib iso db create_wallet (taken r v)) is ∙ create_wallet_called r u)
  handler-Accepts fund_wallet r user named passed =
      let (_, _, _, _, called) = fund_wallet_called r user passed in (_, called)
  handler-Accepts get_wallets r user named passed =
      let (u, is) = named refl in
      let (_, _, _, called) =
        get_wallets_called r u
          (subst (λ v. Accepts lib (taken r v) (route_of get_wallets).parameters) is passed) in
      (_, ap (λ v. handler lib iso db get_wallets (taken r v)) is ∙ called)
  handler-Accepts transfer r user named passed =
      let (u, is) = named refl in
      let (_, _, _, _, _, _, _, _, called) =
        transfer_called r u
          (subst (λ v. Accepts lib (taken r v) (route_of transfer).parameters) is passed) in
      (_, ap (λ v. handler lib iso db transfer (taken r v)) is ∙ called)
