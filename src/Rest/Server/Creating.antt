-- ===== src/Rest/Server/Creating.antt =====
-- auth.guard.ts, wallet.controller.ts and wallet.service.ts together: a request for a new wallet.
use tanta.Base.{String, ◌≡◌, ◌⊎◌, refl, sym, ap, ◌∙◌, inl, inr, Option-cases, some}
use tanta.Js.Int.{pos}
use tanta.Rest.Dto.{Validation}
use tanta.Rest.Filter
use tanta.Rest.Filter.{catch, exception}
use tanta.Rest.Nest.{Nest, answered, failed}
use tanta.Rest.Routes.{create_wallet, Request, wallet_data, route_of}
use tanta.Rest.Server.{HasNames, IsTimed, IsConfirmed}
use tanta.Rest.Server.Handled.{create_wallet_called}
use tanta.Rest.Server.Users.{guarded_lem, respond-answer}
use tanta.Shared.DateTime.{Date}
use tanta.Shared.Exception.{ok, throw, wallet, persistence}
use tanta.Wallet.{Wallet}
use tanta.WalletController
use tanta.WalletController.{WalletView, view_wallet}
use tanta.WalletRepository.Laws.{write}
use tanta.WalletRepository.Load.{load}
use tanta.WalletService
use tanta.WalletService.Laws.{create-get_wallet_by_id, create_refused, new_wallet, drawn}
use tanta.World.{Database, World}

module _ (lib : Validation) {iso : Date → String} {db : Database} (nest : Nest lib iso db) where
  -- The request fails, and the tables are as they were.
  abbrev pub IsNotCreated : Request → World db → Type 0
  IsNotCreated r s =
      (f : Filter.Reply) × (s' : World db) × (nest.respond create_wallet r s
        ≡ (some (failed f), s'))
      × (s'.wallets ≡ s.wallets)
      × (s'.transactions ≡ s.transactions)

  -- The request is answered with a wallet of the confirmed user that holds 0, and a wallet of the
  -- user loads under its id.
  abbrev pub IsCreated : Request → World db → Type 0
  IsCreated r s =
      (u : String) × (v : WalletView) × (w : Wallet) × (s' : World db) × IsConfirmed r u
      × (nest.respond create_wallet r s ≡ (some (answered 201 (wallet_data v)), s'))
      × (v.user_id ≡ u)
      × (v.balance ≡ pos 0)
      × (load db v.id s' ≡ ok w)
      × (w.user_id ≡ u)

  -- If the guard's timer fires and the other service names the users whom it authorizes, a request
  -- for a new wallet is answered with an error, and the tables of the wallets and of the
  -- transactions are as they were, or with status 201 and a wallet that belongs to a user whom the
  -- other service has confirmed, holds 0, and then loads under its id as the user's.
  pub respond-create_wallet :
      (r : Request) (s : World db) → HasNames r.line → IsTimed r → IsNotCreated r s ⊎ IsCreated r s
  unfolding catch route_of WalletController.create_wallet WalletService.get_wallet_by_id
  respond-create_wallet r s names timed =
      elim (guarded_lem lib nest create_wallet r s refl names timed) [
        | inl (f, fails) ↦ inl (f, s, fails, refl, refl)
        | inr (u, act, confirmed, passed, runs, done) ↦
            let called = create_wallet_called lib iso db r u in
            let m = WalletController.create_wallet iso db u in
            elim (Option-cases (write db (new_wallet db u s) s.wallets)) [
              | inl refused ↦ inl (
                catch (exception (wallet persistence)),
                drawn db s,
                respond-answer lib nest wallet_data m create_wallet r s (throw (wallet persistence))
                    runs done called (rw (create_refused db u s refused) refl),
                refl,
                refl,
              )
              | inr (t, taken) ↦
                  let (w, w', s', returns, loads, same, id, owner, empty, _, _) =
                    create-get_wallet_by_id db u s t taken in
                  inr (
                    u,
                    view_wallet iso w,
                    w',
                    s',
                    confirmed,
                    respond-answer lib nest wallet_data m create_wallet r s (ok (view_wallet iso w))
                        runs done called (rw returns refl),
                    owner,
                    empty,
                    ap (λ i. load db i s') id ∙ ap (λ r. r.0) loads,
                    sym (ap (λ state. state.user_id) same) ∙ owner,
                  )
            ]
      ]
