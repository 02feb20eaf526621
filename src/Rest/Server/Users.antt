-- ===== src/Rest/Server/Users.antt =====
-- auth.guard.ts, validation.pipe.ts, wallet.controller.ts and all.exceptions.filter.ts together: the
-- users whose requests the guarded routes serve.
use tanta.Notification.{NotificationType, text_of}
use tanta.Base.{
  ℕ, String, ◌≡◌, ◌≤◌, ◌⊎◌, refl, sym, ap, ◌∙◌, inl, inr, true, Option, some, List, All, length,
  arith,
}
use mathlib.Core.Option.{some-injective}
use mathlib.Core.Path.{subst}
use tanta.Js.Int.{pos}
use tanta.Js.Number.{int}
use tanta.Rest.Dto.{number, string, property, Validation}
use tanta.Rest.Filter
use tanta.Rest.Filter.{catch, exception}
use tanta.Rest.Nest.{Nest, Reply, Accepts, answered, failed, reply_to}
use tanta.Rest.Routes.{
  Endpoint, get_wallets, transfer, Request, Answer, wallets_data, transferring_data, answer,
  route_of, taken, handler,
}
use tanta.Rest.Server.{HasNames, IsTimed, IsConfirmed, entry-IsConfirmed, respond_lem}
use tanta.Rest.Server.Handled.{get_wallets_called, transfer_called}
use tanta.Shared.DateTime.{Date}
use tanta.Shared.Exception.{Result, ok, throw, map_ok, Result-cases}
use tanta.Wallet.{Wallet}
use tanta.WalletController
use tanta.WalletController.{WalletView}
use tanta.WalletController.Laws.{transfer-load, get_wallets_lem, get_wallets-Leaves}
use tanta.WalletRepository.Load.{load}
use tanta.World.{Database, World, Action}

to_pair : {A B : Type 0} (p : A × B) {a : A} {b : B} → p.0 ≡ a → p.1 ≡ b → p ≡ (a, b)
to_pair (x, y) e f = rw (e, f) refl

module _ (lib : Validation) {iso : Date → String} {db : Database} (nest : Nest lib iso db) where
  -- The route answers with an error, and nothing has changed.
  abbrev pub IsFailed : Endpoint → Request → World db → Type 0
  IsFailed e r s = (f : Filter.Reply) × (nest.respond e r s ≡ (some (failed f), s))

  -- What a guarded route does, for the user whom the guard has let in: it fails and changes
  -- nothing, or runs the handler for a user whom the other service has confirmed.
  pub guarded_lem :
      (e : Endpoint) (r : Request) (s : World db)
      → (route_of e).use_guards ≡ true
      → HasNames r.line
      → IsTimed r
      → IsFailed e r s
        ⊎ ((u : String) × (act : Action db Answer) × IsConfirmed r u
            × Accepts lib (taken r (some u)) (route_of e).parameters
            × (handler lib iso db e (taken r (some u)) ≡ some act)
            × (nest.respond e r s ≡ (some (reply_to e (act s).0), (act s).1)))
  guarded_lem e r s guarded names timed = elim (respond_lem lib nest e r s names timed) [
    | inl (_, forbidden) ↦ inl (_, forbidden)
    | inr (inl (_, _, _, _, refused)) ↦ inl (_, refused)
    | inr (inr (user, act, let_in, passed, runs, done)) ↦
        let (u, same, confirmed) = entry-IsConfirmed e r names let_in guarded in
        inr (
          u,
          act,
          confirmed,
          subst (λ v. Accepts lib (taken r v) (route_of e).parameters) same passed,
          ap (λ v. handler lib iso db e (taken r v)) (sym same) ∙ runs,
          done,
        )
  ]

  -- The reply and the world are what a method of the controller comes to.
  abbrev pub IsReplied :
      {A : Type 0} → (A → Answer) → Action db A → Endpoint → Request → World db → Type 0
  IsReplied f m e r s =
      nest.respond e r s ≡ (let (result, s') = m s in (some (reply_to e (map_ok f result)), s'))

  -- What is replied, by what the controller's method comes to.
  pub respond-answer :
      {A : Type 0} (f : A → Answer) (m : Action db A) (e : Endpoint) (r : Request) (s : World db)
      {act : Action db Answer} {run : Option (Action db Answer)} (result : Result A) {s' : World db}
      → run ≡ some act
      → nest.respond e r s ≡ (some (reply_to e (act s).0), (act s).1)
      → run ≡ some (answer f m)
      → m s ≡ (result, s')
      → nest.respond e r s ≡ (some (reply_to e (map_ok f result)), s')
  respond-answer f m e r s {act = act} result {s'} runs done called came =
      done
      ∙ ap (λ a. (some (reply_to e (a s).0), (a s).1))
          (some-injective act (answer f m) (sym runs ∙ called))
      ∙ ending result came
    where
      ending :
          (result : Result _)
          → m s ≡ (result, s')
          → ◌≡◌ {A = Option Reply × World db}
              (some (reply_to e (answer f m s).0), (answer f m s).1)
              (some (reply_to e (map_ok f result)), s')
      ending (ok a) came = rw came refl
      ending (throw c) came = rw came refl

  -- If the guard's timer fires and the other service names the users whom it authorizes, a request
  -- to transfer is answered with an error and changes nothing, or it comes from a user whom the
  -- other service has confirmed and who owns the wallet that the path names; then the reply and the
  -- world are what the controller's method makes of that user, that wallet, and the receiver, the
  -- amount and the kind of notification of the body.
  pub respond-transfer :
      (r : Request) (s : World db)
      → HasNames r.line
      → IsTimed r
      → IsFailed transfer r s
        ⊎ ((u sender receiver : String) × (n : ℕ) × (kind : NotificationType) × (w : Wallet)
            × IsConfirmed r u
            × (property r.param "sender_wallet_id" ≡ string sender)
            × (property r.body "receiver_wallet_id" ≡ string receiver)
            × (property r.body "amount_in_kobo" ≡ number (int (pos n)))
            × (property r.body "notification_type" ≡ string (text_of kind))
            × (load db sender s ≡ ok w)
            × (w.user_id ≡ u)
            × IsReplied transferring_data
                (WalletController.transfer iso db u sender receiver (int (pos n)) kind)
                transfer
                r
                s)
  unfolding catch route_of
  respond-transfer r s names timed = elim (guarded_lem transfer r s refl names timed) [
    | inl fails ↦ inl fails
    | inr (u, act, confirmed, passed, runs, done) ↦
        let (sender, receiver, n, kind, from, to, amount, told, called) =
          transfer_called lib iso db r u passed in
        let m = WalletController.transfer iso db u sender receiver (int (pos n)) kind in
        let replies =
          respond-answer transferring_data m transfer r s (m s).0 runs done called refl in
        elim (transfer-load iso db u sender receiver n kind s) [
          | inl (e, thrown) ↦ inl (
            catch (exception e),
            respond-answer transferring_data m transfer r s (throw e) runs done called thrown,
          )
          | inr (w, found, owner) ↦ inr (
            u, sender, receiver, n, kind, w, confirmed, from, to, amount, told, found, owner,
            replies,
          )
        ]
  ]

  -- A request for wallets, if the guard's timer fires and the other service names the users whom it
  -- authorizes, changes nothing. It is answered with an error, or with status 200 and at
  -- most 100 wallets, all of a user whom the other service has confirmed.
  pub respond-get_wallets :
      (r : Request) (s : World db)
      → HasNames r.line
      → IsTimed r
      → IsFailed get_wallets r s
        ⊎ ((u : String) × (vs : List WalletView) × IsConfirmed r u
            × (nest.respond get_wallets r s ≡ (some (answered 200 (wallets_data vs)), s))
            × All (λ v. v.user_id ≡ u) vs
            × (length vs ≤ 100))
  unfolding catch route_of
  respond-get_wallets r s names timed = elim (guarded_lem get_wallets r s refl names timed) [
    | inl fails ↦ inl fails
    | inr (u, act, confirmed, passed, runs, done) ↦
        let (offset, limit, bound, called) = get_wallets_called lib iso db r u passed in
        let m = WalletController.get_wallets iso db u (int (pos offset)) (int (pos limit)) in
        let same = (get_wallets-Leaves iso db u (int (pos offset)) (int (pos limit))).at s in
        let replies = λ (x : Result (List WalletView)).
          respond-answer wallets_data m get_wallets r s x {s' = s} runs done called in
        elim (Result-cases (m s).0) [
          | inl (e, thrown) ↦
              inl (catch (exception e), replies (throw e) (to_pair (m s) thrown same))
          | inr (vs, came) ↦
              let answers = to_pair (m s) came same in
              let (_, own, few) = get_wallets_lem iso db u offset limit s {vs = vs} answers in
              inr (u, vs, confirmed, replies (ok vs) answers, own, omega (arith, few, bound))
        ]
  ]
