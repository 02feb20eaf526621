-- ===== src/Rest/Server/Silence.antt =====
-- messaging.service.ts, auth.guard.ts and wallet.controller.ts together: requests for which no
-- message comes back that carries the correlation id, and lists of requests.
use tanta.Base.{
  String, ◌≡◌, ◌≢◌, refl, ap, ◌∙◌, inl, inr, true, none, some, List, [], ◌∷◌, ◌++◌, All,
}
use mathlib.Core.Path.{subst}
use tanta.Messaging.{Event, Message, delivers, times_out}
use tanta.Messaging.Settling.{Answer}
use tanta.Rest.Access.{can_activate_granted_iff, events_for}
use tanta.Rest.Dto.{Validation}
use tanta.Rest.Filter.{catch}
use tanta.Rest.Guard.{denied}
use tanta.Rest.Nest.{Nest, entry, failed}
use tanta.Rest.Routes.{
  Endpoint, create_wallet, fund_wallet, get_wallets, transfer, Request, route_of,
}
use tanta.Rest.Server.{IsTimed, Decision-cases, entry_decides}
use tanta.Rest.Server.Funding.{respond-fund_wallet}
use tanta.Shared.DateTime.{Date}
use tanta.Shared.Exception.{Exception, throw}
use tanta.User.{Response}
use tanta.WalletController.Laws.{fund_wallet_unloaded}
use tanta.WalletRepository.{get_wallet_by_id}
use tanta.WalletRepository.Load.{load}
use tanta.World.{Database, World}

module _ (id : String) where
  -- An event that brings no message with the correlation id.
  abbrev pub IsForeign : Event → Type 0
  IsForeign times_out = Unit
  IsForeign (delivers none) = Unit
  IsForeign (delivers (some m)) = m.correlation_id ≢ some id

  foreign_before :
      (before after : List Event) (m : Message)
      → All IsForeign (before ++ (delivers (some m) ∷ after))
      → m.correlation_id ≢ some id
  foreign_before [] after m (other, _) = other
  foreign_before (_ ∷ before) after m (_, rest) = foreign_before before after m rest

  IsForeign-Answer :
      (parse : String → Response) (events : List Event) {response : Response}
      → All IsForeign events
      → Answer id parse events response
      → ⊥
  IsForeign-Answer parse events foreign (before, after, m, is, _, sent, _) =
      foreign_before before after m (subst (All IsForeign) is foreign) sent

-- The header is asked about in vain.
abbrev pub IsUnheard : Request → Type 0
IsUnheard r =
    (h : String)
    → r.authorization ≡ some h
    → All (IsForeign r.line.correlation_id) (events_for r.line h)

entry_denied :
    (e : Endpoint) (r : Request)
    → (route_of e).use_guards ≡ true
    → IsTimed r
    → IsUnheard r
    → entry e r ≡ denied
unfolding entry
entry_denied e r guarded timed unheard = elim (Decision-cases (entry e r)) [
  | inl waiting ↦ absurd (entry_decides e r timed waiting)
  | inr (inl out) ↦ out
  | inr (inr (user, let_in)) ↦
      let (h, header, answer) =
        (can_activate_granted_iff r.line r.authorization user).0 (rw guarded at let_in) in
      absurd (
        IsForeign-Answer r.line.correlation_id r.line.parse (events_for r.line h) (unheard h header)
          answer)
]

module _ (lib : Validation) {iso : Date → String} {db : Database} (nest : Nest lib iso db) where
  -- If none of the messages that come back carries the correlation id, and the timer fires, a
  -- request to a guarded route is answered with 403, whatever its header is, and changes nothing.
  pub respond_unheard :
      (e : Endpoint) (r : Request) (s : World db)
      → (route_of e).use_guards ≡ true
      → IsTimed r
      → IsUnheard r
      → nest.respond e r s
        ≡ (some (failed (record { http_status = 403; error = some "Forbidden resource" })), s)
  unfolding catch
  respond_unheard e r s guarded timed unheard =
      nest.forbids e r s (entry_denied e r guarded timed unheard)

  -- Requests, one after the other.
  unfoldable pub serve : List (Endpoint × Request) → World db → World db
  serve [] s = s
  serve ((e, r) ∷ rs) s = serve rs (nest.respond e r s).1

  -- As long as nobody is heard of and no wallet loads, the table of the wallets stays as it is.
  respond_unloaded :
      (e : Endpoint) (r : Request) (s : World db)
      → IsTimed r
      → IsUnheard r
      → ((id : String) → (c : Exception) × (load db id s ≡ throw c))
      → (nest.respond e r s).1.wallets ≡ s.wallets
  unfolding route_of
  respond_unloaded fund_wallet r s timed unheard none_loads =
      elim (respond-fund_wallet lib nest r s) [
        | inl (m, bad, refused) ↦ ap (λ p. p.1.wallets) refused
        | inr (id, n, has_id, has_amount, done) ↦
            let (c, absent) = none_loads id in
            ap (λ p. p.1.wallets) done ∙ fund_wallet_unloaded iso db id n s absent
      ]
  respond_unloaded create_wallet r s timed unheard none_loads =
      ap (λ p. p.1.wallets) (respond_unheard create_wallet r s refl timed unheard)
  respond_unloaded get_wallets r s timed unheard none_loads =
      ap (λ p. p.1.wallets) (respond_unheard get_wallets r s refl timed unheard)
  respond_unloaded transfer r s timed unheard none_loads =
      ap (λ p. p.1.wallets) (respond_unheard transfer r s refl timed unheard)

  load-same :
      (id : String) (s s' : World db) → s'.wallets ≡ s.wallets → load db id s' ≡ load db id s
  unfolding get_wallet_by_id
  load-same id s s' same = rw same refl

  -- If no message with the correlation id comes back for any of a list of requests, to whatever
  -- routes, the timer fires for all of them, and no wallet loads at the beginning, then the table of
  -- the wallets is the same after all of them: nobody has got a wallet.
  pub serve_unheard :
      (rs : List (Endpoint × Request)) (s : World db)
      → All (λ p. IsTimed p.1 × IsUnheard p.1) rs
      → ((id : String) → (c : Exception) × (load db id s ≡ throw c))
      → (serve rs s).wallets ≡ s.wallets
  unfolding serve
  serve_unheard [] s _ none_loads = refl
  serve_unheard ((e, r) ∷ rs) s ((timed, unheard), rest) none_loads =
      let s' = (nest.respond e r s).1 in
      let same = respond_unloaded e r s timed unheard none_loads in
      serve_unheard rs s' rest
        (λ id. let (c, absent) = none_loads id in (c, load-same id s s' same ∙ absent))
      ∙ same
