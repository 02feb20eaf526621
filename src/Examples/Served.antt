-- ===== src/Examples/Served.antt =====
-- Lists of requests on a database held in lists: a concrete input for each theorem, and a test.
use tanta.Base.{none, some, List, [], ◌∷◌, ◌≡◌, refl}
use tanta.Examples.Audit.{fresh-IsAudited}
use tanta.Examples.Entry.{checking}
use tanta.Examples.Server.{nest, names, from_ann, anonymous}
use tanta.Examples.Serving.{serving}
use tanta.Js.Int.{pos}
use tanta.Rest.Dto.{fields_of}
use tanta.Rest.Guard.{can_activate}
use tanta.Rest.Nest.{entry}
use tanta.Rest.Pipe.{transform}
use tanta.Rest.Routes.{
  Endpoint, Request, create_wallet, fund_wallet, get_wallets, transfer, handler, route_of,
}
use tanta.Rest.Server.Served.{IsServed, respond-IsServed, serve-IsAudited}
use tanta.Rest.Server.Silence.{serve}
use tanta.Samples.{listed, fresh, created, services, standing_of}
use tanta.Shared.Exception.{ok}
use tanta.Thread.Audit.Facts.{IsAudited}
use tanta.Shared.Pagination.{new_pagination}
use tanta.WalletController
use tanta.WalletService

respond-IsServed_example :
    IsServed transfer from_ann created (nest.respond transfer from_ann created).1
respond-IsServed_example =
    respond-IsServed checking nest transfer from_ann created (names (some "c-1")) (λ h e. tt)

-- A new wallet, 500 for it, and a look at it.
abbrev requests : List (Endpoint × Request)
requests = (create_wallet, from_ann) ∷ (fund_wallet, anonymous) ∷ (get_wallets, from_ann) ∷ []

serve-IsAudited_example :
    IsAudited listed (serve checking nest requests fresh) (serve checking nest requests fresh)
serve-IsAudited_example =
    serve-IsAudited checking nest requests fresh
      (
        (names (some "c-1"), λ h e. tt),
        ((names none, λ h e. tt), ((names (some "c-1"), λ h e. tt), tt)),
      )
      fresh-IsAudited

funded : standing_of (serve checking nest requests fresh) ≡ ok (pos 500, 1)
unfolding serve serving entry can_activate handler route_of transform checking fields_of services
    WalletController.create_wallet WalletController.fund_wallet WalletController.get_wallets
    new_pagination WalletService.get_wallets_by_user
funded = refl
