-- ===== src/Examples/Server.antt =====
-- Requests to the four routes on a database held in lists: tests, and a concrete input for each
-- theorem.
use tanta.Base.{
  ℕ, String, ◌≡◌, ◌⊎◌, ◌≤◌, refl, inl, inr, Bool-cases, Option, none, some, List, [], ◌∷◌, All,
  length, arith, str_eq, if◌then◌else◌,
}
use tanta.Examples.Access.{line, body, page, iso}
use tanta.Examples.Entry.{checking}
use tanta.Examples.Serving.{serving}
use tanta.Js.Int.{pos, negsuc}
use tanta.Js.Number.{Number, int}
use tanta.Rest.Dto.{Value, string, number, object, property, undefined, fields_of}
use tanta.Rest.Errors.{get_first_error}
use tanta.Notification.{NotificationType, text_of}
use tanta.Rest.Filter.{catch}
use tanta.Rest.Guard.{can_activate}
use tanta.Rest.Nest.{Nest, Reply, answered, failed, entry}
use tanta.Rest.Pipe.{transform}
use tanta.Rest.Routes.{
  Endpoint, create_wallet, fund_wallet, get_wallets, transfer, Request, wallets_data,
  transferring_data, route_of, handler,
}
use tanta.Rest.Server.{HasNames, IsConfirmed, IsForbidden, IsRefused, IsRun, respond_lem}
use tanta.Rest.Server.Creating.{IsNotCreated, IsCreated, respond-create_wallet}
use tanta.Rest.Server.Funding.{respond-fund_wallet-body}
use tanta.Rest.Server.Silence.{IsUnheard, serve, serve_unheard}
use tanta.Rest.Server.Users.{IsFailed, IsReplied, respond-transfer, respond-get_wallets}
use tanta.Samples.{listed, fresh, created, services}
use tanta.Shared.Exception.{Exception, ok, throw}
use tanta.Shared.Pagination.{new_pagination}
use tanta.Wallet.{Wallet}
use tanta.WalletController
use tanta.WalletController.{WalletView}
use tanta.WalletRepository.Load.{load}
use tanta.WalletService

abbrev pub nest : Nest checking iso listed
nest = serving checking iso listed

-- A body for funding too, and a request of the user "ann", for her wallet "id-0".
abbrev fund_body : Number → Value
fund_body amount = object λ key.
    if str_eq key "wallet_id"
    then string "id-0"
    else if str_eq key "amount_in_kobo"
    then number amount
    else undefined

abbrev path : Value
path = object λ key. if str_eq key "sender_wallet_id" then string "id-0" else undefined

-- `sent` is the correlation id that the other service answers with.
abbrev asking : (header sent : Option String) → Value → Request
asking header sent body = record {
  line = line sent;
  authorization = header;
  param = path;
  query = page "20";
  body = body;
}

abbrev pub from_ann : Request
from_ann = asking (some "abc") (some "c-1") (body (int (pos 600)))

pub names : (sent : Option String) → HasNames (line sent)
names sent content authorized = elim (Bool-cases (str_eq content "yes")) [
  | inl same ↦ ("ann", rw same refl)
  | inr other ↦ absurd (ground (arith, other, authorized))
]

respond_lem_example :
    IsForbidden checking nest transfer from_ann created
    ⊎ IsRefused checking nest transfer from_ann created
    ⊎ IsRun checking nest transfer from_ann created
respond_lem_example =
    respond_lem checking nest transfer from_ann created (names (some "c-1")) (λ h e. tt)

respond-transfer_example :
    IsFailed checking nest transfer from_ann created
    ⊎ ((u sender receiver : String) × (n : ℕ) × (kind : NotificationType) × (w : Wallet)
        × IsConfirmed from_ann u
        × (property path "sender_wallet_id" ≡ string sender)
        × (property (body (int (pos 600))) "receiver_wallet_id" ≡ string receiver)
        × (property (body (int (pos 600))) "amount_in_kobo" ≡ number (int (pos n)))
        × (property (body (int (pos 600))) "notification_type" ≡ string (text_of kind))
        × (load listed sender created ≡ ok w)
        × (w.user_id ≡ u)
        × IsReplied checking nest transferring_data
            (WalletController.transfer iso listed u sender receiver (int (pos n)) kind)
            transfer
            from_ann
            created)
respond-transfer_example =
    respond-transfer checking nest from_ann created (names (some "c-1")) (λ h e. tt)

respond-get_wallets_example :
    IsFailed checking nest get_wallets from_ann created
    ⊎ ((u : String) × (vs : List WalletView) × IsConfirmed from_ann u
        × (nest.respond get_wallets from_ann created
            ≡ (some (answered 200 (wallets_data vs)), created))
        × All (λ v. v.user_id ≡ u) vs
        × (length vs ≤ 100))
respond-get_wallets_example =
    respond-get_wallets checking nest from_ann created (names (some "c-1")) (λ h e. tt)

respond-create_wallet_example :
    IsNotCreated checking nest from_ann fresh ⊎ IsCreated checking nest from_ann fresh
respond-create_wallet_example =
    respond-create_wallet checking nest from_ann fresh (names (some "c-1")) (λ h e. tt)

-- A request without a header, and one of ann's, for the same funding.
abbrev pub anonymous : Request
anonymous = asking none none (fund_body (int (pos 500)))

abbrev known : Request
known = asking (some "abc") (some "c-1") (fund_body (int (pos 500)))

respond-fund_wallet-body_example :
    nest.respond fund_wallet anonymous created ≡ nest.respond fund_wallet known created
respond-fund_wallet-body_example =
    respond-fund_wallet-body checking nest anonymous known created refl

-- The other service answers without a correlation id.
abbrev in_vain : Request
in_vain = asking (some "abc") none (fund_body (int (pos 500)))

unheard : IsUnheard in_vain
unheard h e = (tt, ((λ sent. cc), ((λ sent. cc), (tt, tt))))

abbrev all_in_vain : List (Endpoint × Request)
all_in_vain = (create_wallet, in_vain) ∷ (fund_wallet, in_vain) ∷ (transfer, in_vain) ∷ []

none_loads : (id : String) → (c : Exception) × (load listed id fresh ≡ throw c)
unfolding services
none_loads id = (_, refl)

serve_unheard_example : (serve checking nest all_in_vain fresh).wallets ≡ fresh.wallets
serve_unheard_example =
    serve_unheard checking nest all_in_vain fresh
      (((λ h e. tt), unheard), (((λ h e. tt), unheard), (((λ h e. tt), unheard), tt))) none_loads

-- The statuses that clients see.
abbrev status : Option Reply → Option ℕ
status none = none
status (some (answered code _)) = some code
status (some (failed f)) = some f.http_status

-- A transfer of more than the wallet holds is answered with 500, like any other exception.
statuses :
    (status (nest.respond create_wallet from_ann fresh).0 ≡ some 201)
    × (status (nest.respond fund_wallet anonymous created).0 ≡ some 200)
    × (status (nest.respond fund_wallet (asking none none (fund_body (int (negsuc 4)))) created).0
        ≡ some 400)
    × (status (nest.respond get_wallets from_ann created).0 ≡ some 200)
    × (status (nest.respond transfer from_ann created).0 ≡ some 500)
    × (status (nest.respond transfer in_vain created).0 ≡ some 403)
unfolding serving entry can_activate handler route_of transform checking fields_of get_first_error
    catch services new_pagination WalletController.create_wallet WalletController.fund_wallet
    WalletController.get_wallets WalletController.transfer WalletService.get_wallets_by_user
statuses = (refl, refl, refl, refl, refl, refl)
