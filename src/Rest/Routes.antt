-- ===== src/Rest/Routes.antt =====
-- wallet.controller.ts and wallet.dto.ts: what the decorators say of the four routes, and how a
-- handler reads its parameters.
use tanta.Base.{
  ℕ, String, Bool, true, false, Option, none, some, List, [], ◌∷◌, str_eq, if◌then◌else◌,
}
use tanta.Js.Number.{Number}
use tanta.Notification.{NotificationType, email, mobile}
use tanta.Rest.Dto.{
  Value, null, number, string, property, Validation, fund_wallet_body_dto, get_wallet_query_dto,
  transfer_body_dto, transfer_param_dto,
}
use tanta.Rest.Pipe.{Metatype, string_type, dto}
use tanta.Shared.DateTime.{Date}
use tanta.User.{Line}
use tanta.WalletController
use tanta.WalletController.{WalletView, TransactionView, TransferringView}
use tanta.World.{Database, World, Action}
use tanta.World

pub data Verb : Type 0 where
  get post : Verb

-- `@IdentityAccessUser()`, `@Param()`, `@Query()`, `@Body()`
pub data Source : Type 0 where
  from_user from_param from_query from_body : Source

-- A parameter of a handler, with the type that TypeScript emits for it.
pub record Parameter : Type 0 where
  pub source : Source
  pub metatype : Metatype

pub record Route : Type 0 where
  pub verb : Verb
  pub path : String
  pub http_code : ℕ
  pub use_guards : Bool
  pub parameters : List Parameter

-- The four methods of the controller.
pub data Endpoint : Type 0 where
  create_wallet fund_wallet get_wallets transfer : Endpoint

abbrev user_id : Parameter
user_id = record { source = from_user; metatype = string_type }

-- The path is the controller's '/api/wallets', and the method's after it.
unfoldable pub route_of : Endpoint → Route
route_of create_wallet = record {
  verb = post;
  path = "/api/wallets";
  http_code = 201;
  use_guards = true;
  parameters = user_id ∷ [];
}
route_of fund_wallet = record {
  verb = post;
  path = "/api/wallets/fund";
  http_code = 200;
  use_guards = false;
  parameters = record { source = from_body; metatype = dto fund_wallet_body_dto } ∷ [];
}
route_of get_wallets = record {
  verb = get;
  path = "/api/wallets";
  http_code = 200;
  use_guards = true;
  parameters = user_id ∷ record { source = from_query; metatype = dto get_wallet_query_dto } ∷ [];
}
route_of transfer = record {
  verb = post;
  path = "/api/wallets/:sender_wallet_id/transfer";
  http_code = 200;
  use_guards = true;
  parameters =
      user_id
      ∷ record { source = from_param; metatype = dto transfer_param_dto }
      ∷ record { source = from_body; metatype = dto transfer_body_dto }
      ∷ [];
}

-- A request, with what the line to the other service does for it.
pub record Request : Type 0 where
  pub line : Line
  pub authorization : Option String
  pub param : Value
  pub query : Value
  pub body : Value

abbrev user_value : Option String → Value
user_value none = null
user_value (some u) = string u

-- What a decorator takes from the request, of which the guard has let `user` in.
abbrev pub taken : Request → (user : Option String) → Source → Value
taken request user from_user = user_value user
taken request user from_param = request.param
taken request user from_query = request.query
taken request user from_body = request.body

abbrev pub text_in : Value → Option String
text_in (string s) = some s
text_in _ = none

abbrev number_in : Value → Option Number
number_in (number n) = some n
number_in _ = none

abbrev pub kind_from : String → Option NotificationType
kind_from s =
    if str_eq s "EMAIL" then some email else if str_eq s "MOBILE" then some mobile else none

infixl 5 ◌>>=◌
abbrev pub ◌>>=◌ {ℓ κ} : {A : Type ℓ} {B : Type κ} → Option A → (A → Option B) → Option B
none >>= f = none
some a >>= f = f a

-- What a handler answers with.
pub data Answer : Type 0 where
  wallet_data : WalletView → Answer
  transaction_data : TransactionView → Answer
  wallets_data : List WalletView → Answer
  transferring_data : TransferringView → Answer

abbrev pub answer : {db : Database} {A : Type 0} → (A → Answer) → Action db A → Action db Answer
answer f m = World.◌>>=◌ m λ a. World.pure (f a)

module _ (lib : Validation) (iso : Date → String) (db : Database) where
  -- The handler on the values of its parameters, or none if one of them is not of the type that the
  -- handler declares.
  unfoldable pub handler : Endpoint → (Source → Value) → Option (Action db Answer)
  handler create_wallet value = do
    user ← text_in (value from_user)
    some (answer wallet_data (WalletController.create_wallet iso db user))
  handler fund_wallet value = do
    let body = value from_body
    wallet ← text_in (property body "wallet_id")
    amount ← number_in (property body "amount_in_kobo")
    some (answer transaction_data (WalletController.fund_wallet iso db wallet amount))
  handler get_wallets value = do
    user ← text_in (value from_user)
    let query = value from_query
    let offset = lib.to_number (property query "offset")
    let limit = lib.to_number (property query "limit")
    some (answer wallets_data (WalletController.get_wallets iso db user offset limit))
  handler transfer value = do
    user ← text_in (value from_user)
    sender ← text_in (property (value from_param) "sender_wallet_id")
    let body = value from_body
    receiver ← text_in (property body "receiver_wallet_id")
    amount ← number_in (property body "amount_in_kobo")
    text ← text_in (property body "notification_type")
    kind ← kind_from text
    some (
        answer transferring_data
          (WalletController.transfer iso db user sender receiver amount kind))
