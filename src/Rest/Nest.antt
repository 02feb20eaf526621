-- ===== src/Rest/Nest.antt =====
-- wallet/src/controllers/rest/rest.module.ts and wallet.controller.ts: guard, pipe, handler and filter
-- of a request. Putting them together is Nest's part, whose documented behaviour `Nest` states.
use tanta.Base.{ℕ, String, ◌≡◌, ◌⊎◌, Option, none, some, List, [], ◌∷◌, if◌then◌else◌}
use tanta.Rest.Dto.{Value, Validation}
use tanta.Rest.Filter
use tanta.Rest.Filter.{Thrown, validation_exception, http_exception, exception, catch}
use tanta.Rest.Guard.{Decision, undecided, denied, granted, can_activate}
use tanta.Rest.Pipe.{passes, rejects, transform}
use tanta.Rest.Routes.{Endpoint, Parameter, Source, Request, Answer, route_of, taken, handler}
use tanta.Shared.DateTime.{Date}
use tanta.Shared.Exception.{Result, ok, throw}
use tanta.World.{Database, World, Action}

-- `@UseGuards(IdentityAccessGuard)`; a route without it lets everybody in, and knows no user.
unfoldable pub entry : Endpoint → Request → Decision
unfolding route_of
entry e request =
    if (route_of e).use_guards
    then can_activate request.line request.authorization
    else granted none

-- What the client gets.
pub data Reply : Type 0 where
  answered : (http_code : ℕ) → Answer → Reply
  failed : Filter.Reply → Reply

-- Nest's exception for a guard that returns false, and the one that the pipe throws.
abbrev pub forbidden : Thrown
forbidden = http_exception 403 "Forbidden resource"

abbrev pub bad_request : Option String → Thrown
bad_request err_msg = validation_exception 400 err_msg

-- What becomes of the handler's result: `@HttpCode` and the answer, or the filter's reply.
abbrev pub reply_to : Endpoint → Result Answer → Reply
reply_to e (ok answer) = answered (route_of e).http_code answer
reply_to e (throw thrown) = failed (catch (exception thrown))

module _ (lib : Validation) where
  -- The pipe turns one of the parameters away with the message.
  abbrev pub Rejects : (Source → Value) → List Parameter → (err_msg : Option String) → Type 0
  Rejects value [] m = ⊥
  Rejects value (p ∷ ps) m =
      (transform lib (value p.source) (some p.metatype) ≡ rejects m) ⊎ Rejects value ps m

  -- The pipe lets all parameters through, as they came.
  abbrev pub Accepts : (Source → Value) → List Parameter → Type 0
  Accepts value [] = Unit
  Accepts value (p ∷ ps) =
      (transform lib (value p.source) (some p.metatype) ≡ passes (value p.source))
      × Accepts value ps

  -- The guard first, then the pipe on every parameter of the handler, then the handler; what any of
  -- them throws goes to the filter. A guard that never decides leaves the request waiting. Which
  -- of several rejections is reported is left open.
  pub record Nest (iso : Date → String) (db : Database) : Type 0 where
    pub respond : Endpoint → Request → World db → Option Reply × World db
    pub waits :
        (e : Endpoint) (r : Request) (s : World db)
        → entry e r ≡ undecided
        → respond e r s ≡ (none, s)
    pub forbids :
        (e : Endpoint) (r : Request) (s : World db)
        → entry e r ≡ denied
        → respond e r s ≡ (some (failed (catch forbidden)), s)
    pub refuses :
        (e : Endpoint) (r : Request) (s : World db) {user : Option String} (m : Option String)
        → entry e r ≡ granted user
        → Rejects (taken r user) (route_of e).parameters m
        → (m' : Option String) × Rejects (taken r user) (route_of e).parameters m'
          × (respond e r s ≡ (some (failed (catch (bad_request m'))), s))
    pub runs :
        (e : Endpoint) (r : Request) (s : World db) {user : Option String} {act : Action db Answer}
        → entry e r ≡ granted user
        → Accepts (taken r user) (route_of e).parameters
        → handler lib iso db e (taken r user) ≡ some act
        → respond e r s ≡ (some (reply_to e (act s).0), (act s).1)
