-- ===== src/Rest/Guard.antt =====
-- wallet/src/controllers/rest/common/auth.guard.ts and auth.decorator.ts: `canActivate`, without its
-- lines of logging.
use Prim.Native.Char.{code}
use tanta.Base.{String, ◌==◌, Option, none, some, if◌then◌else◌}
use tanta.Messaging.{Settled, pending, rejected, resolved}
use tanta.User.{Line, Authorization, authorize}

-- `split(' ')[0]`: the text up to the first space.
unfoldable pub first_word : String → String
first_word String.[] = String.[]
first_word (String.◌∷◌ c s) =
    let rest = first_word s in if code c == 32 then String.[] else String.◌∷◌ c rest

-- What the guard returns, and the `userId` in `request.auth` if it has set one. A promise that is
-- never settled leaves the request waiting.
pub data Decision : Type 0 where
  undecided denied : Decision
  granted : (user_id : Option String) → Decision

-- The exception for a user who is not authorized is caught like any other.
abbrev pub decide : Settled Authorization → Decision
decide pending = undecided
decide rejected = denied
decide (resolved authorization) =
    if authorization.is_authorized then granted authorization.user_id else denied

-- The header 'authorization'; without it `split` throws, and the guard catches that.
unfoldable pub can_activate : Line → Option String → Decision
unfolding first_word authorize
can_activate line none = denied
can_activate line (some header) = decide (authorize line (some (first_word header)))

-- `IdentityAccessUser`, behind the guard.
abbrev pub identity_access_user : Decision → Option String
identity_access_user (granted user_id) = user_id
identity_access_user _ = none
