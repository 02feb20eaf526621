-- ===== src/Rest/Filter.antt =====
-- wallet/src/controllers/rest/common/all.exceptions.filter.ts: the reply to what a handler, a guard
-- or a pipe has thrown. The two classes of Nest's exceptions hold the status that their
-- constructors were given.
use tanta.Base.{ℕ, String, Option, some}
use tanta.Shared.Exception.{Exception}

-- `ValidationException` extends Nest's `HttpException`; the program's own `Exception` does not.
pub data Thrown : Type 0 where
  validation_exception : (status : ℕ) (err_msg : Option String) → Thrown
  http_exception : (status : ℕ) (message : String) → Thrown
  exception : Exception → Thrown
  other : Thrown

pub record Reply : Type 0 where
  pub http_status : ℕ
  pub error : Option String

unfoldable pub catch : Thrown → Reply
catch (validation_exception status err_msg) = record { http_status = status; error = err_msg }
catch (http_exception status message) = record { http_status = status; error = some message }
catch _ = record { http_status = 500; error = some "UNKNOWN" }
