-- ===== src/Rest/Interceptor.antt =====
-- wallet/src/controllers/logging.interceptors.ts: `LoggingInterceptor.intercept`, without its lines of
-- logging. No route uses it.
use tanta.Base.{suc, ◌≡◌, refl}
use tanta.Shared.Exception.{Result, ok, throw}
use tanta.World.{Database, World, Action, now, ◌>>=◌}

module _ {A : Type 0} where
  -- `catchError((error) => { throw error })`
  abbrev catch_error : Result A → Result A
  catch_error (throw error) = throw error
  catch_error (ok a) = ok a

  catch_error_same : (r : Result A) → catch_error r ≡ r
  catch_error_same (throw error) = refl
  catch_error_same (ok a) = refl

module _ {db : Database} {A : Type 0} where
  -- `next.handle()`; the clock is read before, and its answer is not used.
  unfoldable intercept : Action db A → Action db A
  intercept next = now >>= λ _ s. (catch_error (next s).0, (next s).1)

  -- An intercepted handler does what it does without the interceptor, after the clock has been read
  -- once.
  intercept_lem :
      (next : Action db A) (s : World db)
      → intercept next s ≡ next (record s { times = λ n. s.times (suc n) })
  unfolding intercept
  intercept_lem next s =
      rw (catch_error_same (next (record s { times = λ n. s.times (suc n) })).0) refl
