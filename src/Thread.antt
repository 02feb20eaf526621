-- ===== src/Thread.antt =====
-- A request as the event loop sees it: between two `await`s it runs alone, at an `await` another
-- request may run. A thread is what is left of a request, one step for each call of the database,
-- the clock, the generator of ids or the console.
pub mod Runs
pub mod Play
pub mod Requests
pub mod Alone
pub mod Ensures
pub mod Keeps
pub mod Stable
pub mod Preserved
pub mod Schedule
pub mod Launch
pub mod Rows
pub mod Kept
pub mod Elsewhere
pub mod Recorded
pub mod Audit
pub mod Barred
pub mod Single
use tanta.Base.{◌≡◌, refl}
use tanta.Shared.Exception.{Exception, Result, ok, throw}
use tanta.World
use tanta.World.{Database, World, Action}

-- A step changes the world; what is left depends on the world that the step began in.
pub data Thread (db : Database) (A : Type 0) : Type 0 where
  returned : Result A → Thread db A
  await : (World db → World db) → (World db → Thread db A) → Thread db A

module _ {db : Database} where
  -- One call, answered at once.
  abbrev pub call : {A : Type 0} → Action db A → Thread db A
  call m = await (λ s. (m s).1) (λ s. returned (m s).0)

  abbrev pub pure : {A : Type 0} → A → Thread db A
  pure a = returned (ok a)

  abbrev pub raise : {A : Type 0} → Exception → Thread db A
  raise e = returned (throw e)

  -- A throw ends the request.
  infixl 5 ◌>>=◌ ◌>>◌
  abbrev pub ◌>>=◌ : {A B : Type 0} → Thread db A → (A → Thread db B) → Thread db B
  returned (ok a) >>= f = f a
  returned (throw e) >>= f = returned (throw e)
  await act rest >>= f = await act (λ s. rest s >>= f)

  abbrev pub ◌>>◌ : {A B : Type 0} → Thread db A → Thread db B → Thread db B
  t >> u = t >>= λ _. u

  -- The request alone, to its end.
  abbrev pub alone : {A : Type 0} → Thread db A → World db → Result A × World db
  alone (returned r) s = (r, s)
  alone (await act rest) s = alone (rest s) (act s)

  -- Alone, a sequence of threads is the sequence of what they do alone.
  pub alone->>= :
      {A B : Type 0} (t : Thread db A) (f : A → Thread db B) (s : World db)
      → alone (t >>= f) s ≡ (World.◌>>=◌ (alone t) (λ a. alone (f a))) s
  alone->>= (returned (ok a)) f s = refl
  alone->>= (returned (throw e)) f s = refl
  alone->>= (await act rest) f s = alone->>= (rest s) f (act s)
