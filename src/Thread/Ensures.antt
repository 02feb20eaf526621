-- ===== src/Thread/Ensures.antt =====
-- What holds of the world at every `await` of a thread, whatever other threads did meanwhile, and of
-- what the thread returns.
use tanta.Base.{◌≡◌, Bool, true, false, if◌then◌else◌}
use mathlib.Core.Path.{subst}
use tanta.Shared.Exception.{Result, ok, throw}
use tanta.Thread.{Thread, returned, await, call, ◌>>=◌}
use tanta.World.{Database, World, Action}

-- A result that is returned, not thrown, has the property.
abbrev pub Returns : {A : Type 0} → (A → Type 0) → Result A → Type 0
Returns Q (ok a) = Q a
Returns Q (throw e) = Unit

-- What steps keep: `holds` of the world before and after each, where `ahead` of the world after it
-- may be assumed, and `grows` between the two.
pub record Invariant (db : Database) : Type 1 where
  pub holds : World db → Type 0
  pub ahead : World db → Type 0
  pub grows : World db → World db → Type 0
  pub stays : (s : World db) → grows s s

-- A condition on the world alone.
abbrev pub only : {db : Database} → (World db → Type 0) → Invariant db
only P = record { holds = P; ahead = λ _. Unit; grows = λ _ _. Unit; stays = λ _. tt }

-- What a step from one world to another has to show.
abbrev pub Kept : {db : Database} → Invariant db → World db → World db → Type 0
Kept J s t = J.holds s → J.ahead t → J.holds t × J.grows s t

module _ {db : Database} (J : Invariant db) where
  -- Each step keeps `J`, and the value returned has `Q`.
  abbrev Holds : {A : Type 0} → (A → Type 0) → Thread db A → Type 0
  Holds Q (returned r) = Returns Q r
  Holds Q (await act rest) =
      (s : World db)
      → J.holds s
      → J.ahead (act s)
      → (J.holds (act s) × J.grows s (act s)) × Holds Q (rest s)

  pub record Ensures {A : Type 0} (Q : A → Type 0) (t : Thread db A) : Type 0 where
    pub at : Holds Q t

  Holds-bind :
      {A B : Type 0} (Q : A → Type 0) (R : B → Type 0) (t : Thread db A) (f : A → Thread db B)
      → Holds Q t
      → ((a : A) → Q a → Ensures R (f a))
      → Holds R (t >>= f)
  Holds-bind Q R (returned (ok a)) f h k = (k a h).at
  Holds-bind Q R (returned (throw e)) f h k = tt
  Holds-bind Q R (await act rest) f h k =
      λ s j a. ((h s j a).0, Holds-bind Q R (rest s) f (h s j a).1 k)

  pub Ensures-bind :
      {A B : Type 0} (Q : A → Type 0) (R : B → Type 0) (t : Thread db A) (f : A → Thread db B)
      → Ensures Q t
      → ((a : A) → Q a → Ensures R (f a))
      → Ensures R (t >>= f)
  Ensures-bind Q R t f h k = record { at = Holds-bind Q R t f h.at k }

  pub Ensures-if :
      {A : Type 0} (Q : A → Type 0) (b : Bool) (t u : Thread db A)
      → Ensures Q t
      → Ensures Q u
      → Ensures Q (if b then t else u)
  Ensures-if Q true t u h k = h
  Ensures-if Q false t u h k = k

  pub Ensures-returned :
      {A : Type 0} (Q : A → Type 0) (r : Result A) → Returns Q r → Ensures Q (returned r)
  Ensures-returned Q r h = record { at = h }

  -- A call keeps `J`, and what it answers has `Q`.
  pub Ensures-call :
      {A : Type 0} (Q : A → Type 0) (m : Action db A)
      → ((s : World db)
          → J.holds s
          → J.ahead (m s).1
          → (J.holds (m s).1 × J.grows s (m s).1) × Returns Q (m s).0)
      → Ensures Q (call m)
  Ensures-call Q m h = record { at = h }

  -- A call that leaves the world as it was.
  pub Ensures-look :
      {A : Type 0} (Q : A → Type 0) (m : Action db A)
      → ((s : World db) → (m s).1 ≡ s)
      → ((s : World db) → J.holds s → J.ahead s → Returns Q (m s).0)
      → Ensures Q (call m)
  Ensures-look Q m same looks = record {
    at = λ s j a. (rw (same s) (j, J.stays s), looks s j (subst J.ahead (same s) a));
  }

pub Returns-any : {A : Type 0} (r : Result A) → Returns (λ _. Unit {0}) r
Returns-any (ok a) = tt
Returns-any (throw e) = tt
