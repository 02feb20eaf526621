-- ===== src/World/Leaves.antt =====
-- Actions that leave something alone: a rule for each way in which the methods are put together.
use tanta.Base.{◌≡◌, refl, ◌∙◌, Bool, true, false, if◌then◌else◌}
use tanta.Shared.Exception.{Exception, Result, ok, throw}
use tanta.World.{Database, World, Action, pure, raise, lift, ◌>>=◌}

-- `m` leaves the view of the world alone, whether it returns or throws.
pub record Leaves {db : Database} {A V : Type 0} (view : World db → V) (m : Action db A)
    : Type 0 where
  pub at : (s : World db) → view (m s).1 ≡ view s

module _ {db : Database} {V : Type 0} (view : World db → V) where
  pub Leaves-pure : {A : Type 0} (a : A) → Leaves view (pure {db = db} a)
  Leaves-pure a = record { at = λ s. refl }

  pub Leaves-raise : {A : Type 0} (e : Exception) → Leaves view (raise {db = db} {A = A} e)
  Leaves-raise e = record { at = λ s. refl }

  pub Leaves-lift : {A : Type 0} (r : Result A) → Leaves view (lift {db = db} r)
  Leaves-lift r = record { at = λ s. refl }

  pub Leaves-if :
      {A : Type 0} (b : Bool) {m n : Action db A}
      → Leaves view m
      → Leaves view n
      → Leaves view (if b then m else n)
  Leaves-if true k l = k
  Leaves-if false k l = l

  -- The rest may use what the first action answered.
  pub Leaves-bind :
      {A B : Type 0} (m : Action db A) (f : A → Action db B)
      → Leaves view m
      → ((a : A) (s : World db) → (m s).0 ≡ ok a → Leaves view (f a))
      → Leaves view (m >>= f)
  Leaves-bind {A} {B} m f km kf = record { at = λ s. after s (m s).0 (m s).1 refl (km.at s) }
    where
      after :
          (s : World db) (r : Result A) (s' : World db)
          → (m s).0 ≡ r
          → view s' ≡ view s
          → view ((lift r >>= f) s').1 ≡ view s
      after s (ok a) s' e h = (kf a s e).at s' ∙ h
      after s (throw c) s' e h = h
