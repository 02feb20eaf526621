-- ===== src/Thread/Runs.antt =====
-- Threads that, alone, do what a method does: a rule for each way in which the methods are put
-- together.
use tanta.Base.{◌≡◌, refl, ◌∙◌, Bool, true, false, if◌then◌else◌}
use tanta.Shared.Exception.{Result, ok, throw}
use tanta.Thread.{Thread, returned, await, call, alone, alone->>=}
use tanta.Thread
use tanta.World.{Database, World, Action, lift}
use tanta.World

-- Alone, the thread `t` ends as the method `m` does.
pub record Runs {db : Database} {A : Type 0} (t : Thread db A) (m : Action db A) : Type 0 where
  pub at : (s : World db) → alone t s ≡ m s

module _ {db : Database} where
  pub Runs-call : {A : Type 0} (m : Action db A) → Runs (call m) m
  Runs-call m = record { at = λ s. refl }

  pub Runs-lift : {A : Type 0} (r : Result A) → Runs {db = db} (returned r) (lift r)
  Runs-lift r = record { at = λ s. refl }

  pub Runs-if :
      {A : Type 0} (b : Bool) {t u : Thread db A} {m n : Action db A}
      → Runs t m
      → Runs u n
      → Runs (if b then t else u) (if b then m else n)
  Runs-if true h k = h
  Runs-if false h k = k

  pub Runs-bind :
      {A B : Type 0} (t : Thread db A) (m : Action db A) (f : A → Thread db B) (g : A → Action db B)
      → Runs t m
      → ((a : A) → Runs (f a) (g a))
      → Runs (Thread.◌>>=◌ t f) (World.◌>>=◌ m g)
  Runs-bind {A} {B} t m f g h k = record {
    at = λ s. alone->>= t f s ∙ rw (h.at s) (after (m s).0 (m s).1);
  }
    where
      after :
          (r : Result A) (s : World db)
          → World.◌>>=◌ (lift r) (λ a. alone (f a)) s ≡ World.◌>>=◌ (lift r) g s
      after (ok a) s = (k a).at s
      after (throw e) s = refl
