-- ===== src/Thread/Keeps.antt =====
-- An invariant of the tables through a thread, with no claim on what the thread returns.
use tanta.Base.{String, ◌≡◌, ap}
use tanta.Shared.Exception.{Result}
use tanta.Thread.{Thread, returned, call, ◌>>=◌}
use tanta.Thread.Ensures.{
  Invariant, Kept, Returns-any, Ensures, Ensures-bind, Ensures-look, Ensures-call, Ensures-returned,
}
use tanta.TransactionRepository
use tanta.TransactionRepository.Laws.{get_last_if_exists_by_lem, get_transaction_if_exists_lem}
use tanta.World.{Database, World, Action}

module _ {db : Database} (J : Invariant db) where
  -- No claim on what is returned.
  abbrev pub Keeps : {A : Type 0} → Thread db A → Type 0
  Keeps t = Ensures J (λ _. Unit {0}) t

  pub changes :
      {A : Type 0} (m : Action db A) → ((s : World db) → Kept J s (m s).1) → Keeps (call m)
  changes m keeps = Ensures-call J (λ _. Unit {0}) m λ s j a. (keeps s j a, Returns-any (m s).0)

  pub ends : {A : Type 0} (r : Result A) → Keeps {A = A} (returned r)
  ends r = Ensures-returned J (λ _. Unit {0}) r (Returns-any r)

  pub looks : {A : Type 0} (m : Action db A) → ((s : World db) → (m s).1 ≡ s) → Keeps (call m)
  looks m same = Ensures-look J (λ _. Unit {0}) m same λ s _ _. Returns-any (m s).0

  pub then_keeps :
      {A B : Type 0} (t : Thread db A) (f : A → Thread db B)
      → Keeps t
      → ((a : A) → Keeps (f a))
      → Keeps (t >>= f)
  then_keeps t f h k = Ensures-bind J (λ _. Unit {0}) (λ _. Unit {0}) t f h (λ a _. k a)

  pub holding_keeps :
      {A B : Type 0} (Q : A → Type 0) (t : Thread db A) (f : A → Thread db B)
      → Ensures J Q t
      → ((a : A) → Q a → Keeps (f a))
      → Keeps (t >>= f)
  holding_keeps Q t f h k = Ensures-bind J Q (λ _. Unit {0}) t f h k

  pub last-Keeps : (id : String) → Keeps (call (TransactionRepository.get_last_if_exists_by db id))
  last-Keeps id =
      looks (TransactionRepository.get_last_if_exists_by db id)
        λ s. ap (λ r. r.1) (get_last_if_exists_by_lem db id s)

  pub look-Keeps :
      (id : String) → Keeps (call (TransactionRepository.get_transaction_if_exists db id))
  look-Keeps id =
      looks (TransactionRepository.get_transaction_if_exists db id)
        λ s. ap (λ r. r.1) (get_transaction_if_exists_lem db id s)
