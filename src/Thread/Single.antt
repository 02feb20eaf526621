-- ===== src/Thread/Single.antt =====
-- The methods of the services: one of them, with no other request running, is a run of the system.
use tanta.Base.{ℕ, suc, [], ◌∷◌}
use mathlib.Core.Path.{subst}
use tanta.Thread.{Thread, returned, await, alone}
use tanta.Thread.Audit.{launch-IsAudited}
use tanta.Thread.Audit.Facts.{IsAudited}
use tanta.Thread.Launch.{Request, thread_of, perform, alone-thread_of}
use tanta.Thread.Schedule.{System, Run, here, next, turn}
use tanta.World.{Database, World}

module _ {db : Database} where
  -- A system of one thread.
  abbrev single : Thread db (Unit {0}) → World db → System db
  single t s = record { world = s; threads = t ∷ [] }

  alone-Run :
      (t : Thread db (Unit {0})) (s : World db)
      → (n : ℕ) × (u : Thread db (Unit {0})) × Run n (single t s) (single u (alone t s).1)
  alone-Run (returned r) s = (0, returned r, here)
  alone-Run (await act rest) s =
      let (n, u, run) = alone-Run (rest s) (act s) in (suc n, u, next (turn s [] [] act rest) run)

module _ (db : Database) where
  -- One method of a service keeps what every run of requests keeps: the wallets are accounted for by
  -- recorded transactions.
  pub perform-IsAudited :
      (q : Request) (s : World db)
      → IsAudited db s s
      → IsAudited db (perform db q s).1 (perform db q s).1
  perform-IsAudited q s audited =
      let (n, u, run) = alone-Run (thread_of db q) s in
      subst (λ p. IsAudited db p.1 p.1) (alone-thread_of db q s)
        (launch-IsAudited db (q ∷ []) s audited run)
