-- ===== src/Thread/Play.antt =====
-- An interleaving that is given by the threads' positions, one for each step.
use tanta.Base.{ℕ, zero, suc, List, [], ◌∷◌, ◌++◌}
use mathlib.Core.List.{append_assoc}
use mathlib.Core.Path.{subst}
use tanta.Thread.{Thread, returned, await}
use tanta.Thread.Schedule.{System, Run, here, next, turn}
use tanta.World.{Database, World}

module _ {db : Database} where
  -- The step of the thread at a position; nothing if it is over, or there is none.
  abbrev play_one :
      ℕ → List (Thread db (Unit {0})) → List (Thread db (Unit {0})) → World db → System db
  play_one n before [] s = record { world = s; threads = before ++ [] }
  play_one zero before (returned r ∷ ts) s = record {
    world = s;
    threads = before ++ (returned r ∷ ts);
  }
  play_one zero before (await act rest ∷ ts) s = record {
    world = act s;
    threads = before ++ (rest s ∷ ts);
  }
  play_one (suc n) before (t ∷ ts) s = play_one n (before ++ (t ∷ [])) ts s

  abbrev pub play : List ℕ → System db → System db
  play [] x = x
  play (n ∷ ns) x = play ns (play_one n [] x.threads x.world)

  abbrev Reaches : System db → System db → Type 0
  Reaches x y = (n : ℕ) × Run n x y

  play_one-Reaches :
      (n : ℕ) (before ts : List (Thread db (Unit {0}))) (s : World db)
      → Reaches (record { world = s; threads = before ++ ts }) (play_one n before ts s)
  play_one-Reaches n before [] s = (0, here)
  play_one-Reaches zero before (returned r ∷ ts) s = (0, here)
  play_one-Reaches zero before (await act rest ∷ ts) s = (1, next (turn s before ts act rest) here)
  play_one-Reaches (suc n) before (t ∷ ts) s =
      subst
        (λ us. Reaches (record { world = s; threads = us }) (play_one n (before ++ (t ∷ [])) ts s))
        (append_assoc before (t ∷ []) ts) (play_one-Reaches n (before ++ (t ∷ [])) ts s)

  append-Reaches : {n : ℕ} {x y z : System db} → Run n x y → Reaches y z → Reaches x z
  append-Reaches here more = more
  append-Reaches (next st run) more =
      let (m, joined) = append-Reaches run more in (suc m, next st joined)

  -- What is played is a run.
  pub play-Reaches : (ns : List ℕ) (x : System db) → (n : ℕ) × Run n x (play ns x)
  play-Reaches [] x = (0, here)
  play-Reaches (n ∷ ns) x =
      append-Reaches (play_one-Reaches n [] x.threads x.world).1
        (play-Reaches ns (play_one n [] x.threads x.world))
