-- ===== src/Thread/Schedule.antt =====
-- Requests that run at the same time: at each step any one of those that are not finished goes on.
use tanta.Base.{ℕ, suc, List, [], ◌∷◌, ◌++◌, All}
use tanta.Thread.{Thread, await}
use tanta.Thread.Ensures.{Invariant, Ensures}
use tanta.World.{Database, World}

pub record System (db : Database) : Type 0 where
  pub world : World db
  pub threads : List (Thread db (Unit {0}))

module _ {db : Database} where
  -- One thread, wherever it stands among the others, does its next step.
  pub data Step : System db → System db → Type 0 where
    turn :
        (s : World db) (before after : List (Thread db (Unit {0}))) (act : World db → World db)
        (rest : World db → Thread db (Unit {0}))
        → Step
            (record { world = s; threads = before ++ (await act rest ∷ after) })
            (record { world = act s; threads = before ++ (rest s ∷ after) })

  -- n steps.
  pub data Run : ℕ → System db → System db → Type 0 where
    here : {x : System db} → Run 0 x x
    next : {n : ℕ} {x y z : System db} → Step x y → Run n y z → Run (suc n) x z

  -- The condition holds of every world that the run leads to.
  abbrev pub Along : (World db → Type 0) → {n : ℕ} {x y : System db} → Run n x y → Type 0
  Along P here = Unit
  Along P (next {y = y} st r) = P y.world × Along P r

  pub Along-any :
      (P : World db → Type 0)
      → ((s : World db) → P s)
      → {n : ℕ} {x y : System db} (r : Run n x y) → Along P r
  Along-any P any here = tt
  Along-any P any (next {y = y} st r) = (any y.world, Along-any P any r)

  module _ (J : Invariant db) where
    abbrev pub Sound : System db → Type 0
    Sound x = J.holds x.world × All (λ t. Ensures J (λ _. Unit {0}) t) x.threads

    All-replace :
        {A : Type 0} (P : A → Type 0) (before after : List A) (a b : A)
        → (P a → P b)
        → All P (before ++ (a ∷ after))
        → All P (before ++ (b ∷ after))
    All-replace P [] after a b h (p, ps) = (h p, ps)
    All-replace P (c ∷ before) after a b h (p, ps) = (p, All-replace P before after a b h ps)

    All-at :
        {A : Type 0} (P : A → Type 0) (before after : List A) (a : A)
        → All P (before ++ (a ∷ after))
        → P a
    All-at P [] after a (p, ps) = p
    All-at P (c ∷ before) after a (p, ps) = All-at P before after a ps

    Step-Sound :
        {x y : System db} → Step x y → J.ahead y.world → Sound x → Sound y × J.grows x.world y.world
    Step-Sound (turn s before after act rest) a (j, good) =
        let keeps =
          (All-at (λ t. Ensures J (λ _. Unit {0}) t) before after (await act rest) good).at in
        let ((j', grown), left) = keeps s j a in
        (
          (
            j',
            All-replace (λ t. Ensures J (λ _. Unit {0}) t) before after (await act rest) (rest s)
                (λ _. record { at = left }) good,
          ),
          grown,
        )

    pub Run-Sound : {n : ℕ} {x y : System db} (r : Run n x y) → Along J.ahead r → Sound x → Sound y
    Run-Sound here along h = h
    Run-Sound (next st r) (a, along) h = Run-Sound r along (Step-Sound st a h).0

    -- Every world of a run has grown into the last one.
    pub Run-Along :
        ((s t u : World db) → J.grows s t → J.grows t u → J.grows s u)
        → {n : ℕ} {x y : System db} (r : Run n x y) → Along J.ahead r
        → Sound x
        → Along (λ s. J.grows s y.world) r × J.grows x.world y.world
    Run-Along trans {x = x} here along h = (tt, J.stays x.world)
    Run-Along trans {x = x} {y = z} (next {y = y} st r) (a, along) h =
        let (sound, grown) = Step-Sound st a h in
        let (later, rest) = Run-Along trans r along sound in
        ((rest, later), trans x.world y.world z.world grown rest)
