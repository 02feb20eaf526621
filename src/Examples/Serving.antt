-- ===== src/Examples/Serving.antt =====
-- rest.module.ts: guard, pipe, handler and filter put together in the simplest way that keeps the
-- laws of `Nest`: the first parameter that is turned away is reported.
use tanta.Base.{String, ◌≡◌, refl, inl, inr, Option, none, some, List, [], ◌∷◌}
use tanta.Rest.Dto.{Value, Validation}
use tanta.Rest.Filter.{catch, other}
use tanta.Rest.Guard.{Decision, undecided, denied, granted}
use tanta.Rest.Nest.{Nest, Reply, Rejects, Accepts, entry, failed, reply_to, forbidden, bad_request}
use tanta.Rest.Pipe.{Transformed, passes, rejects, transform}
use tanta.Rest.Routes.{Endpoint, Parameter, Source, Request, Answer, route_of, taken, handler}
use tanta.Shared.DateTime.{Date}
use tanta.World.{Database, World, Action}

abbrev first_of : Transformed → Option (Option String) → Option (Option String)
first_of (rejects m) later = some m
first_of (passes _) later = later

module _ (lib : Validation) where
  abbrev first_message : (Source → Value) → List Parameter → Option (Option String)
  first_message value [] = none
  first_message value (p ∷ ps) =
      let later = first_message value ps in
      first_of (transform lib (value p.source) (some p.metatype)) later

  pub first_message-Rejects :
      (value : Source → Value) (ps : List Parameter) (m : Option String)
      → Rejects lib value ps m
      → (m' : Option String) × Rejects lib value ps m' × (first_message value ps ≡ some m')
  first_message-Rejects value [] m bad = elim bad [ ]
  first_message-Rejects value (p ∷ ps) m (inl bad) = (m, inl bad, rw bad refl)
  first_message-Rejects value (p ∷ ps) m (inr bad) =
      let (m', bad', is) = first_message-Rejects value ps m bad in
      either (transform lib (value p.source) (some p.metatype)) refl m' bad' is
    where
      either :
          (t : Transformed)
          → transform lib (value p.source) (some p.metatype) ≡ t
          → (m' : Option String) → Rejects lib value ps m'
          → first_message value ps ≡ some m'
          → (m : Option String) × Rejects lib value (p ∷ ps) m
            × (first_message value (p ∷ ps) ≡ some m)
      either (rejects m) first m' bad' is = (m, inl first, rw first refl)
      either (passes v) first m' bad' is = (m', inr bad', rw first is)

  pub first_message-Accepts :
      (value : Source → Value) (ps : List Parameter)
      → Accepts lib value ps
      → first_message value ps ≡ none
  first_message-Accepts value [] _ = refl
  first_message-Accepts value (p ∷ ps) (good, rest) =
      rw (good, first_message-Accepts value ps rest) refl

  module _ (iso : Date → String) (db : Database) where
    abbrev run : Endpoint → Option (Action db Answer) → World db → Option Reply × World db
    run e none s = (some (failed (catch other)), s)
    run e (some act) s = (some (reply_to e (act s).0), (act s).1)

    abbrev piped :
        Endpoint → (Source → Value) → Option (Option String) → World db → Option Reply × World db
    piped e value (some m) s = (some (failed (catch (bad_request m))), s)
    piped e value none s = run e (handler lib iso db e value) s

    abbrev guarded : Endpoint → Request → Decision → World db → Option Reply × World db
    guarded e r undecided s = (none, s)
    guarded e r denied s = (some (failed (catch forbidden)), s)
    guarded e r (granted user) s =
        piped e (taken r user) (first_message (taken r user) (route_of e).parameters) s

    unfoldable pub serving : Nest lib iso db
    serving = record {
      respond = λ e r s. guarded e r (entry e r) s;
      waits = λ e r s waiting. rw waiting refl;
      forbids = λ e r s out. rw out refl;
      refuses = λ e r s m let_in bad.
          let (m', bad', is) = first_message-Rejects (taken r _) (route_of e).parameters m bad in
          (m', bad', rw (let_in, is) refl);
      runs = λ e r s let_in good runs.
          rw (let_in, first_message-Accepts (taken r _) (route_of e).parameters good, runs) refl;
    }
