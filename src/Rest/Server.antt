-- ===== src/Rest/Server.antt =====
-- rest.module.ts and wallet.controller.ts together: how a request to any of the four routes is
-- answered.
pub mod Handled
pub mod Users
pub mod Funding
pub mod Silence
pub mod Creating
pub mod Served
use tanta.Base.{
  String, ◌≡◌, ◌≢◌, ◌⊎◌, refl, sym, ap, ◌∙◌, inl, inr, true, Bool-cases, Option-cases, Option, none,
  some, List, [], ◌∷◌, arith,
}
use mathlib.Core.Path.{subst}
use tanta.Messaging.Settling.{Answer, HasTimeout}
use tanta.Rest.Access.{can_activate_granted_iff, can_activate_decides, events_for, yes_to}
use tanta.Rest.Dto.{Value, Validation}
use tanta.Rest.Errors.{has_error, get_first_error}
use tanta.Rest.Filter.{catch}
use tanta.Rest.Guard.{Decision, undecided, denied, granted, can_activate}
use tanta.Rest.Nest.{Nest, Reply, Rejects, Accepts, entry, answered, failed, reply_to}
use tanta.Rest.Pipe.{passes, rejects, transform, dto, Metatype}
use tanta.Rest.Routes
use tanta.Rest.Routes.{Endpoint, Parameter, Source, Request, route_of, taken, handler}
use tanta.Rest.Server.Handled.{handler-Accepts}
use tanta.Shared.DateTime.{Date}
use tanta.User.{Line}
use tanta.World.{Database, World, Action}

-- The other service names the user whenever it authorizes one, as its type `Authorized` says.
abbrev pub HasNames : Line → Type 0
HasNames line =
    (c : String)
    → (line.parse c).is_authorized ≡ true
    → (u : String) × ((line.parse c).user_id ≡ some u)

-- The timer of the guard's question fires, if there is a question.
abbrev pub IsTimed : Request → Type 0
IsTimed r = (h : String) → r.authorization ≡ some h → HasTimeout (events_for r.line h)

pub Decision-cases :
    (d : Decision) → (d ≡ undecided) ⊎ (d ≡ denied) ⊎ ((user : Option String) × (d ≡ granted user))
Decision-cases undecided = inl refl
Decision-cases denied = inr (inl refl)
Decision-cases (granted user) = inr (inr (user, refl))

-- A route that lets everybody in decides at once; a guard without a header too.
pub entry_decides : (e : Endpoint) (r : Request) → IsTimed r → entry e r ≢ undecided
unfolding entry can_activate
entry_decides e r timed waiting = elim (Bool-cases (route_of e).use_guards) [
  | inr unguarded ↦ absurd (ground (arith, unguarded, waiting))
  | inl guarded ↦ elim (Option-cases r.authorization) [
    | inl missing ↦ absurd (ground (arith, guarded, missing, waiting))
    | inr (header, given) ↦
        can_activate_decides r.line header (timed header given) (rw (guarded, given) at waiting)
  ]
]

-- The header of the request, asked about, was answered with an authorization of the user.
abbrev pub IsConfirmed : Request → String → Type 0
IsConfirmed r u =
    (h : String) × (r.authorization ≡ some h)
    × Answer r.line.correlation_id r.line.parse (events_for r.line h) (yes_to (some u))

-- Behind a guard the user has a name, which the other service has confirmed.
pub entry-IsConfirmed :
    (e : Endpoint) (r : Request) {user : Option String}
    → HasNames r.line
    → entry e r ≡ granted user
    → (route_of e).use_guards ≡ true
    → (u : String) × (user ≡ some u) × IsConfirmed r u
unfolding entry
entry-IsConfirmed e r {user} names let_in guarded =
    let (h, header, (before, after, m, is, pass, sent, read)) =
      (can_activate_granted_iff r.line r.authorization user).0 (rw guarded at let_in) in
    let (u, named) = names m.content (ap (λ response. response.is_authorized) read) in
    let same = sym (ap (λ response. response.user_id) read) ∙ named in
    (u, same, (h, header, (before, after, m, is, pass, sent, read ∙ ap yes_to same)))

module _ (lib : Validation) where
  transform-cases :
      (v : Value) (metatype : Metatype)
      → ((m : Option String) × (transform lib v (some metatype) ≡ rejects m))
        ⊎ (transform lib v (some metatype) ≡ passes v)
  unfolding transform
  transform-cases v (dto c) =
      let errors = lib.validate c (lib.plain_to_instance c v) in
      elim (Bool-cases (has_error errors)) [
        | inl wrong ↦ inl (get_first_error errors, rw wrong refl)
        | inr right ↦ inr (rw right refl)
      ]
  transform-cases v _ = inr refl

  -- One of the parameters is turned away, or all are let through.
  pub pipes-cases :
      (value : Source → Value) (ps : List Parameter)
      → ((m : Option String) × Rejects lib value ps m) ⊎ Accepts lib value ps
  pipes-cases value [] = inr tt
  pipes-cases value (p ∷ ps) = elim (transform-cases (value p.source) p.metatype) [
    | inl (m, bad) ↦ inl (m, inl bad)
    | inr good ↦ elim (pipes-cases value ps) [
      | inl (m, bad) ↦ inl (m, inr bad)
      | inr rest ↦ inr (good, rest)
    ]
  ]

-- Turned away by the guard, turned away by the pipe, or run by the handler.
module _ (lib : Validation) {iso : Date → String} {db : Database} (nest : Nest lib iso db) where
  abbrev pub IsForbidden : Endpoint → Request → World db → Type 0
  IsForbidden e r s =
      (entry e r ≡ denied)
      × (nest.respond e r s
          ≡ (some (failed (record { http_status = 403; error = some "Forbidden resource" })), s))

  abbrev pub IsRefused : Endpoint → Request → World db → Type 0
  IsRefused e r s =
      (user : Option String) × (m : Option String) × (entry e r ≡ granted user)
      × Rejects lib (taken r user) (route_of e).parameters m
      × (nest.respond e r s ≡ (some (failed (record { http_status = 400; error = m })), s))

  abbrev pub IsRun : Endpoint → Request → World db → Type 0
  IsRun e r s =
      (user : Option String) × (act : Action db Routes.Answer) × (entry e r ≡ granted user)
      × Accepts lib (taken r user) (route_of e).parameters
      × (handler lib iso db e (taken r user) ≡ some act)
      × (nest.respond e r s ≡ (some (reply_to e (act s).0), (act s).1))

  -- Every request is answered, if the guard's timer fires and the other service names the users
  -- whom it authorizes: with 403 if the guard denies it and with 400 and the pipe's message if the
  -- pipe rejects a parameter, both of which change nothing, and else with what becomes of the
  -- handler's result.
  pub respond_lem :
      (e : Endpoint) (r : Request) (s : World db)
      → HasNames r.line
      → IsTimed r
      → IsForbidden e r s ⊎ IsRefused e r s ⊎ IsRun e r s
  unfolding catch
  respond_lem e r s names timed = elim (Decision-cases (entry e r)) [
    | inl waiting ↦ absurd (entry_decides e r timed waiting)
    | inr (inl out) ↦ inl (out, nest.forbids e r s out)
    | inr (inr (user, let_in)) ↦ elim (pipes-cases lib (taken r user) (route_of e).parameters) [
      | inl (m, bad) ↦
          let (m', bad', refused) = nest.refuses e r s m let_in bad in
          inr (inl (user, m', let_in, bad', refused))
      | inr good ↦
          let (act, runs) =
            handler-Accepts lib iso db e r user
              (λ guarded.
                let (u, same, confirmed) = entry-IsConfirmed e r names let_in guarded in (u, same))
              good in
          inr (inr (user, act, let_in, good, runs, nest.runs e r s let_in good runs))
    ]
  ]
