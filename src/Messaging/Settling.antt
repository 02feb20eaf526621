-- ===== src/Messaging/Settling.antt =====
-- messaging.service.ts: which message a response comes from.
use tanta.Base.{
  String, ◌≡◌, ◌≢◌, ◌↔◌, refl, sym, ap, ◌∙◌, inl, inr, true, false, Bool-cases, Option, none, some,
  List, [], ◌∷◌, ◌++◌, All, eq_iff, arith,
}
use mathlib.Core.Option.{some-injective, some-ne-none}
use tanta.Messaging.{
  Message, Event, delivers, times_out, resolved, pending, settle, is_for, same_id,
}

resolved_injective : {A : Type 0} {a b : A} → resolved a ≡ resolved b → a ≡ b
resolved_injective e = cc

-- The timer fires.
abbrev pub HasTimeout : List Event → Type 0
HasTimeout [] = ⊥
HasTimeout (times_out ∷ events) = Unit
HasTimeout (delivers _ ∷ events) = HasTimeout events

module _ (id : String) where
  -- An event that leaves the promise as it is.
  abbrev pub Passes : Event → Type 0
  Passes times_out = ⊥
  Passes (delivers none) = Unit
  Passes (delivers (some m)) = m.correlation_id ≢ some id

  same_id→eq : (sent : Option String) → same_id id sent ≡ true → sent ≡ some id
  same_id→eq none h = cc
  same_id→eq (some sent) h = ap some ((eq_iff sent id).0 h)

  eq→same_id : (sent : Option String) → sent ≡ some id → same_id id sent ≡ true
  eq→same_id none e = absurd (some-ne-none id (sym e))
  eq→same_id (some sent) e = (eq_iff sent id).1 (some-injective sent id e)

  ne→same_id : (sent : Option String) → sent ≢ some id → same_id id sent ≡ false
  ne→same_id sent other = elim (Bool-cases (same_id id sent)) [
    | inl same ↦ absurd (other (same_id→eq sent same))
    | inr differs ↦ differs
  ]

  same_id→ne : (sent : Option String) → same_id id sent ≡ false → sent ≢ some id
  same_id→ne sent differs e = absurd (ground (arith, eq→same_id sent e, differs))

  module _ {Response : Type 0} (parse : String → Response) where
    -- The message that a response comes from.
    abbrev pub Answer : List Event → Response → Type 0
    Answer events r =
        (before after : List Event) × (m : Message) × (events
          ≡ before ++ (delivers (some m) ∷ after))
        × All Passes before
        × (m.correlation_id ≡ some id)
        × (parse m.content ≡ r)

    pub settle-Answer :
        (events : List Event) (r : Response) → settle parse id events ≡ resolved r → Answer events r
    unfolding settle
    settle-Answer [] r e = absurd (ground (arith, e))
    settle-Answer (times_out ∷ events) r e = absurd (ground (arith, e))
    settle-Answer (delivers none ∷ events) r e =
        let (before, after, m, is, pass, sent, read) = settle-Answer events r e in
        (delivers none ∷ before, after, m, ap (λ es. delivers none ∷ es) is, (tt, pass), sent, read)
    settle-Answer (delivers (some m) ∷ events) r e = elim (Bool-cases (is_for id m)) [
      | inl mine ↦ (
        [],
        events,
        m,
        refl,
        tt,
        same_id→eq m.correlation_id mine,
        resolved_injective (rw mine at e),
      )
      | inr other ↦
          let (before, after, m', is, pass, sent, read) = settle-Answer events r (rw other at e) in
          (
            delivers (some m) ∷ before,
            after,
            m',
            ap (λ es. delivers (some m) ∷ es) is,
            (same_id→ne m.correlation_id other, pass),
            sent,
            read,
          )
    ]

    Answer-settle :
        (before after : List Event) (m : Message)
        → All Passes before
        → m.correlation_id ≡ some id
        → settle parse id (before ++ (delivers (some m) ∷ after)) ≡ resolved (parse m.content)
    unfolding settle
    Answer-settle [] after m pass sent = rw (eq→same_id m.correlation_id sent) refl
    Answer-settle (times_out ∷ before) after m (never, _) sent = absurd never
    Answer-settle (delivers none ∷ before) after m (_, pass) sent =
        Answer-settle before after m pass sent
    Answer-settle (delivers (some m') ∷ before) after m (other, pass) sent =
        rw (ne→same_id m'.correlation_id other) (Answer-settle before after m pass sent)

    -- The promise is resolved with a response exactly if a message with the correlation id and that
    -- content is delivered before the timer fires, and none before it has the id.
    pub settle_resolved_iff :
        (events : List Event) (r : Response)
        → (settle parse id events ≡ resolved r) ↔ Answer events r
    settle_resolved_iff events r = (
      settle-Answer events r,
      λ (before, after, m, is, pass, sent, read).
          ap (settle parse id) is ∙ Answer-settle before after m pass sent ∙ ap resolved read,
    )

    -- Once the timer has fired, the promise is settled.
    pub settle_settles :
        (events : List Event) → HasTimeout events → settle parse id events ≢ pending
    unfolding settle
    settle_settles [] never e = never
    settle_settles (times_out ∷ events) h e = absurd (ground (arith, e))
    settle_settles (delivers none ∷ events) h e = settle_settles events h e
    settle_settles (delivers (some m) ∷ events) h e = elim (Bool-cases (is_for id m)) [
      | inl mine ↦ absurd (ground (arith, mine, e))
      | inr other ↦ settle_settles events h (rw other at e)
    ]
