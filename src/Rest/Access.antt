-- ===== src/Rest/Access.antt =====
-- auth.guard.ts, user.service.ts and messaging.service.ts together: who is let in.
use Prim.Native.Char.{code}
use tanta.Base.{
  String, ◌≡◌, ◌≢◌, ◌↔◌, refl, sym, ap, ◌∙◌, inl, inr, true, Bool-cases, ◌==◌, ==→eq, Option, none,
  some, List, arith,
}
use mathlib.Core.Path.{subst}
use mathlib.Core.Option.{some-injective}
use tanta.Messaging.{Event, Settled, pending, rejected, resolved, requested, settle}
use tanta.Messaging.Settling.{Answer, HasTimeout, settle_resolved_iff, settle_settles}
use tanta.Rest.Guard.{undecided, granted, first_word, decide, can_activate}
use tanta.Config.{rabbit_mq}
use tanta.User.{Line, Response, Authorization, authorize, then_settled, routing_key}

-- The response that lets a user in.
abbrev pub yes_to : Option String → Response
yes_to user_id = record { user_id = user_id; is_authorized = true }

abbrev authorization_of : Response → Authorization
authorization_of response = record {
  user_id = response.user_id;
  is_authorized = response.is_authorized;
}

granted_injective : {a b : Option String} → granted a ≡ granted b → a ≡ b
granted_injective e = cc

decide_granted :
    (p : Settled Response) (user_id : Option String)
    → decide (then_settled authorization_of p) ≡ granted user_id
    → p ≡ resolved (yes_to user_id)
decide_granted pending user_id e = absurd (ground (arith, e))
decide_granted rejected user_id e = absurd (ground (arith, e))
decide_granted (resolved r) user_id e = elim (Bool-cases r.is_authorized) [
  | inl authorized ↦
      let same : r.user_id ≡ user_id = granted_injective (rw authorized at e) in
      ap resolved (
        subst (λ u. r ≡ record { user_id = u; is_authorized = true }) same
          (ap (λ b. record { user_id = r.user_id; is_authorized = b }) authorized))
  | inr not_authorized ↦ absurd (ground (arith, not_authorized, e))
]

module _ (line : Line) where
  -- What follows the request for the token of a header.
  abbrev pub events_for : String → List Event
  events_for header = line.broker (
      requested rabbit_mq.exchange_name line.queue routing_key
        (line.stringify (some (first_word header))))

  -- The guard lets a user in exactly if there is a header, and the first message with the
  -- correlation id, delivered before the timer fires, says that this user is authorized.
  pub can_activate_granted_iff :
      (header user_id : Option String)
      → (can_activate line header ≡ granted user_id) ↔ (
          (h : String) × (header ≡ some h)
          × Answer line.correlation_id line.parse (events_for h) (yes_to user_id))
  unfolding can_activate
  can_activate_granted_iff none user_id =
      (λ e. absurd (ground (arith, e)), λ (h, e, _). absurd (ground (arith, e)))
  can_activate_granted_iff (some header) user_id =
      let answered =
        settle_resolved_iff line.correlation_id line.parse (events_for header) (yes_to user_id) in
      (
        λ e. (header, refl, answered.0 (decide_granted _ user_id e)),
        λ (h, e, answer).
            ap (λ p. decide (then_settled authorization_of p))
              (answered.1 (
                subst (λ k. Answer line.correlation_id line.parse (events_for k) (yes_to user_id))
                  (sym (some-injective header h e)) answer)),
      )

  -- On a request with a header the guard decides, if the timer fires among the events that follow
  -- the question for its token.
  pub can_activate_decides :
      (header : String)
      → HasTimeout (events_for header)
      → can_activate line (some header) ≢ undecided
  unfolding can_activate
  can_activate_decides header fires =
      decided (settle line.parse line.correlation_id (events_for header))
        (settle_settles line.correlation_id line.parse (events_for header) fires)
    where
      decided :
          (p : Settled Response)
          → p ≢ pending
          → decide (then_settled authorization_of p) ≢ undecided
      decided pending settles e = settles refl
      decided rejected settles e = absurd (ground (arith, e))
      decided (resolved r) settles e = elim (Bool-cases r.is_authorized) [
        | inl authorized ↦ absurd (ground (arith, authorized, e))
        | inr not_authorized ↦ absurd (ground (arith, not_authorized, e))
      ]

-- A text without a space.
abbrev pub IsWord : String → Type 0
IsWord String.[] = Unit
IsWord (String.◌∷◌ c s) = (code c ≢ 32) × IsWord s

-- Two texts with a space between them.
abbrev pub spaced : String → String → String
spaced String.[] rest = String.◌∷◌ " " rest
spaced (String.◌∷◌ c s) rest = String.◌∷◌ c (spaced s rest)

first_word-spaced : (word rest : String) → IsWord word → first_word (spaced word rest) ≡ word
unfolding first_word
first_word-spaced String.[] rest h = refl
first_word-spaced (String.◌∷◌ c s) rest (other, h) = elim (Bool-cases (code c == 32)) [
  | inl space ↦ absurd (other (==→eq (code c) 32 space))
  | inr letter ↦ rw (letter, first_word-spaced s rest h) refl
]

first_word-IsWord : (word : String) → IsWord word → first_word word ≡ word
unfolding first_word
first_word-IsWord String.[] h = refl
first_word-IsWord (String.◌∷◌ c s) (other, h) = elim (Bool-cases (code c == 32)) [
  | inl space ↦ absurd (other (==→eq (code c) 32 space))
  | inr letter ↦ rw (letter, first_word-IsWord s h) refl
]

-- Of a header like "Bearer abc" the guard looks at the first word only: whatever follows a word
-- without spaces and a space, the guard decides as it does on a header that holds only the word.
pub can_activate_scheme :
    (line : Line) (scheme credentials : String)
    → IsWord scheme
    → can_activate line (some (spaced scheme credentials)) ≡ can_activate line (some scheme)
unfolding can_activate
can_activate_scheme line scheme credentials h =
    ap (λ token. decide (authorize line (some token)))
      (first_word-spaced scheme credentials h ∙ sym (first_word-IsWord scheme h))
