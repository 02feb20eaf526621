-- ===== src/Messaging.antt =====
-- wallet/src/messaging/messaging.service.ts: what the service asks of RabbitMQ's channel, and how a
-- request waits for its response. The channel is amqplib's; a broker is whatever turns the commands
-- into the events that follow, the timer's among them.
pub mod Settling
use tanta.Base.{String, Bool, true, false, Option, none, some, List, [], ◌∷◌, str_eq, if◌then◌else◌}

-- The options of `channel.publish`.
pub record Options : Type 0 where
  pub correlation_id : Option String
  pub reply_to : Option String

pub data Command : Type 0 where
  assert_exchange : (exchange kind : String) (durable : Bool) → Command
  assert_queue : (name : String) (exclusive : Bool) → Command
  bind_queue : (queue exchange routing_key : String) → Command
  consume : (queue : String) (no_ack : Bool) → Command
  publish : (exchange routing_key content : String) (options : Option Options) → Command

-- A message that is delivered to the consumer, by what the consumer looks at.
pub record Message : Type 0 where
  pub correlation_id : Option String
  pub content : String

-- The consumer is called, with a message or with null, or the timer fires.
pub data Event : Type 0 where
  delivers : Option Message → Event
  times_out : Event

-- A promise, once the events are over.
pub data Settled {ℓ} (A : Type ℓ) : Type ℓ where
  pending rejected : Settled A
  resolved : A → Settled A

-- `=== correlationId`
abbrev pub same_id : String → Option String → Bool
same_id id none = false
same_id id (some sent) = str_eq sent id

abbrev pub is_for : String → Message → Bool
is_for id m = same_id id m.correlation_id

-- `pendingResponse`: what settles a promise first, settles it. `parse` is `JSON.parse`.
module _ {ℓ} {Response : Type ℓ} (parse : String → Response) (correlation_id : String) where
  unfoldable pub settle : List Event → Settled Response
  settle [] = pending
  settle (times_out ∷ events) = rejected
  settle (delivers none ∷ events) = settle events
  settle (delivers (some m) ∷ events) =
      let rest = settle events in
      if is_for correlation_id m then resolved (parse m.content) else rest

module _ (exchange queue routing_key content : String) where
  -- `queue` is the name that the server gave to the queue asserted as ''.
  unfoldable pub publish_with_no_response : List Command
  publish_with_no_response =
      assert_exchange exchange "direct" false
      ∷ assert_queue "" true
      ∷ bind_queue queue exchange routing_key
      ∷ publish exchange routing_key content none
      ∷ []

  abbrev pub requested : List Command
  requested =
      assert_exchange exchange "direct" false
      ∷ assert_queue "" true
      ∷ bind_queue queue exchange routing_key
      ∷ consume queue true
      ∷ publish exchange routing_key content none
      ∷ []

  module _ {ℓ} {Response : Type ℓ} (parse : String → Response) (correlation_id : String) where
    unfoldable pub publish_with_direct_response : (List Command → List Event) → Settled Response
    unfolding settle
    publish_with_direct_response broker = settle parse correlation_id (broker requested)
