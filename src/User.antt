-- ===== src/User.antt =====
-- wallet/src/features/user/user.service.ts: whose token it is, asked of the other service over
-- RabbitMQ. Logging is left out, and with it the `catch` that throws its error again.
use tanta.Base.{String, Bool, Option, List}
use tanta.Config.{rabbit_mq}
use tanta.Messaging.{
  Command, Event, Settled, resolved, pending, rejected, publish_with_direct_response,
}

-- `Authorized | UnAuthorized`, as the response is read.
pub record Response : Type 0 where
  pub user_id : Option String
  pub is_authorized : Bool

pub record Authorization : Type 0 where
  pub user_id : Option String
  pub is_authorized : Bool

-- `config.rabbitMq.routingKey.authorization`
abbrev pub routing_key : String
routing_key = rabbit_mq.routing_key.authorization

abbrev pub then_settled : {A B : Type 0} → (A → B) → Settled A → Settled B
then_settled f pending = pending
then_settled f rejected = rejected
then_settled f (resolved a) = resolved (f a)

-- The name of the queue, the correlation id that is drawn, the two directions of JSON, and what
-- the commands lead to. The payload is the object that holds the token.
pub record Line : Type 0 where
  pub queue : String
  pub correlation_id : String
  pub stringify : (token : Option String) → String
  pub parse : String → Response
  pub broker : List Command → List Event

unfoldable pub authorize : Line → Option String → Settled Authorization
unfolding publish_with_direct_response
authorize line token =
    then_settled
      (λ response. record { user_id = response.user_id; is_authorized = response.is_authorized })
      (publish_with_direct_response rabbit_mq.exchange_name line.queue routing_key
        (line.stringify token) line.parse line.correlation_id line.broker)
