-- ===== src/Config.antt =====
-- wallet/src/config.ts: the configuration as a function of the environment that dotenv has loaded.
-- `as` on a type has no effect; unary `+` on what a variable holds is a parameter, since it accepts
-- more than the texts of `Js.Decimal`.
use tanta.Base.{ℕ, String, Bool, false, Option, none, some, str_eq, if◌then◌else◌}
use tanta.Js.Number.{Number}

record Connection : Type 0 where
  host : Option String
  port : Number
  user : Option String
  password : Option String
  database : Option String
  ssl : Option String

record Pool : Type 0 where
  min : Number
  max : Number
  idle_timeout_millis : Number

record Knex : Type 0 where
  client : String
  connection : Connection
  pool : Pool
  timezone : String

pub record RoutingKeys : Type 0 where
  pub notification : String
  pub authorization : String

pub record RabbitMq : Type 0 where
  pub host : String
  pub port : ℕ
  pub exchange_name : String
  pub routing_key : RoutingKeys

record Config : Type 0 where
  knex : Knex
  rabbit_mq : RabbitMq
  port : Option String
  env : Option String

-- The part that is the same in every environment.
abbrev pub rabbit_mq : RabbitMq
rabbit_mq = record {
  host = "localhost";
  port = 5672;
  exchange_name = "tanta_exchange";
  routing_key = record {
    notification = "RABBITMQ_NOTIFICATION_BINDING_KEY";
    authorization = "RABBITMQ_AUTHORIZATION_BINDING_KEY";
  };
}

-- `process.env.NODE_ENV === 'test'`
abbrev is_test : Option String → Bool
is_test none = false
is_test (some name) = str_eq name "test"

module _ (env : String → Option String) (plus : Option String → Number) where
  abbrev connection : Connection
  connection = record {
    host = env "DB_HOST";
    port = plus (env "DB_PORT");
    user = env "DB_USERNAME";
    password = env "DB_PASSWORD";
    database = env "DB_NAME";
    ssl = if is_test (env "NODE_ENV") then some "" else env "SSL";
  }

  abbrev pool : Pool
  pool = record {
    min = plus (env "DB_MIN_POOLSIZE");
    max = plus (env "DB_MAX_POOLSIZE");
    idle_timeout_millis = plus (env "DB_IDLE_TIMEOUT_IN_MILLISECS");
  }

  abbrev config : Config
  config = record {
    knex = record { client = "pg"; connection = connection; pool = pool; timezone = "UTC" };
    rabbit_mq = rabbit_mq;
    port = env "PORT";
    env = env "NODE_ENV";
  }
