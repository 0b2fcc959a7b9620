-- ===== src/Services.antt =====
-- The services that the process calls and that are not part of the repository: Redis, Postgres,
-- Slack's HTTP API, Kafka, and the machine's clock. Each is an unknown state with the calls that
-- the program makes; what a theorem relies on is a record of laws, a parameter of that theorem.
pub mod Laws
use enterprise_llm_tracker.Base.{ℕ, String, Bool, Option, List}
use enterprise_llm_tracker.Base.Dict.{Dict}
use enterprise_llm_tracker.Base.Int.{ℤ}
use enterprise_llm_tracker.Base.Act.{Result}
use enterprise_llm_tracker.Clock.{Time}
use enterprise_llm_tracker.Float.{Float}
use enterprise_llm_tracker.Models.{Event}

-- `rdb.Get(...).Float64()`: a number, redis.Nil, or another error
pub data Reply (F : Type 0) : Type 0 where
  value : F → Reply F
  missing : Reply F
  failed : String → Reply F

-- what http.Do and the decoder make of a POST to Slack
pub data SlackReply : Type 0 where
  unreachable : String → SlackReply
  undecodable : String → SlackReply
  answer : Bool → String → String → SlackReply

-- a row of threshold_triggers; an empty Slack timestamp is stored as NULL
pub record TriggerRow (F : Type 0) : Type 0 where
  pub engineer_id : String
  pub period : String
  pub threshold_pct : ℤ
  pub triggered_at : Time
  pub spend_at_trigger_usd : F
  pub budget_usd : F
  pub slack_message_ts : Option String
  pub notified_manager : Bool

-- the columns of signal_events that are inserted; the context's JSON is not modelled
pub record SignalRow (F : Type 0) : Type 0 where
  pub engineer_id : String
  pub signal_type : String
  pub severity : String
  pub occurred_at : Time
  pub observed_value : Option F
  pub baseline_value : Option F
  pub z_score : Option F
  pub notified : Bool
  pub notified_at : Option Time

pub record Redis (F R : Type 0) : Type 0 where
  -- GET, read as a float64
  pub get_float : String → R → Reply F × R
  -- SET key value NX PX ttl; the duration is in nanoseconds
  pub set_nx : String → String → ℕ → R → Result Bool × R
  -- the commands of the Lua script: TIME (seconds), INCRBYFLOAT, INCRBY, EXPIREAT, SET
  pub time : R → ℕ
  pub incr_by_float : String → F → R → R
  pub incr_by : String → ℤ → R → R
  pub expire_at : String → ℕ → R → R
  pub set : String → String → R → R
  -- EVALSHA of a script
  pub eval : (R → R) → R → Result (Unit {0}) × R
  -- HGETALL
  pub hget_all : String → R → Result (Dict String) × R
  -- the pipeline ZADD key score member, ZREMRANGEBYSCORE key -inf cutoff, EXPIRE key ttl and
  -- ZRANGEBYSCORE key cutoff +inf, whose members it returns
  pub burst_pipeline : String → ℤ → String → ℤ → ℕ → R → Result (List String) × R
  -- ZRANGE key start +inf BYSCORE
  pub z_range_by_score : String → ℤ → R → Result (List String) × R

pub record Postgres (F P : Type 0) : Type 0 where
  -- INSERT INTO threshold_triggers
  pub insert_trigger : TriggerRow F → P → Result (Unit {0}) × P
  -- INSERT INTO signal_events ... RETURNING id
  pub insert_signal : SignalRow F → P → Result ℤ × P
  -- UPDATE signal_events SET notified = TRUE, notified_at = $2 WHERE id = $1
  pub mark_notified : ℤ → Time → P → Result (Unit {0}) × P

pub record SlackApi (S : Type 0) : Type 0 where
  -- POST to chat.postMessage with the bearer token, the channel and the text
  pub post : String → String → String → S → SlackReply × S

pub record KafkaWriter (F K : Type 0) : Type 0 where
  -- WriteMessages of one message, by its key and the event that its value encodes
  pub write_message : String → Event F → K → Result (Unit {0}) × K

pub record Machine (C : Type 0) : Type 0 where
  -- time.Now()
  pub now : C → Time × C
  -- uuid.NewString()
  pub new_uuid : C → String × C
  -- Time.Format(time.RFC3339)
  pub rfc3339 : Time → String

pub record Services (F R P S K C : Type 0) : Type 0 where
  pub float : Float F
  pub redis : Redis F R
  pub postgres : Postgres F P
  pub slack : SlackApi S
  pub kafka : KafkaWriter F K
  pub machine : Machine C

-- the states of the services
pub record World (R P S K C : Type 0) : Type 0 where
  pub redis : R
  pub postgres : P
  pub slack : S
  pub kafka : K
  pub machine : C

-- a call of one service leaves the states of the others
module _ {R P S K C A : Type 0} where
  abbrev pub on_redis : (R → A × R) → World R P S K C → A × World R P S K C
  on_redis f w = let (a, r) = f w.redis in (a, record w { redis = r })

  abbrev pub on_postgres : (P → A × P) → World R P S K C → A × World R P S K C
  on_postgres f w = let (a, p) = f w.postgres in (a, record w { postgres = p })

  abbrev pub on_slack : (S → A × S) → World R P S K C → A × World R P S K C
  on_slack f w = let (a, s) = f w.slack in (a, record w { slack = s })

  abbrev pub on_kafka : (K → A × K) → World R P S K C → A × World R P S K C
  on_kafka f w = let (a, k) = f w.kafka in (a, record w { kafka = k })

  abbrev pub on_machine : (C → A × C) → World R P S K C → A × World R P S K C
  on_machine f w = let (a, c) = f w.machine in (a, record w { machine = c })
