-- ===== src/Ingest/Otlp.antt =====
-- internal/ingest/otlp.go and handler.go: OTLP requests, from the decoded protobuf message. Reading,
-- unzipping and decoding the body are one input: the message, or the error that is answered. The
-- answer to the message is an empty one, which always encodes.
pub mod Messages
use enterprise_llm_tracker.Base.{
  ℕ, ◌+◌, ◌-◌, ◌*◌, ◌^◌, String, Bool, true, false, Option, none, some, List, [], ◌∷◌, ltb, str_eq,
  if◌then◌else◌,
}
use enterprise_llm_tracker.Base.Act.{Result, ok, err, Act, ◌>>=◌, ◌>>◌, pure}
use enterprise_llm_tracker.Base.Dict.{Dict, insert}
use enterprise_llm_tracker.Base.Format.{show_int}
use enterprise_llm_tracker.Base.Int.{ℤ}
use enterprise_llm_tracker.Clock.{Time, second}
use enterprise_llm_tracker.Float.{Float}
use enterprise_llm_tracker.Ingest.{attr, record_metric, record_log_event}
use enterprise_llm_tracker.Registry.{Registry}
use enterprise_llm_tracker.Services.{Services, World}

-- a value of the protocol; arrays, lists, bytes and an absent value read as the empty text
pub data AnyValue (F : Type 0) : Type 0 where
  string_value : String → AnyValue F
  bool_value : Bool → AnyValue F
  int_value : ℤ → AnyValue F
  double_value : F → AnyValue F
  other_value : AnyValue F

pub data NumberValue (F : Type 0) : Type 0 where
  as_double : F → NumberValue F
  as_int : ℤ → NumberValue F
  no_value : NumberValue F

pub record DataPoint (F : Type 0) : Type 0 where
  pub attributes : List (String × AnyValue F)
  pub value : NumberValue F
  pub time_unix_nano : ℕ

pub data MetricData (F : Type 0) : Type 0 where
  sum : List (DataPoint F) → MetricData F
  gauge : List (DataPoint F) → MetricData F
  other_data : MetricData F

pub record Metric (F : Type 0) : Type 0 where
  pub name : String
  pub data_points : MetricData F

pub record ResourceMetrics (F : Type 0) : Type 0 where
  pub attributes : List (String × AnyValue F)
  pub scopes : List (List (Metric F))

pub record LogRecord (F : Type 0) : Type 0 where
  pub attributes : List (String × AnyValue F)
  pub body : AnyValue F
  pub time_unix_nano : ℕ

pub record ResourceLogs (F : Type 0) : Type 0 where
  pub attributes : List (String × AnyValue F)
  pub scopes : List (List (LogRecord F))

-- time.Unix(0, int64(n)) of a uint64: from 2^63 on, the number of nanoseconds is negative
unfoldable pub time_of_nano : ℕ → Time
time_of_nano n =
    let epoch = 62_135_596_800 * second in if ltb n (2 ^ 63) then epoch + n else epoch + n - 2 ^ 64

-- GetStringValue
unfoldable pub get_string_value : {F : Type 0} → AnyValue F → String
get_string_value (string_value s) = s
get_string_value _ = ""

-- anyValueString
unfoldable pub any_value_string : {F : Type 0} → Float F → AnyValue F → String
any_value_string fl (string_value s) = s
any_value_string fl (bool_value true) = "true"
any_value_string fl (bool_value false) = "false"
any_value_string fl (int_value n) = show_int n
any_value_string fl (double_value x) = fl.general x
any_value_string fl other_value = ""

module _ {F : Type 0} (fl : Float F) where
  -- the loop of keyValuesToMap, over the map so far
  unfoldable pub fill_map : Dict String → List (String × AnyValue F) → Dict String
  fill_map out [] = out
  fill_map out ((key, v) ∷ kvs) = fill_map (insert key (any_value_string fl v) out) kvs

  unfoldable pub key_values_to_map : List (String × AnyValue F) → Dict String
  unfolding fill_map
  key_values_to_map kvs = fill_map [] kvs

  unfoldable pub number_value : NumberValue F → F
  number_value (as_double x) = x
  number_value (as_int n) = fl.of_int n
  number_value no_value = fl.decimal 0 0

  unfoldable pub extract_number_data_points : MetricData F → List (DataPoint F)
  extract_number_data_points (sum dps) = dps
  extract_number_data_points (gauge dps) = dps
  extract_number_data_points other_data = []

module _ {F R P S K C : Type 0} (sv : Services F R P S K C) (reg : Registry F) where
  -- the four loops of Metrics, the innermost first
  unfoldable pub record_points :
      Dict String → String → List (DataPoint F) → Act (World R P S K C) (Unit {0})
  record_points res_attrs name [] = pure tt
  record_points res_attrs name (dp ∷ dps) = do
    record_metric sv reg res_attrs (key_values_to_map sv.float dp.attributes) name
        (number_value sv.float dp.value) (time_of_nano dp.time_unix_nano)
    record_points res_attrs name dps

  unfoldable pub record_metrics : Dict String → List (Metric F) → Act (World R P S K C) (Unit {0})
  record_metrics res_attrs [] = pure tt
  record_metrics res_attrs (m ∷ ms) = do
    record_points res_attrs m.name (extract_number_data_points sv.float m.data_points)
    record_metrics res_attrs ms

  unfoldable pub record_scopes :
      Dict String → List (List (Metric F)) → Act (World R P S K C) (Unit {0})
  record_scopes res_attrs [] = pure tt
  record_scopes res_attrs (s ∷ ss) = do record_metrics res_attrs s; record_scopes res_attrs ss

  unfoldable pub record_resources : List (ResourceMetrics F) → Act (World R P S K C) (Unit {0})
  record_resources [] = pure tt
  record_resources (r ∷ rs) = do
    record_scopes (key_values_to_map sv.float r.attributes) r.scopes
    record_resources rs

  -- Metrics: the status of the answer
  unfoldable pub metrics : Result (List (ResourceMetrics F)) → Act (World R P S K C) ℕ
  metrics (err e) = pure 400
  metrics (ok rs) = do record_resources rs; pure 200

  -- the name of a log record: its body, or else its attribute
  unfoldable pub event_name : LogRecord F → String
  event_name lr =
      if str_eq (get_string_value lr.body) ""
      then attr "event.name" (key_values_to_map sv.float lr.attributes)
      else get_string_value lr.body

  unfoldable pub record_logs : Dict String → List (LogRecord F) → Act (World R P S K C) (Unit {0})
  record_logs res_attrs [] = pure tt
  record_logs res_attrs (lr ∷ lrs) = do
    record_log_event sv reg res_attrs (key_values_to_map sv.float lr.attributes) (event_name lr)
        (time_of_nano lr.time_unix_nano)
    record_logs res_attrs lrs

  unfoldable pub record_log_scopes :
      Dict String → List (List (LogRecord F)) → Act (World R P S K C) (Unit {0})
  record_log_scopes res_attrs [] = pure tt
  record_log_scopes res_attrs (s ∷ ss) = do record_logs res_attrs s; record_log_scopes res_attrs ss

  unfoldable pub record_log_resources : List (ResourceLogs F) → Act (World R P S K C) (Unit {0})
  record_log_resources [] = pure tt
  record_log_resources (r ∷ rs) = do
    record_log_scopes (key_values_to_map sv.float r.attributes) r.scopes
    record_log_resources rs

  -- Logs
  unfoldable pub logs : Result (List (ResourceLogs F)) → Act (World R P S K C) ℕ
  logs (err e) = pure 400
  logs (ok rs) = do record_log_resources rs; pure 200
