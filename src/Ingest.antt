-- ===== src/Ingest.antt =====
-- internal/service/ingest.go: attributing OTel data points and log records to engineers. Logging is
-- not modelled, and with it the display name of a metric's type (metricTypeMap), which is only logged.
pub mod Atoi
pub mod Attribution
pub mod Otlp
pub mod Published
pub mod Counted
use text.Mathlib.Text.{starts_with}
use enterprise_llm_tracker.Base.{
  String, Bool, true, false, not, Option, none, some, str_eq, if◌then◌else◌,
}
use enterprise_llm_tracker.Base.Act.{Result, Act, ◌>>=◌, pure}
use enterprise_llm_tracker.Base.Dict.{Dict, at}
use enterprise_llm_tracker.Base.Int.{ℤ}
use enterprise_llm_tracker.Clock.{Time}
use enterprise_llm_tracker.Float.{Float}
use enterprise_llm_tracker.Ingest.Atoi.{parse_int}
use enterprise_llm_tracker.Kafka.Producer.{publish}
use enterprise_llm_tracker.Models.{Event}
use enterprise_llm_tracker.Registry.{Engineer, Registry, lookup_by_email}
use enterprise_llm_tracker.Services.{Services, World, on_machine}
use enterprise_llm_tracker.Store.Counters.{write_event_redis}

-- `attrs[key]`
abbrev pub attr : String → Dict String → String
attr key attrs = at "" key attrs

module _ {F : Type 0} where
  -- what the registry makes of an identity
  unfoldable pub resolve : Registry F → String → String × Bool
  resolve reg identity = elim (lookup_by_email reg identity) [
    | some eng ↦ (eng.email, true)
    | none ↦ (identity, false)
  ]

  -- the body of the loop over the two maps; `rest` is what the next round returns
  unfoldable pub lookup_in : Registry F → Dict String → String × Bool → String × Bool
  unfolding resolve
  lookup_in reg attrs rest =
      if not (str_eq (attr "user.email" attrs) "")
      then resolve reg (attr "user.email" attrs)
      else if not (str_eq (attr "enduser.id" attrs) "")
      then resolve reg (attr "enduser.id" attrs)
      else rest

  unfoldable pub lookup_engineer : Registry F → Dict String → Dict String → String × Bool
  unfolding lookup_in
  lookup_engineer reg dp_attrs res_attrs =
      lookup_in reg dp_attrs (lookup_in reg res_attrs ("", false))

  unfoldable pub parse_float : Float F → String → Option F
  parse_float fl s = if str_eq s "" then none else fl.parse s

  -- the event of RecordMetric, before the switch on its name
  unfoldable pub base_event : String → String → Time → String → String → Dict String → Event F
  base_event event_id engineer ts source name attrs = record {
    event_id = event_id;
    engineer_id = engineer;
    occurred_at = ts;
    source = source;
    metric_name = name;
    cost_usd = none;
    tokens_input = none;
    tokens_output = none;
    tokens_cache_read = none;
    tokens_cache_creation = none;
    model = attr "model" attrs;
    raw = attrs;
  }

  -- the switch on `dpAttrs["type"]`
  unfoldable pub set_tokens : String → ℤ → Event F → Event F
  set_tokens kind v ev =
      if str_eq kind "input"
      then record ev { tokens_input = some v }
      else if str_eq kind "output"
      then record ev { tokens_output = some v }
      else if str_eq kind "cacheRead"
      then record ev { tokens_cache_read = some v }
      else if str_eq kind "cacheCreation"
      then record ev { tokens_cache_creation = some v }
      else ev

  -- the switch on the metric's name
  unfoldable pub metric_event :
      Float F → String → String → Time → String → F → Dict String → Event F
  unfolding base_event set_tokens
  metric_event fl event_id engineer ts name value dp_attrs =
      let ev = base_event event_id engineer ts "otel_metric" name dp_attrs in
      if str_eq name "claude_code.cost.usage"
      then record ev { cost_usd = some value }
      else if str_eq name "claude_code.token.usage"
      then set_tokens (attr "type" dp_attrs) (fl.to_int value) ev
      else ev

  unfoldable pub log_event : Float F → String → String → Time → String → Dict String → Event F
  unfolding base_event parse_float
  log_event fl event_id engineer ts name attrs =
      record (base_event event_id engineer ts "otel_event" name attrs) {
        cost_usd = parse_float fl (attr "cost_usd" attrs);
        tokens_input = parse_int (attr "input_tokens" attrs);
        tokens_output = parse_int (attr "output_tokens" attrs);
        tokens_cache_read = parse_int (attr "cache_read_tokens" attrs);
        tokens_cache_creation = parse_int (attr "cache_creation_tokens" attrs);
      }

module _ {F R P S K C : Type 0} (sv : Services F R P S K C) where
  -- an attributed data point: Redis, then Kafka; their errors are logged
  unfoldable pub record_known_metric :
      String → Dict String → String → F → Time → Act (World R P S K C) (Unit {0})
  record_known_metric engineer dp_attrs name value ts = do
    event_id ← on_machine sv.machine.new_uuid
    let ev = metric_event sv.float event_id engineer ts name value dp_attrs
    written ← write_event_redis sv ev
    sent ← publish sv ev
    pure tt

  unfoldable pub record_metric :
      Registry F → Dict String → Dict String → String → F → Time → Act (World R P S K C) (Unit {0})
  record_metric reg res_attrs dp_attrs name value ts =
      let (engineer, known) = lookup_engineer reg dp_attrs res_attrs in
      if not (starts_with name "claude_code.")
      then pure tt
      else if not known
      then pure tt
      else record_known_metric engineer dp_attrs name value ts

  unfoldable pub record_known_log :
      String → Dict String → String → Time → Act (World R P S K C) (Unit {0})
  record_known_log engineer event_attrs event_name ts = do
    event_id ← on_machine sv.machine.new_uuid
    sent ← publish sv (log_event sv.float event_id engineer ts event_name event_attrs)
    pure tt

  unfoldable pub record_log_event :
      Registry F → Dict String → Dict String → String → Time → Act (World R P S K C) (Unit {0})
  record_log_event reg res_attrs event_attrs event_name ts =
      let (engineer, known) = lookup_engineer reg event_attrs res_attrs in
      if not known then pure tt else record_known_log engineer event_attrs event_name ts
