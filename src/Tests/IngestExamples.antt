-- ===== src/Tests/IngestExamples.antt =====
-- Ingesting data points and log records, at concrete inputs.
use enterprise_llm_tracker.Base.{
  ℕ, String, List, length, true, ◌≡◌, refl, inl, none, some, [], ◌∷◌, if◌then◌else◌, ltb,
}
use enterprise_llm_tracker.Base.Act.{ok}
use enterprise_llm_tracker.Base.Dict.{Dict, lookup, insert}
use enterprise_llm_tracker.Base.Int.{pos}
use enterprise_llm_tracker.Clock.{unix, end_of_day}
use enterprise_llm_tracker.Ingest.{
  resolve, lookup_in, lookup_engineer, record_metric, record_known_metric, metric_event,
}
use enterprise_llm_tracker.Kafka.Producer.{publish, is_encodable}
use enterprise_llm_tracker.Ingest.Counted.{record_metric_tokens}
use enterprise_llm_tracker.Ingest.Otlp.{
  DataPoint, ResourceMetrics, string_value, as_int, sum, key_values_to_map, fill_map, number_value,
  any_value_string, time_of_nano, extract_number_data_points, record_points, record_metrics,
  record_scopes, record_resources, metrics,
}
use enterprise_llm_tracker.Registry.{lookup_by_email}
use enterprise_llm_tracker.Store.Counters.{
  counted_cost, counted_tokens, write_event_redis, wrap_error,
}
use enterprise_llm_tracker.Store.Counters.Effects.{
  Counted, IsInRange, write_event_redis-Counted, write_event_redis-expiry,
}
use enterprise_llm_tracker.Store.Keys.{cost_key, tokens_key, last_otel_key}
use enterprise_llm_tracker.Tests.Fakes.{
  services, thousandths, topic, view, counter_laws, noon, empty_world, Store,
}
use enterprise_llm_tracker.Tests.ThresholdExamples.{reg, event}

abbrev dp_attrs : Dict String
dp_attrs = ("type", "input") ∷ ("user.email", "alice@example.com") ∷ []

abbrev nobody : Dict String
nobody = ("user.email", "bob@example.com") ∷ []

known : (lookup_engineer reg dp_attrs []).1 ≡ true
unfolding lookup_engineer lookup_in resolve lookup_by_email lookup
known = refl

reachable : (s : Store → Store) (r : Store) → (services.redis.eval s r).0 ≡ ok tt
reachable s r = refl

record_metric_tokens_example :
    let email = (lookup_engineer reg dp_attrs []).0 in
    let r' =
      (record_metric services reg [] dp_attrs "claude_code.token.usage" 5_000 noon
        empty_world).1.redis in
    (view.float_at r' (cost_key email "today") ≡ none)
    × (view.float_at r' (cost_key email "month") ≡ none)
    × (view.int_at r' (tokens_key email "today") ≡ some (pos 5))
    × (view.text_at r' (last_otel_key email) ≡ some "noon")
unfolding lookup
record_metric_tokens_example =
    record_metric_tokens services view counter_laws reachable reg [] dp_attrs 5_000 noon empty_world
      known "input" refl (inl refl) refl refl refl

in_range :
    IsInRange thousandths view "alice@example.com"
      (counted_cost thousandths (some 1_000))
      (counted_tokens event)
      empty_world.redis
unfolding counted_cost counted_tokens lookup
in_range = record { cost_today = refl; cost_month = refl; tokens_today = refl }

write_event_redis-Counted_example :
    Counted thousandths view "alice@example.com"
      (counted_cost thousandths (some 1_000))
      (counted_tokens event)
      "noon"
      empty_world.redis
      (write_event_redis services event empty_world).1.redis
unfolding write_event_redis wrap_error lookup
write_event_redis-Counted_example =
    write_event_redis-Counted services view counter_laws event empty_world in_range refl

write_event_redis-expiry_example :
    view.expiry_at
      (write_event_redis services event empty_world).1.redis
      (cost_key "alice@example.com" "today")
    ≡ (if ltb 1_768_478_400 (unix (end_of_day noon)) then some (unix (end_of_day noon)) else none)
unfolding write_event_redis wrap_error lookup
write_event_redis-expiry_example =
    write_event_redis-expiry services view counter_laws event 1_000 empty_world refl refl in_range
      refl

abbrev data_point : DataPoint ℕ
data_point = record {
  attributes = ("user.email", string_value "alice@example.com") ∷ [];
  value = as_int (pos 5);
  time_unix_nano = 1_768_478_400_000_000_000;
}

abbrev request : List (ResourceMetrics ℕ)
request =
    record {
      attributes = [];
      scopes =
          (record { name = "claude_code.cost.usage"; data_points = sum (data_point ∷ []) } ∷ [])
          ∷ [];
    }
    ∷ []

one_message : length (topic (metrics services reg (ok request) empty_world).1.kafka) ≡ 1
unfolding metrics record_resources record_scopes record_metrics record_points key_values_to_map
    fill_map number_value extract_number_data_points any_value_string time_of_nano record_metric
    lookup_engineer lookup_in resolve lookup_by_email lookup insert record_known_metric metric_event
    publish is_encodable write_event_redis
one_message = refl
