-- ===== src/Ingest/Otlp/Messages.antt =====
-- What a whole OTLP request hands to the Kafka writer.
use enterprise_llm_tracker.Base.{
  ℕ, ◌+◌, String, length, if◌then◌else◌, ◌≡◌, some, List, [], ◌∷◌, ◌++◌, All,
}
use enterprise_llm_tracker.Base.Dict.{Dict}
use enterprise_llm_tracker.Ingest.Otlp.{
  DataPoint, Metric, ResourceMetrics, key_values_to_map, number_value, time_of_nano,
  extract_number_data_points,
}
use enterprise_llm_tracker.Ingest.Published.{is_handed}
use enterprise_llm_tracker.Models.{Event}
use enterprise_llm_tracker.Registry.{Engineer, Registry, lookup_by_email}
use enterprise_llm_tracker.Services.{Services, World}
use enterprise_llm_tracker.Services.Laws.{WriterLaws}

-- a message of a metric that is keyed by the email of a registered engineer, whose event it is
pub record IsKeyed {F : Type 0} (reg : Registry F) (message : String × Event F) : Type 0 where
  pub identity : String
  pub engineer : Engineer F
  pub registered : lookup_by_email reg identity ≡ some engineer
  pub by_key : message.0 ≡ engineer.email
  pub by_engineer : message.1.engineer_id ≡ engineer.email
  pub from_source : message.1.source ≡ "otel_metric"

-- so many messages are handed over, each well keyed
abbrev pub HandsOverAll :
    {F : Type 0} → Registry F → ℕ → List (String × Event F) → List (String × Event F) → Type 0
HandsOverAll {F} reg n before after =
    (added : List (String × Event F)) × (after ≡ before ++ added)
    × (length added ≡ n)
    × All (IsKeyed reg) added

-- how many numbers of a request are handed over
module _ {F R P S K C : Type 0} (sv : Services F R P S K C) (reg : Registry F) where
  unfoldable pub count_points : Dict String → String → List (DataPoint F) → ℕ
  count_points res_attrs name [] = 0
  count_points res_attrs name (dp ∷ dps) =
      let attrs = key_values_to_map sv.float dp.attributes in
      let value = number_value sv.float dp.value in
      (if is_handed sv reg res_attrs attrs name (time_of_nano dp.time_unix_nano) value
        then 1
        else 0)
      + count_points res_attrs name dps

  unfoldable pub count_metrics : Dict String → List (Metric F) → ℕ
  count_metrics res_attrs [] = 0
  count_metrics res_attrs (m ∷ ms) =
      count_points res_attrs m.name (extract_number_data_points sv.float m.data_points)
      + count_metrics res_attrs ms

  unfoldable pub count_scopes : Dict String → List (List (Metric F)) → ℕ
  count_scopes res_attrs [] = 0
  count_scopes res_attrs (s ∷ ss) = count_metrics res_attrs s + count_scopes res_attrs ss

  unfoldable pub count_resources : List (ResourceMetrics F) → ℕ
  count_resources [] = 0
  count_resources (r ∷ rs) =
      count_scopes (key_values_to_map sv.float r.attributes) r.scopes + count_resources rs

module _ {F R P S K C : Type 0} (sv : Services F R P S K C) (handed : K → List (String × Event F))
    (wl : WriterLaws sv.kafka handed) (reg : Registry F) where
  -- what was handed over after a step
  abbrev handed_after : (Unit {0} × World R P S K C) → List (String × Event F)
  handed_after r = handed r.1.kafka
