-- ===== src/Ingest/Published.antt =====
-- Which data points and log records reach Kafka, and under whose name.
use text.Mathlib.Text.{starts_with}
use enterprise_llm_tracker.Base.{
  String, Bool, true, false, not, ◌&&◌, ◌||◌, str_eq, ◌≡◌, refl, ◌∙◌, ◌⊎◌, inl, inr, some, List, [],
  ◌∷◌, ◌++◌, arith, Bool-cases,
}
use enterprise_llm_tracker.Base.Dict.{Dict}
use enterprise_llm_tracker.Clock.{Time}
use enterprise_llm_tracker.Float.{Float}
use enterprise_llm_tracker.Ingest.{
  lookup_engineer, record_known_metric, record_metric, record_known_log, record_log_event,
  log_event,
}
use enterprise_llm_tracker.Ingest.Attribution.{lookup_engineer_known}
use enterprise_llm_tracker.Kafka.Producer.{publish, is_encodable}
use enterprise_llm_tracker.Models.{Event}
use enterprise_llm_tracker.Registry.{Engineer, Registry, lookup_by_email}
use enterprise_llm_tracker.Services.{Services, World}
use enterprise_llm_tracker.Services.Laws.{WriterLaws}

module _ {F R P S K C : Type 0} (sv : Services F R P S K C) (reg : Registry F)
    (res_attrs attrs : Dict String) (name : String) (ts : Time) where
  -- A metric that is not Claude Code's, or that is not attributed, changes nothing at all.
  pub record_metric_dropped :
      (value : F) (w : World R P S K C)
      → (starts_with name "claude_code." && (lookup_engineer reg attrs res_attrs).1) ≡ false
      → record_metric sv reg res_attrs attrs name value ts w ≡ (tt, w)
  unfolding record_metric
  record_metric_dropped value w h = ground (arith, h)

  pub record_metric_taken :
      (value : F) (w : World R P S K C)
      → (starts_with name "claude_code." && (lookup_engineer reg attrs res_attrs).1) ≡ true
      → record_metric sv reg res_attrs attrs name value ts w
        ≡ record_known_metric sv (lookup_engineer reg attrs res_attrs).0 attrs name value ts w
  unfolding record_metric
  record_metric_taken value w h = ground (arith, h)

  -- a Claude Code metric of a registered engineer, whose cost, if it is one, JSON can express
  abbrev pub is_handed : F → Bool
  is_handed value =
      (starts_with name "claude_code." && (lookup_engineer reg attrs res_attrs).1)
      && (not (str_eq name "claude_code.cost.usage") || sv.float.is_finite value)

-- a message that is handed to the writer: it is keyed by the email of a registered engineer
pub record IsAttributed {F : Type 0} (reg : Registry F) (source name : String) (ts : Time)
    (attrs : Dict String) (key : String) (e : Event F) : Type 0 where
  pub identity : String
  pub engineer : Engineer F
  pub registered : lookup_by_email reg identity ≡ some engineer
  pub by_key : key ≡ engineer.email
  pub by_engineer : e.engineer_id ≡ engineer.email
  pub from_source : e.source ≡ source
  pub named : e.metric_name ≡ name
  pub stamped : e.occurred_at ≡ ts
  pub with_attrs : e.raw ≡ attrs

-- one attributed message was handed over if `taken`, and none otherwise
abbrev pub HandsOver :
    {F : Type 0}
    → Registry F
    → String
    → String
    → Time
    → Dict String
    → Bool
    → List (String × Event F)
    → List (String × Event F)
    → Type 0
HandsOver {F} reg source name ts attrs taken before after =
    ((taken ≡ false) × (after ≡ before))
    ⊎ ((taken ≡ true)
        × ((key : String) × (e : Event F) × (after ≡ before ++ (key, e) ∷ [])
            × IsAttributed reg source name ts attrs key e))

log_event_frame :
    {F : Type 0} (fl : Float F) (event_id engineer : String) (ts : Time) (name : String)
    (attrs : Dict String)
    → let e = log_event fl event_id engineer ts name attrs in
      (e.engineer_id ≡ engineer)
      × (e.source ≡ "otel_event")
      × (e.metric_name ≡ name)
      × (e.occurred_at ≡ ts)
      × (e.raw ≡ attrs)
unfolding log_event
log_event_frame fl event_id engineer ts name attrs = (refl, refl, refl, refl, refl)

module _ {F R P S K C : Type 0} (sv : Services F R P S K C) (handed : K → List (String × Event F))
    (wl : WriterLaws sv.kafka handed) (reg : Registry F) (res_attrs attrs : Dict String)
    (name : String) (ts : Time) where
  pub attributed :
      (source : String) (e : Event F)
      → (lookup_engineer reg attrs res_attrs).1 ≡ true
      → (e.engineer_id ≡ (lookup_engineer reg attrs res_attrs).0)
        × (e.source ≡ source)
        × (e.metric_name ≡ name)
        × (e.occurred_at ≡ ts)
        × (e.raw ≡ attrs)
      → IsAttributed reg source name ts attrs e.engineer_id e
  attributed source e known frame =
      let (identity, eng, found, same) = lookup_engineer_known reg attrs res_attrs known in
      record {
        identity = identity;
        engineer = eng;
        registered = found;
        by_key = frame.0 ∙ same;
        by_engineer = frame.0 ∙ same;
        from_source = frame.1;
        named = frame.2;
        stamped = frame.3;
        with_attrs = frame.4;
      }

  publish-HandsOver :
      (source : String) (e : Event F) (w : World R P S K C)
      → IsAttributed reg source name ts attrs e.engineer_id e
      → HandsOver reg source name ts attrs
          (is_encodable sv.float e.cost_usd)
          (handed w.kafka)
          (handed (publish sv e w).1.kafka)
  unfolding publish
  publish-HandsOver source e w whose = elim (Bool-cases (is_encodable sv.float e.cost_usd)) [
    | inl encodable ↦
        rw encodable (inr (refl, (e.engineer_id, e, wl.recorded e.engineer_id e w.kafka, whose)))
    | inr refused ↦ rw refused (inl (refl, refl))
  ]

  -- A log record of a registered engineer hands at most one message to the Kafka writer, exactly one
  -- if JSON can express its cost, and one of another engineer none.
  pub record_log_event_published :
      (w : World R P S K C)
      → let (engineer, known) = lookup_engineer reg attrs res_attrs in
        let e = log_event sv.float (sv.machine.new_uuid w.machine).0 engineer ts name attrs in
        HandsOver reg "otel_event" name ts attrs
          (known && is_encodable sv.float e.cost_usd)
          (handed w.kafka)
          (handed (record_log_event sv reg res_attrs attrs name ts w).1.kafka)
  unfolding record_log_event record_known_log
  record_log_event_published w = elim (Bool-cases (lookup_engineer reg attrs res_attrs).1) [
    | inr unknown ↦ rw unknown (inl (refl, refl))
    | inl known ↦
        let engineer = (lookup_engineer reg attrs res_attrs).0 in
        let (event_id, c) = sv.machine.new_uuid w.machine in
        let e = log_event sv.float event_id engineer ts name attrs in
        let whose =
          attributed "otel_event" e known
            (log_event_frame sv.float event_id engineer ts name attrs) in
        rw known (publish-HandsOver "otel_event" e (record w { machine = c }) whose)
  ]
