-- ===== src/Models.antt =====
-- The rows and messages of internal/store/models.go.
use enterprise_llm_tracker.Base.{ℕ, String, Bool, Option, List}
use enterprise_llm_tracker.Base.Int.{ℤ}
use enterprise_llm_tracker.Base.Dict.{Dict}
use enterprise_llm_tracker.Clock.{Time}

pub record Event (F : Type 0) : Type 0 where
  pub event_id : String
  pub engineer_id : String
  pub occurred_at : Time
  pub source : String
  pub metric_name : String
  pub cost_usd : Option F
  pub tokens_input : Option ℤ
  pub tokens_output : Option ℤ
  pub tokens_cache_read : Option ℤ
  pub tokens_cache_creation : Option ℤ
  pub model : String
  pub raw : Dict String

pub record GitHubPr : Type 0 where
  pub engineer_github : String
  pub repo : String
  pub pr_number : ℤ
  pub title : String
  pub state : String
  pub created_at : Time
  pub merged_at : Option Time
  pub review_count : ℤ
  pub files_changed : ℤ
  pub files : List String
  pub reverted : Bool
  pub reverted_at : Option Time
  pub last_synced_at : Time

pub record EfficiencySnapshot (F : Type 0) : Type 0 where
  pub engineer_id : String
  pub window_start : Time
  pub window_end : Time
  pub cost_usd : F
  pub merged_pr_count : ℤ
  pub revert_rate : F
  pub dollars_per_merged_pr : F
  pub computed_at : Time

pub record ThresholdTrigger (F : Type 0) : Type 0 where
  pub engineer_id : String
  pub period : String
  pub threshold_pct : ℤ
  pub triggered_at : Time
  pub spend_at_trigger_usd : F
  pub budget_usd : F
  pub slack_message_ts : String
  pub notified_manager : Bool

-- SignalEvent, as the detector builds it: the id and the context are the database's and the JSON's
pub record SignalEvent (F : Type 0) : Type 0 where
  pub engineer_id : String
  pub signal_type : String
  pub severity : String
  pub occurred_at : Time
  pub observed_value : Option F
  pub baseline_value : Option F
  pub z_score : Option F
  pub notified : Bool
  pub notified_at : Option Time

-- the 24 fractions by hour of the day are a function of the hour
pub record EngineerBaseline (F : Type 0) : Type 0 where
  pub daily_mean : F
  pub daily_stddev : F
  pub hourly_p95 : F
  pub active_days : ℤ
  pub hour_distribution : ℕ → F
