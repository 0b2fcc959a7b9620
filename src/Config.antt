-- ===== src/Config.antt =====
-- internal/config/config.go: the configuration and its validation. Reading and parsing the YAML file
-- are not modelled.
pub mod Valid
use enterprise_llm_tracker.Base.{
  ℕ, String, Bool, true, false, not, ◌&&◌, List, ◌∷◌, [], str_eq, if◌then◌else◌,
}
use enterprise_llm_tracker.Base.Act.{Result, ok, err, Act}
use enterprise_llm_tracker.Base.Format.{concat}
use enterprise_llm_tracker.Base.Int.{ℤ, pos, is_pos}
use enterprise_llm_tracker.Float.{Float}

pub record PostgresConfig : Type 0 where
  pub url : String

pub record RedisConfig : Type 0 where
  pub addr : String

pub record KafkaConfig : Type 0 where
  pub brokers : List String
  pub topic : String
  pub consumer_group_prefix : String

pub record SchedulerConfig : Type 0 where
  pub interval_seconds : ℤ
  pub min_trigger_interval_seconds : ℤ

pub record GitHubConfig : Type 0 where
  pub org : String
  pub repos : List String
  pub token_env : String
  pub scheduler : SchedulerConfig
  pub lookback_days : ℤ
  pub is_user : Bool

pub record AdminConfig : Type 0 where
  pub token_env : String

pub record SlackConfig : Type 0 where
  pub bot_token_env : String
  pub default_manager_channel : String

pub record ThresholdsConfig : Type 0 where
  pub notify_at_percent : List ℤ
  pub notify_manager_at_percent : List ℤ

pub record RegistryConfig : Type 0 where
  pub refresh_interval_seconds : ℤ

pub record SignalsConfig (F : Type 0) : Type 0 where
  pub baseline_rebuild_interval_seconds : ℤ
  pub efficiency_rollup_interval_seconds : ℤ
  pub baseline_window_days : ℤ
  pub hourly_baseline_window_days : ℤ
  pub min_baseline_days : ℤ
  pub burst_window_minutes : ℤ
  pub burst_multiplier : F
  pub z_score_warn : F
  pub z_score_critical : F
  pub rhythm_break_pct : F
  pub notify_burst_critical : Bool

pub record Config (F : Type 0) : Type 0 where
  pub listen : String
  pub postgres : PostgresConfig
  pub redis : RedisConfig
  pub kafka : KafkaConfig
  pub github : GitHubConfig
  pub slack : SlackConfig
  pub thresholds : ThresholdsConfig
  pub registry : RegistryConfig
  pub admin : AdminConfig
  pub signals : SignalsConfig F

-- `if x <= 0 { x = value }`
unfoldable pub default_int : ℕ → ℤ → ℤ
default_int value x = if is_pos x then x else pos value

unfoldable pub default_float : {F : Type 0} → Float F → F → F → F
default_float fl value x = if fl.le x (fl.decimal 0 0) then value else x

unfoldable pub default_scheduler : SchedulerConfig → SchedulerConfig
unfolding default_int
default_scheduler s = record {
  interval_seconds = default_int 3600 s.interval_seconds;
  min_trigger_interval_seconds = default_int 300 s.min_trigger_interval_seconds;
}

unfoldable pub default_github : GitHubConfig → GitHubConfig
unfolding default_int default_scheduler
default_github g = record g {
  scheduler = default_scheduler g.scheduler;
  lookback_days = default_int 30 g.lookback_days;
}

module _ {F : Type 0} (fl : Float F) where
  unfoldable pub default_signals : SignalsConfig F → SignalsConfig F
  unfolding default_int default_float
  default_signals s = record s {
    baseline_rebuild_interval_seconds = default_int 86400 s.baseline_rebuild_interval_seconds;
    efficiency_rollup_interval_seconds = default_int 86400 s.efficiency_rollup_interval_seconds;
    baseline_window_days = default_int 30 s.baseline_window_days;
    hourly_baseline_window_days = default_int 14 s.hourly_baseline_window_days;
    min_baseline_days = default_int 14 s.min_baseline_days;
    burst_window_minutes = default_int 30 s.burst_window_minutes;
    burst_multiplier = default_float fl (fl.decimal 20 1) s.burst_multiplier;
    z_score_warn = default_float fl (fl.decimal 20 1) s.z_score_warn;
    z_score_critical = default_float fl (fl.decimal 30 1) s.z_score_critical;
    rhythm_break_pct = default_float fl (fl.decimal 5 2) s.rhythm_break_pct;
  }

  unfoldable pub with_defaults : Config F → Config F
  unfolding default_int default_github default_signals
  with_defaults c = record c {
    registry = record {
      refresh_interval_seconds = default_int 30 c.registry.refresh_interval_seconds;
    };
    github = default_github c.github;
    signals = default_signals c.signals;
  }

  -- Validate: its error, and the configuration that it leaves. `getenv` is os.Getenv and `quote` is
  -- the verb %q.
  unfoldable pub validate :
      (String → String) → (String → String) → Act (Config F) (Result (Unit {0}))
  validate getenv quote c =
      if str_eq c.listen ""
      then (err "listen must be set", c)
      else if str_eq c.postgres.url ""
      then (err "postgres.url must be set", c)
      else if str_eq c.redis.addr ""
      then (err "redis.addr must be set", c)
      else if not (str_eq c.slack.bot_token_env "") && str_eq (getenv c.slack.bot_token_env) ""
      then (
        err (
            concat (
              "env var " ∷ quote c.slack.bot_token_env ∷ " (slack.bot_token_env) is not set" ∷ [])),
        c,
      )
      else (ok tt, with_defaults c)
