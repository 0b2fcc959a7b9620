-- ===== src/Tests/ConfigExamples.antt =====
-- A small configuration that passes its validation.
use enterprise_llm_tracker.Base.{
  ℕ, zero, suc, ◌≤◌, ◌<◌, ◌≡◌, refl, ◌↔◌, String, true, false, [], arith,
}
use enterprise_llm_tracker.Base.Act.{ok}
use enterprise_llm_tracker.Base.Int.{pos, negsuc}
use enterprise_llm_tracker.Config.{Config, SignalsConfig, GitHubConfig, validate}
use enterprise_llm_tracker.Config.Valid.{is_complete, IsUsable, validate_iff, validate_idem}
use enterprise_llm_tracker.Tests.Fakes.{thousandths}

abbrev signals : SignalsConfig ℕ
signals = record {
  baseline_rebuild_interval_seconds = pos 0;
  efficiency_rollup_interval_seconds = negsuc 4;
  baseline_window_days = pos 60;
  hourly_baseline_window_days = pos 0;
  min_baseline_days = pos 0;
  burst_window_minutes = pos 0;
  burst_multiplier = 0;
  z_score_warn = 2_500;
  z_score_critical = 0;
  rhythm_break_pct = 0;
  notify_burst_critical = false;
}

abbrev github : GitHubConfig
github = record {
  org = "acme";
  repos = [];
  token_env = "";
  scheduler = record { interval_seconds = pos 0; min_trigger_interval_seconds = pos 60 };
  lookback_days = pos 0;
  is_user = false;
}

abbrev config : Config ℕ
config = record {
  listen = ":8081";
  postgres = record { url = "postgres://db" };
  redis = record { addr = "redis:6379" };
  kafka = record { brokers = []; topic = ""; consumer_group_prefix = "" };
  github = github;
  slack = record { bot_token_env = "SLACK_TOKEN"; default_manager_channel = "" };
  thresholds = record { notify_at_percent = []; notify_manager_at_percent = [] };
  registry = record { refresh_interval_seconds = pos 0 };
  admin = record { token_env = "" };
  signals = signals;
}

abbrev getenv : String → String
getenv _ = "token"

abbrev quote : String → String
quote s = s

positive :
    (n k : ℕ)
    → 0 < n
    → k ≤ 2
    → thousandths.le (thousandths.decimal n k) (thousandths.decimal 0 0) ≡ false
positive n zero h _ = ground arith
positive n (suc zero) h _ = ground arith
positive n (suc (suc zero)) h _ = ground arith
positive n (suc (suc (suc k))) h small = absurd (omega arith)

validate_iff_example :
    (((validate thousandths getenv quote config).0 ≡ ok tt) ↔ (is_complete getenv config ≡ true))
    × (is_complete getenv config ≡ false → (validate thousandths getenv quote config).1 ≡ config)
validate_iff_example = validate_iff thousandths getenv quote config

validate_idem_example :
    IsUsable thousandths (validate thousandths getenv quote config).1
    × (validate thousandths getenv quote (validate thousandths getenv quote config).1
        ≡ (ok tt, (validate thousandths getenv quote config).1))
unfolding validate
validate_idem_example = validate_idem thousandths getenv quote positive config refl
