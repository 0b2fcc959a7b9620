-- ===== src/Tests/ThresholdExamples.antt =====
-- The budget thresholds at work, and their theorems at concrete inputs.
use enterprise_llm_tracker.Base.{
  ℕ, ◌+◌, ◌≤◌, ◌<◌, Bool, true, false, ◌≡◌, refl, none, some, [], ◌∷◌, arith,
}
use enterprise_llm_tracker.Base.Act.{ok}
use enterprise_llm_tracker.Base.Dict.{lookup}
use enterprise_llm_tracker.Base.Format.{concat, show_int}
use enterprise_llm_tracker.Base.Int.{ℤ, pos}
use enterprise_llm_tracker.Clock.{end_of_day}
use enterprise_llm_tracker.Clock.Calendar.{end_of_month}
use enterprise_llm_tracker.Models.{Event}
use enterprise_llm_tracker.Registry.{Engineer, Registry, lookup_by_email}
use enterprise_llm_tracker.Services.{TriggerRow}
use enterprise_llm_tracker.Store.Claims.{
  get_cost_counter, claim_threshold_fired, counter_of_reply, write_threshold_trigger,
  row_of_trigger,
}
use enterprise_llm_tracker.Store.Keys.{cost_key, threshold_fired_key}
use enterprise_llm_tracker.Slack.{configured, post_dm, read_reply}
use enterprise_llm_tracker.Tests.Fakes.{
  services, held, table, claim_laws, sole_claim_laws, insert_laws, noon, FakeWorld, empty_world,
  empty_store,
}
use enterprise_llm_tracker.Threshold.{
  ThresholdService, is_listed, fire_threshold, fire_first, check_period, check_spend, handle_event,
  handle_all, notify_engineer, notify_manager,
}
use enterprise_llm_tracker.Threshold.Audit.{fire_threshold_unconfigured}
use enterprise_llm_tracker.Threshold.Frames.{Fired}
use enterprise_llm_tracker.Threshold.Once.{rows-handle_all}
use enterprise_llm_tracker.Threshold.Rows.{rows_for, unclaimed}
use enterprise_llm_tracker.Threshold.Order.{check_period_fires_first}

program : Unit {0}
unfolding handle_all handle_event check_period check_spend fire_first fire_threshold notify_engineer
    notify_manager is_listed configured post_dm read_reply get_cost_counter claim_threshold_fired
    counter_of_reply write_threshold_trigger row_of_trigger cost_key threshold_fired_key concat
    show_int lookup_by_email lookup end_of_day end_of_month
program = tt

abbrev pub alice : Engineer ℕ
alice = record {
  id = "1";
  email = "alice@example.com";
  name = "Alice";
  github_username = "alice-gh";
  slack_user_id = "U1";
  manager_slack_id = "";
  daily_budget_usd = 25_000;
  monthly_budget_usd = 500_000;
  team = "";
  active = true;
}

abbrev pub reg : Registry ℕ
reg = record {
  snap = record { by_email = ("alice@example.com", alice) ∷ []; by_github = [] };
  stats = record { count = 1; last_refresh_at = 0; last_refresh_error = "" };
}

abbrev cfg : ThresholdService
cfg = record {
  notify_at_percent = pos 80 ∷ pos 100 ∷ [];
  notify_manager_at_percent = pos 100 ∷ [];
  slack_token = "";
}

-- 26 dollars spent today
abbrev world : FakeWorld
world = record empty_world {
  redis = record empty_store { floats = ("engineer:alice@example.com:cost:today", 26_000) ∷ [] };
}

abbrev pub event : Event ℕ
event = record {
  event_id = "id";
  engineer_id = "alice@example.com";
  occurred_at = noon;
  source = "otel_metric";
  metric_name = "claude_code.cost.usage";
  cost_usd = some 1_000;
  tokens_input = none;
  tokens_output = none;
  tokens_cache_read = none;
  tokens_cache_creation = none;
  model = "";
  raw = [];
}

abbrev row : ℤ → Bool → TriggerRow ℕ
row pct notified = record {
  engineer_id = "alice@example.com";
  period = "daily";
  threshold_pct = pct;
  triggered_at = noon;
  spend_at_trigger_usd = 26_000;
  budget_usd = 25_000;
  slack_message_ts = none;
  notified_manager = notified;
}

-- a spend past both tiers fires one tier at an event, the lower one first, and then no more
tiers_in_turn :
    (handle_all services cfg ((reg, event) ∷ []) world).postgres ≡ row (pos 80) false ∷ []
unfolding program
tiers_in_turn = refl

in_time : (c : ℕ) → (services.machine.now c).0 < end_of_day noon
unfolding end_of_day
in_time c = omega arith

counter_read : (get_cost_counter services "alice@example.com" "today" world).0 ≡ ok 26_000
unfolding program
counter_read = refl

free_80 : held world.redis (threshold_fired_key "alice@example.com" "daily" (pos 80)) ≡ false
unfolding program
free_80 = refl

rows-handle_all_example :
    rows_for "alice@example.com" "daily"
        (table (handle_all services cfg ((reg, event) ∷ []) world).postgres)
      + unclaimed
          (held (handle_all services cfg ((reg, event) ∷ []) world).redis)
          "alice@example.com"
          "daily"
          (pos 80 ∷ pos 100 ∷ [])
    ≤ rows_for "alice@example.com" "daily" (table [])
      + unclaimed (held world.redis) "alice@example.com" "daily" (pos 80 ∷ pos 100 ∷ [])
rows-handle_all_example =
    rows-handle_all services cfg held table claim_laws insert_laws ((reg, event) ∷ [])
      "alice@example.com" "daily" world

check_period_fires_first_example :
    Fired
      (λ row p. (services.postgres.insert_trigger row p).1)
      []
      (check_period services cfg alice "daily" 25_000 (end_of_day noon) world).1.postgres
      "alice@example.com"
      "daily"
      (pos 80)
      26_000
      25_000
check_period_fires_first_example =
    check_period_fires_first services cfg held sole_claim_laws alice "daily" (end_of_day noon)
      in_time 25_000 26_000 [] (pos 80) (pos 100 ∷ []) world refl refl counter_read refl tt refl
      free_80

fire_threshold_unconfigured_example :
    (row : TriggerRow ℕ) × ((fire_threshold services cfg alice "daily"
        (pos 100)
        26_000
        25_000
        world).1.slack
      ≡ [])
    × ((fire_threshold services cfg alice "daily" (pos 100) 26_000 25_000 world).1.postgres
        ≡ (services.postgres.insert_trigger row []).1)
    × (row.slack_message_ts ≡ none)
    × (row.notified_manager ≡ is_listed (pos 100) (pos 100 ∷ []))
fire_threshold_unconfigured_example =
    fire_threshold_unconfigured services cfg alice "daily" (pos 100) 26_000 25_000 world refl
