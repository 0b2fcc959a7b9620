-- ===== src/Tests/UsageExamples.antt =====
-- The Postgres writer and the queries on usage_events, at concrete inputs.
use enterprise_llm_tracker.Base.{
  ℕ, ◌≤◌, true, ◌≡◌, refl, Option, none, some, List, [], ◌∷◌, arith, count_if,
}
use enterprise_llm_tracker.Base.Act.{ok}
use enterprise_llm_tracker.Base.Int.{pos}
use enterprise_llm_tracker.Kafka.Consumer.{
  Reader, message, round, restart, start_offset, deliver, finish, commit, advance,
}
use enterprise_llm_tracker.Kafka.Consumer.Delivery.{started, delivered, restarted_new}
use enterprise_llm_tracker.Models.{Event}
use enterprise_llm_tracker.Usage.{
  UsageRow, Columns, reached, answer_lost, Persisted, has_event, insert_usage, row_of_event,
  nullable, write_event_pg, persist, next_contact,
}
use enterprise_llm_tracker.Usage.Once.{stored, Run-stored}
use enterprise_llm_tracker.Tests.Fakes.{noon}
use enterprise_llm_tracker.Tests.ThresholdExamples.{event}

abbrev columns : Columns ℕ
columns = record { uuid = λ id. ok id; numeric = λ x. ok x; int = λ n. ok n }

abbrev log : List (Option (Event ℕ))
log = some event ∷ some event ∷ []

abbrev at_end : Reader × Persisted ℕ
at_end = (
  record { position = 0; committed = none },
  record { rows = []; contacts = answer_lost "conn closed" ∷ [] },
)

-- the first answer is lost, so that the message is delivered again after a restart
abbrev lost : Reader × Persisted ℕ
lost = restart 0 (round (persist columns) true (message (some event)) at_end).1

abbrev stored_twice : Reader × Persisted ℕ
stored_twice =
    (round (persist columns) true (message (some event))
      (round (persist columns) true (message (some event)) lost).1).1

Run-stored_example : (stored "id" lost.1.rows ≤ 1) × (stored "id" stored_twice.1.rows ≡ 1)
unfolding round restart start_offset deliver finish commit advance persist write_event_pg
    next_contact row_of_event nullable insert_usage has_event stored count_if
Run-stored_example =
    Run-stored columns event "id" refl refl log at_end lost stored_twice 0 1 true (omega arith)
      (restarted_new 0 refl (delivered true (some event) refl started)) refl
      (delivered true (some event) refl started)

abbrev row : UsageRow ℕ
row = record {
  event_id = some "e-1";
  engineer_id = "alice@example.com";
  occurred_at = noon;
  source = "otel_metric";
  metric_name = "claude_code.lines_of_code.count";
  cost_usd = none;
  tokens_input = some (pos 7);
  tokens_output = none;
  tokens_cache_read = none;
  tokens_cache_creation = none;
  model = "";
  raw = [];
}

abbrev stored_row : UsageRow ℕ
stored_row = record {
  event_id = some event.event_id;
  engineer_id = event.engineer_id;
  occurred_at = event.occurred_at;
  source = event.source;
  metric_name = event.metric_name;
  cost_usd = event.cost_usd;
  tokens_input = event.tokens_input;
  tokens_output = event.tokens_output;
  tokens_cache_read = event.tokens_cache_read;
  tokens_cache_creation = event.tokens_cache_creation;
  model = event.model;
  raw = event.raw;
}

made : row_of_event columns event ≡ ok stored_row
unfolding row_of_event nullable
made = refl

written : (write_event_pg columns reached event []).0 ≡ ok tt
unfolding write_event_pg row_of_event nullable
written = refl
