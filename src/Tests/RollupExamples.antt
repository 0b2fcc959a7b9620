-- ===== src/Tests/RollupExamples.antt =====
-- A cohort of three engineers.
use enterprise_llm_tracker.Base.{
  ℕ, ◌+◌, ◌≤◌, String, ◌≡◌, refl, Option, none, some, List, [], ◌∷◌, arith, length,
}
use enterprise_llm_tracker.Base.Act.{ok}
use enterprise_llm_tracker.Base.Int.{pos}
use enterprise_llm_tracker.Clock.{truncate_to_day, days_ago}
use enterprise_llm_tracker.Rollup.{
  EngineerSignal, EngineerRollupAggregates, no_pr_counts, signal_of, cache_ratio, cost_per_kloc,
  cost_per_pr, compute_one, back_fill, median_of, valid_costs, sort_floats, insert_float,
}
use enterprise_llm_tracker.Rollup.Table.{
  is_keyed, to_micros, has_int_counts, find_signal, SignalColumns, to_columns,
  upsert_engineer_signal, Inputs, first_pass, second_pass, upsert_row, run_windows, rollup_once,
}
use enterprise_llm_tracker.Rollup.Table.Rows.{keyed}
use enterprise_llm_tracker.Rollup.Table.Keys.{rollup_once-kept}
use enterprise_llm_tracker.Store.PullRequests.{is_int4}
use enterprise_llm_tracker.Tests.Fakes.{thousandths, noon}
use enterprise_llm_tracker.Tests.ThresholdExamples.{alice}

abbrev costs : List (String × Option ℕ)
costs = ("a", some 9_000) ∷ ("b", none) ∷ ("c", some 4_000) ∷ ("d", some 6_000) ∷ []

median : median_of thousandths (9_000 ∷ 4_000 ∷ 6_000 ∷ []) ≡ 6_000
unfolding median_of sort_floats insert_float
median = refl

abbrev columns : SignalColumns ℕ
columns = record { numeric = λ x. ok x }

abbrev aggregates : EngineerRollupAggregates ℕ
aggregates = record {
  cost_usd = 12_000;
  lines_shipped = pos 400;
  tokens_input = pos 0;
  tokens_output = pos 0;
  tokens_cache_read = pos 0;
  tokens_cache_creation = pos 0;
  model_cost = [];
}

abbrev inputs : Inputs ℕ
inputs = record {
  usage = λ email start end. ok aggregates;
  pr_counts = λ github start end.
      ok (record { opened = pos 3; merged = pos 2; closed_unmerged = pos 0; reverted = pos 0 });
  upsert_fault = λ window email. none;
  peer_fault = λ window email. none;
}

abbrev stored_row : EngineerSignal ℕ
stored_row = signal_of thousandths alice "7d" noon noon noon aggregates no_pr_counts

rollup_once-kept_example :
    (keyed "alice@example.com" "7d" noon
        (rollup_once thousandths columns inputs noon (alice ∷ []) (stored_row ∷ []))
      ≤ 1)
    × (find_signal "alice@example.com" "7d" noon
          (rollup_once thousandths columns inputs noon (alice ∷ []) (stored_row ∷ []))
        ≡ find_signal "alice@example.com" "7d" noon (stored_row ∷ []))
unfolding keyed is_keyed truncate_to_day signal_of
rollup_once-kept_example =
    rollup_once-kept thousandths columns inputs "alice@example.com" "7d" noon noon (alice ∷ [])
      (stored_row ∷ []) (omega arith)

four_rows : length (rollup_once thousandths columns inputs noon (alice ∷ []) []) ≡ 4
unfolding rollup_once run_windows first_pass second_pass back_fill valid_costs compute_one
    upsert_engineer_signal to_columns has_int_counts to_micros is_int4 truncate_to_day signal_of
    cache_ratio cost_per_kloc cost_per_pr upsert_row
four_rows = refl

-- the rollup of the 7 days before noon
abbrev computed_row : EngineerSignal ℕ
computed_row =
    signal_of thousandths alice "7d" (truncate_to_day (days_ago 7 noon)) (truncate_to_day noon)
      (noon + 1_234_567) aggregates no_pr_counts

abbrev kept_row : EngineerSignal ℕ
kept_row = record computed_row { computed_at = noon + 1_234_000 }
