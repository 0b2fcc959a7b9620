-- ===== src/Usage/Queries.antt =====
-- The queries on usage_events of internal/store/github.go, signals.go and engineers.go, and the
-- loops over their rows. A query answers its rows or the error of its connection.
use enterprise_llm_tracker.Base.{
  ℕ, zero, suc, ◌+◌, ◌*◌, ◌-◌, ◌/◌, ◌%◌, String, Bool, true, false, ◌&&◌, ◌||◌, Option, none, some,
  List, [], ◌∷◌, str_eq, if◌then◌else◌, ltb, leb, ◌==◌, take, count_if,
}
use mathlib.Core.List.{reverse}
use enterprise_llm_tracker.Base.Act.{Result, ok, err}
use enterprise_llm_tracker.Base.Dict.{Dict, insert}
use enterprise_llm_tracker.Base.Int.{ℤ, pos, ◌+ℤ◌}
use enterprise_llm_tracker.Clock.{Time, day, hour}
use enterprise_llm_tracker.Float.{Float}
use enterprise_llm_tracker.Rollup.{EngineerRollupAggregates}
use enterprise_llm_tracker.Usage.{UsageRow}

unfoldable pub select {ℓ} : {A : Type ℓ} → (A → Bool) → List A → List A
select p [] = []
select p (r ∷ rs) = let rest = select p rs in if p r then r ∷ rest else rest

-- NULL adds nothing
unfoldable pub add_column : Option ℤ → ℤ → ℤ
add_column none rest = rest
add_column (some n) rest = n +ℤ rest

abbrev or_zero : Option ℤ → ℤ
or_zero none = pos 0
or_zero (some n) = n

-- the loop of HourOfDayDistribution: the counts by hour, and the total
unfoldable pub fill_hours : (ℕ → ℕ) × ℕ → List (ℕ × ℕ) → (ℕ → ℕ) × ℕ
fill_hours filled [] = filled
fill_hours (counts, total) ((h, n) ∷ groups) =
    let taken : (ℕ → ℕ) × ℕ = ((λ k. if k == h then n else counts k), total + n) in
    fill_hours (if ltb h 24 then taken else (counts, total)) groups

module _ {F : Type 0} where
  -- WHERE engineer_id = $1 AND occurred_at >= $2 AND occurred_at < $3
  unfoldable pub in_window : String → Time → Time → UsageRow F → Bool
  in_window email start end r =
      str_eq r.engineer_id email && leb start r.occurred_at && ltb r.occurred_at end

  -- WHERE engineer_id = $1 AND occurred_at >= NOW() - days
  unfoldable pub since_days : String → ℕ → Time → UsageRow F → Bool
  since_days email days now r = str_eq r.engineer_id email && leb (now - days * day) r.occurred_at

  unfoldable pub costs_of : List (UsageRow F) → List F
  costs_of [] = []
  costs_of (r ∷ rs) =
      let rest = costs_of rs in elim r.cost_usd [ none ↦ rest | some cost ↦ cost ∷ rest ]

  -- COALESCE(SUM(column), 0)
  unfoldable pub sum_of : (UsageRow F → Option ℤ) → List (UsageRow F) → ℤ
  sum_of column [] = pos 0
  sum_of column (r ∷ rs) = add_column (column r) (sum_of column rs)

  -- the sum of the four columns of one row, each COALESCE(column, 0)
  unfoldable pub tokens_of : UsageRow F → Option ℤ
  tokens_of r = some (
      or_zero r.tokens_input
      +ℤ or_zero r.tokens_output
      +ℤ or_zero r.tokens_cache_read
      +ℤ or_zero r.tokens_cache_creation)

  -- COALESCE(NULLIF(model, ''), 'unknown')
  unfoldable pub model_of : UsageRow F → String
  model_of r = if str_eq r.model "" then "unknown" else r.model

  unfoldable pub has_cost : UsageRow F → Bool
  has_cost r = elim r.cost_usd [ none ↦ false | some cost ↦ true ]

  unfoldable pub is_lines : UsageRow F → Bool
  is_lines r = str_eq r.metric_name "claude_code.lines_of_code.count"

  -- EXTRACT(HOUR FROM occurred_at AT TIME ZONE 'UTC')
  unfoldable pub hour_of_row : UsageRow F → ℕ
  hour_of_row r = r.occurred_at % day / hour

  -- the loop over the groups, by the model of one row after another
  unfoldable pub group_by_model : (List F → F) → List (UsageRow F) → List (UsageRow F) → Dict F
  group_by_model sum rows [] = []
  group_by_model sum rows (r ∷ rs) =
      let of_model = select (λ q. str_eq (model_of q) (model_of r)) rows in
      insert (model_of r) (sum (costs_of of_model)) (group_by_model sum rows rs)

  -- GROUP BY h: the hours below the bound that have rows, with their counts
  unfoldable pub group_by_hour : ℕ → List (UsageRow F) → List (ℕ × ℕ)
  group_by_hour zero rows = []
  group_by_hour (suc h) rows =
      let n = count_if (λ r. hour_of_row r == h) rows in
      let rest = group_by_hour h rows in if ltb 0 n then (h, n) ∷ rest else rest

  -- ORDER BY id DESC LIMIT $1
  unfoldable pub recent_rows : ℕ → List (UsageRow F) → List (UsageRow F)
  recent_rows limit rows = take limit (reverse rows)

-- the limit of ListRecentEvents
unfoldable pub recent_limit : ℤ → ℕ
recent_limit (pos n) = if (n == 0) || ltb 1000 n then 100 else n
recent_limit _ = 100

-- An answer of the server, if the connection has no fault.
unfoldable pub answer {ℓ} : {A : Type ℓ} → Option String → A → Result A
answer none a = ok a
answer (some e) a = err e

module _ {F : Type 0} (fl : Float F) (sum : List F → F) where
  -- CostForEngineerWindow; `sum` is SUM of NUMERIC, read as a float64
  unfoldable pub cost_for_engineer_window :
      Option String → String → Time → Time → List (UsageRow F) → Result F
  cost_for_engineer_window fault email start end rows =
      answer fault (sum (costs_of (select (in_window email start end) rows)))

  -- the sums of EngineerUsageAggregate with the lines and the costs by model
  unfoldable pub aggregates_of : List (UsageRow F) → ℤ → Dict F → EngineerRollupAggregates F
  aggregates_of rows lines model_cost = record {
    cost_usd = sum (costs_of rows);
    lines_shipped = lines;
    tokens_input = sum_of (λ r. r.tokens_input) rows;
    tokens_output = sum_of (λ r. r.tokens_output) rows;
    tokens_cache_read = sum_of (λ r. r.tokens_cache_read) rows;
    tokens_cache_creation = sum_of (λ r. r.tokens_cache_creation) rows;
    model_cost = model_cost;
  }

  -- EngineerUsageAggregate, whose three queries may fail; without its answer, no lines are counted
  unfoldable pub engineer_usage_aggregate :
      Option String
      → Option String
      → Option String
      → String
      → Time
      → Time
      → List (UsageRow F)
      → Result (EngineerRollupAggregates F)
  engineer_usage_aggregate (some e) lines_fault models_fault email start end rows = err e
  engineer_usage_aggregate none lines_fault models_fault email start end rows =
      let found = select (in_window email start end) rows in
      let lines : ℤ = elim lines_fault [ none ↦ pos (count_if is_lines found) | some e ↦ pos 0 ] in
      let priced = select has_cost found in
      elim models_fault [
        | some e ↦ err e
        | none ↦ ok (aggregates_of found lines (group_by_model sum priced priced))
      ]

  -- HourOfDayDistribution: the fractions by hour
  unfoldable pub hour_of_day_distribution :
      Option String → String → ℕ → Time → List (UsageRow F) → Result (ℕ → F)
  hour_of_day_distribution (some e) email days now rows = err e
  hour_of_day_distribution none email days now rows =
      let groups = group_by_hour 24 (select (since_days email days now) rows) in
      let (counts, total) = fill_hours ((λ k. 0), 0) groups in
      ok (
        if total == 0
        then (λ k. fl.decimal 0 0)
        else (λ k. fl.div (fl.of_int (pos (counts k))) (fl.of_int (pos total))))

-- ListRecentEvents
unfoldable pub list_recent_events :
    {F : Type 0} → Option String → ℤ → List (UsageRow F) → Result (List (UsageRow F))
unfolding recent_limit
list_recent_events fault limit rows = answer fault (recent_rows (recent_limit limit) rows)
