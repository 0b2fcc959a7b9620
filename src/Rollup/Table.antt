-- ===== src/Rollup/Table.antt =====
-- internal/store/signals.go: the engineer_signals table, one row for an engineer, a window and its
-- end, and RunOnce of internal/service/rollup.go on it. A statement may fail for a reason of the
-- connection (`fault`), or because its columns cannot hold a value.
pub mod Rows
pub mod Keys
use Prim.Native.String.{compare}
use enterprise_llm_tracker.Base.{
  ℕ, ◌*◌, ◌/◌, String, Bool, true, false, ◌&&◌, Option, none, some, List, [], ◌∷◌, ◌++◌, ◌==◌,
  str_eq, if◌then◌else◌,
}
use text.Mathlib.Text.{is_le}
use enterprise_llm_tracker.Base.Act.{Result, ok, err}
use enterprise_llm_tracker.Base.Int.{ℤ}
use enterprise_llm_tracker.Clock.{Time, days_ago, truncate_to_day}
use enterprise_llm_tracker.Efficiency.{efficiency_windows}
use enterprise_llm_tracker.Float.{Float}
use enterprise_llm_tracker.Query.{Fault, refused, reply_lost}
use enterprise_llm_tracker.Registry.{Engineer}
use enterprise_llm_tracker.Store.PullRequests.{is_int4}
use enterprise_llm_tracker.Rollup.{
  EngineerSignal, EngineerRollupAggregates, EngineerPrCounts, compute_one, back_fill,
}

-- WHERE engineer_id = $1 AND window_name = $2 AND window_end = $3
unfoldable pub is_keyed : {F : Type 0} → String → String → Time → EngineerSignal F → Bool
is_keyed email window end r =
    str_eq r.engineer_id email && str_eq r.window_name window && (r.window_end == end)

-- INSERT ... ON CONFLICT DO UPDATE SET of every other column
unfoldable pub upsert_row :
    {F : Type 0} → EngineerSignal F → List (EngineerSignal F) → List (EngineerSignal F)
unfolding is_keyed
upsert_row row [] = row ∷ []
upsert_row row (r ∷ rs) =
    let rest = upsert_row row rs in
    if is_keyed row.engineer_id row.window_name row.window_end r then row ∷ rs else r ∷ rest

-- the SET of SetPeerPercentile
unfoldable pub set_peer_rows :
    {F : Type 0}
    → String
    → String
    → Time
    → F
    → ℤ
    → List (EngineerSignal F)
    → List (EngineerSignal F)
unfolding is_keyed
set_peer_rows email window end median percentile [] = []
set_peer_rows email window end median percentile (r ∷ rs) =
    (if is_keyed email window end r
      then record r { team_dollars_per_pr_median = some median; peer_percentile = some percentile }
      else r)
    ∷ set_peer_rows email window end median percentile rs

unfoldable pub find_signal :
    {F : Type 0} → String → String → Time → List (EngineerSignal F) → Option (EngineerSignal F)
find_signal email window end [] = none
find_signal email window end (r ∷ rs) =
    if is_keyed email window end r then some r else find_signal email window end rs

-- WHERE window_name = $1 AND window_end = $2 ORDER BY engineer_id, by bytes as the C collation does
unfoldable pub insert_by_engineer :
    {F : Type 0} → EngineerSignal F → List (EngineerSignal F) → List (EngineerSignal F)
insert_by_engineer x [] = x ∷ []
insert_by_engineer x (y ∷ ys) =
    let rest = insert_by_engineer x ys in
    if is_le (compare x.engineer_id y.engineer_id) then x ∷ y ∷ ys else y ∷ rest

unfoldable pub window_rows :
    {F : Type 0} → String → Time → List (EngineerSignal F) → List (EngineerSignal F)
unfolding insert_by_engineer
window_rows window end [] = []
window_rows window end (r ∷ rs) =
    let rest = window_rows window end rs in
    if str_eq r.window_name window && (r.window_end == end) then insert_by_engineer r rest else rest

-- ListEngineerSignals; the parameter is a DATE, as the column is
unfoldable pub list_engineer_signals :
    {F : Type 0}
    → Option String
    → String
    → Time
    → List (EngineerSignal F)
    → Result (List (EngineerSignal F))
unfolding window_rows truncate_to_day
list_engineer_signals (some e) window end t = err e
list_engineer_signals none window end t = ok (window_rows window (truncate_to_day end) t)

-- GetEngineerSignal; nil is `none`
unfoldable pub get_engineer_signal :
    {F : Type 0}
    → Option String
    → String
    → String
    → Time
    → List (EngineerSignal F)
    → Result (Option (EngineerSignal F))
unfolding truncate_to_day
get_engineer_signal (some e) email window end t = err e
get_engineer_signal none email window end t = ok (find_signal email window (truncate_to_day end) t)

-- an instant as TIMESTAMPTZ holds it, in microseconds
unfoldable pub to_micros : Time → Time
to_micros t = t / 1000 * 1000

-- the counts of a row fit their INT columns
unfoldable pub has_int_counts : {F : Type 0} → EngineerSignal F → Bool
unfolding is_int4
has_int_counts sig =
    is_int4 sig.prs_opened
    && is_int4 sig.prs_merged
    && is_int4 sig.prs_closed_unmerged
    && is_int4 sig.prs_reverted

-- The values that the numeric columns hold of a row, if they can.
pub record SignalColumns (F : Type 0) : Type 0 where
  pub numeric : F → Result F

module _ {F : Type 0} (columns : SignalColumns F) where
  abbrev numeric_given : Option F → Result (Option F)
  numeric_given none = ok none
  numeric_given (some x) = elim (columns.numeric x) [ err e ↦ err e | ok y ↦ ok (some y) ]

  -- The row as it is stored: the window's bounds are DATEs, the counts INTs and the time of the
  -- computation a TIMESTAMPTZ. The rollup gives no median and no percentile.
  unfoldable pub to_columns : EngineerSignal F → Result (EngineerSignal F)
  unfolding has_int_counts to_micros truncate_to_day
  to_columns sig =
      if has_int_counts sig
      then elim (columns.numeric sig.cost_usd) [
        | err e ↦ err e
        | ok cost ↦ elim (numeric_given sig.cache_hit_ratio) [
          | err e ↦ err e
          | ok ratio ↦ elim (numeric_given sig.dollars_per_kloc) [
            | err e ↦ err e
            | ok per_kloc ↦ ok (record sig {
              window_start = truncate_to_day sig.window_start;
              window_end = truncate_to_day sig.window_end;
              cost_usd = cost;
              cache_hit_ratio = ratio;
              dollars_per_kloc = per_kloc;
              computed_at = to_micros sig.computed_at;
            })
          ]
        ]
      ]
      else err "integer out of range"

  -- UpsertEngineerSignal
  unfoldable pub upsert_engineer_signal :
      Option Fault
      → EngineerSignal F
      → List (EngineerSignal F)
      → Result (Unit {0}) × List (EngineerSignal F)
  upsert_engineer_signal (some (refused e)) sig t = (err e, t)
  upsert_engineer_signal (some (reply_lost e)) sig t = elim (to_columns sig) [
    | err _ ↦ (err e, t)
    | ok row ↦ (err e, upsert_row row t)
  ]
  upsert_engineer_signal none sig t = elim (to_columns sig) [
    | err e ↦ (err e, t)
    | ok row ↦ (ok tt, upsert_row row t)
  ]

  -- SetPeerPercentile; the percentile, from 0 to 100, fits its INT
  unfoldable pub set_peer_percentile :
      Option Fault
      → String
      → String
      → Time
      → F
      → ℤ
      → List (EngineerSignal F)
      → List (EngineerSignal F)
  unfolding truncate_to_day
  set_peer_percentile (some (refused e)) email window end median percentile t = t
  set_peer_percentile (some (reply_lost e)) email window end median percentile t =
      elim (columns.numeric median) [
        | err _ ↦ t
        | ok m ↦ set_peer_rows email window (truncate_to_day end) m percentile t
      ]
  set_peer_percentile none email window end median percentile t = elim (columns.numeric median) [
    | err e ↦ t
    | ok m ↦ set_peer_rows email window (truncate_to_day end) m percentile t
  ]

-- what the queries and statements of one run answer, those that write by the window and the
-- engineer's email
pub record Inputs (F : Type 0) : Type 0 where
  pub usage : String → Time → Time → Result (EngineerRollupAggregates F)
  pub pr_counts : String → Time → Time → Result EngineerPrCounts
  pub upsert_fault : String → String → Option Fault
  pub peer_fault : String → String → Option Fault

module _ {F : Type 0} (fl : Float F) (columns : SignalColumns F) (inputs : Inputs F) where
  -- pass 1 for one window: the entries of the cohort, and the table
  unfoldable pub first_pass :
      String
      → Time
      → Time
      → Time
      → List (Engineer F)
      → List (EngineerSignal F)
      → List (String × Option F) × List (EngineerSignal F)
  first_pass window start end now [] t = ([], t)
  first_pass window start end now (eng ∷ engs) t =
      elim (compute_one fl eng window start end now (inputs.usage eng.email start end)
        (inputs.pr_counts eng.github_username start end)) [
          | err e ↦ first_pass window start end now engs t
          | ok (sig, per_pr) ↦
              let fault = inputs.upsert_fault window eng.email in
              let written = (upsert_engineer_signal columns fault sig t).1 in
              let (entries, after) = first_pass window start end now engs written in
              elim (upsert_engineer_signal columns fault sig t).0 [
                | err e ↦ (entries, after)
                | ok _ ↦ ((eng.email, per_pr) ∷ entries, after)
              ]
        ]

  -- pass 2 for one window
  unfoldable pub second_pass :
      String → Time → List (String × F × ℤ) → List (EngineerSignal F) → List (EngineerSignal F)
  second_pass window end [] t = t
  second_pass window end ((email, median, percentile) ∷ us) t = second_pass window end us (
      set_peer_percentile columns (inputs.peer_fault window email) email window end median
        percentile t)

  unfoldable pub run_window :
      Time → List (Engineer F) → String × ℕ → List (EngineerSignal F) → List (EngineerSignal F)
  run_window now engs (window, days) t =
      let end = truncate_to_day now in
      let (entries, written) =
        first_pass window (truncate_to_day (days_ago days now)) end now engs t in
      second_pass window end (back_fill fl entries) written

  -- the loop of RunOnce over the windows
  unfoldable pub run_windows :
      Time
      → List (Engineer F)
      → List (String × ℕ)
      → List (EngineerSignal F)
      → List (EngineerSignal F)
  unfolding run_window
  run_windows now engs [] t = t
  run_windows now engs (w ∷ ws) t = run_windows now engs ws (run_window now engs w t)

  -- RunOnce
  unfoldable pub rollup_once :
      Time → List (Engineer F) → List (EngineerSignal F) → List (EngineerSignal F)
  unfolding run_windows
  rollup_once now engs t = run_windows now engs efficiency_windows t
