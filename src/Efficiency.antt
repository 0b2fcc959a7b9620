-- ===== src/Efficiency.antt =====
-- internal/service/efficiency.go: the collector's loop with its debounced triggers, and the
-- snapshots of its runs. Only the loop runs the collector, so a run is never skipped for the lock.
pub mod Triggers
pub mod Windows
pub mod Collect
use enterprise_llm_tracker.Base.{
  ℕ, ◌+◌, ◌-◌, ◌*◌, String, Bool, true, false, Option, none, some, List, [], ◌∷◌, ◌++◌, length, ltb,
  ◌==◌, str_eq, if◌then◌else◌,
}
use enterprise_llm_tracker.Base.Act.{Result, ok, err}
use enterprise_llm_tracker.Base.Int.{pos, sub_ℕ, int_lt, wrap_64}
use enterprise_llm_tracker.Clock.{Time, second, days_ago, truncate_to_day}
use enterprise_llm_tracker.Float.{Float}
use enterprise_llm_tracker.Models.{GitHubPr, EfficiencySnapshot}
use enterprise_llm_tracker.Registry.{Engineer}

-- a run of the collector: its source, and the times of its start and its end
pub record Pass : Type 0 where
  pub source : String
  pub start : Time
  pub finish : Time

-- the collector: whether triggerCh, of capacity one, is full, lastRunAt, and the history of its
-- runs, the latest first, which the source only logs
pub record Collector : Type 0 where
  pub queued : Bool
  pub last_run_at : Time
  pub passes : List Pass

-- NewEfficiencyCollector
abbrev pub new_collector : Collector
new_collector = record { queued = false; last_run_at = 0; passes = [] }

-- Trigger
unfoldable pub trigger : Collector → Collector
trigger c = record c { queued = true }

-- the part of runOnce that the loop sees
unfoldable pub run_once : String → Time → Time → Collector → Collector
run_once source start finish c = record c {
  last_run_at = finish;
  passes = record { source = source; start = start; finish = finish } ∷ c.passes;
}

-- the case of a tick in Run
unfoldable pub tick : Time → Time → Collector → Collector
unfolding run_once
tick now finish c = run_once "cron" now finish c

-- the case of a received trigger in Run; the configuration's interval is in seconds, and the
-- debounce a Duration, which wraps
unfoldable pub receive : ℕ → Time → Time → Collector → Collector
unfolding run_once
receive min_trigger_interval_seconds now finish c =
    let drained = record c { queued = false } in
    let debounce = wrap_64 (pos (min_trigger_interval_seconds * second)) in
    if int_lt (sub_ℕ now c.last_run_at) debounce
    then drained
    else run_once "trigger" now finish drained

abbrev pub efficiency_windows : List (String × ℕ)
efficiency_windows = ("1d", 1) ∷ ("7d", 7) ∷ ("30d", 30) ∷ ("180d", 180) ∷ []

-- the loop of WindowForName
unfoldable pub find_window : List (String × ℕ) → String → Time → Option (Time × Time)
unfolding truncate_to_day
find_window [] name now = none
find_window ((window, days) ∷ ws) name now =
    if str_eq window name
    then some (truncate_to_day (days_ago days now), truncate_to_day now)
    else find_window ws name now

unfoldable pub window_for_name : String → Time → Option (Time × Time)
unfolding find_window
window_for_name name now = find_window efficiency_windows name now

unfoldable pub count_reverted : List GitHubPr → ℕ
count_reverted [] = 0
count_reverted (pr ∷ prs) = (if pr.reverted then 1 else 0) + count_reverted prs

module _ {F : Type 0} (fl : Float F) where
  -- the snapshot of one engineer and window in computeSnapshots
  unfoldable pub snapshot_of : String → ℕ → Time → F → List GitHubPr → EfficiencySnapshot F
  unfolding truncate_to_day count_reverted
  snapshot_of email days now cost prs =
      let merged = length prs in
      let reverted = count_reverted prs in
      let effective = merged - reverted in
      record {
        engineer_id = email;
        window_start = truncate_to_day (days_ago days now);
        window_end = truncate_to_day now;
        cost_usd = cost;
        merged_pr_count = pos effective;
        revert_rate =
            if ltb 0 merged
            then fl.div (fl.of_int (pos reverted)) (fl.of_int (pos merged))
            else fl.decimal 0 0;
        dollars_per_merged_pr =
            if ltb 0 effective then fl.div cost (fl.of_int (pos effective)) else fl.decimal 0 0;
        computed_at = now;
      }

  module _ (cost_of : String → Time → Time → Result F)
      (merged_prs_of : String → Time → Result (List GitHubPr)) where
    -- the pull requests of an engineer, of whom only some have a name on GitHub
    unfoldable pub prs_of : Engineer F → Time → Result (List GitHubPr)
    prs_of eng start =
        if str_eq eng.github_username "" then ok [] else merged_prs_of eng.github_username start

    -- the inner loop of computeSnapshots: what is written for one engineer
    unfoldable pub snapshots_of :
        Engineer F → Time → List (String × ℕ) → List (EfficiencySnapshot F)
    snapshots_of eng now [] = []
    snapshots_of eng now ((window, days) ∷ ws) =
        let rest = snapshots_of eng now ws in
        elim (cost_of eng.email (days_ago days now) now) [
          | err _ ↦ rest
          | ok cost ↦ elim (prs_of eng (days_ago days now)) [
            | err _ ↦ rest
            | ok prs ↦ snapshot_of eng.email days now cost prs ∷ rest
          ]
        ]

    -- computeSnapshots: the rows it writes, in order
    unfoldable pub compute_snapshots : Time → List (Engineer F) → List (EfficiencySnapshot F)
    compute_snapshots now [] = []
    compute_snapshots now (eng ∷ engs) =
        snapshots_of eng now efficiency_windows ++ compute_snapshots now engs
