-- ===== src/Tests/ReportExamples.antt =====
-- Reverts and the leaderboard at concrete inputs.
use mathlib.Core.List.{Memᴰ, Perm}
use enterprise_llm_tracker.Base.{
  ℕ, ◌-◌, ◌≤◌, ◌≡◌, refl, String, false, none, some, List, [], ◌∷◌, ◌++◌, All, map, length,
}
use enterprise_llm_tracker.Base.Act.{ok}
use enterprise_llm_tracker.Base.Int.{pos}
use enterprise_llm_tracker.Clock.{Time, hour}
use enterprise_llm_tracker.Models.{GitHubPr}
use enterprise_llm_tracker.Query.{QueryResult, rows, collect}
use enterprise_llm_tracker.Reverts.{detect_reverts}
use enterprise_llm_tracker.Reverts.Candidates.{IsFinding}
use enterprise_llm_tracker.Reverts.Sound.{detect_reverts-IsFinding}
use enterprise_llm_tracker.Store.Leaderboard.{LeaderboardEntry, leaderboard, limit_or_default}
use enterprise_llm_tracker.Engineers.Detail.{order_by, insert_by}
use enterprise_llm_tracker.Models.{EfficiencySnapshot}
use enterprise_llm_tracker.Query.{scan_list}
use enterprise_llm_tracker.Store.Leaderboard.{
  cut_to, sort_leaderboard, sort_from, sink, less_lb, onto,
}
use enterprise_llm_tracker.Store.Leaderboard.Latest.{
  any, is_later, is_tied, distinct_on, in_snapshot_window, entry_of, query_latest,
}
use enterprise_llm_tracker.Store.Leaderboard.Latest.Once.{is_newer, leaderboard_once}
use enterprise_llm_tracker.Usage.Queries.{select}
use enterprise_llm_tracker.Base.{true, count_if, str_eq}
use enterprise_llm_tracker.Store.Leaderboard.Sorted.{IsRanked, leaderboard_best}
use enterprise_llm_tracker.Tests.Fakes.{thousandths, thousandths-IsOrdered, noon}

abbrev pub pr : ℕ → String → Time → GitHubPr
pr number title at = record {
  engineer_github = "alice-gh";
  repo = "acme/app";
  pr_number = pos number;
  title = title;
  state = "MERGED";
  created_at = at;
  merged_at = some at;
  review_count = pos 1;
  files_changed = pos 1;
  files = "main.go" ∷ [];
  reverted = false;
  reverted_at = none;
  last_synced_at = noon;
}

abbrev pub prs : List GitHubPr
prs = pr 1 "Add cache" (noon - hour) ∷ pr 2 "Revert \"Add cache\"" noon ∷ []

detect_reverts-IsFinding_example :
    All
      (λ f. (revert : GitHubPr) × Memᴰ revert prs × IsFinding prs revert f)
      (detect_reverts thousandths prs)
detect_reverts-IsFinding_example = detect_reverts-IsFinding thousandths prs

abbrev entry : String → ℕ → ℕ → LeaderboardEntry ℕ
entry id merged dollars = record {
  engineer_id = id;
  window_start = 0;
  window_end = noon;
  cost_usd = 5_000;
  merged_pr_count = pos merged;
  revert_rate = 0;
  dollars_per_merged_pr = dollars;
  computed_at = noon;
}

abbrev entries : List (LeaderboardEntry ℕ)
entries = entry "a" 0 0 ∷ entry "b" 2 4_000 ∷ entry "c" 1 3_000 ∷ []

abbrev read : QueryResult (LeaderboardEntry ℕ)
read = rows (map ok entries) none

leaderboard_best_example :
    (best rest : List (LeaderboardEntry ℕ)) × (leaderboard thousandths read (pos 2) ≡ ok best)
    × (length best ≤ limit_or_default thousandths (pos 2))
    × IsRanked thousandths (best ++ rest)
    × Perm (best ++ rest) entries
unfolding collect
leaderboard_best_example =
    leaderboard_best thousandths thousandths-IsOrdered read (pos 2) entries refl
      (refl, (refl, (refl, tt)))

abbrev snapshot : String → ℕ → Time → EfficiencySnapshot ℕ
snapshot email cost at = record {
  engineer_id = email;
  window_start = 0;
  window_end = noon;
  cost_usd = cost;
  merged_pr_count = pos 1;
  revert_rate = 0;
  dollars_per_merged_pr = cost;
  computed_at = at;
}

abbrev snapshots : List (EfficiencySnapshot ℕ)
snapshots = snapshot "a@x.io" 9_000 1 ∷ snapshot "b@x.io" 5_000 1 ∷ snapshot "a@x.io" 7_000 2 ∷ []

abbrev ranked : List (LeaderboardEntry ℕ)
ranked = entry_of (snapshot "b@x.io" 5_000 1) ∷ entry_of (snapshot "a@x.io" 7_000 2) ∷ []

latest_ranked :
    leaderboard thousandths (query_latest (λ a b. true) none 0 noon snapshots) (pos 10) ≡ ok ranked
unfolding leaderboard cut_to limit_or_default sort_leaderboard sort_from sink less_lb onto collect
    scan_list query_latest distinct_on any is_later is_tied select in_snapshot_window order_by
    insert_by
latest_ranked = refl

leaderboard_once_example :
    (count_if (λ (e : LeaderboardEntry ℕ). str_eq e.engineer_id "a@x.io") ranked ≤ 1)
    × (count_if
          (λ (e : LeaderboardEntry ℕ).
            any (is_newer e) (select (in_snapshot_window 0 noon) snapshots))
          ranked
        ≡ 0)
leaderboard_once_example =
    leaderboard_once thousandths (λ a b. true) 0 noon snapshots "a@x.io" (pos 10) ranked
      latest_ranked
