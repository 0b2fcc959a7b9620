-- ===== src/Store/Leaderboard/Latest.antt =====
-- The query of Leaderboard: DISTINCT ON (engineer_id), by the time of the computation, over the rows of
-- efficiency_snapshots. Of rows that were computed at the same time the query may take any; here it is
-- the one inserted last. The collation of the database is a parameter.
pub mod Once
use enterprise_llm_tracker.Base.{
  String, Bool, true, false, not, ◌&&◌, ◌||◌, List, [], ◌∷◌, Option, none, some, map, str_eq, ltb,
  ◌==◌, if◌then◌else◌,
}
use enterprise_llm_tracker.Base.Act.{Result, ok, err}
use enterprise_llm_tracker.Base.Int.{ℤ}
use enterprise_llm_tracker.Clock.{Time}
use enterprise_llm_tracker.Engineers.Detail.{order_by}
use enterprise_llm_tracker.Float.{Float}
use enterprise_llm_tracker.Models.{EfficiencySnapshot}
use enterprise_llm_tracker.Query.{QueryResult, query_failed, rows}
use enterprise_llm_tracker.Store.Leaderboard.{LeaderboardEntry, leaderboard}
use enterprise_llm_tracker.Usage.Queries.{select}

unfoldable pub any {ℓ} : {A : Type ℓ} → (A → Bool) → List A → Bool
any p [] = false
any p (x ∷ xs) = p x || any p xs

module _ {F : Type 0} where
  -- another row of the engineer comes before the row, or at the same place
  unfoldable pub is_later : EfficiencySnapshot F → EfficiencySnapshot F → Bool
  is_later s other = str_eq other.engineer_id s.engineer_id && ltb s.computed_at other.computed_at

  unfoldable pub is_tied : EfficiencySnapshot F → EfficiencySnapshot F → Bool
  is_tied s other = str_eq other.engineer_id s.engineer_id && (other.computed_at == s.computed_at)

  -- the first row of each engineer, among the last of the selected rows `all`
  unfoldable pub distinct_on :
      List (EfficiencySnapshot F) → List (EfficiencySnapshot F) → List (EfficiencySnapshot F)
  unfolding any is_later is_tied
  distinct_on all [] = []
  distinct_on all (s ∷ ss) =
      let rest = distinct_on all ss in
      if any (is_later s) all || any (is_tied s) ss then rest else s ∷ rest

  unfoldable pub in_snapshot_window : Time → Time → EfficiencySnapshot F → Bool
  in_snapshot_window start end s = (s.window_start == start) && (s.window_end == end)

  unfoldable pub entry_of : EfficiencySnapshot F → LeaderboardEntry F
  entry_of s = record {
    engineer_id = s.engineer_id;
    window_start = s.window_start;
    window_end = s.window_end;
    cost_usd = s.cost_usd;
    merged_pr_count = s.merged_pr_count;
    revert_rate = s.revert_rate;
    dollars_per_merged_pr = s.dollars_per_merged_pr;
    computed_at = s.computed_at;
  }

  unfoldable pub query_latest :
      (String → String → Bool)
      → Option String
      → Time
      → Time
      → List (EfficiencySnapshot F)
      → QueryResult (LeaderboardEntry F)
  unfolding distinct_on in_snapshot_window entry_of
  query_latest collates (some e) start end t = query_failed e
  query_latest collates none start end t =
      let selected = select (in_snapshot_window start end) t in
      let latest =
        order_by (λ a b. collates a.engineer_id b.engineer_id) (distinct_on selected selected) in
      rows (map (λ s. ok (entry_of s)) latest) none
