-- ===== src/Efficiency/Windows.antt =====
-- The windows of the snapshots, and the ones the leaderboard asks for.
use enterprise_llm_tracker.Base.{String, ◌≡◌, sym, Option, some, List, All, arith}
use enterprise_llm_tracker.Clock.{Time, truncate_to_day, days_ago}
use enterprise_llm_tracker.Efficiency.{
  efficiency_windows, find_window, window_for_name, snapshot_of,
}
use enterprise_llm_tracker.Float.{Float}
use enterprise_llm_tracker.Models.{GitHubPr}

-- the windows are short, so the number of days is a numeral in each case
module _ (t u : Time) (same : truncate_to_day t ≡ truncate_to_day u) where
  one_day : truncate_to_day (days_ago 1 t) ≡ truncate_to_day (days_ago 1 u)
  unfolding truncate_to_day
  one_day = omega (arith, same)

  one_week : truncate_to_day (days_ago 7 t) ≡ truncate_to_day (days_ago 7 u)
  unfolding truncate_to_day
  one_week = omega (arith, same)

  thirty_days : truncate_to_day (days_ago 30 t) ≡ truncate_to_day (days_ago 30 u)
  unfolding truncate_to_day
  thirty_days = omega (arith, same)

  half_year : truncate_to_day (days_ago 180 t) ≡ truncate_to_day (days_ago 180 u)
  unfolding truncate_to_day
  half_year = omega (arith, same)

module _ {F : Type 0} (fl : Float F) where
  -- On the day of a run, each window's name resolves to the very start and end under which the run
  -- stored that window's snapshots.
  pub window_for_name-snapshot :
      (email : String) (run asked : Time) (cost : F) (prs : List GitHubPr)
      → truncate_to_day run ≡ truncate_to_day asked
      → All
          (λ w.
            let snap = snapshot_of fl email w.1 run cost prs in
            window_for_name w.0 asked ≡ some (snap.window_start, snap.window_end))
          efficiency_windows
  unfolding window_for_name find_window snapshot_of
  window_for_name-snapshot email run asked cost prs same = (
    resolved (one_day asked run (sym same)),
    (
      resolved (one_week asked run (sym same)),
      (
        resolved (thirty_days asked run (sym same)),
        (resolved (half_year asked run (sym same)), tt),
      ),
    ),
  )
    where
      resolved :
          {start end : Time}
          → start ≡ end
          → ◌≡◌ {A = Option (Time × Time)}
              (some (start, truncate_to_day asked))
              (some (end, truncate_to_day run))
      resolved h = λ i. some (h i, sym same i)
