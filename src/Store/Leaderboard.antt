-- ===== src/Store/Leaderboard.antt =====
-- The leaderboard of internal/store/github.go: the latest snapshots of a window, by cost per merged
-- pull request.
pub mod Sorted
pub mod Latest
use enterprise_llm_tracker.Base.{
  ℕ, String, Bool, true, false, ◌&&◌, List, [], ◌∷◌, ltb, length, take, if◌then◌else◌,
}
use enterprise_llm_tracker.Base.Act.{Result, ok, err}
use enterprise_llm_tracker.Base.Int.{ℤ, pos, pos_part, is_pos, int_eq}
use enterprise_llm_tracker.Clock.{Time}
use enterprise_llm_tracker.Float.{Float}
use enterprise_llm_tracker.Query.{QueryResult, collect}

pub record LeaderboardEntry (F : Type 0) : Type 0 where
  pub engineer_id : String
  pub window_start : Time
  pub window_end : Time
  pub cost_usd : F
  pub merged_pr_count : ℤ
  pub revert_rate : F
  pub dollars_per_merged_pr : F
  pub computed_at : Time

module _ {F : Type 0} (fl : Float F) where
  -- lessLB
  unfoldable pub less_lb : LeaderboardEntry F → LeaderboardEntry F → Bool
  less_lb a b =
      if int_eq a.merged_pr_count (pos 0) && is_pos b.merged_pr_count
      then false
      else if is_pos a.merged_pr_count && int_eq b.merged_pr_count (pos 0)
      then true
      else fl.lt a.dollars_per_merged_pr b.dollars_per_merged_pr

  -- the inner loop: `e` stands at index j, `before` are the entries below j, the nearest first
  unfoldable pub sink : LeaderboardEntry F → List (LeaderboardEntry F) → List (LeaderboardEntry F)
  sink e [] = e ∷ []
  sink e (p ∷ before) =
      let swapped = sink e before in if less_lb e p then p ∷ swapped else e ∷ p ∷ before

  -- the outer loop: `done` are the entries below i, the nearest first
  unfoldable pub sort_from :
      List (LeaderboardEntry F) → List (LeaderboardEntry F) → List (LeaderboardEntry F)
  unfolding sink
  sort_from done [] = done
  sort_from done (e ∷ es) = sort_from (sink e done) es

  -- `xs` from its end, then `acc`: the slice that the two loops leave
  unfoldable pub onto :
      List (LeaderboardEntry F) → List (LeaderboardEntry F) → List (LeaderboardEntry F)
  onto [] acc = acc
  onto (x ∷ xs) acc = onto xs (x ∷ acc)

  -- sortLeaderboard
  unfoldable pub sort_leaderboard : List (LeaderboardEntry F) → List (LeaderboardEntry F)
  unfolding sort_from onto
  sort_leaderboard es = onto (sort_from [] es) []

  -- `if limit <= 0 { limit = 100 }`
  unfoldable pub limit_or_default : ℤ → ℕ
  limit_or_default limit = if is_pos limit then pos_part limit else 100

  unfoldable pub cut_to :
      ℕ → Result (List (LeaderboardEntry F)) → Result (List (LeaderboardEntry F))
  cut_to limit (err e) = err e
  cut_to limit (ok es) =
      let sorted = sort_leaderboard es in
      ok (if ltb limit (length sorted) then take limit sorted else sorted)

  -- Leaderboard, on what its query yields
  unfoldable pub leaderboard :
      QueryResult (LeaderboardEntry F) → ℤ → Result (List (LeaderboardEntry F))
  unfolding collect
  leaderboard q limit = cut_to (limit_or_default limit) (collect q)
