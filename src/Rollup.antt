-- ===== src/Rollup.antt =====
-- internal/service/rollup.go: the nightly efficiency figures of one window, from what the queries and
-- the upserts of each engineer yield. A map of costs per model is a dictionary.
pub mod Ranks
pub mod Table
use enterprise_llm_tracker.Base.{
  ℕ, ◌+◌, ◌-◌, ◌/◌, ◌%◌, String, Bool, true, false, Option, none, some, List, [], ◌∷◌, length,
  get_or, count_if, map, ltb, ◌==◌, str_eq, if◌then◌else◌,
}
use enterprise_llm_tracker.Base.Act.{Result, ok, err}
use enterprise_llm_tracker.Base.Dict.{Dict}
use enterprise_llm_tracker.Base.Int.{ℤ, pos, is_pos, int_lt, add_int, sub_int}
use enterprise_llm_tracker.Clock.{Time}
use enterprise_llm_tracker.Float.{Float}
use enterprise_llm_tracker.Registry.{Engineer}

pub record EngineerSignal (F : Type 0) : Type 0 where
  pub engineer_id : String
  pub window_name : String
  pub window_start : Time
  pub window_end : Time
  pub prs_opened : ℤ
  pub prs_merged : ℤ
  pub prs_closed_unmerged : ℤ
  pub prs_reverted : ℤ
  pub cost_usd : F
  pub lines_shipped : ℤ
  pub cache_hit_ratio : Option F
  pub dollars_per_kloc : Option F
  pub model_mix : Dict F
  pub team_dollars_per_pr_median : Option F
  pub peer_percentile : Option ℤ
  pub computed_at : Time

pub record EngineerRollupAggregates (F : Type 0) : Type 0 where
  pub cost_usd : F
  pub lines_shipped : ℤ
  pub tokens_input : ℤ
  pub tokens_output : ℤ
  pub tokens_cache_read : ℤ
  pub tokens_cache_creation : ℤ
  pub model_cost : Dict F

pub record EngineerPrCounts : Type 0 where
  pub opened : ℤ
  pub merged : ℤ
  pub closed_unmerged : ℤ
  pub reverted : ℤ

abbrev pub no_pr_counts : EngineerPrCounts
no_pr_counts = record { opened = pos 0; merged = pos 0; closed_unmerged = pos 0; reverted = pos 0 }

module _ {F : Type 0} (fl : Float F) where
  -- modelMixFractions
  unfoldable pub model_mix_fractions : Dict F → F → Dict F
  model_mix_fractions by_model total =
      if fl.le total (fl.decimal 0 0)
      then []
      else map (λ entry. (entry.0, fl.div entry.1 total)) by_model

  unfoldable pub cache_ratio : EngineerRollupAggregates F → Option F
  cache_ratio agg =
      let total = add_int agg.tokens_cache_read agg.tokens_cache_creation in
      if is_pos total
      then some (fl.div (fl.of_int agg.tokens_cache_read) (fl.of_int total))
      else none

  unfoldable pub cost_per_kloc : EngineerRollupAggregates F → Option F
  cost_per_kloc agg =
      if int_lt agg.lines_shipped (pos 100)
      then none
      else some (fl.div agg.cost_usd (fl.div (fl.of_int agg.lines_shipped) (fl.decimal 10000 1)))

  unfoldable pub cost_per_pr : EngineerRollupAggregates F → EngineerPrCounts → Option F
  cost_per_pr agg counts =
      let effective = sub_int counts.merged counts.reverted in
      if is_pos effective then some (fl.div agg.cost_usd (fl.of_int effective)) else none

  unfoldable pub signal_of :
      Engineer F
      → String
      → Time
      → Time
      → Time
      → EngineerRollupAggregates F
      → EngineerPrCounts
      → EngineerSignal F
  signal_of eng window_name start end now agg counts = record {
    engineer_id = eng.email;
    window_name = window_name;
    window_start = start;
    window_end = end;
    prs_opened = counts.opened;
    prs_merged = counts.merged;
    prs_closed_unmerged = counts.closed_unmerged;
    prs_reverted = counts.reverted;
    cost_usd = agg.cost_usd;
    lines_shipped = agg.lines_shipped;
    cache_hit_ratio = cache_ratio agg;
    dollars_per_kloc = cost_per_kloc agg;
    model_mix = model_mix_fractions agg.model_cost agg.cost_usd;
    team_dollars_per_pr_median = none;
    peer_percentile = none;
    computed_at = now;
  }

  -- computeOne, on the results of its two queries; `none` stands for ok == false
  unfoldable pub compute_one :
      Engineer F
      → String
      → Time
      → Time
      → Time
      → Result (EngineerRollupAggregates F)
      → Result EngineerPrCounts
      → Result (EngineerSignal F × Option F)
  compute_one eng window_name start end now (err e) counts = err e
  compute_one eng window_name start end now (ok agg) (err e) =
      if str_eq eng.github_username ""
      then ok
          (signal_of eng window_name start end now agg no_pr_counts, cost_per_pr agg no_pr_counts)
      else err e
  compute_one eng window_name start end now (ok agg) (ok counts) =
      let used = if str_eq eng.github_username "" then no_pr_counts else counts in
      ok (signal_of eng window_name start end now agg used, cost_per_pr agg used)

  -- sort.Float64s
  unfoldable pub insert_float : F → List F → List F
  insert_float x [] = x ∷ []
  insert_float x (y ∷ ys) =
      let rest = insert_float x ys in if fl.lt y x then y ∷ rest else x ∷ y ∷ ys

  unfoldable pub sort_floats : List F → List F
  unfolding insert_float
  sort_floats [] = []
  sort_floats (x ∷ xs) = insert_float x (sort_floats xs)

  unfoldable pub median_of : List F → F
  median_of xs =
      let cp = sort_floats xs in
      let mid = length cp / 2 in
      if length xs == 0
      then fl.decimal 0 0
      else if length cp % 2 == 1
      then get_or cp mid (fl.decimal 0 0)
      else fl.div (fl.add (get_or cp (mid - 1) (fl.decimal 0 0)) (get_or cp mid (fl.decimal 0 0)))
          (fl.decimal 2 0)

  -- the loop of percentileRank
  unfoldable pub at_or_above : F → List F → ℕ
  unfolding count_if
  at_or_above value cohort = count_if (λ v. fl.le value v) cohort

  unfoldable pub percentile_rank : List F → F → ℤ
  percentile_rank cohort value =
      if length cohort == 0
      then pos 0
      else fl.to_int (
          fl.div (fl.mul (fl.of_int (pos (at_or_above value cohort))) (fl.decimal 1000 1))
            (fl.of_int (pos (length cohort))))

  -- the costs per pull request of the entries for which it is defined
  unfoldable pub valid_costs : List (String × Option F) → List F
  valid_costs [] = []
  valid_costs ((email, none) ∷ ds) = valid_costs ds
  valid_costs ((email, some d) ∷ ds) = d ∷ valid_costs ds

  -- the second loop of pass 2: the email, the median and the percentile of each update
  unfoldable pub updates_of : List F → List (String × Option F) → List (String × F × ℤ)
  updates_of valid [] = []
  updates_of valid ((email, none) ∷ ds) = updates_of valid ds
  updates_of valid ((email, some d) ∷ ds) =
      (email, median_of valid, percentile_rank valid d) ∷ updates_of valid ds

  -- pass 2 of RunOnce
  unfoldable pub back_fill : List (String × Option F) → List (String × F × ℤ)
  back_fill ds = if ltb (length (valid_costs ds)) 3 then [] else updates_of (valid_costs ds) ds
