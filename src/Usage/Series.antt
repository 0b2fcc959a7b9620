-- ===== src/Usage/Series.antt =====
-- UsageHistory of internal/store/engineers.go, and DailySpendSeries and HourlySpendSeries of signals.go,
-- on the rows of usage_events. A day and an hour are those of UTC.
use enterprise_llm_tracker.Base.{
  ℕ, ◌+◌, ◌*◌, ◌/◌, String, Bool, ◌&&◌, List, [], ◌∷◌, Option, length, ltb, ◌==◌, if◌then◌else◌,
}
use enterprise_llm_tracker.Base.Act.{Result}
use enterprise_llm_tracker.Base.Int.{ℤ, is_pos, pos_part}
use enterprise_llm_tracker.Clock.{Time, day, hour}
use enterprise_llm_tracker.Float.{Float}
use enterprise_llm_tracker.Rollup.{sort_floats}
use enterprise_llm_tracker.Usage.{UsageRow}
use enterprise_llm_tracker.Usage.Queries.{
  select, since_days, costs_of, sum_of, tokens_of, has_cost, answer,
}

pub record DailyUsage (F : Type 0) : Type 0 where
  pub date : Time
  pub cost_usd : F
  pub tokens : ℤ
  pub event_count : ℕ

-- a bucket among those that are there, the latest first
unfoldable pub insert_bucket : ℕ → List ℕ → List ℕ
insert_bucket b [] = b ∷ []
insert_bucket b (c ∷ cs) =
    let rest = insert_bucket b cs in
    if b == c then c ∷ cs else if ltb c b then b ∷ c ∷ cs else c ∷ rest

module _ {F : Type 0} where
  -- the units of time in which rows fall
  unfoldable pub buckets_of : ℕ → List (UsageRow F) → List ℕ
  unfolding insert_bucket
  buckets_of unit [] = []
  buckets_of unit (r ∷ rs) = insert_bucket (r.occurred_at / unit) (buckets_of unit rs)

  unfoldable pub in_bucket : ℕ → ℕ → UsageRow F → Bool
  in_bucket unit b r = r.occurred_at / unit == b

  module _ (fl : Float F) (sum : List F → F) where
    -- the groups of the query by day
    unfoldable pub days_of : List ℕ → List (UsageRow F) → List (DailyUsage F)
    unfolding in_bucket
    days_of [] rows = []
    days_of (d ∷ ds) rows =
        let group = select (in_bucket day d) rows in
        record {
          date = d * day;
          cost_usd = sum (costs_of group);
          tokens = sum_of tokens_of group;
          event_count = length group;
        }
        ∷ days_of ds rows

    unfoldable pub usage_history :
        Option String → String → ℤ → Time → List (UsageRow F) → Result (List (DailyUsage F))
    unfolding days_of buckets_of
    usage_history fault email days now rows =
        let n = if is_pos days then pos_part days else 30 in
        let selected = select (since_days email n now) rows in
        answer fault (days_of (buckets_of day selected) selected)

    unfoldable pub hour_costs : List ℕ → List (UsageRow F) → List F
    unfolding in_bucket
    hour_costs [] rows = []
    hour_costs (h ∷ hs) rows = sum (costs_of (select (in_bucket hour h) rows)) ∷ hour_costs hs rows

    -- a negative number of days reaches into the future
    unfoldable pub since_signed : String → ℤ → Time → UsageRow F → Bool
    unfolding since_days
    since_signed email (ℤ.pos n) now r = since_days email n now r
    since_signed email (ℤ.negsuc n) now r = since_days email 0 (now + (n + 1) * day) r

    unfoldable pub hourly_spend_series :
        Option String → String → ℤ → Time → List (UsageRow F) → Result (List F)
    unfolding hour_costs buckets_of since_signed
    hourly_spend_series fault email days now rows =
        let selected = select (λ r. since_signed email days now r && has_cost r) rows in
        answer fault (sort_floats fl (hour_costs (buckets_of hour selected) selected))
