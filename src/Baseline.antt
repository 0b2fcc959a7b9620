-- ===== src/Baseline.antt =====
-- internal/service/baseline.go, with SaveBaseline of internal/store/signals.go: the baselines of the
-- engineers, rebuilt from usage_events and kept in a hash of Redis for each. math.Ceil, the exact sum
-- of NUMERIC and the format of a float64 in a Redis command are parameters. Validate makes the windows
-- positive; a window of less than a day is none.
pub mod Sampled
pub mod Saved
pub mod Isolated
use enterprise_llm_tracker.Base.{
  ℕ, zero, suc, ◌+◌, ◌-◌, ◌*◌, ◌/◌, String, Bool, true, false, not, List, [], ◌∷◌, Option, none,
  some, length, map, get_or, ltb, leb, ◌==◌, if◌then◌else◌,
}
use enterprise_llm_tracker.Base.Act.{Result, ok, err}
use enterprise_llm_tracker.Base.Dict.{Dict, lookup, insert}
use enterprise_llm_tracker.Base.Format.{concat, show_nat, show_int}
use enterprise_llm_tracker.Base.Int.{ℤ, pos, pos_part, sub_int, int_lt}
use enterprise_llm_tracker.Clock.{Time, day, hour}
use enterprise_llm_tracker.Config.{SignalsConfig}
use enterprise_llm_tracker.Float.{Float}
use enterprise_llm_tracker.Models.{EngineerBaseline}
use enterprise_llm_tracker.Registry.{Engineer}
use enterprise_llm_tracker.Rollup.{sort_floats}
use enterprise_llm_tracker.Store.Signals.{baseline_of_hash}
use enterprise_llm_tracker.Usage.{UsageRow}
use enterprise_llm_tracker.Usage.Queries.{hour_of_day_distribution}
use enterprise_llm_tracker.Usage.Series.{DailyUsage, usage_history, hourly_spend_series}

-- costs[i] = x, within the slice
unfoldable pub set_at : {A : Type 0} → ℕ → A → List A → List A
set_at i x [] = []
set_at zero x (y ∷ ys) = x ∷ ys
set_at (suc i) x (y ∷ ys) = y ∷ set_at i x ys

-- int(time.Since(date).Hours() / 24), if that is not negative
unfoldable pub days_since : Time → Time → Option ℕ
days_since date now =
    if leb date now
    then some ((now - date) / day)
    else if ltb (date - now) day
    then some 0
    else none

unfoldable pub zeros_of : {A : Type 0} → A → ℕ → List A
zeros_of z zero = []
zeros_of z (suc n) = z ∷ zeros_of z n

module _ {F : Type 0} (fl : Float F) where
  -- the loops of meanStddev
  unfoldable pub add_all : F → List F → F
  add_all sum [] = sum
  add_all sum (x ∷ xs) = add_all (fl.add sum x) xs

  unfoldable pub add_squares : F → F → List F → F
  add_squares mean ss [] = ss
  add_squares mean ss (x ∷ xs) =
      let d = fl.sub x mean in add_squares mean (fl.add ss (fl.mul d d)) xs

  unfoldable pub mean_stddev : List F → F × F
  unfolding add_all add_squares
  mean_stddev [] = (fl.decimal 0 0, fl.decimal 0 0)
  mean_stddev (x ∷ xs) =
      let n = fl.of_int (pos (length (x ∷ xs))) in
      let mean = fl.div (add_all (fl.decimal 0 0) (x ∷ xs)) n in
      (mean, fl.sqrt (fl.div (add_squares mean (fl.decimal 0 0) (x ∷ xs)) n))

  -- the loop of computeBaseline that fills the window
  unfoldable pub fill_costs : Time → List (DailyUsage F) → List F → List F
  unfolding set_at days_since
  fill_costs now [] costs = costs
  fill_costs now (d ∷ ds) costs = elim (days_since d.date now) [
    | none ↦ fill_costs now ds costs
    | some ago ↦ fill_costs now ds (set_at ago d.cost_usd costs)
  ]

module _ {F : Type 0} (fl : Float F) (ceil : F → F) where
  -- the index of percentile, clamped to the slice
  unfoldable pub rank_index : F → ℕ → ℕ
  rank_index p n =
      let idx = sub_int (fl.to_int (ceil (fl.mul p (fl.of_int (pos n))))) (pos 1) in
      let low = pos_part idx in if leb n low then n - 1 else low

  unfoldable pub percentile_of : List F → F → F
  unfolding rank_index sort_floats
  percentile_of [] p = fl.decimal 0 0
  percentile_of (x ∷ xs) p =
      let sorted = sort_floats fl (x ∷ xs) in
      let n = length sorted in
      if fl.le p (fl.decimal 0 0)
      then get_or sorted 0 (fl.decimal 0 0)
      else if fl.le (fl.decimal 1 0) p
      then get_or sorted (n - 1) (fl.decimal 0 0)
      else get_or sorted (rank_index p n) (fl.decimal 0 0)

module _ {F : Type 0} (show : F → String) where
  -- the fields of the hash that SaveBaseline sets
  unfoldable pub hour_fields : (ℕ → F) → ℕ → Dict String
  unfolding concat show_nat
  hour_fields dist zero = []
  hour_fields dist (suc n) = (concat ("h" ∷ show_nat n ∷ []), show (dist n)) ∷ hour_fields dist n

  unfoldable pub baseline_fields : EngineerBaseline F → String → Dict String
  unfolding hour_fields show_int
  baseline_fields b rebuilt_at =
      ("daily_mean", show b.daily_mean)
      ∷ ("daily_stddev", show b.daily_stddev)
      ∷ ("hourly_p95", show b.hourly_p95)
      ∷ ("active_days", show_int b.active_days)
      ∷ ("rebuilt_at", rebuilt_at)
      ∷ hour_fields b.hour_distribution 24

-- HSET of one field after another
unfoldable pub hset_all : Dict String → Dict String → Dict String
unfolding insert
hset_all [] h = h
hset_all ((field, value) ∷ fields) h = hset_all fields (insert field value h)

-- a hash and when it expires, for each engineer who has one
abbrev pub Baselines : Type 0
Baselines = Dict (Dict String × Time)

abbrev pub held_hash : Time → Option (Dict String × Time) → Dict String
held_hash now none = []
held_hash now (some (h, expiry)) = if leb expiry now then [] else h

-- LoadBaseline, where its command succeeds
unfoldable pub load :
    {F : Type 0} → Float F → String → Time → Baselines → Option (EngineerBaseline F)
unfolding baseline_of_hash lookup
load fl email now all = baseline_of_hash fl (held_hash now (lookup email all))

module _ {F : Type 0} (fl : Float F) (ceil : F → F) (show : F → String) (sum : List F → F)
    (format_rfc3339 : Time → String) (cfg : SignalsConfig F) where
  -- SaveBaseline, where its pipeline succeeds
  unfoldable pub save_baseline : String → EngineerBaseline F → Time → Baselines → Baselines
  unfolding baseline_fields hset_all lookup
  save_baseline email b now all =
      let hash =
        hset_all (baseline_fields show b (format_rfc3339 now)) (held_hash now (lookup email all)) in
      insert email (hash, now + 48 * hour) all

  -- computeBaseline; `none` where there is no usage at all
  unfoldable pub compute_baseline :
      (String → Option String)
      → String
      → Time
      → List (UsageRow F)
      → Result (Option (EngineerBaseline F))
  unfolding mean_stddev fill_costs zeros_of percentile_of
  compute_baseline fault email now rows =
      elim (usage_history fl sum (fault "daily") email cfg.baseline_window_days now rows) [
        | err e ↦ err e
        | ok [] ↦ ok none
        | ok (d ∷ ds) ↦
            let window = zeros_of (fl.decimal 0 0) (pos_part cfg.baseline_window_days) in
            let (mean, stddev) = mean_stddev fl (fill_costs fl now (d ∷ ds) window) in
            elim (hourly_spend_series fl sum (fault "hourly") email cfg.hourly_baseline_window_days
              now rows) [
                | err e ↦ err e
                | ok hourly ↦
                    elim (hour_of_day_distribution fl sum (fault "hours") email
                      (pos_part cfg.baseline_window_days) now rows) [
                        | err e ↦ err e
                        | ok dist ↦ ok (
                            some (record {
                              daily_mean = mean;
                              daily_stddev = stddev;
                              hourly_p95 = percentile_of fl ceil hourly (fl.decimal 95 2);
                              active_days = pos (length (d ∷ ds));
                              hour_distribution = dist;
                            }))
                      ]
              ]
      ]

  -- RunOnce: `clock` by engineer, and `fault` by engineer and statement
  unfoldable pub rebuild :
      (String → String → Option String)
      → (String → Time)
      → List (UsageRow F)
      → List (Engineer F)
      → Baselines
      → Baselines
  unfolding compute_baseline save_baseline
  rebuild fault clock rows [] all = all
  rebuild fault clock rows (eng ∷ engs) all =
      elim (compute_baseline (fault eng.email) eng.email (clock eng.email) rows) [
        | err e ↦ rebuild fault clock rows engs all
        | ok none ↦ rebuild fault clock rows engs all
        | ok (some b) ↦ elim (fault eng.email "save") [
          | some e ↦ rebuild fault clock rows engs all
          | none ↦ rebuild fault clock rows engs (save_baseline eng.email b (clock eng.email) all)
        ]
      ]
