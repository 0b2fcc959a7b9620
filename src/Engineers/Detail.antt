-- ===== src/Engineers/Detail.antt =====
-- The read side of internal/service/engineer.go, with ListEngineers, ListRecentTriggers and
-- LatestEfficiencySnapshot of internal/store/engineers.go. The collation of the database, by which names
-- are ordered, is a parameter; among rows of the same time the one inserted last comes first.
pub mod Ordered
use enterprise_llm_tracker.Base.{
  ℕ, String, Bool, true, false, ◌&&◌, List, [], ◌∷◌, Option, none, some, str_eq, ltb, take, map,
  if◌then◌else◌, ◌≡◌, refl, arith, inl, inr, Bool-cases,
}
use enterprise_llm_tracker.Base.Act.{Result, ok, err}
use enterprise_llm_tracker.Base.Int.{ℤ, pos, is_pos, pos_part}
use enterprise_llm_tracker.Clock.{Time}
use enterprise_llm_tracker.Engineers.{
  EngineerRow, Outcome, done, failed_with, get_engineer_by_email,
}
use enterprise_llm_tracker.Float.{Float}
use enterprise_llm_tracker.Models.{EfficiencySnapshot}
use enterprise_llm_tracker.Services.{TriggerRow}
use enterprise_llm_tracker.Usage.Queries.{select, answer}
use enterprise_llm_tracker.Usage.Series.{DailyUsage}

pub record EngineerWithUsage (F : Type 0) : Type 0 where
  pub engineer : EngineerRow F
  pub cost_today_usd : F
  pub cost_month_usd : F

pub record EngineerDetail (F : Type 0) : Type 0 where
  pub with_usage : EngineerWithUsage F
  pub usage_history : List (DailyUsage F)
  pub recent_triggers : List (TriggerRow F)
  pub efficiency_snap : Option (EfficiencySnapshot F)

-- ORDER BY, with the row first that `first` puts before another
unfoldable pub insert_by {ℓ} : {A : Type ℓ} → (A → A → Bool) → A → List A → List A
insert_by first x [] = x ∷ []
insert_by first x (y ∷ ys) =
    let rest = insert_by first x ys in if first x y then x ∷ y ∷ ys else y ∷ rest

unfoldable pub order_by {ℓ} : {A : Type ℓ} → (A → A → Bool) → List A → List A
unfolding insert_by
order_by first [] = []
order_by first (x ∷ xs) = insert_by first x (order_by first xs)

-- LIMIT 1
abbrev first_of : {A : Type 0} → List A → Option A
first_of [] = none
first_of (x ∷ xs) = some x

module _ {F : Type 0} where
  unfoldable pub list_engineers :
      (String → String → Bool)
      → Option String
      → List (EngineerRow F)
      → Result (List (EngineerRow F))
  unfolding order_by
  list_engineers collates fault t =
      answer fault (order_by (λ a b. collates a.name b.name) (select (λ r. r.active) t))

  -- the rows are in the order of their insertion
  unfoldable pub list_recent_triggers :
      Option String → String → ℤ → List (TriggerRow F) → Result (List (TriggerRow F))
  unfolding order_by
  list_recent_triggers fault email limit t =
      let n = if is_pos limit then pos_part limit else 20 in
      answer fault (
        take n (
          order_by (λ a b. ltb b.triggered_at a.triggered_at)
            (select (λ r. str_eq r.engineer_id email) t)))

  unfoldable pub latest_efficiency_snapshot :
      Option String → String → List (EfficiencySnapshot F) → Result (Option (EfficiencySnapshot F))
  unfolding order_by
  latest_efficiency_snapshot fault email t = answer fault (
      first_of (
        order_by (λ a b. ltb b.computed_at a.computed_at)
          (select (λ s. str_eq s.engineer_id email) t)))

-- a read whose error is only logged
abbrev pub or_else {ℓ} : {A : Type ℓ} → A → Result A → A
or_else zero_value (ok a) = a
or_else zero_value (err e) = zero_value

module _ {F : Type 0} (fl : Float F) (cost_counter : String → String → Result F) where
  -- attachUsage; `cost_counter` is GetCostCounter
  unfoldable pub attach_usage : EngineerRow F → EngineerWithUsage F
  attach_usage e = record {
    engineer = e;
    cost_today_usd = or_else (fl.decimal 0 0) (cost_counter e.email "today");
    cost_month_usd = or_else (fl.decimal 0 0) (cost_counter e.email "month");
  }

  -- List
  unfoldable pub list :
      (String → String → Bool)
      → Option String
      → List (EngineerRow F)
      → Result (List (EngineerWithUsage F))
  unfolding list_engineers attach_usage
  list collates fault t = elim (list_engineers collates fault t) [
    | err e ↦ err e
    | ok rows ↦ ok (map attach_usage rows)
  ]

  -- Get, over the results of its three further reads
  unfoldable pub get :
      (String → ℤ → Result (List (DailyUsage F)))
      → (String → ℤ → Result (List (TriggerRow F)))
      → (String → Result (Option (EfficiencySnapshot F)))
      → Option String
      → String
      → List (EngineerRow F)
      → Outcome (EngineerDetail F)
  unfolding attach_usage
  get history triggers snapshot fault email t = elim (get_engineer_by_email fault email t) [
    | failed_with e ↦ failed_with e
    | done eng ↦ done (record {
      with_usage = attach_usage eng;
      usage_history = or_else [] (history email (pos 30));
      recent_triggers = or_else [] (triggers email (pos 20));
      efficiency_snap = or_else none (snapshot email);
    })
  ]
