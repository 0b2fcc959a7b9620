-- ===== src/Threshold/Once.antt =====
-- No budget threshold is recorded more than once while its claim lasts.
use enterprise_llm_tracker.Base.{
  ℕ, ◌+◌, ◌≤◌, String, Bool, inl, inr, List, [], ◌∷◌, arith, Bool-cases, Option-cases, ◌&&◌, str_eq,
  eq_iff, if◌then◌else◌,
}
use mathlib.Core.Path.{subst₂}
use enterprise_llm_tracker.Base.Act.{Result, ok, err}
use enterprise_llm_tracker.Clock.{Time, end_of_day}
use enterprise_llm_tracker.Clock.Calendar.{end_of_month}
use enterprise_llm_tracker.Models.{Event}
use enterprise_llm_tracker.Registry.{Engineer, Registry, lookup_by_email}
use enterprise_llm_tracker.Services.{Services, World, TriggerRow, on_machine}
use enterprise_llm_tracker.Services.Laws.{ClaimLaws, InsertLaws}
use enterprise_llm_tracker.Store.Keys.{cost_key}
use enterprise_llm_tracker.Store.Claims.{get_cost_counter}
use enterprise_llm_tracker.Threshold.{
  ThresholdService, fire_first, percent_of, check_spend, check_period, handle_event, handle_all,
}
use enterprise_llm_tracker.Threshold.Rows.{
  rows_for, unclaimed, unclaimed_mono, fire_first_keeps, fire_first_budget, fire_first_others,
}

module _ {F R P S K C : Type 0} (sv : Services F R P S K C) (cfg : ThresholdService)
    (held : R → String → Bool) (triggers : P → List (TriggerRow F)) (cl : ClaimLaws sv.redis held)
    (il : InsertLaws sv.postgres triggers) where
  -- recorded alerts of an engineer and period, and percentages that can still be claimed
  abbrev budget_of : String → String → World R P S K C → ℕ
  budget_of email period w =
      rows_for email period (triggers w.postgres)
      + unclaimed (held w.redis) email period cfg.notify_at_percent

  fire_first-budget_of :
      (eng : Engineer F) (period : String) (spend budget pct : F) (expire_at : Time)
      (email₀ period₀ : String) (w : World R P S K C)
      → budget_of email₀ period₀
          (fire_first sv cfg eng period spend budget pct expire_at cfg.notify_at_percent w).1
        ≤ budget_of email₀ period₀ w
  fire_first-budget_of eng period spend budget pct expire_at email₀ period₀ w =
      elim (Bool-cases (str_eq eng.email email₀ && str_eq period period₀)) [
        | inl same ↦
            subst₂ (λ e p. budget_of e p w' ≤ budget_of e p w)
              ((eq_iff eng.email email₀).0 (ground arith))
              ((eq_iff period period₀).0 (ground arith))
              (fire_first_budget sv cfg held triggers cl il eng period spend budget pct expire_at
                cfg.notify_at_percent w)
        | inr other ↦ omega (
          arith,
          fire_first_others sv cfg held triggers cl il eng period spend budget pct expire_at
              cfg.notify_at_percent email₀ period₀ w other,
          unclaimed_mono (held w.redis) (held w'.redis) email₀ period₀ cfg.notify_at_percent (
              fire_first_keeps sv cfg held triggers cl il eng period spend budget pct expire_at
                cfg.notify_at_percent w),
        )
      ]
    where
      w' : World R P S K C
      w' = (fire_first sv cfg eng period spend budget pct expire_at cfg.notify_at_percent w).1

  check_spend-budget_of :
      (eng : Engineer F) (period : String) (budget : F) (expire_at : Time) (counter : Result F)
      (email₀ period₀ : String) (w : World R P S K C)
      → budget_of email₀ period₀ (check_spend sv cfg eng period budget expire_at counter w).1
        ≤ budget_of email₀ period₀ w
  unfolding check_spend
  check_spend-budget_of eng period budget expire_at (err _) email₀ period₀ w = omega arith
  check_spend-budget_of eng period budget expire_at (ok spend) email₀ period₀ w = ground (
    arith,
    fire_first-budget_of eng period spend budget (percent_of sv cfg spend budget) expire_at email₀
        period₀ w,
  )

  get_cost_counter-budget_of :
      (email counter_period email₀ period₀ : String) (w : World R P S K C)
      → budget_of email₀ period₀ (get_cost_counter sv email counter_period w).1
        ≤ budget_of email₀ period₀ w
  unfolding get_cost_counter
  get_cost_counter-budget_of email counter_period email₀ period₀ w = omega (
    arith,
    unclaimed_mono (held w.redis) (held (get_cost_counter sv email counter_period w).1.redis) email₀
        period₀ cfg.notify_at_percent (λ j. cl.get_keeps (cost_key email counter_period) j w.redis),
  )

  check_period-budget_of :
      (eng : Engineer F) (period : String) (budget : F) (expire_at : Time) (email₀ period₀ : String)
      (w : World R P S K C)
      → budget_of email₀ period₀ (check_period sv cfg eng period budget expire_at w).1
        ≤ budget_of email₀ period₀ w
  unfolding check_period
  check_period-budget_of eng period budget expire_at email₀ period₀ w =
      let counter_period : String = if str_eq period "monthly" then "month" else "today" in
      let (counter, w₁) = get_cost_counter sv eng.email counter_period w in
      ground (
        arith,
        get_cost_counter-budget_of eng.email counter_period email₀ period₀ w,
        check_spend-budget_of eng period budget expire_at counter email₀ period₀ w₁,
      )

  handle_event-budget_of :
      (reg : Registry F) (e : Event F) (email₀ period₀ : String) (w : World R P S K C)
      → budget_of email₀ period₀ (handle_event sv cfg reg e w).1 ≤ budget_of email₀ period₀ w
  unfolding handle_event
  handle_event-budget_of reg e email₀ period₀ w =
      elim (Option-cases (lookup_by_email reg e.engineer_id)) [
        | inl unknown ↦ rw (unknown, handle_event) (omega arith)
        | inr (eng, known) ↦
            rw (known, handle_event)
              (let (now, w₁) = on_machine sv.machine.now w in
                let w₂ =
                  (check_period sv cfg eng "daily" eng.daily_budget_usd (end_of_day now) w₁).1 in
                omega (
                  arith,
                  check_period-budget_of eng "daily" eng.daily_budget_usd (end_of_day now) email₀
                      period₀ w₁,
                  check_period-budget_of eng "monthly" eng.monthly_budget_usd (end_of_month now)
                      email₀ period₀ w₂,
                ))
      ]

  -- Over any events, whatever Redis, Postgres and Slack answer, the audit rows of an engineer and
  -- period that are added are at most as many as the configured percentages that are claimed
  -- meanwhile and were not claimed before. No claim expires meanwhile.
  pub rows-handle_all :
      (es : List (Registry F × Event F)) (email period : String) (w : World R P S K C)
      → rows_for email period (triggers (handle_all sv cfg es w).postgres)
          + unclaimed (held (handle_all sv cfg es w).redis) email period cfg.notify_at_percent
        ≤ rows_for email period (triggers w.postgres)
          + unclaimed (held w.redis) email period cfg.notify_at_percent
  unfolding handle_all
  rows-handle_all [] email period w = omega arith
  rows-handle_all ((reg, e) ∷ es) email period w = omega (
    arith,
    handle_event-budget_of reg e email period w,
    rows-handle_all es email period (handle_event sv cfg reg e w).1,
  )
