-- ===== src/Threshold/Order.antt =====
-- Which threshold an event fires.
use enterprise_llm_tracker.Base.{
  ◌<◌, ◌-◌, String, Bool, true, false, not, ◌≡◌, refl, ◌∙◌, sym, subst, ◌⊎◌, inl, inr, List, [],
  ◌∷◌, ◌++◌, All, arith, Bool-cases, str_eq, if◌then◌else◌,
}
use mathlib.Core.Path.{subst₂}
use enterprise_llm_tracker.Base.Act.{ok}
use enterprise_llm_tracker.Base.Int.{ℤ}
use enterprise_llm_tracker.Clock.{Time}
use enterprise_llm_tracker.Registry.{Engineer}
use enterprise_llm_tracker.Services.{Services, World}
use enterprise_llm_tracker.Services.Laws.{SoleClaimLaws}
use enterprise_llm_tracker.Store.Keys.{threshold_fired_key, cost_key}
use enterprise_llm_tracker.Store.Claims.{get_cost_counter, claim_threshold_fired}
use enterprise_llm_tracker.Threshold.{
  ThresholdService, fire_threshold, fire_first, percent_of, check_spend, check_period,
}
use enterprise_llm_tracker.Threshold.Frames.{Fired, postgres-fire_threshold}

module _ {F R P S K C : Type 0} (sv : Services F R P S K C) (cfg : ThresholdService)
    (held : R → String → Bool) (cl : SoleClaimLaws sv.redis held) (eng : Engineer F)
    (period : String) (expire_at : Time)
    (in_time : (c : C) → (sv.machine.now c).0 < expire_at) where
  -- not reached by the spend, or fired already in this period
  abbrev pub IsPassedOver : F → R → ℤ → Type 0
  IsPassedOver pct r t =
      (sv.float.lt pct (sv.float.of_int t) ≡ true)
      ⊎ (held r (threshold_fired_key eng.email period t) ≡ true)

  claim_answer :
      (t : ℤ) (w : World R P S K C)
      → (claim_threshold_fired sv eng.email period t expire_at w).0
        ≡ ok (not (held w.redis (threshold_fired_key eng.email period t)))
  unfolding claim_threshold_fired
  claim_answer t w = ground (
    arith,
    in_time w.machine,
    cl.answers (threshold_fired_key eng.email period t) "1"
        (expire_at - (sv.machine.now w.machine).0) w.redis,
  )

  claim_refused :
      (t : ℤ) (w : World R P S K C) (j : String)
      → held w.redis (threshold_fired_key eng.email period t) ≡ true
      → held (claim_threshold_fired sv eng.email period t expire_at w).1.redis j ≡ held w.redis j
  unfolding claim_threshold_fired
  claim_refused t w j h = ground (
    arith,
    cl.refused (threshold_fired_key eng.email period t) "1"
        (expire_at - (sv.machine.now w.machine).0) w.redis j h,
  )

  get_same :
      (counter_period : String) (w : World R P S K C) (j : String)
      → held (get_cost_counter sv eng.email counter_period w).1.redis j ≡ held w.redis j
  unfolding get_cost_counter
  get_same counter_period w j = cl.get_same (cost_key eng.email counter_period) j w.redis

  get_postgres :
      (counter_period : String) (w : World R P S K C)
      → (get_cost_counter sv eng.email counter_period w).1.postgres ≡ w.postgres
  unfolding get_cost_counter
  get_postgres counter_period w = refl

  claim_postgres :
      (t : ℤ) (w : World R P S K C)
      → (claim_threshold_fired sv eng.email period t expire_at w).1.postgres ≡ w.postgres
  unfolding claim_threshold_fired
  claim_postgres t w = ground arith

  IsPassedOver-kept :
      (pct : F) (ts : List ℤ) (r r' : R)
      → ((j : String) → held r' j ≡ held r j)
      → All (IsPassedOver pct r) ts
      → All (IsPassedOver pct r') ts
  IsPassedOver-kept pct [] r r' same h = tt
  IsPassedOver-kept pct (t ∷ ts) r r' same h = (
    ground (arith, h.0, same (threshold_fired_key eng.email period t)),
    IsPassedOver-kept pct ts r r' same h.1,
  )

  -- the one row that the loop inserts, if it starts at `w` and ends with `after`
  abbrev FiredFrom : P → P → ℤ → F → F → Type 0
  FiredFrom before after t spend budget =
      Fired (λ row p. (sv.postgres.insert_trigger row p).1) before after eng.email period t spend
        budget

  fire_first_passes :
      (spend budget pct : F) (before : List ℤ) (t : ℤ) (rest : List ℤ) (w : World R P S K C)
      → All (IsPassedOver pct w.redis) before
      → sv.float.lt pct (sv.float.of_int t) ≡ false
      → held w.redis (threshold_fired_key eng.email period t) ≡ false
      → FiredFrom w.postgres
          (fire_first sv cfg eng period spend budget pct expire_at
            (before ++ t ∷ rest)
            w).1.postgres
          t
          spend
          budget
  unfolding fire_first
  fire_first_passes spend budget pct [] t rest w passed reached free =
      let w₁ = (claim_threshold_fired sv eng.email period t expire_at w).1 in
      let w₂ = (fire_threshold sv cfg eng period t spend budget w₁).1 in
      rw (reached, claim_answer, free)
        (subst (λ p. FiredFrom p w₂.postgres t spend budget) (claim_postgres t w)
          (postgres-fire_threshold sv cfg eng period t spend budget w₁))
  fire_first_passes spend budget pct (b ∷ bs) t rest w passed reached free =
      let w₁ = (claim_threshold_fired sv eng.email period b expire_at w).1 in
      let w₂ = (fire_first sv cfg eng period spend budget pct expire_at (bs ++ t ∷ rest) w₁).1 in
      elim (Bool-cases (sv.float.lt pct (sv.float.of_int b))) [
        | inl below ↦
            rw below (fire_first_passes spend budget pct bs t rest w passed.1 reached free)
        | inr not_below ↦
            let fired : held w.redis (threshold_fired_key eng.email period b) ≡ true =
              ground (arith, passed.0) in
            rw (not_below, claim_answer, fired)
              (subst (λ p. FiredFrom p w₂.postgres t spend budget) (claim_postgres b w)
                (fire_first_passes spend budget pct bs t rest w₁
                  (IsPassedOver-kept pct bs w.redis w₁.redis (λ j. claim_refused b w j fired)
                    passed.1)
                  reached
                  (claim_refused b w (threshold_fired_key eng.email period t) fired ∙ free)))
      ]

  -- If the spend counter can be read and is positive, as the budget is, Redis decides every claim by
  -- the key and the period is not over, then the check of this one period (an event has the
  -- day and the month checked) inserts exactly one audit row: that of the first configured percentage
  -- which the spend has reached and which is not fired yet, with the spend and the budget. Every percentage before it in the configuration is not reached or fired.
  pub check_period_fires_first :
      (budget spend : F) (before : List ℤ) (t : ℤ) (rest : List ℤ) (w : World R P S K C)
      → cfg.notify_at_percent ≡ before ++ t ∷ rest
      → sv.float.le budget (sv.float.decimal 0 0) ≡ false
      → (get_cost_counter sv eng.email (if str_eq period "monthly" then "month" else "today") w).0
        ≡ ok spend
      → sv.float.le spend (sv.float.decimal 0 0) ≡ false
      → All (IsPassedOver (percent_of sv cfg spend budget) w.redis) before
      → sv.float.lt (percent_of sv cfg spend budget) (sv.float.of_int t) ≡ false
      → held w.redis (threshold_fired_key eng.email period t) ≡ false
      → Fired
          (λ row p. (sv.postgres.insert_trigger row p).1)
          w.postgres
          (check_period sv cfg eng period budget expire_at w).1.postgres
          eng.email
          period
          t
          spend
          budget
  unfolding check_period check_spend
  check_period_fires_first budget spend before t rest w listed has_budget counter has_spend passed
        reached free =
      let counter_period : String = if str_eq period "monthly" then "month" else "today" in
      let w₁ = (get_cost_counter sv eng.email counter_period w).1 in
      let same = λ (j : String). get_same counter_period w j in
      let run = λ (pcts : List ℤ).
        (fire_first sv cfg eng period spend budget (percent_of sv cfg spend budget) expire_at pcts
          w₁).1.postgres in
      rw (has_budget, counter, has_spend)
        (subst₂ (λ p pcts. FiredFrom p (run pcts) t spend budget) (get_postgres counter_period w)
          (sym listed)
          (fire_first_passes spend budget (percent_of sv cfg spend budget) before t rest w₁
            (IsPassedOver-kept (percent_of sv cfg spend budget) before w.redis w₁.redis same passed)
            reached (same (threshold_fired_key eng.email period t) ∙ free)))
