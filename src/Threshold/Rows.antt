-- ===== src/Threshold/Rows.antt =====
-- What one check may add to the audit rows, against the percentages that are not claimed yet.
use enterprise_llm_tracker.Base.{
  ℕ, ◌-◌, ◌+◌, ◌≤◌, String, Bool, true, false, ◌≡◌, inl, inr, List, [], ◌∷◌, arith, ◌&&◌, not,
  str_eq, count_if, count_if-append, count_if_mono, eq_refl, if◌then◌else◌,
}
use enterprise_llm_tracker.Base.Act.{ok}
use enterprise_llm_tracker.Base.Int.{ℤ}
use enterprise_llm_tracker.Clock.{Time}
use enterprise_llm_tracker.Registry.{Engineer}
use enterprise_llm_tracker.Services.{Services, World, TriggerRow}
use enterprise_llm_tracker.Services.Laws.{ClaimLaws, InsertLaws}
use enterprise_llm_tracker.Store.Keys.{threshold_fired_key}
use enterprise_llm_tracker.Store.Claims.{claim_threshold_fired}
use enterprise_llm_tracker.Threshold.{ThresholdService, fire_threshold, fire_first}
use enterprise_llm_tracker.Threshold.Frames.{redis-fire_threshold, postgres-fire_threshold}

-- the audit rows of one engineer and period
abbrev is_for : {F : Type 0} → String → String → TriggerRow F → Bool
is_for email period row = str_eq row.engineer_id email && str_eq row.period period

pub rows_for : {F : Type 0} → String → String → List (TriggerRow F) → ℕ
unfolding count_if
rows_for email period rows = count_if (is_for email period) rows

-- how many of the percentages are not claimed yet
pub unclaimed : (String → Bool) → String → String → List ℤ → ℕ
unfolding count_if
unclaimed held email period pcts =
    count_if (λ p. not (held (threshold_fired_key email period p))) pcts

pub unclaimed_mono :
    (held held' : String → Bool) (email period : String) (pcts : List ℤ)
    → ((k : String) → held k ≡ true → held' k ≡ true)
    → unclaimed held' email period pcts ≤ unclaimed held email period pcts
unfolding unclaimed
unclaimed_mono held held' email period pcts h =
    count_if_mono _ _ pcts (λ p q. ground (arith, h (threshold_fired_key email period p)))

count-is_for :
    {F : Type 0} (row : TriggerRow F) {email period : String} (email₀ period₀ : String)
    → row.engineer_id ≡ email
    → row.period ≡ period
    → count_if (is_for email₀ period₀) (row ∷ [])
      ≡ (if str_eq email email₀ && str_eq period period₀ then 1 else 0)
unfolding count_if
count-is_for row email₀ period₀ e p = rw (e, p) (ground arith)

module _ {F R P S K C : Type 0} (sv : Services F R P S K C) (cfg : ThresholdService)
    (held : R → String → Bool) (triggers : P → List (TriggerRow F)) (cl : ClaimLaws sv.redis held)
    (il : InsertLaws sv.postgres triggers) where
  module _ (eng : Engineer F) (period : String) (spend budget : F) where
    -- firing adds at most one row, and only to the engineer's and the period's
    rows-fire_threshold :
        (pct : ℤ) (email₀ period₀ : String) (w : World R P S K C)
        → rows_for email₀ period₀
            (triggers (fire_threshold sv cfg eng period pct spend budget w).1.postgres)
          ≤ rows_for email₀ period₀ (triggers w.postgres)
            + (if str_eq eng.email email₀ && str_eq period period₀ then 1 else 0)
    unfolding rows_for
    rows-fire_threshold pct email₀ period₀ w =
        let fired = postgres-fire_threshold sv cfg eng period pct spend budget w in
        rw fired.inserted (elim (il.at_most fired.row w.postgres) [
          | inl added ↦
              rw (added, count_if-append)
                (omega
                  (arith, count-is_for fired.row email₀ period₀ fired.engineer fired.in_period))
          | inr same ↦ rw same (omega arith)
        ])

    claim_keeps :
        (pct : ℤ) (expire_at : Time) (w : World R P S K C) (j : String)
        → held w.redis j ≡ true
        → held (claim_threshold_fired sv eng.email period pct expire_at w).1.redis j ≡ true
    unfolding claim_threshold_fired
    claim_keeps pct expire_at w j h = ground (
      arith,
      cl.keeps (threshold_fired_key eng.email period pct) "1"
          (expire_at - (sv.machine.now w.machine).0) w.redis j,
    )

    postgres-claim :
        (pct : ℤ) (expire_at : Time) (w : World R P S K C)
        → (claim_threshold_fired sv eng.email period pct expire_at w).1.postgres ≡ w.postgres
    unfolding claim_threshold_fired
    postgres-claim pct expire_at w = ground arith

    claim_won :
        (pct : ℤ) (expire_at : Time) (w : World R P S K C)
        → (claim_threshold_fired sv eng.email period pct expire_at w).0 ≡ ok true
        → (held w.redis (threshold_fired_key eng.email period pct) ≡ false)
          × (held
                (claim_threshold_fired sv eng.email period pct expire_at w).1.redis
                (threshold_fired_key eng.email period pct)
              ≡ true)
    unfolding claim_threshold_fired
    claim_won pct expire_at w h =
        let key = threshold_fired_key eng.email period pct in
        let ttl = expire_at - (sv.machine.now w.machine).0 in
        ground (arith, cl.won_absent key "1" ttl w.redis, cl.won_held key "1" ttl w.redis)

    -- claims are kept by the loop
    pub fire_first_keeps :
        (pct : F) (expire_at : Time) (pcts : List ℤ) (w : World R P S K C) (j : String)
        → held w.redis j ≡ true
        → held (fire_first sv cfg eng period spend budget pct expire_at pcts w).1.redis j ≡ true
    unfolding fire_first
    fire_first_keeps pct expire_at [] w j h = h
    fire_first_keeps pct expire_at (t ∷ ts) w j h =
        let w₁ = (claim_threshold_fired sv eng.email period t expire_at w).1 in
        ground (
          arith,
          claim_keeps t expire_at w j h,
          fire_first_keeps pct expire_at ts w j h,
          fire_first_keeps pct expire_at ts w₁ j,
          redis-fire_threshold sv cfg eng period t spend budget w₁,
        )

    -- rows added and claims left: the loop trades one for the other
    pub fire_first_budget :
        (pct : F) (expire_at : Time) (pcts : List ℤ) (w : World R P S K C)
        → let w' = (fire_first sv cfg eng period spend budget pct expire_at pcts w).1 in
          rows_for eng.email period (triggers w'.postgres)
            + unclaimed (held w'.redis) eng.email period pcts
          ≤ rows_for eng.email period (triggers w.postgres)
            + unclaimed (held w.redis) eng.email period pcts
    unfolding fire_first unclaimed count_if
    fire_first_budget pct expire_at [] w = omega arith
    fire_first_budget pct expire_at (t ∷ ts) w =
        let (claimed, w₁) = claim_threshold_fired sv eng.email period t expire_at w in
        let w₂ = (fire_threshold sv cfg eng period t spend budget w₁).1 in
        ground (
          arith,
          eq_refl eng.email,
          eq_refl period,
          postgres-claim t expire_at w,
          claim_won t expire_at w,
          fire_first_budget pct expire_at ts w,
          fire_first_budget pct expire_at ts w₁,
          fire_first_keeps pct expire_at ts w (threshold_fired_key eng.email period t),
          fire_first_keeps pct expire_at ts w₁ (threshold_fired_key eng.email period t),
          claim_keeps t expire_at w (threshold_fired_key eng.email period t),
          rows-fire_threshold t eng.email period w₁,
          redis-fire_threshold sv cfg eng period t spend budget w₁,
          unclaimed_mono (held w.redis) (held w₁.redis) eng.email period ts
              (claim_keeps t expire_at w),
        )

    -- the rows of any other engineer or period stay
    pub fire_first_others :
        (pct : F) (expire_at : Time) (pcts : List ℤ) (email₀ period₀ : String) (w : World R P S K C)
        → (str_eq eng.email email₀ && str_eq period period₀) ≡ false
        → rows_for email₀ period₀
            (triggers (fire_first sv cfg eng period spend budget pct expire_at pcts w).1.postgres)
          ≤ rows_for email₀ period₀ (triggers w.postgres)
    unfolding fire_first
    fire_first_others pct expire_at [] email₀ period₀ w h = omega arith
    fire_first_others pct expire_at (t ∷ ts) email₀ period₀ w h =
        let w₁ = (claim_threshold_fired sv eng.email period t expire_at w).1 in
        ground (
          arith,
          h,
          postgres-claim t expire_at w,
          fire_first_others pct expire_at ts email₀ period₀ w h,
          fire_first_others pct expire_at ts email₀ period₀ w₁ h,
          rows-fire_threshold t email₀ period₀ w₁,
        )
