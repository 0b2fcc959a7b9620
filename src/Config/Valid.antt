-- ===== src/Config/Valid.antt =====
-- What a configuration that passes Validate satisfies.
use enterprise_llm_tracker.Base.{
  ℕ, ◌≤◌, ◌<◌, String, Bool, true, false, not, ◌&&◌, ◌≡◌, refl, ap, ◌∙◌, ◌↔◌, arith, str_eq, ltb,
}
use enterprise_llm_tracker.Base.Act.{ok}
use enterprise_llm_tracker.Base.Int.{ℤ, is_pos}
use enterprise_llm_tracker.Config.{
  Config, default_int, default_float, default_scheduler, default_github, default_signals,
  with_defaults, validate,
}
use enterprise_llm_tracker.Float.{Float}

-- what must be given
abbrev pub is_complete : {F : Type 0} → (String → String) → Config F → Bool
is_complete getenv c =
    not (str_eq c.listen "")
    && not (str_eq c.postgres.url "")
    && not (str_eq c.redis.addr "")
    && not (not (str_eq c.slack.bot_token_env "") && str_eq (getenv c.slack.bot_token_env) "")

-- what Validate would not replace: every interval and window is positive, and no cutoff is at or
-- below zero, which a NaN is not either
pub record IsUsable {F : Type 0} (fl : Float F) (c : Config F) : Type 0 where
  pub refresh : is_pos c.registry.refresh_interval_seconds ≡ true
  pub interval : is_pos c.github.scheduler.interval_seconds ≡ true
  pub min_trigger : is_pos c.github.scheduler.min_trigger_interval_seconds ≡ true
  pub lookback : is_pos c.github.lookback_days ≡ true
  pub rebuild : is_pos c.signals.baseline_rebuild_interval_seconds ≡ true
  pub rollup : is_pos c.signals.efficiency_rollup_interval_seconds ≡ true
  pub window : is_pos c.signals.baseline_window_days ≡ true
  pub hourly_window : is_pos c.signals.hourly_baseline_window_days ≡ true
  pub min_days : is_pos c.signals.min_baseline_days ≡ true
  pub burst_window : is_pos c.signals.burst_window_minutes ≡ true
  pub multiplier : fl.le c.signals.burst_multiplier (fl.decimal 0 0) ≡ false
  pub warn : fl.le c.signals.z_score_warn (fl.decimal 0 0) ≡ false
  pub critical : fl.le c.signals.z_score_critical (fl.decimal 0 0) ≡ false
  pub rhythm : fl.le c.signals.rhythm_break_pct (fl.decimal 0 0) ≡ false

default_int-is_pos : (value : ℕ) (x : ℤ) → ltb 0 value ≡ true → is_pos (default_int value x) ≡ true
unfolding default_int
default_int-is_pos value x h = ground arith

default_int_kept : (value : ℕ) (x : ℤ) → is_pos x ≡ true → default_int value x ≡ x
unfolding default_int
default_int_kept value x h = ground (arith, h)

module _ {F : Type 0} (fl : Float F) where
  default_float-positive :
      (value x : F)
      → fl.le value (fl.decimal 0 0) ≡ false
      → fl.le (default_float fl value x) (fl.decimal 0 0) ≡ false
  unfolding default_float
  default_float-positive value x h = ground (arith, h)

  default_float_kept :
      (value x : F) → fl.le x (fl.decimal 0 0) ≡ false → default_float fl value x ≡ x
  unfolding default_float
  default_float_kept value x h = ground (arith, h)

  module _
      (positive : (n k : ℕ) → 0 < n → k ≤ 2 → fl.le (fl.decimal n k) (fl.decimal 0 0) ≡ false) where
    with_defaults-IsUsable : (c : Config F) → IsUsable fl (with_defaults fl c)
    unfolding with_defaults default_github default_scheduler default_signals
    with_defaults-IsUsable c = record {
      refresh = default_int-is_pos 30 c.registry.refresh_interval_seconds refl;
      interval = default_int-is_pos 3600 c.github.scheduler.interval_seconds refl;
      min_trigger = default_int-is_pos 300 c.github.scheduler.min_trigger_interval_seconds refl;
      lookback = default_int-is_pos 30 c.github.lookback_days refl;
      rebuild = default_int-is_pos 86400 c.signals.baseline_rebuild_interval_seconds refl;
      rollup = default_int-is_pos 86400 c.signals.efficiency_rollup_interval_seconds refl;
      window = default_int-is_pos 30 c.signals.baseline_window_days refl;
      hourly_window = default_int-is_pos 14 c.signals.hourly_baseline_window_days refl;
      min_days = default_int-is_pos 14 c.signals.min_baseline_days refl;
      burst_window = default_int-is_pos 30 c.signals.burst_window_minutes refl;
      multiplier =
          default_float-positive _ c.signals.burst_multiplier
            (positive 20 1 (omega arith) (omega arith));
      warn =
          default_float-positive _ c.signals.z_score_warn
            (positive 20 1 (omega arith) (omega arith));
      critical =
          default_float-positive _ c.signals.z_score_critical
            (positive 30 1 (omega arith) (omega arith));
      rhythm =
          default_float-positive _ c.signals.rhythm_break_pct
            (positive 5 2 (omega arith) (omega arith));
    }

  with_defaults_kept : (c : Config F) → IsUsable fl c → with_defaults fl c ≡ c
  unfolding with_defaults default_github default_scheduler default_signals
  with_defaults_kept c p = cc (
    default_int_kept 30 c.registry.refresh_interval_seconds p.refresh,
    default_int_kept 3600 c.github.scheduler.interval_seconds p.interval,
    default_int_kept 300 c.github.scheduler.min_trigger_interval_seconds p.min_trigger,
    default_int_kept 30 c.github.lookback_days p.lookback,
    default_int_kept 86400 c.signals.baseline_rebuild_interval_seconds p.rebuild,
    default_int_kept 86400 c.signals.efficiency_rollup_interval_seconds p.rollup,
    default_int_kept 30 c.signals.baseline_window_days p.window,
    default_int_kept 14 c.signals.hourly_baseline_window_days p.hourly_window,
    default_int_kept 14 c.signals.min_baseline_days p.min_days,
    default_int_kept 30 c.signals.burst_window_minutes p.burst_window,
    default_float_kept (fl.decimal 20 1) c.signals.burst_multiplier p.multiplier,
    default_float_kept (fl.decimal 20 1) c.signals.z_score_warn p.warn,
    default_float_kept (fl.decimal 30 1) c.signals.z_score_critical p.critical,
    default_float_kept (fl.decimal 5 2) c.signals.rhythm_break_pct p.rhythm,
  )

  complete-with_defaults :
      (getenv : String → String) (c : Config F)
      → is_complete getenv (with_defaults fl c) ≡ is_complete getenv c
  unfolding with_defaults
  complete-with_defaults getenv c = refl

  module _ (getenv quote : String → String) where
    -- Validation succeeds exactly if the three addresses are given and the environment has the Slack
    -- token, where the configuration names its variable. If it fails, the configuration stays.
    pub validate_iff :
        (c : Config F)
        → (((validate fl getenv quote c).0 ≡ ok tt) ↔ (is_complete getenv c ≡ true))
          × ((is_complete getenv c ≡ false) → (validate fl getenv quote c).1 ≡ c)
    unfolding validate
    validate_iff c = ground arith

    validate_complete :
        (c : Config F)
        → is_complete getenv c ≡ true
        → validate fl getenv quote c ≡ (ok tt, with_defaults fl c)
    unfolding validate
    validate_complete c h = ground (arith, h)

    -- A configuration that passed has only positive intervals and windows and no cutoff at or below
    -- zero (one that is not a number is not excluded), provided that the positive literals of the
    -- source are positive numbers; validating it again succeeds and changes nothing.
    pub validate_idem :
        (positive : (n k : ℕ) → 0 < n → k ≤ 2 → fl.le (fl.decimal n k) (fl.decimal 0 0) ≡ false)
        (c : Config F)
        → (validate fl getenv quote c).0 ≡ ok tt
        → let c' = (validate fl getenv quote c).1 in
          IsUsable fl c' × (validate fl getenv quote c' ≡ (ok tt, c'))
    validate_idem positive c h =
        let complete = (validate_iff c).0.0 h in
        let again = with_defaults-IsUsable positive c in
        rw (validate_complete c complete) (
          again,
          validate_complete (with_defaults fl c) (complete-with_defaults getenv c ∙ complete)
              ∙ ap (λ x. (ok tt, x)) (with_defaults_kept (with_defaults fl c) again),
        )
