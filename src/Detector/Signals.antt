-- ===== src/Detector/Signals.antt =====
-- internal/service/signal_detector.go: which signal a check raises, and the texts of a burst.
use enterprise_llm_tracker.Base.{
  ℕ, ◌/◌, ◌%◌, String, Bool, ◌&&◌, ◌||◌, Option, none, some, [], ◌∷◌, if◌then◌else◌,
}
use enterprise_llm_tracker.Base.Format.{concat, show_int}
use enterprise_llm_tracker.Clock.{Time, hour, day}
use enterprise_llm_tracker.Config.{SignalsConfig}
use enterprise_llm_tracker.Float.{Float}
use enterprise_llm_tracker.Models.{EngineerBaseline}
use enterprise_llm_tracker.Store.Signals.{}

-- a finding before it is claimed: type, severity, observed value, baseline value, and z-score
pub record Signal (F : Type 0) : Type 0 where
  pub signal_type : String
  pub severity : String
  pub observed : F
  pub baseline : F
  pub z_score : Option F

module _ {F : Type 0} (fl : Float F) (cfg : SignalsConfig F) where
  -- checkBurst, after the window's sum and the baseline were read
  unfoldable pub burst_signal : F → Option (EngineerBaseline F) → Option (Signal F)
  burst_signal rolling none = none
  burst_signal rolling (some b) =
      let warn = fl.mul cfg.burst_multiplier b.hourly_p95 in
      let severity : String =
        if fl.le (fl.mul (fl.decimal 15 1) warn) rolling then "critical" else "warn" in
      if fl.le b.hourly_p95 (fl.decimal 0 0)
      then none
      else if fl.lt rolling warn
      then none
      else some (record {
        signal_type = "burst";
        severity = severity;
        observed = rolling;
        baseline = b.hourly_p95;
        z_score = none;
      })

  -- checkZScore, after the counter of today was read; both of its last branches give `warn`
  unfoldable pub z_score_signal : F → EngineerBaseline F → Option (Signal F)
  z_score_signal today b =
      let z = fl.div (fl.sub today b.daily_mean) b.daily_stddev in
      let midpoint = fl.div (fl.add cfg.z_score_warn cfg.z_score_critical) (fl.decimal 2 0) in
      let severity : String =
        if fl.le cfg.z_score_critical z
        then "critical"
        else if fl.le midpoint z
        then "warn"
        else "warn" in
      if fl.le today (fl.decimal 0 0)
      then none
      else if fl.lt z cfg.z_score_warn
      then none
      else some (record {
        signal_type = "spend_zscore_high";
        severity = severity;
        observed = today;
        baseline = b.daily_mean;
        z_score = some z;
      })

  -- at.UTC().Hour()
  abbrev pub hour_of : Time → ℕ
  hour_of at = at % day / hour

  -- `frac == 0`
  abbrev pub is_zero_float : F → Bool
  is_zero_float x = fl.le x (fl.decimal 0 0) && fl.le (fl.decimal 0 0) x

  -- checkRhythmBreak, up to the call of fire
  unfoldable pub rhythm_signal : Time → EngineerBaseline F → Option (Signal F)
  rhythm_signal at b =
      let frac = b.hour_distribution (hour_of at) in
      let severity : String =
        if fl.lt frac (fl.decimal 1 2)
        then "critical"
        else if fl.lt frac (fl.decimal 2 2)
        then "warn"
        else "info" in
      if is_zero_float frac || fl.le cfg.rhythm_break_pct frac
      then none
      else some (record {
        signal_type = "rhythm_break";
        severity = severity;
        observed = frac;
        baseline = cfg.rhythm_break_pct;
        z_score = none;
      })

  unfoldable pub burst_engineer_message : String → F → F → String
  burst_engineer_message name observed baseline = concat (
      "🚨 Burst alert ("
      ∷ name
      ∷ "): $"
      ∷ fl.fixed_2 observed
      ∷ " spent in the last "
      ∷ show_int cfg.burst_window_minutes
      ∷ " min — that's "
      ∷ fl.fixed_1 (fl.div observed baseline)
      ∷ "x your normal hourly rate ($"
      ∷ fl.fixed_2 baseline
      ∷ "/hr). Check whether something's running away."
      ∷ [])

  unfoldable pub burst_manager_message : String → F → F → String
  burst_manager_message name observed baseline = concat (
      "[manager alert] "
      ∷ name
      ∷ " just burned $"
      ∷ fl.fixed_2 observed
      ∷ " in "
      ∷ show_int cfg.burst_window_minutes
      ∷ " min ("
      ∷ fl.fixed_1 (fl.div observed baseline)
      ∷ "x their normal hourly rate). Worth a check."
      ∷ [])
