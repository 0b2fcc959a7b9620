-- ===== src/Detector/Severity.antt =====
-- When a signal is raised, and how severe it is.
use enterprise_llm_tracker.Base.{
  String, not, ◌&&◌, ◌||◌, ◌≡◌, refl, Option, none, some, arith, if◌then◌else◌,
}
use enterprise_llm_tracker.Config.{SignalsConfig}
use enterprise_llm_tracker.Clock.{Time}
use enterprise_llm_tracker.Detector.{Signal, burst_signal, rhythm_signal, hour_of, is_zero_float}
use enterprise_llm_tracker.Float.{Float}
use enterprise_llm_tracker.Models.{EngineerBaseline}

abbrev pub severity_of : {F : Type 0} → Option (Signal F) → Option String
severity_of none = none
severity_of (some s) = some s.severity

module _ {F : Type 0} (fl : Float F) (cfg : SignalsConfig F) (b : EngineerBaseline F) where
  -- A burst is raised exactly if the baseline's p95 is positive and the window's sum reaches the
  -- multiple of it; it is critical exactly from 1.5 times that on. There is none without a baseline.
  pub burst_severity :
      (rolling : F)
      → (severity_of (burst_signal fl cfg rolling (some b)) ≡ (
          if not (fl.le b.hourly_p95 (fl.decimal 0 0))
            && not (fl.lt rolling (fl.mul cfg.burst_multiplier b.hourly_p95))
          then some (
              if fl.le (fl.mul (fl.decimal 15 1) (fl.mul cfg.burst_multiplier b.hourly_p95)) rolling
              then "critical"
              else "warn")
          else none))
        × (burst_signal fl cfg rolling none ≡ none)
  unfolding burst_signal
  burst_severity rolling = (ground arith, refl)

  -- An hour without any activity in the baseline never breaks the rhythm, however small the
  -- configured fraction; an hour at or above the fraction does not either.
  pub rhythm_severity :
      (at : Time)
      → let frac = b.hour_distribution (hour_of fl cfg at) in
        severity_of (rhythm_signal fl cfg at b) ≡ (
          if is_zero_float fl cfg frac || fl.le cfg.rhythm_break_pct frac
          then none
          else some (
              if fl.lt frac (fl.decimal 1 2)
              then "critical"
              else if fl.lt frac (fl.decimal 2 2)
              then "warn"
              else "info"))
  unfolding rhythm_signal
  rhythm_severity at = ground arith
