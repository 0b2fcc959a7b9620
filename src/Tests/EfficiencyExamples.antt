-- ===== src/Tests/EfficiencyExamples.antt =====
-- The collector's loop and its windows, at concrete inputs.
use enterprise_llm_tracker.Base.{◌+◌, ◌*◌, length, ◌≡◌, refl, arith}
use enterprise_llm_tracker.Clock.{second, hour, truncate_to_day}
use enterprise_llm_tracker.Efficiency.{Collector, new_collector, trigger, run_once, receive}
use enterprise_llm_tracker.Efficiency.Triggers.{
  Reachable, started, triggered, received, IsSpaced, Reachable-IsSpaced,
}
use enterprise_llm_tracker.Tests.Fakes.{noon}

-- one run at the start, and one trigger after 400 seconds
abbrev triggered_late : Collector
triggered_late =
    receive 300 (noon + 400 * second) (noon + 401 * second)
      (trigger (run_once "startup" noon noon new_collector))

reaches : Reachable 300 (noon + 401 * second) triggered_late
unfolding trigger
reaches =
    received {t = noon} (omega arith) (omega arith) refl
      (triggered {t = noon} (omega arith) (started {now = noon} (omega arith)))

Reachable-IsSpaced_example : IsSpaced 300 triggered_late.passes
Reachable-IsSpaced_example =
    Reachable-IsSpaced 300 (omega arith) (noon + 401 * second) triggered_late reaches

two_runs : length triggered_late.passes ≡ 2
unfolding receive trigger run_once
two_runs = refl

same_day : truncate_to_day noon ≡ truncate_to_day (noon + hour)
unfolding truncate_to_day
same_day = refl
