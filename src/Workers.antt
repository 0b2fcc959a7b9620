-- ===== src/Workers.antt =====
-- cmd/sentinel-workers/main.go: the handler of the github-trigger consumer, and the readiness probe.
-- The rest of main starts what the other modules model.
pub mod Triggers
use enterprise_llm_tracker.Base.{
  ℕ, String, Bool, true, false, not, ◌||◌, Option, none, some, List, [], ◌∷◌, str_eq, if◌then◌else◌,
}
use enterprise_llm_tracker.Base.Act.{Result, ok, err}
use enterprise_llm_tracker.Efficiency.{Collector, trigger}
use enterprise_llm_tracker.Efficiency.Collect.{mark_engineer_dirty}
use enterprise_llm_tracker.Models.{Event}
use enterprise_llm_tracker.Registry.{Registry, lookup_by_email}

-- the metrics that ask for a refresh
unfoldable pub is_trigger : {F : Type 0} → Event F → Bool
is_trigger e =
    str_eq e.metric_name "claude_code.pull_request.count"
    || str_eq e.metric_name "claude_code.commit.count"

-- the dirty set, and the collector, if it is configured
pub record TriggerState : Type 0 where
  pub dirty : List String
  pub collector : Option Collector

module _ {F : Type 0} (reg : Registry F) where
  -- the mark of an engineer who is known; SADD may fail, which is logged
  unfoldable pub mark_known : Option String → Event F → List String → List String
  unfolding mark_engineer_dirty
  mark_known fault e dirty = elim (lookup_by_email reg e.engineer_id) [
    | none ↦ dirty
    | some eng ↦ if str_eq eng.github_username "" then dirty else elim fault [
      | none ↦ mark_engineer_dirty eng.github_username dirty
      | some reason ↦ dirty
    ]
  ]

  -- githubTriggerHandler
  unfoldable pub github_trigger_handler :
      Option String → Event F → TriggerState → Result (Unit {0}) × TriggerState
  unfolding mark_known is_trigger
  github_trigger_handler fault e s = if not (is_trigger e) then (ok tt, s) else elim s.collector [
    | none ↦ (ok tt, s)
    | some c ↦ (ok tt, record { dirty = mark_known fault e s.dirty; collector = some (trigger c) })
  ]

-- readyz: its status, from the two pings
unfoldable pub readyz_status : Option String → Option String → ℕ
readyz_status (some e) redis = 503
readyz_status none (some e) = 503
readyz_status none none = 200
