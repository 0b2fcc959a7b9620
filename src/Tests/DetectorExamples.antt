-- ===== src/Tests/DetectorExamples.antt =====
-- The detector and the consumer at concrete inputs.
use mathlib.Core.List.{Memᴰ}
use enterprise_llm_tracker.Base.{
  ℕ, Bool, true, false, ◌≡◌, refl, Option, none, some, List, [], ◌∷◌, arith,
}
use enterprise_llm_tracker.Base.Act.{Result, ok, err, Act}
use enterprise_llm_tracker.Base.Dict.{lookup}
use enterprise_llm_tracker.Base.Int.{pos}
use enterprise_llm_tracker.Clock.{end_of_day}
use enterprise_llm_tracker.Config.{SignalsConfig}
use enterprise_llm_tracker.Detector.{Signal, SignalDetector, fire}
use enterprise_llm_tracker.Detector.Fire.{fire_once}
use enterprise_llm_tracker.Kafka.Consumer.{
  Reader, message, round, restart, start_offset, deliver, commit, advance, finish,
}
use enterprise_llm_tracker.Kafka.Consumer.Delivery.{
  Run, started, delivered, noting, committed_seen, failed_is_skipped,
}
use enterprise_llm_tracker.Models.{Event, EngineerBaseline}
use enterprise_llm_tracker.Store.Signals.{claim_signal_fired}
use enterprise_llm_tracker.Tests.Fakes.{services, held, claim_laws, noon, empty_world}
use enterprise_llm_tracker.Tests.ThresholdExamples.{alice, event}

abbrev pub cfg : SignalsConfig ℕ
cfg = record {
  baseline_rebuild_interval_seconds = pos 86_400;
  efficiency_rollup_interval_seconds = pos 86_400;
  baseline_window_days = pos 30;
  hourly_baseline_window_days = pos 14;
  min_baseline_days = pos 14;
  burst_window_minutes = pos 30;
  burst_multiplier = 2_000;
  z_score_warn = 2_000;
  z_score_critical = 3_000;
  rhythm_break_pct = 50;
  notify_burst_critical = true;
}

abbrev detector : SignalDetector ℕ
detector = record { cfg = cfg; slack_token = "" }

abbrev pub baseline : EngineerBaseline ℕ
baseline = record {
  daily_mean = 10_000;
  daily_stddev = 2_000;
  hourly_p95 = 1_000;
  active_days = pos 20;
  hour_distribution = λ h. 40;
}

abbrev warn_burst : Signal ℕ
warn_burst = record {
  signal_type = "burst";
  severity = "warn";
  observed = 2_500;
  baseline = 1_000;
  z_score = none;
}

won : (claim_signal_fired services "alice@example.com" "burst" "warn" noon empty_world).0 ≡ ok true
unfolding claim_signal_fired end_of_day lookup
won = refl

fire_once_example :
    let after = (fire services detector alice noon warn_burst empty_world).1 in
    ((fire services detector alice noon warn_burst after).1.postgres ≡ after.postgres)
    × ((fire services detector alice noon warn_burst after).1.slack ≡ after.slack)
fire_once_example =
    fire_once services detector held claim_laws alice noon noon warn_burst warn_burst empty_world
      refl won

-- a handler that fails once, on the state true
abbrev flaky : Event ℕ → Act Bool (Result (Unit {0}))
flaky e true = (err "down", false)
flaky e false = (ok tt, false)

abbrev log : List (Option (Event ℕ))
log = some event ∷ none ∷ []

abbrev joined : Reader × (Bool × List (Event ℕ))
joined = (record { position = 0; committed = none }, (false, []))

-- two rounds, each of which commits
abbrev read_all : Reader × (Bool × List (Event ℕ))
read_all =
    (round (noting flaky) true (message none)
      (round (noting flaky) true (message (some event)) joined).1).1

two_rounds : Run log (noting flaky) joined 0 read_all
unfolding round deliver finish commit advance
two_rounds = delivered true none refl (delivered true (some event) refl started)

committed_seen_example : Memᴰ event read_all.1.1
unfolding round deliver finish commit advance
committed_seen_example =
    committed_seen flaky log joined 0 read_all (λ c h. absurd (ground (arith, h))) two_rounds 2 0
      event refl (omega arith) (omega arith) refl

failed_is_skipped_example :
    let failed =
      (round flaky true
        (message (some event))
        (record { position = 4; committed = some 4 }, true)).1 in
    let later = (round flaky true (message (some event)) failed).1 in
    ((restart 9 later).0.position ≡ 6) × ((restart 9 failed).0.position ≡ 4)
unfolding start_offset
failed_is_skipped_example =
    failed_is_skipped flaky (record { position = 4; committed = some 4 }) true event event true
      "down" false false 9 refl refl
