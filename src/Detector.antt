-- ===== src/Detector.antt =====
-- internal/service/signal_detector.go: per-event signals of unusual spend. Logging and the JSON
-- context of a signal are not modelled.
pub mod Signals
pub mod Fire
pub mod Severity
use enterprise_llm_tracker.Base.{
  ℕ, ◌*◌, ◌/◌, ◌%◌, String, Bool, true, false, not, ◌&&◌, ◌||◌, Option, none, some, List, [], ◌∷◌,
  str_eq, if◌then◌else◌,
}
use enterprise_llm_tracker.Base.Act.{Result, ok, err, Act, ◌>>=◌, ◌>>◌, pure}
use enterprise_llm_tracker.Base.Format.{concat, show_int}
use enterprise_llm_tracker.Base.Int.{ℤ, pos_part, int_lt}
use enterprise_llm_tracker.Clock.{Time, minute, hour, day}
use enterprise_llm_tracker.Config.{SignalsConfig}
use enterprise_llm_tracker.Float.{Float}
use enterprise_llm_tracker.Models.{Event, SignalEvent, EngineerBaseline}
use enterprise_llm_tracker.Registry.{Engineer, Registry, lookup_by_email}
use enterprise_llm_tracker.Services.{Services, World, on_machine}
use enterprise_llm_tracker.Slack.{configured, post_dm}
use enterprise_llm_tracker.Store.Claims.{get_cost_counter}
use enterprise_llm_tracker.Store.Signals.{
  claim_signal_fired, write_signal_event, mark_signal_notified, load_baseline, bump_burst_window,
}
pub use enterprise_llm_tracker.Detector.Signals.{Signal, hour_of, is_zero_float}
unfoldable pub use enterprise_llm_tracker.Detector.Signals.{
  burst_signal, z_score_signal, rhythm_signal, burst_engineer_message, burst_manager_message,
}

-- the detector's configuration and the Slack token of its client
pub record SignalDetector (F : Type 0) : Type 0 where
  pub cfg : SignalsConfig F
  pub slack_token : String

abbrev pub is_ok {ℓ} : {A : Type ℓ} → Result A → Bool
is_ok (ok _) = true
is_ok (err _) = false

module _ {F R P S K C : Type 0} (sv : Services F R P S K C) (d : SignalDetector F) where
  -- one DM of notifyBurst, and whether it was sent
  unfoldable pub send_if_known : String → String → Act (World R P S K C) Bool
  send_if_known slack_id text =
      if str_eq slack_id ""
      then pure false
      else (do sent ← post_dm sv d.slack_token slack_id text; pure (is_ok sent))

  unfoldable pub notify_burst : Engineer F → F → F → ℤ → Act (World R P S K C) (Unit {0})
  notify_burst eng observed baseline id = if not (configured d.slack_token) then pure tt else (do
    notified_at ← on_machine sv.machine.now
    to_engineer ←
        send_if_known eng.slack_user_id
          (burst_engineer_message sv.float d.cfg eng.name observed baseline)
    to_manager ←
        send_if_known eng.manager_slack_id
          (burst_manager_message sv.float d.cfg eng.name observed baseline)
    if to_engineer || to_manager
        then (do marked ← mark_signal_notified sv id notified_at; pure tt)
        else pure tt)

  abbrev pub event_of_signal : Engineer F → Time → Signal F → SignalEvent F
  event_of_signal eng at sig = record {
    engineer_id = eng.email;
    signal_type = sig.signal_type;
    severity = sig.severity;
    occurred_at = at;
    observed_value = some sig.observed;
    baseline_value = some sig.baseline;
    z_score = sig.z_score;
    notified = false;
    notified_at = none;
  }

  -- fire, after the claim was won
  unfoldable pub record_signal : Engineer F → Time → Signal F → Act (World R P S K C) (Unit {0})
  record_signal eng at sig = do
    written ← write_signal_event sv (event_of_signal eng at sig)
    elim written [
      | err _ ↦ pure tt
      | ok id ↦
          if d.cfg.notify_burst_critical
            && str_eq sig.signal_type "burst"
            && str_eq sig.severity "critical"
          then notify_burst eng sig.observed sig.baseline id
          else pure tt
    ]

  unfoldable pub fire : Engineer F → Time → Signal F → Act (World R P S K C) (Unit {0})
  fire eng at sig = do
    claimed ← claim_signal_fired sv eng.email sig.signal_type sig.severity at
    elim claimed [ err _ ↦ pure tt | ok won ↦ if won then record_signal eng at sig else pure tt ]

  unfoldable pub fire_if : Engineer F → Time → Option (Signal F) → Act (World R P S K C) (Unit {0})
  fire_if eng at none = pure tt
  fire_if eng at (some sig) = fire eng at sig

  -- checkBurst, after the window was bumped
  unfoldable pub check_rolling : Engineer F → Time → Result F → Act (World R P S K C) (Unit {0})
  check_rolling eng at (err _) = pure tt
  check_rolling eng at (ok rolling) = do
    baseline ← load_baseline sv eng.email
    elim baseline [
      | err _ ↦ pure tt
      | ok b ↦ fire_if eng at (burst_signal sv.float d.cfg rolling b)
    ]

  unfoldable pub check_burst : Engineer F → F → Time → Act (World R P S K C) (Unit {0})
  check_burst eng cost at = do
    rolling ← bump_burst_window sv eng.email cost at (pos_part d.cfg.burst_window_minutes * minute)
    check_rolling eng at rolling

  unfoldable pub check_z_score :
      Engineer F → EngineerBaseline F → Time → Act (World R P S K C) (Unit {0})
  check_z_score eng b at =
      if sv.float.le b.daily_stddev (sv.float.decimal 0 0) then pure tt else (do
        today ← get_cost_counter sv eng.email "today"
        elim today [
          | err _ ↦ pure tt
          | ok spend ↦ fire_if eng at (z_score_signal sv.float d.cfg spend b)
        ])

  unfoldable pub check_rhythm_break :
      Engineer F → Time → EngineerBaseline F → Act (World R P S K C) (Unit {0})
  check_rhythm_break eng at b = fire_if eng at (rhythm_signal sv.float d.cfg at b)

  -- what HandleEvent does with the baseline that it read
  unfoldable pub check_baseline :
      Engineer F → Time → Result (Option (EngineerBaseline F)) → Act (World R P S K C) (Unit {0})
  check_baseline eng at (err _) = pure tt
  check_baseline eng at (ok none) = pure tt
  check_baseline eng at (ok (some b)) =
      if int_lt b.active_days d.cfg.min_baseline_days
      then pure tt
      else (do check_rhythm_break eng at b; check_z_score eng b at)

  -- `if e.CostUSD != nil && *e.CostUSD > 0`
  unfoldable pub check_cost : Engineer F → Event F → Option F → Act (World R P S K C) (Unit {0})
  check_cost eng e none = pure tt
  check_cost eng e (some cost) =
      if sv.float.lt (sv.float.decimal 0 0) cost
      then check_burst eng cost e.occurred_at
      else pure tt

  -- HandleEvent, which returns nil always
  unfoldable pub detect_event : Registry F → Event F → Act (World R P S K C) (Unit {0})
  detect_event reg e = elim (lookup_by_email reg e.engineer_id) [
    | none ↦ pure tt
    | some eng ↦ do
      check_cost eng e e.cost_usd
      baseline ← load_baseline sv eng.email
      check_baseline eng e.occurred_at baseline
  ]
