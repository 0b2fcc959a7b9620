-- ===== src/Threshold/Audit.antt =====
-- What the audit row says of the messages that were sent.
use enterprise_llm_tracker.Base.{String, Bool, true, false, ◌≡◌, refl, none}
use enterprise_llm_tracker.Base.Int.{ℤ}
use enterprise_llm_tracker.Registry.{Engineer}
use enterprise_llm_tracker.Services.{Services, World, TriggerRow}
use enterprise_llm_tracker.Slack.{configured}
use enterprise_llm_tracker.Store.Claims.{write_threshold_trigger, row_of_trigger}
use enterprise_llm_tracker.Threshold.{
  ThresholdService, is_listed, notify_engineer, notify_manager, fire_threshold,
}

module _ {F R P S K C : Type 0} (sv : Services F R P S K C) (cfg : ThresholdService)
    (eng : Engineer F) (period : String) (pct : ℤ) (spend budget : F) where
  notify_engineer_unconfigured :
      (w : World R P S K C)
      → cfg.slack_token ≡ ""
      → notify_engineer sv cfg eng period pct spend budget w ≡ ("", w)
  unfolding notify_engineer configured
  notify_engineer_unconfigured w h = rw h refl

  notify_manager_unconfigured :
      (wanted : Bool) (w : World R P S K C)
      → cfg.slack_token ≡ ""
      → notify_manager sv cfg eng period pct spend budget wanted w ≡ (wanted, w)
  unfolding notify_manager configured
  notify_manager_unconfigured true w h = rw h refl
  notify_manager_unconfigured false w h = refl

  -- Without a Slack token, firing a threshold sends nothing: the state of Slack stays as it is. The
  -- audit row nevertheless says that the manager was notified, if the percentage is listed.
  pub fire_threshold_unconfigured :
      (w : World R P S K C)
      → cfg.slack_token ≡ ""
      → (row : TriggerRow F) × ((fire_threshold sv cfg eng period pct spend budget w).1.slack
          ≡ w.slack)
        × ((fire_threshold sv cfg eng period pct spend budget w).1.postgres
            ≡ (sv.postgres.insert_trigger row w.postgres).1)
        × (row.slack_message_ts ≡ none)
        × (row.notified_manager ≡ is_listed pct cfg.notify_manager_at_percent)
  unfolding fire_threshold write_threshold_trigger row_of_trigger
  fire_threshold_unconfigured w h =
      let wanted = is_listed pct cfg.notify_manager_at_percent in
      rw (notify_engineer_unconfigured w h, notify_manager_unconfigured wanted w h)
        (
          row_of_trigger (record {
            engineer_id = eng.email;
            period = period;
            threshold_pct = pct;
            triggered_at = (sv.machine.now w.machine).0;
            spend_at_trigger_usd = spend;
            budget_usd = budget;
            slack_message_ts = "";
            notified_manager = wanted;
          }),
          refl,
          refl,
          refl,
          refl,
        )
