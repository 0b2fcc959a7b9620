-- ===== src/Threshold/Frames.antt =====
-- What the parts of the threshold check leave alone.
use enterprise_llm_tracker.Base.{String, Bool, ◌≡◌, refl, ap, ◌∙◌, arith}
use enterprise_llm_tracker.Base.Int.{ℤ}
use enterprise_llm_tracker.Models.{ThresholdTrigger}
use enterprise_llm_tracker.Registry.{Engineer}
use enterprise_llm_tracker.Services.{Services, World, TriggerRow}
use enterprise_llm_tracker.Slack.{post_dm}
use enterprise_llm_tracker.Store.Claims.{write_threshold_trigger, row_of_trigger}
use enterprise_llm_tracker.Threshold.{
  ThresholdService, is_listed, notify_engineer, notify_manager, fire_threshold,
  format_engineer_message, format_manager_message,
}

-- the one row that is inserted for a percentage
pub record Fired {F P : Type 0} (insert : TriggerRow F → P → P) (before after : P)
    (email period : String) (pct : ℤ) (spend budget : F) : Type 0 where
  pub row : TriggerRow F
  pub inserted : after ≡ insert row before
  pub engineer : row.engineer_id ≡ email
  pub in_period : row.period ≡ period
  pub percent : row.threshold_pct ≡ pct
  pub spent : row.spend_at_trigger_usd ≡ spend
  pub of_budget : row.budget_usd ≡ budget

module _ {F R P S K C : Type 0} (sv : Services F R P S K C) where
  -- a DM changes nothing but Slack
  pub post_dm_frame :
      (token user text : String) (w : World R P S K C)
      → ((post_dm sv token user text w).1.redis ≡ w.redis)
        × ((post_dm sv token user text w).1.postgres ≡ w.postgres)
  unfolding post_dm
  post_dm_frame token user text w = ground arith

  module _ (cfg : ThresholdService) (eng : Engineer F) (period : String) (pct : ℤ)
      (spend budget : F) where
    notify_engineer_frame :
        (w : World R P S K C)
        → ((notify_engineer sv cfg eng period pct spend budget w).1.redis ≡ w.redis)
          × ((notify_engineer sv cfg eng period pct spend budget w).1.postgres ≡ w.postgres)
    unfolding notify_engineer
    notify_engineer_frame w =
        let message = format_engineer_message sv.float eng.name period pct spend budget in
        ground (arith, post_dm_frame cfg.slack_token eng.slack_user_id message w)

    notify_manager_frame :
        (wanted : Bool) (w : World R P S K C)
        → ((notify_manager sv cfg eng period pct spend budget wanted w).1.redis ≡ w.redis)
          × ((notify_manager sv cfg eng period pct spend budget wanted w).1.postgres ≡ w.postgres)
    unfolding notify_manager
    notify_manager_frame wanted w =
        let message = format_manager_message sv.float eng.name period pct spend budget in
        ground (arith, post_dm_frame cfg.slack_token eng.manager_slack_id message w)

    -- firing writes no Redis key
    pub redis-fire_threshold :
        (w : World R P S K C)
        → (fire_threshold sv cfg eng period pct spend budget w).1.redis ≡ w.redis
    unfolding fire_threshold write_threshold_trigger
    redis-fire_threshold w =
        let wanted = is_listed pct cfg.notify_manager_at_percent in
        (notify_manager_frame wanted (notify_engineer sv cfg eng period pct spend budget w).1).0
        ∙ (notify_engineer_frame w).0

    -- firing inserts one row, for this engineer, period and percentage
    pub postgres-fire_threshold :
        (w : World R P S K C)
        → Fired
            (λ row p. (sv.postgres.insert_trigger row p).1)
            w.postgres
            (fire_threshold sv cfg eng period pct spend budget w).1.postgres
            eng.email
            period
            pct
            spend
            budget
    unfolding fire_threshold write_threshold_trigger row_of_trigger
    postgres-fire_threshold w =
        let wanted = is_listed pct cfg.notify_manager_at_percent in
        let (ts, w₁) = notify_engineer sv cfg eng period pct spend budget w in
        let (notified, w₂) = notify_manager sv cfg eng period pct spend budget wanted w₁ in
        let row : ThresholdTrigger F = record {
          engineer_id = eng.email;
          period = period;
          threshold_pct = pct;
          triggered_at = (sv.machine.now w₂.machine).0;
          spend_at_trigger_usd = spend;
          budget_usd = budget;
          slack_message_ts = ts;
          notified_manager = notified;
        } in
        record {
          row = row_of_trigger row;
          inserted =
              ap (λ p. (sv.postgres.insert_trigger (row_of_trigger row) p).1)
                ((notify_manager_frame wanted w₁).1 ∙ (notify_engineer_frame w).1);
          engineer = refl;
          in_period = refl;
          percent = refl;
          spent = refl;
          of_budget = refl;
        }
