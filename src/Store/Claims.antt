-- ===== src/Store/Claims.antt =====
-- Claims of budget thresholds and their audit rows (internal/store/store.go).
use enterprise_llm_tracker.Base.{◌-◌, String, Bool, false, none, some, leb, str_eq, if◌then◌else◌}
use enterprise_llm_tracker.Base.Act.{Result, ok, err, Act, ◌>>=◌, pure}
use enterprise_llm_tracker.Base.Int.{ℤ}
use enterprise_llm_tracker.Clock.{Time}
use enterprise_llm_tracker.Models.{ThresholdTrigger}
use enterprise_llm_tracker.Services.{
  Services, World, Reply, value, missing, failed, TriggerRow, on_redis, on_postgres, on_machine,
}
use enterprise_llm_tracker.Store.Keys.{cost_key, threshold_fired_key}

unfoldable pub counter_of_reply : {F : Type 0} → F → Reply F → Result F
counter_of_reply zero_value (value v) = ok v
counter_of_reply zero_value missing = ok zero_value
counter_of_reply zero_value (failed e) = err e

unfoldable pub row_of_trigger : {F : Type 0} → ThresholdTrigger F → TriggerRow F
row_of_trigger t = record {
  engineer_id = t.engineer_id;
  period = t.period;
  threshold_pct = t.threshold_pct;
  triggered_at = t.triggered_at;
  spend_at_trigger_usd = t.spend_at_trigger_usd;
  budget_usd = t.budget_usd;
  slack_message_ts = if str_eq t.slack_message_ts "" then none else some t.slack_message_ts;
  notified_manager = t.notified_manager;
}

module _ {F R P S K C : Type 0} (sv : Services F R P S K C) where
  -- GetCostCounter
  unfoldable pub get_cost_counter : String → String → Act (World R P S K C) (Result F)
  get_cost_counter email period = do
    reply ← on_redis (sv.redis.get_float (cost_key email period))
    pure (counter_of_reply (sv.float.decimal 0 0) reply)

  -- ClaimThresholdFired; `time.Until(expireAt) <= 0` is `expire_at <= now`
  unfoldable pub claim_threshold_fired :
      String → String → ℤ → Time → Act (World R P S K C) (Result Bool)
  claim_threshold_fired email period pct expire_at = do
    now ← on_machine sv.machine.now
    if leb expire_at now
        then pure (ok false)
        else on_redis (sv.redis.set_nx (threshold_fired_key email period pct) "1" (expire_at - now))

  -- WriteThresholdTrigger
  unfoldable pub write_threshold_trigger :
      ThresholdTrigger F → Act (World R P S K C) (Result (Unit {0}))
  write_threshold_trigger t = on_postgres (sv.postgres.insert_trigger (row_of_trigger t))
