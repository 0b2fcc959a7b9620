-- ===== src/Threshold.antt =====
-- internal/service/threshold.go: budget thresholds, checked on every usage event. Logging is not
-- modelled. The proofs are in the modules below.
pub mod Frames
pub mod Rows
pub mod Once
pub mod Order
pub mod Audit
use enterprise_llm_tracker.Base.{
  String, Bool, true, false, ◌&&◌, not, List, [], ◌∷◌, none, some, str_eq, if◌then◌else◌,
}
use enterprise_llm_tracker.Base.Act.{Result, ok, err, Act, ◌>>=◌, ◌>>◌, pure}
use enterprise_llm_tracker.Base.Format.{concat, show_int}
use enterprise_llm_tracker.Base.Int.{ℤ, pos, int_eq}
use enterprise_llm_tracker.Clock.{Time, end_of_day}
use enterprise_llm_tracker.Clock.Calendar.{end_of_month}
use enterprise_llm_tracker.Float.{Float}
use enterprise_llm_tracker.Models.{Event, ThresholdTrigger}
use enterprise_llm_tracker.Registry.{Engineer, Registry, lookup_by_email}
use enterprise_llm_tracker.Services.{Services, World, on_machine}
use enterprise_llm_tracker.Slack.{configured, post_dm}
use enterprise_llm_tracker.Store.Claims.{
  get_cost_counter, claim_threshold_fired, write_threshold_trigger,
}

-- the two lists of its config.ThresholdsConfig and the Slack token of its client
pub record ThresholdService : Type 0 where
  pub notify_at_percent : List ℤ
  pub notify_manager_at_percent : List ℤ
  pub slack_token : String

unfoldable pub is_listed : ℤ → List ℤ → Bool
is_listed pct [] = false
is_listed pct (p ∷ ps) = if int_eq p pct then true else is_listed pct ps

module _ {F : Type 0} (fl : Float F) where
  unfoldable pub format_engineer_message : String → String → ℤ → F → F → String
  format_engineer_message name period pct spend budget =
      let label : String = if str_eq period "monthly" then "this month's" else "today's" in
      concat (
        "Heads up "
        ∷ name
        ∷ " — you've hit "
        ∷ show_int pct
        ∷ "% of "
        ∷ label
        ∷ " $"
        ∷ fl.fixed_2 budget
        ∷ " Claude budget ($"
        ∷ fl.fixed_2 spend
        ∷ " spent)."
        ∷ [])

  unfoldable pub format_manager_message : String → String → ℤ → F → F → String
  format_manager_message name period pct spend budget =
      let label : String = if str_eq period "monthly" then "monthly" else "daily" in
      concat (
        name
        ∷ " just hit "
        ∷ show_int pct
        ∷ "% of their $"
        ∷ fl.fixed_2 budget
        ∷ " "
        ∷ label
        ∷ " Claude budget ($"
        ∷ fl.fixed_2 spend
        ∷ " spent). Worth a check-in."
        ∷ [])

module _ {F R P S K C : Type 0} (sv : Services F R P S K C) (cfg : ThresholdService) where
  -- the DM to the engineer: its timestamp, or the empty text
  unfoldable pub notify_engineer : Engineer F → String → ℤ → F → F → Act (World R P S K C) String
  notify_engineer eng period pct spend budget =
      if configured cfg.slack_token && not (str_eq eng.slack_user_id "")
      then (do
        sent ←
            post_dm sv cfg.slack_token eng.slack_user_id
              (format_engineer_message sv.float eng.name period pct spend budget)
        pure (elim sent [ ok ts ↦ ts | err _ ↦ "" ]))
      else pure ""

  -- the DM to the manager, and the value of notifyManager after it
  unfoldable pub notify_manager :
      Engineer F → String → ℤ → F → F → Bool → Act (World R P S K C) Bool
  notify_manager eng period pct spend budget wanted =
      if wanted && configured cfg.slack_token && not (str_eq eng.manager_slack_id "")
      then (do
        sent ←
            post_dm sv cfg.slack_token eng.manager_slack_id
              (format_manager_message sv.float eng.name period pct spend budget)
        pure (elim sent [ ok _ ↦ wanted | err _ ↦ false ]))
      else pure wanted

  unfoldable pub fire_threshold : Engineer F → String → ℤ → F → F → Act (World R P S K C) (Unit {0})
  fire_threshold eng period pct spend budget = do
    ts ← notify_engineer eng period pct spend budget
    notified ←
        notify_manager eng period pct spend budget (is_listed pct cfg.notify_manager_at_percent)
    now ← on_machine sv.machine.now
    written ← write_threshold_trigger sv (record {
      engineer_id = eng.email;
      period = period;
      threshold_pct = pct;
      triggered_at = now;
      spend_at_trigger_usd = spend;
      budget_usd = budget;
      slack_message_ts = ts;
      notified_manager = notified;
    })
    pure tt

  -- the loop of checkPeriod over the configured percentages, and the `break` that ends it
  unfoldable pub fire_first :
      Engineer F → String → F → F → F → Time → List ℤ → Act (World R P S K C) (Unit {0})
  fire_first eng period spend budget pct expire_at [] w = (tt, w)
  fire_first eng period spend budget pct expire_at (threshold ∷ rest) w =
      elim (sv.float.lt pct (sv.float.of_int threshold)) [
        | true ↦ fire_first eng period spend budget pct expire_at rest w
        | false ↦
            let (claimed, w') = claim_threshold_fired sv eng.email period threshold expire_at w in
            elim claimed [
              | err _ ↦ fire_first eng period spend budget pct expire_at rest w'
              | ok won ↦ elim won [
                | true ↦ fire_threshold eng period threshold spend budget w'
                | false ↦ fire_first eng period spend budget pct expire_at rest w'
              ]
            ]
      ]

  abbrev pub percent_of : F → F → F
  percent_of spend budget = sv.float.mul (sv.float.div spend budget) (sv.float.decimal 100 0)

  -- the second half of checkPeriod, on the result of reading the counter
  unfoldable pub check_spend :
      Engineer F → String → F → Time → Result F → Act (World R P S K C) (Unit {0})
  check_spend eng period budget expire_at (err _) = pure tt
  check_spend eng period budget expire_at (ok spend) =
      if sv.float.le spend (sv.float.decimal 0 0)
      then pure tt
      else fire_first eng period spend budget (percent_of spend budget) expire_at
          cfg.notify_at_percent

  unfoldable pub check_period : Engineer F → String → F → Time → Act (World R P S K C) (Unit {0})
  check_period eng period budget expire_at =
      if sv.float.le budget (sv.float.decimal 0 0) then pure tt else (do
        counter ←
            get_cost_counter sv eng.email (if str_eq period "monthly" then "month" else "today")
        check_spend eng period budget expire_at counter)

  -- HandleEvent, with the registry as it is when the event is handled; it returns nil always
  unfoldable pub handle_event : Registry F → Event F → Act (World R P S K C) (Unit {0})
  handle_event reg e = elim (lookup_by_email reg e.engineer_id) [
    | none ↦ pure tt
    | some eng ↦ do
      now ← on_machine sv.machine.now
      check_period eng "daily" eng.daily_budget_usd (end_of_day now)
      check_period eng "monthly" eng.monthly_budget_usd (end_of_month now)
  ]

  -- the consumer's calls of HandleEvent, each with the registry as it is then
  unfoldable pub handle_all : List (Registry F × Event F) → World R P S K C → World R P S K C
  handle_all [] w = w
  handle_all ((reg, e) ∷ es) w = handle_all es (handle_event reg e w).1
