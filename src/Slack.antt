-- ===== src/Slack.antt =====
-- internal/slack/client.go. The request's JSON has two text fields, so marshalling it and building
-- the request to the constant URL do not fail.
use enterprise_llm_tracker.Base.{String, Bool, true, false, not, [], ◌∷◌, str_eq, if◌then◌else◌}
use enterprise_llm_tracker.Base.Act.{Result, ok, err, Act, ◌>>=◌, pure}
use enterprise_llm_tracker.Base.Format.{concat}
use enterprise_llm_tracker.Services.{
  Services, World, SlackReply, unreachable, undecodable, answer, on_slack,
}

unfoldable pub configured : String → Bool
configured token = not (str_eq token "")

unfoldable pub read_reply : SlackReply → Result String
read_reply (unreachable e) = err (concat ("slack request: " ∷ e ∷ []))
read_reply (undecodable e) = err (concat ("slack decode response: " ∷ e ∷ []))
read_reply (answer true ts e) = ok ts
read_reply (answer false ts e) = err (concat ("slack api error: " ∷ e ∷ []))

module _ {F R P S K C : Type 0} (sv : Services F R P S K C) where
  -- PostDM, of the client with this token
  unfoldable pub post_dm : String → String → String → Act (World R P S K C) (Result String)
  post_dm token slack_user_id text =
      if str_eq token ""
      then pure (err "slack: bot token not configured")
      else if str_eq slack_user_id ""
      then pure (err "slack: empty user id")
      else (do reply ← on_slack (sv.slack.post token slack_user_id text); pure (read_reply reply))
