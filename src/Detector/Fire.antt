-- ===== src/Detector/Fire.antt =====
-- What firing a signal does.
use enterprise_llm_tracker.Base.{
  ◌+◌, ◌-◌, String, Bool, true, false, ◌&&◌, ◌≡◌, ap, ◌∙◌, arith, str_eq, inl, inr,
}
use enterprise_llm_tracker.Base.Act.{ok, Result-cases}
use enterprise_llm_tracker.Base.Int.{ℤ}
use enterprise_llm_tracker.Clock.{Time, hour, end_of_day}
use enterprise_llm_tracker.Detector.{
  burst_engineer_message, burst_manager_message, Signal, SignalDetector, send_if_known,
  notify_burst, event_of_signal, record_signal, fire,
}
use enterprise_llm_tracker.Registry.{Engineer}
use enterprise_llm_tracker.Services.{Services, World}
use enterprise_llm_tracker.Services.Laws.{ClaimLaws}
use enterprise_llm_tracker.Slack.{post_dm}
use enterprise_llm_tracker.Store.Signals.{
  claim_signal_fired, write_signal_event, mark_signal_notified, signal_fired_key, row_of_signal,
}

module _ {F R P S K C : Type 0} (sv : Services F R P S K C) (d : SignalDetector F)
    (eng : Engineer F) (at : Time) (sig : Signal F) where
  -- A claim that is won inserts exactly one row, with the engineer's email, the type, the severity,
  -- the time of the event and the values, and not yet notified, where no message follows.
  pub fire_row :
      (w : World R P S K C)
      → (claim_signal_fired sv eng.email sig.signal_type sig.severity at w).0 ≡ ok true
      → (d.cfg.notify_burst_critical
          && str_eq sig.signal_type "burst"
          && str_eq sig.severity "critical")
        ≡ false
      → (fire sv d eng at sig w).1.postgres
        ≡ (sv.postgres.insert_signal (row_of_signal (event_of_signal sv d eng at sig)) w.postgres).1
  unfolding fire record_signal write_signal_event claim_signal_fired
  fire_row w won quiet = ground (arith, won, quiet)

  module _ (held : R → String → Bool) (cl : ClaimLaws sv.redis held) where
    claim_held :
        (w : World R P S K C)
        → (claim_signal_fired sv eng.email sig.signal_type sig.severity at w).0 ≡ ok true
        → (held w.redis (signal_fired_key eng.email sig.signal_type sig.severity at) ≡ false)
          × (held
                (claim_signal_fired sv eng.email sig.signal_type sig.severity at w).1.redis
                (signal_fired_key eng.email sig.signal_type sig.severity at)
              ≡ true)
    unfolding claim_signal_fired
    claim_held w h =
        let key = signal_fired_key eng.email sig.signal_type sig.severity at in
        let ttl = end_of_day at + hour - (sv.machine.now w.machine).0 in
        ground (arith, cl.won_absent key "1" ttl w.redis, cl.won_held key "1" ttl w.redis, h)

    claim_frame :
        (w : World R P S K C)
        → ((claim_signal_fired sv eng.email sig.signal_type sig.severity at w).1.postgres
            ≡ w.postgres)
          × ((claim_signal_fired sv eng.email sig.signal_type sig.severity at w).1.slack ≡ w.slack)
    unfolding claim_signal_fired
    claim_frame w = ground arith

    -- A signal whose key is held already writes no row and sends no message.
    pub fire_again :
        (w : World R P S K C)
        → held w.redis (signal_fired_key eng.email sig.signal_type sig.severity at) ≡ true
        → ((fire sv d eng at sig w).1.postgres ≡ w.postgres)
          × ((fire sv d eng at sig w).1.slack ≡ w.slack)
    unfolding fire
    fire_again w h = ground (arith, h, claim_held w, claim_frame w)

module _ {F R P S K C : Type 0} (sv : Services F R P S K C) (d : SignalDetector F) where
  redis-send_if_known :
      (id text : String) (w : World R P S K C) → (send_if_known sv d id text w).1.redis ≡ w.redis
  unfolding send_if_known post_dm
  redis-send_if_known id text w = ground arith

  redis-notify_burst :
      (eng : Engineer F) (observed baseline : F) (id : ℤ) (w : World R P S K C)
      → (notify_burst sv d eng observed baseline id w).1.redis ≡ w.redis
  unfolding notify_burst mark_signal_notified
  redis-notify_burst eng observed baseline id w =
      let w₁ = record w { machine = (sv.machine.now w.machine).1 } in
      let engineer_text = burst_engineer_message sv.float d.cfg eng.name observed baseline in
      let w₂ = (send_if_known sv d eng.slack_user_id engineer_text w₁).1 in
      let manager_text = burst_manager_message sv.float d.cfg eng.name observed baseline in
      ground (
        arith,
        redis-send_if_known eng.slack_user_id engineer_text w₁,
        redis-send_if_known eng.manager_slack_id manager_text w₂,
      )

  redis-record_signal :
      (eng : Engineer F) (at : Time) (sig : Signal F) (w : World R P S K C)
      → (record_signal sv d eng at sig w).1.redis ≡ w.redis
  unfolding record_signal write_signal_event
  redis-record_signal eng at sig w =
      let row = row_of_signal (event_of_signal sv d eng at sig) in
      elim (Result-cases (sv.postgres.insert_signal row w.postgres).0) [
        | inl (id, written) ↦
            let w₁ = record w { postgres = (sv.postgres.insert_signal row w.postgres).1 } in
            ground (arith, written, redis-notify_burst eng sig.observed sig.baseline id w₁)
        | inr (e, failed) ↦ ground (arith, failed)
      ]

  redis-fire :
      (eng : Engineer F) (at : Time) (sig : Signal F) (w : World R P S K C)
      → (claim_signal_fired sv eng.email sig.signal_type sig.severity at w).0 ≡ ok true
      → (fire sv d eng at sig w).1.redis
        ≡ (claim_signal_fired sv eng.email sig.signal_type sig.severity at w).1.redis
  unfolding fire
  redis-fire eng at sig w won = ground (
    arith,
    won,
    redis-record_signal eng at sig
        (claim_signal_fired sv eng.email sig.signal_type sig.severity at w).1,
  )

  -- The same type and severity fire at most once per engineer and day: after a signal whose claim
  -- was won, another one with the same key, whatever its values, writes no row and sends no message,
  -- while the claim has not expired.
  pub fire_once :
      (held : R → String → Bool) (cl : ClaimLaws sv.redis held) (eng : Engineer F) (at at' : Time)
      (sig sig' : Signal F) (w : World R P S K C)
      → signal_fired_key eng.email sig'.signal_type sig'.severity at'
        ≡ signal_fired_key eng.email sig.signal_type sig.severity at
      → (claim_signal_fired sv eng.email sig.signal_type sig.severity at w).0 ≡ ok true
      → let w' = (fire sv d eng at sig w).1 in
        ((fire sv d eng at' sig' w').1.postgres ≡ w'.postgres)
        × ((fire sv d eng at' sig' w').1.slack ≡ w'.slack)
  fire_once held cl eng at at' sig sig' w same won =
      fire_again sv d eng at' sig' held cl (fire sv d eng at sig w).1
        (ap (held (fire sv d eng at sig w).1.redis) same ∙ still_held)
    where
      still_held :
          held
            (fire sv d eng at sig w).1.redis
            (signal_fired_key eng.email sig.signal_type sig.severity at)
          ≡ true
      still_held =
          ap (λ r. held r (signal_fired_key eng.email sig.signal_type sig.severity at))
            (redis-fire eng at sig w won)
          ∙ (claim_held sv d eng at sig held cl w won).1
