-- ===== src/Store/Counters/Effects.antt =====
-- What recording an event does to the counters of its engineer.
use enterprise_llm_tracker.Base.{
  ℕ, String, true, ◌≡◌, refl, ap, ◌∙◌, sym, Option, some, ltb, if◌then◌else◌,
}
use enterprise_llm_tracker.Base.Act.{Result, ok, err}
use enterprise_llm_tracker.Base.Int.{ℤ}
use enterprise_llm_tracker.Clock.{Time, unix, end_of_day}
use enterprise_llm_tracker.Clock.Calendar.{end_of_month}
use enterprise_llm_tracker.Float.{Float}
use enterprise_llm_tracker.Models.{Event}
use enterprise_llm_tracker.Services.{Services, World}
use enterprise_llm_tracker.Services.Laws.{RedisView, CounterLaws}
use enterprise_llm_tracker.Store.Keys.{cost_key, tokens_key, last_otel_key}
use enterprise_llm_tracker.Store.Counters.{
  add_cost, add_tokens, record_event, counted_cost, counted_tokens, event_script, write_event_redis,
  wrap_error,
}
use enterprise_llm_tracker.Store.Counters.KeyLaws.{
  today_ne_month, today_ne_tokens, month_ne_tokens, today_ne_seen, month_ne_seen, tokens_ne_seen,
}
use enterprise_llm_tracker.Store.Counters.Commands.{
  float_after, int_after, takes_float, takes_int, time-add_cost, float-add_cost_today,
  float-add_cost_month, int-add_cost, expiry-add_cost_today, float-add_tokens, int-add_tokens,
  expiry-add_tokens,
}

wrap_error-ok :
    (prefix : String) (res : Result (Unit {0})) → wrap_error prefix res ≡ ok tt → res ≡ ok tt
unfolding wrap_error
wrap_error-ok prefix (ok u) h = refl
wrap_error-ok prefix (err e) h = cc

counted_positive :
    {F : Type 0} (fl : Float F) (cost : Option F) (c : F)
    → cost ≡ some c
    → fl.lt (fl.decimal 0 0) c ≡ true
    → fl.lt (fl.decimal 0 0) (counted_cost fl cost) ≡ true
unfolding counted_cost
counted_positive fl cost c costs positive = rw costs (rw (positive, positive))

-- the counters of an engineer, before and after an event
pub record Counted {F R : Type 0} (fl : Float F) (v : RedisView F R) (email : String) (cost : F)
    (tokens : ℤ) (seen_at : String) (r r' : R) : Type 0 where
  pub cost_today :
      v.float_at r' (cost_key email "today")
      ≡ float_after fl v cost (v.float_at r (cost_key email "today"))
  pub cost_month :
      v.float_at r' (cost_key email "month")
      ≡ float_after fl v cost (v.float_at r (cost_key email "month"))
  pub tokens_today :
      v.int_at r' (tokens_key email "today")
      ≡ int_after tokens (v.int_at r (tokens_key email "today"))
  pub last_seen : v.text_at r' (last_otel_key email) ≡ some seen_at

-- the counters of an engineer can take an event's cost and tokens
pub record IsInRange {F R : Type 0} (fl : Float F) (v : RedisView F R) (email : String) (cost : F)
    (tokens : ℤ) (r : R) : Type 0 where
  pub cost_today : takes_float fl v cost (v.float_at r (cost_key email "today")) ≡ true
  pub cost_month : takes_float fl v cost (v.float_at r (cost_key email "month")) ≡ true
  pub tokens_today : takes_int tokens (v.int_at r (tokens_key email "today")) ≡ true

module _ {F R P S K C : Type 0} (sv : Services F R P S K C) (v : RedisView F R)
    (cl : CounterLaws sv.float sv.redis v) where
  event_script-Counted :
      (e : Event F) (now : Time) (r : R)
      → IsInRange sv.float v e.engineer_id (counted_cost sv.float e.cost_usd) (counted_tokens e) r
      → Counted sv.float v e.engineer_id
          (counted_cost sv.float e.cost_usd)
          (counted_tokens e)
          (sv.machine.rfc3339 now)
          r
          (event_script sv e now r)
  unfolding record_event
  event_script-Counted e now r range = record {
    cost_today =
        cl.float_kept_set seen today at r₂ (λ p. today_ne_seen email (sym p))
        ∙ float-add_tokens sv.float sv.redis v cl tokens n eod unow r₁ clock today
            (λ p. today_ne_tokens email (sym p))
        ∙ float-add_cost_today sv.float sv.redis v cl today month (today_ne_month email) x eod eom
            unow r refl range.cost_today;
    cost_month =
        cl.float_kept_set seen month at r₂ (λ p. month_ne_seen email (sym p))
        ∙ float-add_tokens sv.float sv.redis v cl tokens n eod unow r₁ clock month
            (λ p. month_ne_tokens email (sym p))
        ∙ float-add_cost_month sv.float sv.redis v cl today month (today_ne_month email) x eod eom
            unow r refl range.cost_month;
    tokens_today =
        cl.int_kept_set seen tokens at r₂ (λ p. tokens_ne_seen email (sym p))
        ∙ int-add_tokens sv.float sv.redis v cl tokens n eod unow r₁ clock
            (ap (takes_int n) same_tokens ∙ range.tokens_today)
        ∙ ap (int_after n) same_tokens;
    last_seen = cl.text_set seen at r₂;
  }
    where
      email : String
      email = e.engineer_id

      today : String
      today = cost_key email "today"

      month : String
      month = cost_key email "month"

      tokens : String
      tokens = tokens_key email "today"

      seen : String
      seen = last_otel_key email

      at : String
      at = sv.machine.rfc3339 now

      x : F
      x = counted_cost sv.float e.cost_usd

      n : ℤ
      n = counted_tokens e

      eod : ℕ
      eod = unix (end_of_day now)

      eom : ℕ
      eom = unix (end_of_month now)

      unow : ℕ
      unow = sv.redis.time r

      r₁ : R
      r₁ = add_cost sv.float sv.redis today month x eod eom unow r

      clock : sv.redis.time r₁ ≡ unow
      clock =
          time-add_cost sv.float sv.redis v cl today month (today_ne_month email) x eod eom unow r
            refl

      same_tokens : v.int_at r₁ tokens ≡ v.int_at r tokens
      same_tokens =
          int-add_cost sv.float sv.redis v cl today month (today_ne_month email) x eod eom unow r
            refl tokens (today_ne_tokens email) (month_ne_tokens email)

      r₂ : R
      r₂ = add_tokens sv.float sv.redis tokens n eod unow r₁

  -- If recording an event succeeds and the sums are numbers and an int64, its positive cost is added
  -- once to today's and to this month's counter of its engineer, its tokens, if positive, to today's
  -- token counter, counters start at 0, nothing else is added to them and none is deleted, and the
  -- last-seen key holds the time of the call.
  pub write_event_redis-Counted :
      (e : Event F) (w : World R P S K C)
      → IsInRange sv.float v e.engineer_id
          (counted_cost sv.float e.cost_usd)
          (counted_tokens e)
          w.redis
      → (write_event_redis sv e w).0 ≡ ok tt
      → Counted sv.float v e.engineer_id
          (counted_cost sv.float e.cost_usd)
          (counted_tokens e)
          (sv.machine.rfc3339 (sv.machine.now w.machine).0)
          w.redis
          (write_event_redis sv e w).1.redis
  unfolding write_event_redis
  write_event_redis-Counted e w range h =
      let now = (sv.machine.now w.machine).0 in
      rw (cl.ran (event_script sv e now) w.redis (wrap_error-ok _ _ h))
        (event_script-Counted e now w.redis range)

  -- After an event with a positive cost was recorded and the sums are in range, today's counter
  -- expires at the end of the UTC day of the call, if Redis' clock has not reached that second.
  -- From that second on the expiry stays as it was: a counter that had none before has none after
  -- the event.
  pub write_event_redis-expiry :
      (e : Event F) (c : F) (w : World R P S K C)
      → e.cost_usd ≡ some c
      → sv.float.lt (sv.float.decimal 0 0) c ≡ true
      → IsInRange sv.float v e.engineer_id
          (counted_cost sv.float e.cost_usd)
          (counted_tokens e)
          w.redis
      → (write_event_redis sv e w).0 ≡ ok tt
      → let today = cost_key e.engineer_id "today" in
        let eod = unix (end_of_day (sv.machine.now w.machine).0) in
        v.expiry_at (write_event_redis sv e w).1.redis today
        ≡ (if ltb (sv.redis.time w.redis) eod then some eod else v.expiry_at w.redis today)
  unfolding write_event_redis record_event
  write_event_redis-expiry e c w costs positive range h =
      let now = (sv.machine.now w.machine).0 in
      let email = e.engineer_id in
      let today = cost_key email "today" in
      let month = cost_key email "month" in
      let tokens = tokens_key email "today" in
      let unow = sv.redis.time w.redis in
      let eod = unix (end_of_day now) in
      let eom = unix (end_of_month now) in
      let x = counted_cost sv.float e.cost_usd in
      let r₁ = add_cost sv.float sv.redis today month x eod eom unow w.redis in
      let r₂ = add_tokens sv.float sv.redis tokens (counted_tokens e) eod unow r₁ in
      let clock =
        time-add_cost sv.float sv.redis v cl today month (today_ne_month email) x eod eom unow
          w.redis refl in
      rw (cl.ran (event_script sv e now) w.redis (wrap_error-ok _ _ h)) (
        cl.expiry_kept_set (last_otel_key email) today (sv.machine.rfc3339 now) r₂
          (λ p. today_ne_seen email (sym p))
        ∙ expiry-add_tokens sv.float sv.redis v cl tokens (counted_tokens e) eod unow r₁ clock today
            (λ p. today_ne_tokens email (sym p))
        ∙ expiry-add_cost_today sv.float sv.redis v cl today month (today_ne_month email) x eod eom
            unow w.redis refl (counted_positive sv.float e.cost_usd c costs positive)
            range.cost_today)
