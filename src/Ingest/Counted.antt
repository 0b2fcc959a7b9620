-- ===== src/Ingest/Counted.antt =====
-- What an attributed data point does to the counters in Redis.
use text.Mathlib.Text.{starts_with}
use enterprise_llm_tracker.Base.{
  String, true, false, Option, some, ◌&&◌, ◌≡◌, refl, sym, ap, subst, ◌∙◌, ◌⊎◌, inl, inr, none,
  arith,
}
use mathlib.Core.Path.{subst₃}
use enterprise_llm_tracker.Base.Act.{ok}
use enterprise_llm_tracker.Base.Dict.{Dict}
use enterprise_llm_tracker.Base.Int.{ℤ, pos, wrap_64, add_int, add_int-zero, zero-add_int}
use enterprise_llm_tracker.Clock.{Time}
use enterprise_llm_tracker.Ingest.{
  attr, lookup_engineer, base_event, set_tokens, metric_event, record_known_metric, record_metric,
}
use enterprise_llm_tracker.Kafka.Producer.{publish}
use enterprise_llm_tracker.Models.{Event}
use enterprise_llm_tracker.Registry.{Registry}
use enterprise_llm_tracker.Services.{Services, World}
use enterprise_llm_tracker.Services.Laws.{RedisView, CounterLaws}
use enterprise_llm_tracker.Store.Counters.{
  write_event_redis, wrap_error, event_script, counted_cost, counted_tokens,
}
use enterprise_llm_tracker.Store.Counters.Effects.{Counted, IsInRange, write_event_redis-Counted}
use enterprise_llm_tracker.Ingest.Published.{record_metric_taken}
use enterprise_llm_tracker.Store.Counters.Commands.{float_after, int_after, takes_int}
use enterprise_llm_tracker.Store.Keys.{cost_key, tokens_key, last_otel_key}

module _ {F R P S K C : Type 0} (sv : Services F R P S K C) where
  redis-publish : (e : Event F) (w : World R P S K C) → (publish sv e w).1.redis ≡ w.redis
  unfolding publish
  redis-publish e w = ground arith

  written :
      ((s : R → R) (r : R) → (sv.redis.eval s r).0 ≡ ok tt)
      → (e : Event F) (w : World R P S K C) → (write_event_redis sv e w).0 ≡ ok tt
  unfolding write_event_redis wrap_error
  written reachable e w =
      rw (reachable (event_script sv e (sv.machine.now w.machine).0) w.redis) refl

-- the kinds of tokens that are counted
abbrev pub IsTokenKind : String → Type 0
IsTokenKind kind =
    (kind ≡ "input") ⊎ (kind ≡ "output") ⊎ (kind ≡ "cacheRead") ⊎ (kind ≡ "cacheCreation")

one_kind :
    (n : ℤ)
    → wrap_64 n ≡ n
    → (add_int (add_int (add_int n (pos 0)) (pos 0)) (pos 0) ≡ n)
      × (add_int (add_int (add_int (pos 0) n) (pos 0)) (pos 0) ≡ n)
      × (add_int (add_int (pos 0) n) (pos 0) ≡ n)
      × (add_int (pos 0) n ≡ n)
one_kind n fits =
    let right = add_int-zero n fits in
    let left = zero-add_int n fits in
    let plus_zero = λ (m : ℤ). add_int m (pos 0) in
    (
      ap plus_zero (ap plus_zero right ∙ right) ∙ right,
      ap plus_zero (ap plus_zero left ∙ right) ∙ right,
      ap plus_zero left ∙ right,
      left,
    )

-- `int(value)` lies in the range of int64, so adding zero to it three times does not wrap
tokens-set_tokens :
    {F : Type 0} (ev : Event F) (kind : String) (n : ℤ)
    → (ev.tokens_input ≡ none)
      × (ev.tokens_output ≡ none)
      × (ev.tokens_cache_read ≡ none)
      × (ev.tokens_cache_creation ≡ none)
    → IsTokenKind kind
    → wrap_64 n ≡ n
    → counted_tokens (set_tokens kind n ev) ≡ n
unfolding counted_tokens set_tokens
tokens-set_tokens ev kind n (a, b, c, d) (inl e) fits = rw (e, b, c, d) (one_kind n fits).0
tokens-set_tokens ev kind n (a, b, c, d) (inr (inl e)) fits = rw (e, a, c, d) (one_kind n fits).1
tokens-set_tokens ev kind n (a, b, c, d) (inr (inr (inl e))) fits =
    rw (e, a, b, d) (one_kind n fits).2
tokens-set_tokens ev kind n (a, b, c, d) (inr (inr (inr e))) fits =
    rw (e, a, b, c) (one_kind n fits).3

frame-set_tokens :
    {F : Type 0} (ev : Event F) (kind : String) (n : ℤ)
    → ((set_tokens kind n ev).engineer_id ≡ ev.engineer_id)
      × ((set_tokens kind n ev).cost_usd ≡ ev.cost_usd)
unfolding set_tokens
frame-set_tokens ev kind n = ground arith

module _ {F R P S K C : Type 0} (sv : Services F R P S K C) (v : RedisView F R)
    (cl : CounterLaws sv.float sv.redis v)
    (reachable : (s : R → R) (r : R) → (sv.redis.eval s r).0 ≡ ok tt) (reg : Registry F)
    (res_attrs attrs : Dict String) (value : F) (ts : Time) (w : World R P S K C)
    (known : (lookup_engineer reg attrs res_attrs).1 ≡ true) where
  -- the event that the metric of this name becomes
  abbrev event_of : String → Event F
  event_of name =
      metric_event sv.float (sv.machine.new_uuid w.machine).0
        (lookup_engineer reg attrs res_attrs).0 ts name value attrs

  -- the time at which it is recorded
  abbrev pub recorded_at : Time
  recorded_at = (sv.machine.now (sv.machine.new_uuid w.machine).1).0

  record_metric-Counted :
      (name : String)
      → (starts_with name "claude_code." && (lookup_engineer reg attrs res_attrs).1) ≡ true
      → IsInRange sv.float v
          (event_of name).engineer_id
          (counted_cost sv.float (event_of name).cost_usd)
          (counted_tokens (event_of name))
          w.redis
      → Counted sv.float v
          (event_of name).engineer_id
          (counted_cost sv.float (event_of name).cost_usd)
          (counted_tokens (event_of name))
          (sv.machine.rfc3339 recorded_at)
          w.redis
          (record_metric sv reg res_attrs attrs name value ts w).1.redis
  unfolding record_known_metric
  record_metric-Counted name taken range =
      let engineer = (lookup_engineer reg attrs res_attrs).0 in
      let w₀ = record w { machine = (sv.machine.new_uuid w.machine).1 } in
      let w₁ = (write_event_redis sv (event_of name) w₀).1 in
      rw (record_metric_taken sv reg res_attrs attrs name ts value w taken) (
        subst
          (λ r.
            Counted sv.float v (event_of name).engineer_id
              (counted_cost sv.float (event_of name).cost_usd) (counted_tokens (event_of name))
              (sv.machine.rfc3339 recorded_at) w.redis r)
          (sym (redis-publish sv (event_of name) w₁))
          (write_event_redis-Counted sv v cl (event_of name) w₀ range
            (written sv reachable (event_of name) w₀)))

  -- If every script of Redis succeeds, a token metric that is attributed and of one of the four
  -- kinds has its value, cut to an integer, added to today's token counter, if positive, where the
  -- value and the sum are an int64; the cost counters stay as they are, given that 0 is not less
  -- than 0, and the last-seen key holds the time of the call.
  pub record_metric_tokens :
      (kind : String)
      → attr "type" attrs ≡ kind
      → IsTokenKind kind
      → wrap_64 (sv.float.to_int value) ≡ sv.float.to_int value
      → sv.float.lt (sv.float.decimal 0 0) (sv.float.decimal 0 0) ≡ false
      → takes_int
          (sv.float.to_int value)
          (v.int_at w.redis (tokens_key (lookup_engineer reg attrs res_attrs).0 "today"))
        ≡ true
      → let email = (lookup_engineer reg attrs res_attrs).0 in
        let r' =
          (record_metric sv reg res_attrs attrs "claude_code.token.usage" value ts w).1.redis in
        (v.float_at r' (cost_key email "today") ≡ v.float_at w.redis (cost_key email "today"))
        × (v.float_at r' (cost_key email "month") ≡ v.float_at w.redis (cost_key email "month"))
        × (v.int_at r' (tokens_key email "today")
            ≡ int_after (sv.float.to_int value) (v.int_at w.redis (tokens_key email "today")))
        × (v.text_at r' (last_otel_key email) ≡ some (sv.machine.rfc3339 recorded_at))
  unfolding metric_event counted_cost base_event
  record_metric_tokens kind is_kind one_of fits no_cost in_range =
      let engineer = (lookup_engineer reg attrs res_attrs).0 in
      let n = sv.float.to_int value in
      let ev =
        base_event (sv.machine.new_uuid w.machine).0 engineer ts "otel_metric"
          "claude_code.token.usage" attrs in
      let (same_engineer, same_cost) = frame-set_tokens ev (attr "type" attrs) n in
      let w' = record_metric sv reg res_attrs attrs "claude_code.token.usage" value ts w in
      let counts = λ (email : String) (cost : F) (tokens : ℤ).
        IsInRange sv.float v email cost tokens w.redis
        → Counted sv.float v email cost tokens (sv.machine.rfc3339 recorded_at) w.redis
            w'.1.redis in
      let counted =
        subst₃ counts same_engineer (ap (counted_cost sv.float) same_cost)
          (tokens-set_tokens ev (attr "type" attrs) n (refl, refl, refl, refl)
            (subst IsTokenKind (sym is_kind) one_of) fits)
          (record_metric-Counted "claude_code.token.usage" known)
          (record {
            cost_today = rw no_cost refl;
            cost_month = rw no_cost refl;
            tokens_today = in_range;
          }) in
      (
        counted.cost_today ∙ not_after no_cost,
        counted.cost_month ∙ not_after no_cost,
        counted.tokens_today,
        counted.last_seen,
      )
    where
      not_after :
          {old : Option F}
          → sv.float.lt (sv.float.decimal 0 0) (sv.float.decimal 0 0) ≡ false
          → float_after sv.float v (sv.float.decimal 0 0) old ≡ old
      not_after h = rw h refl
