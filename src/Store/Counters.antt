-- ===== src/Store/Counters.antt =====
-- The per-engineer counters of the ingest path: WriteEventRedis (internal/store/store.go) and the
-- Lua script that it runs (internal/store/record_event.lua). go-redis formats the arguments so that
-- Lua's `tonumber` reads the same numbers, which are never nil.
pub mod KeyLaws
pub mod Commands
pub mod Effects
use enterprise_llm_tracker.Base.{ℕ, String, Bool, Option, none, some, [], ◌∷◌, ltb, if◌then◌else◌}
use enterprise_llm_tracker.Base.Act.{Result, ok, err, Act, ◌>>=◌, pure}
use enterprise_llm_tracker.Base.Format.{concat}
use enterprise_llm_tracker.Base.Int.{ℤ, pos, add_int, is_pos}
use enterprise_llm_tracker.Clock.{Time, unix, end_of_day}
use enterprise_llm_tracker.Clock.Calendar.{end_of_month}
use enterprise_llm_tracker.Float.{Float}
use enterprise_llm_tracker.Models.{Event}
use enterprise_llm_tracker.Services.{Services, World, Redis, on_redis, on_machine}
use enterprise_llm_tracker.Store.Keys.{cost_key, tokens_key, last_otel_key}

module _ {F R : Type 0} (fl : Float F) (rd : Redis F R) where
  abbrev expire_if_later : Bool → String → ℕ → R → R
  expire_if_later later key at r = if later then rd.expire_at key at r else r

  -- `if cost and cost > 0 then ... end`, for the two cost keys
  unfoldable pub add_cost : String → String → F → ℕ → ℕ → ℕ → R → R
  add_cost today month cost eod eom now r =
      if fl.lt (fl.decimal 0 0) cost
      then (let r₁ = expire_if_later (ltb now eod) today eod (rd.incr_by_float today cost r) in
          expire_if_later (ltb now eom) month eom (rd.incr_by_float month cost r₁))
      else r

  unfoldable pub add_tokens : String → ℤ → ℕ → ℕ → R → R
  add_tokens key tokens eod now r =
      if is_pos tokens then expire_if_later (ltb now eod) key eod (rd.incr_by key tokens r) else r

  -- the script, over its four keys and five arguments
  unfoldable pub record_event : String → String → String → String → F → ℕ → ℕ → ℤ → String → R → R
  record_event today month tokens_today seen cost eod eom tokens seen_at r =
      let now = rd.time r in
      rd.set seen seen_at
        (add_tokens tokens_today tokens eod now (add_cost today month cost eod eom now r))

-- `if e.CostUSD != nil && *e.CostUSD > 0`
unfoldable pub counted_cost : {F : Type 0} → Float F → Option F → F
counted_cost fl none = fl.decimal 0 0
counted_cost fl (some c) = if fl.lt (fl.decimal 0 0) c then c else fl.decimal 0 0

abbrev pub or_none : Option ℤ → ℤ
or_none none = pos 0
or_none (some n) = n

unfoldable pub counted_tokens : {F : Type 0} → Event F → ℤ
counted_tokens e =
    add_int
      (add_int (add_int (or_none e.tokens_input) (or_none e.tokens_output))
        (or_none e.tokens_cache_read))
      (or_none e.tokens_cache_creation)

unfoldable pub wrap_error : String → Result (Unit {0}) → Result (Unit {0})
wrap_error prefix (ok u) = ok u
wrap_error prefix (err e) = err (concat (prefix ∷ e ∷ []))

module _ {F R P S K C : Type 0} (sv : Services F R P S K C) where
  -- the script with the keys and arguments of an event that is recorded at `now`
  abbrev pub event_script : Event F → Time → R → R
  event_script e now =
      record_event sv.float sv.redis (cost_key e.engineer_id "today")
        (cost_key e.engineer_id "month") (tokens_key e.engineer_id "today")
        (last_otel_key e.engineer_id) (counted_cost sv.float e.cost_usd) (unix (end_of_day now))
        (unix (end_of_month now)) (counted_tokens e) (sv.machine.rfc3339 now)

  unfoldable pub write_event_redis : Event F → Act (World R P S K C) (Result (Unit {0}))
  write_event_redis e = do
    now ← on_machine sv.machine.now
    done ← on_redis (sv.redis.eval (event_script e now))
    pure (wrap_error "redis record event: " done)
