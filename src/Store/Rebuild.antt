-- ===== src/Store/Rebuild.antt =====
-- RebuildCounters of internal/store/store.go: the counters of Redis, set from the rows of usage_events.
-- The cost and the token counters are two dictionaries, since none of their keys is the same; a key
-- without an expiry has `none`.
use enterprise_llm_tracker.Base.{
  ◌+◌, ◌/◌, String, Bool, ◌&&◌, List, [], ◌∷◌, Option, none, some, str_eq, ltb, ◌==◌, if◌then◌else◌,
}
use enterprise_llm_tracker.Base.Dict.{Dict, lookup, insert}
use enterprise_llm_tracker.Base.Int.{ℤ, is_pos}
use enterprise_llm_tracker.Clock.{Time, day, end_of_day}
use enterprise_llm_tracker.Clock.Calendar.{end_of_month}
use enterprise_llm_tracker.Float.{Float}
use enterprise_llm_tracker.Store.Keys.{cost_key, tokens_key}
use enterprise_llm_tracker.Usage.{UsageRow}
use enterprise_llm_tracker.Usage.Queries.{select, costs_of, sum_of, tokens_of}

pub record Counters (F : Type 0) : Type 0 where
  pub costs : Dict (F × Option Time)
  pub tokens : Dict (ℤ × Option Time)

abbrev pub expiry_of : {A : Type 0} → Option (A × Option Time) → Option Time
expiry_of none = none
expiry_of (some (a, expiry)) = expiry

-- the expiry after SET with time.Until(end): the Redis client sends none for a duration that is not
-- positive, and keeps the key's for one of -1 ns
unfoldable pub set_expiry : Time → Time → Option Time → Option Time
set_expiry now end held = if ltb now end then some end else if now == end + 1 then held else none

-- SET of a value that may fail
unfoldable pub set_counter :
    {A : Type 0}
    → Option String
    → String
    → A
    → Time
    → Time
    → Dict (A × Option Time)
    → Dict (A × Option Time)
unfolding set_expiry lookup insert
set_counter (some e) key value now end d = d
set_counter none key value now end d =
    insert key (value, set_expiry now end (expiry_of (lookup key d))) d

module _ {F : Type 0} where
  -- DATE(occurred_at) = DATE($2), and the same for DATE_TRUNC('month', ...)
  unfoldable pub on_day : String → Time → UsageRow F → Bool
  on_day id now r = str_eq r.engineer_id id && (r.occurred_at / day == now / day)

  unfoldable pub in_month : String → Time → UsageRow F → Bool
  in_month id now r = str_eq r.engineer_id id && (end_of_month r.occurred_at == end_of_month now)

module _ {F : Type 0} (fl : Float F) (sum : List F → F) (fault : String → String → Option String)
    (now : Time) (rows : List (UsageRow F)) where
  abbrev pub cost_today : String → F
  cost_today id = sum (costs_of (select (on_day id now) rows))

  abbrev pub tokens_today : String → ℤ
  tokens_today id = sum_of tokens_of (select (on_day id now) rows)

  abbrev pub cost_month : String → F
  cost_month id = sum (costs_of (select (in_month id now) rows))

  abbrev is_spent : F → Bool
  is_spent x = fl.lt (fl.decimal 0 0) x

  -- one round of the loop, from the answer to its first query
  unfoldable pub set_today : String → Counters F → Counters F
  unfolding on_day set_counter
  set_today id c = record {
    costs =
        if is_spent (cost_today id)
        then set_counter (fault id "cost today") (cost_key id "today") (cost_today id) now
            (end_of_day now) c.costs
        else c.costs;
    tokens =
        if is_pos (tokens_today id)
        then set_counter (fault id "tokens today") (tokens_key id "today") (tokens_today id) now
            (end_of_day now) c.tokens
        else c.tokens;
  }

  -- and from the answer to its second
  unfoldable pub set_month : String → Counters F → Counters F
  unfolding in_month set_counter
  set_month id c = record c {
    costs =
        if is_spent (cost_month id)
        then set_counter (fault id "cost month") (cost_key id "month") (cost_month id) now
            (end_of_month now) c.costs
        else c.costs;
  }

  unfoldable pub rebuild_counters : List String → Counters F → Counters F
  unfolding set_today set_month
  rebuild_counters [] c = c
  rebuild_counters (id ∷ ids) c = elim (fault id "query today") [
    | some e ↦ rebuild_counters ids c
    | none ↦ elim (fault id "query month") [
      | some e ↦ rebuild_counters ids (set_today id c)
      | none ↦ rebuild_counters ids (set_month id (set_today id c))
    ]
  ]
