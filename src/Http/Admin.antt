-- ===== src/Http/Admin.antt =====
-- internal/http/admin.go, admin_engineers.go and admin_signals.go: the handlers behind the admin
-- routes, by their effects and the status that they answer.
use enterprise_llm_tracker.Base.{
  ℕ, Bool, ◌+◌, String, Option, none, some, List, str_eq, if◌then◌else◌,
}
use enterprise_llm_tracker.Base.Act.{Result, ok, err, Act}
use enterprise_llm_tracker.Base.Dict.{at}
use enterprise_llm_tracker.Base.Int.{ℤ, pos, is_pos}
use enterprise_llm_tracker.Clock.{Time}
use enterprise_llm_tracker.Efficiency.{window_for_name}
use enterprise_llm_tracker.Engineers.{Outcome, done, failed_with, Server, get_engineer_by_email}
use enterprise_llm_tracker.Engineers.Detail.{list_engineers}
use enterprise_llm_tracker.Engineers.Service.{
  Texts, State, Faults, create, update, deactivate, query_active, status_of_error,
}
use enterprise_llm_tracker.Float.{Float}
use enterprise_llm_tracker.Http.{Request, Endpoint, bearer_auth, admin_mux}
use enterprise_llm_tracker.Ingest.Atoi.{atoi}
use enterprise_llm_tracker.Query.{QueryResult}
use enterprise_llm_tracker.Registry.{load}
use enterprise_llm_tracker.Rollup.{EngineerSignal}
use enterprise_llm_tracker.Rollup.Table.{get_engineer_signal, list_engineer_signals}
use enterprise_llm_tracker.Services.{SignalRow}
use enterprise_llm_tracker.Store.Leaderboard.{LeaderboardEntry, leaderboard}
use enterprise_llm_tracker.Store.SignalEvents.{SignalEventFilter, list_signal_events}
use enterprise_llm_tracker.Usage.{UsageRow}
use enterprise_llm_tracker.Usage.Queries.{list_recent_events}

-- the engineers with their registry, the refresh triggers that were published, and the tables that are
-- read
pub record AdminWorld (F : Type 0) : Type 0 where
  pub state : State F
  pub triggers : ℕ
  pub signals : List (EngineerSignal F)
  pub usage : List (UsageRow F)
  pub signal_events : List (SignalRow F)

-- what a request meets: the server's clock and columns, how each statement fares, the collation of
-- the database, the leaderboard's query, and time.Parse(time.RFC3339, v)
pub record Meets (F : Type 0) : Type 0 where
  pub server : Server F
  pub texts : Texts
  pub faults : Faults
  pub query_fault : Option String
  pub publish_fault : Option String
  pub collates : String → String → Bool
  pub now : Time
  pub snapshots : Time → Time → QueryResult (LeaderboardEntry F)
  pub parse_rfc3339 : String → Option Time

-- q.Get(name)
abbrev pub param : {F : Type 0} → String → Request F → String
param name r = at "" name r.query

-- the window's name, with the handler's default
unfoldable pub window_name : {F : Type 0} → String → Request F → String
window_name default r = let w = param "window" r in if str_eq w "" then default else w

-- `if n, err := strconv.Atoi(v); err == nil && n > 0`
unfoldable pub limit_given : {F : Type 0} → ℤ → Request F → ℤ
limit_given default r =
    let v = param "limit" r in
    if str_eq v ""
    then default
    else elim (atoi v) [ none ↦ default | some n ↦ if is_pos n then n else default ]

-- the filter of EventsList and EventsForEngineer; `none` where `since` cannot be parsed
unfoldable pub filter_since : {F : Type 0} → String → Request F → Time → SignalEventFilter
unfolding limit_given
filter_since engineer r since = record {
  engineer_id = engineer;
  signal_type = param "type" r;
  severity = param "severity" r;
  since = since;
  limit = limit_given (pos 0) r;
}

unfoldable pub filter_of :
    {F : Type 0} → (String → Option Time) → String → Request F → Option SignalEventFilter
unfolding filter_since
filter_of parse engineer r =
    let v = param "since" r in
    if str_eq v ""
    then some (filter_since engineer r 0)
    else elim (parse v) [ none ↦ none | some since ↦ some (filter_since engineer r since) ]

-- the status of a query that fails or not
abbrev pub queried : {A : Type 0} → Result A → ℕ
queried (ok a) = 200
queried (err e) = 500

module _ {F : Type 0} (fl : Float F) (m : Meets F) where
  -- the answer to a change of the engineers, and the world after it
  abbrev pub changed : {A : Type 0} → ℕ → AdminWorld F → Outcome A × State F → ℕ × AdminWorld F
  changed success w (done a, s) = (success, record w { state = s })
  changed success w (failed_with e, s) = (status_of_error e, record w { state = s })

  -- Create, Update and Delete of EngineerHandlers
  unfoldable pub create_handler : Request F → Act (AdminWorld F) ℕ
  create_handler r w = elim r.create_body [
    | err e ↦ (400, w)
    | ok input ↦ changed 201 w (create fl m.server m.texts m.faults input w.state)
  ]

  unfoldable pub update_handler : String → Request F → Act (AdminWorld F) ℕ
  update_handler email r w = if str_eq email "" then (400, w) else elim r.update_body [
    | err e ↦ (400, w)
    | ok input ↦ changed 200 w (update fl m.server m.faults email input w.state)
  ]

  unfoldable pub delete_handler : String → Act (AdminWorld F) ℕ
  delete_handler email w =
      if str_eq email ""
      then (400, w)
      else changed 204 w (deactivate fl m.server m.faults email w.state)

  -- Get of EngineerHandlers; the queries that only complete the answer are logged where they fail
  unfoldable pub get_handler : String → Act (AdminWorld F) ℕ
  get_handler email w =
      if str_eq email ""
      then (400, w)
      else elim (get_engineer_by_email m.query_fault email w.state.table) [
        | failed_with e ↦ (status_of_error e, w)
        | done row ↦ (200, w)
      ]

  -- RefreshRegistry and RefreshEfficiency of AdminHandlers; the trigger is published beside the answer
  unfoldable pub refresh_registry_handler : Act (AdminWorld F) ℕ
  refresh_registry_handler w =
      let (result, registry) =
        load (query_active m.query_fault w.state.table) m.now w.state.registry in
      let after = record w { state = record w.state { registry = registry } } in
      elim result [ err e ↦ (500, after) | ok _ ↦ (200, after) ]

  unfoldable pub refresh_efficiency_handler : Act (AdminWorld F) ℕ
  refresh_efficiency_handler w = elim m.publish_fault [
    | some e ↦ (202, w)
    | none ↦ (202, record w { triggers = w.triggers + 1 })
  ]

  -- Leaderboard and RecentUsage of AdminHandlers
  unfoldable pub leaderboard_handler : Request F → Act (AdminWorld F) ℕ
  unfolding window_name
  leaderboard_handler r w = elim (window_for_name (window_name "7d" r) m.now) [
    | none ↦ (400, w)
    | some (start, end) ↦ (queried (leaderboard fl (m.snapshots start end) (pos 100)), w)
  ]

  unfoldable pub recent_usage_handler : Request F → Act (AdminWorld F) ℕ
  unfolding limit_given
  recent_usage_handler r w =
      (queried (list_recent_events m.query_fault (limit_given (pos 100) r) w.usage), w)

  -- EfficiencyList
  unfoldable pub efficiency_list_handler : Request F → Act (AdminWorld F) ℕ
  unfolding window_name
  efficiency_list_handler r w = elim (window_for_name (window_name "30d" r) m.now) [
    | none ↦ (400, w)
    | some (start, end) ↦
        (queried (list_engineer_signals m.query_fault (window_name "30d" r) end w.signals), w)
  ]

  -- EfficiencyOne
  unfoldable pub efficiency_one_handler : String → Request F → Act (AdminWorld F) ℕ
  unfolding window_name
  efficiency_one_handler email r w =
      if str_eq email "" then (400, w) else elim (window_for_name (window_name "30d" r) m.now) [
        | none ↦ (400, w)
        | some (start, end) ↦
            elim (get_engineer_signal m.query_fault email (window_name "30d" r) end w.signals) [
              | err e ↦ (500, w)
              | ok none ↦ (404, w)
              | ok (some sig) ↦ (200, w)
            ]
      ]

  -- EventsList and EventsForEngineer
  unfoldable pub events_handler : String → Request F → Act (AdminWorld F) ℕ
  events_handler engineer r w = elim (filter_of m.parse_rfc3339 engineer r) [
    | none ↦ (400, w)
    | some filter ↦ (queried (list_signal_events m.query_fault filter m.now w.signal_events), w)
  ]

  unfoldable pub handle : Endpoint → Request F → Act (AdminWorld F) ℕ
  handle Endpoint.create_engineer r w = create_handler r w
  handle Endpoint.list_engineers r w =
      (queried (list_engineers m.collates m.query_fault w.state.table), w)
  handle (Endpoint.get_engineer email) r w = get_handler email w
  handle (Endpoint.update_engineer email) r w = update_handler email r w
  handle (Endpoint.delete_engineer email) r w = delete_handler email w
  handle Endpoint.leaderboard r w = leaderboard_handler r w
  handle Endpoint.recent_usage r w = recent_usage_handler r w
  handle Endpoint.refresh_efficiency r w = refresh_efficiency_handler w
  handle Endpoint.refresh_registry r w = refresh_registry_handler w
  handle Endpoint.efficiency_list r w = efficiency_list_handler r w
  handle Endpoint.events_list r w = events_handler (param "engineer" r) r w
  handle (Endpoint.efficiency_one email) r w = efficiency_one_handler email r w
  handle (Endpoint.events_for_engineer email) r w =
      if str_eq email "" then (400, w) else events_handler email r w

  -- the admin routes as NewRouter mounts them
  unfoldable pub serve_admin : String → Request F → Act (AdminWorld F) ℕ
  serve_admin admin_token r w = bearer_auth admin_token (admin_mux handle) r w
