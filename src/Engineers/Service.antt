-- ===== src/Engineers/Service.antt =====
-- internal/service/engineer.go: validation, the changes with the registry's refresh, and the status
-- that internal/http/admin_engineers.go answers.
use enterprise_llm_tracker.Base.{
  ℕ, String, Bool, false, not, ◌||◌, Option, none, some, List, [], ◌∷◌, str_eq, if◌then◌else◌,
}
use enterprise_llm_tracker.Base.Act.{Result, ok}
use enterprise_llm_tracker.Base.Text.{trim_space}
use enterprise_llm_tracker.Query.{Fault}
use enterprise_llm_tracker.Engineers.{
  EngineerRow, EngineerCreate, EngineerUpdate, EngineerError, not_found, exists, validation, other,
  Outcome, done, failed_with, Server, create_engineer, update_engineer, deactivate_engineer,
}
use enterprise_llm_tracker.Float.{Float}
use enterprise_llm_tracker.Query.{QueryResult, query_failed, rows}
use enterprise_llm_tracker.Registry.{Engineer, Registry, load}

-- strings.ToLower, and whether net/mail.ParseAddress accepts a text
pub record Texts : Type 0 where
  pub to_lower : String → String
  pub is_address : String → Bool

module _ {F : Type 0} (fl : Float F) (texts : Texts) where
  -- the fields as validateCreate rewrites them
  unfoldable pub clean_create : EngineerCreate F → EngineerCreate F
  clean_create input = record input {
    email = trim_space (texts.to_lower input.email);
    name = trim_space input.name;
    github_username = trim_space input.github_username;
    team = trim_space input.team;
    slack_user_id = trim_space input.slack_user_id;
    manager_slack_id = trim_space input.manager_slack_id;
  }

  unfoldable pub check_create : EngineerCreate F → Option EngineerError
  check_create input =
      if not (texts.is_address input.email)
      then some (validation "email is required and must be a valid address")
      else if str_eq input.name ""
      then some (validation "name is required")
      else if str_eq input.github_username ""
      then some (validation "github_username is required")
      else if fl.lt input.daily_budget_usd (fl.decimal 0 0)
          || fl.lt input.monthly_budget_usd (fl.decimal 0 0)
      then some (validation "budgets must be non-negative")
      else none

-- `if in.X != nil { v := strings.TrimSpace(*in.X); in.X = &v }`
abbrev pub trim_given : Option String → Option String
trim_given none = none
trim_given (some s) = some (trim_space s)

abbrev pub is_blank : Option String → Bool
is_blank none = false
is_blank (some s) = str_eq s ""

module _ {F : Type 0} (fl : Float F) where
  abbrev pub is_negative : Option F → Bool
  is_negative none = false
  is_negative (some x) = fl.lt x (fl.decimal 0 0)

  unfoldable pub clean_update : EngineerUpdate F → EngineerUpdate F
  clean_update input = record input {
    name = trim_given input.name;
    github_username = trim_given input.github_username;
    slack_user_id = trim_given input.slack_user_id;
    manager_slack_id = trim_given input.manager_slack_id;
    team = trim_given input.team;
  }

  -- the checks of validateUpdate, on the trimmed fields
  unfoldable pub check_update : EngineerUpdate F → Option EngineerError
  check_update input =
      if is_blank input.name
      then some (validation "name cannot be set to empty")
      else if is_blank input.github_username
      then some (validation "github_username cannot be set to empty")
      else if is_negative input.daily_budget_usd
      then some (validation "daily_budget_usd must be non-negative")
      else if is_negative input.monthly_budget_usd
      then some (validation "monthly_budget_usd must be non-negative")
      else none

-- the table and the registry of the process
pub record State (F : Type 0) : Type 0 where
  pub table : List (EngineerRow F)
  pub registry : Registry F

-- how the statement and the refresh after it fare
pub record Faults : Type 0 where
  pub statement : Option Fault
  pub refresh : Option String

-- the columns that the registry's query reads
unfoldable pub to_registry : {F : Type 0} → EngineerRow F → Engineer F
to_registry r = record {
  id = r.id;
  email = r.email;
  name = r.name;
  github_username = r.github_username;
  slack_user_id = r.slack_user_id;
  manager_slack_id = r.manager_slack_id;
  daily_budget_usd = r.daily_budget_usd;
  monthly_budget_usd = r.monthly_budget_usd;
  team = r.team;
  active = r.active;
}

-- `WHERE active = TRUE`, in the table's order: the query fixes none
unfoldable pub active_rows : {F : Type 0} → List (EngineerRow F) → List (Result (Engineer F))
unfolding to_registry
active_rows [] = []
active_rows (r ∷ rs) =
    let rest = active_rows rs in if r.active then ok (to_registry r) ∷ rest else rest

unfoldable pub query_active :
    {F : Type 0} → Option String → List (EngineerRow F) → QueryResult (Engineer F)
query_active (some e) t = query_failed e
query_active none t = rows (active_rows t) none

module _ {F : Type 0} (fl : Float F) (sv : Server F) where
  -- refreshRegistry, after a change that left the table `t`: an error of Load is only logged
  unfoldable pub refresh_registry : Option String → List (EngineerRow F) → Registry F → State F
  refresh_registry fault t reg = record {
    table = t;
    registry = (load (query_active fault t) sv.now reg).1;
  }

  -- what follows a statement: an error leaves the registry alone
  unfoldable pub settle :
      {A : Type 0}
      → Option String
      → Outcome A × List (EngineerRow F)
      → Registry F
      → Outcome A × State F
  settle fault (failed_with e, t) reg = (failed_with e, record { table = t; registry = reg })
  settle fault (done a, t) reg = (done a, refresh_registry fault t reg)

  -- Create
  unfoldable pub create :
      Texts → Faults → EngineerCreate F → State F → Outcome (EngineerRow F) × State F
  create texts faults input s = elim (check_create fl texts (clean_create fl texts input)) [
    | some e ↦ (failed_with e, s)
    | none ↦
        settle faults.refresh
          (create_engineer fl sv faults.statement (clean_create fl texts input) s.table) s.registry
  ]

  -- Update
  unfoldable pub update :
      Faults → String → EngineerUpdate F → State F → Outcome (EngineerRow F) × State F
  update faults email input s = elim (check_update fl (clean_update fl input)) [
    | some e ↦ (failed_with e, s)
    | none ↦
        settle faults.refresh
          (update_engineer fl sv faults.statement email (clean_update fl input) s.table) s.registry
  ]

  -- Deactivate
  unfoldable pub deactivate : Faults → String → State F → Outcome (Unit {0}) × State F
  deactivate faults email s =
      settle faults.refresh (deactivate_engineer fl sv faults.statement email s.table) s.registry

-- writeServiceErr: the status of an error
unfoldable pub status_of_error : EngineerError → ℕ
status_of_error not_found = 404
status_of_error exists = 409
status_of_error (validation _) = 400
status_of_error (other _) = 500
