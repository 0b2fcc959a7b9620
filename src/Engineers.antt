-- ===== src/Engineers.antt =====
-- internal/store/engineers.go: the engineers table and the statements on it. The table is the list of
-- its rows in insertion order; a text column holds NULL as the empty text, which is how every
-- statement reads and writes it. A statement may fail for a reason of the connection (`fault`): it is
-- refused and changes nothing, or it is carried out and its reply is lost.
pub mod Service
pub mod Columns
pub mod Unique
pub mod Refresh
pub mod Known
pub mod Keeps
pub mod Detail
use enterprise_llm_tracker.Base.{
  String, Bool, true, false, ◌&&◌, ◌||◌, Option, none, some, not, List, [], ◌∷◌, ◌++◌, str_eq,
  if◌then◌else◌,
}
use enterprise_llm_tracker.Base.Act.{Result, ok, err}
use enterprise_llm_tracker.Base.Text.{contains}
use enterprise_llm_tracker.Clock.{Time}
use enterprise_llm_tracker.Float.{Float}
use enterprise_llm_tracker.Query.{Fault, refused, reply_lost}

pub record EngineerRow (F : Type 0) : Type 0 where
  pub id : String
  pub email : String
  pub name : String
  pub github_username : String
  pub slack_user_id : String
  pub manager_slack_id : String
  pub daily_budget_usd : F
  pub monthly_budget_usd : F
  pub team : String
  pub active : Bool
  pub created_at : Time
  pub updated_at : Time

pub record EngineerCreate (F : Type 0) : Type 0 where
  pub email : String
  pub name : String
  pub github_username : String
  pub slack_user_id : String
  pub manager_slack_id : String
  pub daily_budget_usd : F
  pub monthly_budget_usd : F
  pub team : String

-- nil fields are left untouched
pub record EngineerUpdate (F : Type 0) : Type 0 where
  pub name : Option String
  pub github_username : Option String
  pub slack_user_id : Option String
  pub manager_slack_id : Option String
  pub daily_budget_usd : Option F
  pub monthly_budget_usd : Option F
  pub team : Option String

-- ErrEngineerNotFound, ErrEngineerExists, the service's ErrValidation, and any other error
pub data EngineerError : Type 0 where
  not_found : EngineerError
  exists : EngineerError
  validation : String → EngineerError
  other : String → EngineerError

pub data Outcome (A : Type 0) : Type 0 where
  done : A → Outcome A
  failed_with : EngineerError → Outcome A

-- What Postgres supplies: a fresh id, the time, and the value of a NUMERIC(10, 2) column, if the
-- number fits.
pub record Server (F : Type 0) : Type 0 where
  pub new_id : String
  pub now : Time
  pub numeric : F → Result F

-- a row of the table has the value, in one of its two unique columns
unfoldable pub has_email : {F : Type 0} → String → List (EngineerRow F) → Bool
has_email email [] = false
has_email email (r ∷ rs) = str_eq r.email email || has_email email rs

unfoldable pub has_github : {F : Type 0} → String → List (EngineerRow F) → Bool
has_github github [] = false
has_github github (r ∷ rs) = str_eq r.github_username github || has_github github rs

-- a row with another email has the GitHub name
unfoldable pub is_taken : {F : Type 0} → String → String → List (EngineerRow F) → Bool
is_taken github email [] = false
is_taken github email (r ∷ rs) =
    (str_eq r.github_username github && not (str_eq r.email email)) || is_taken github email rs

-- `WHERE email = $1 AND active = TRUE`
abbrev pub is_hit : {F : Type 0} → String → EngineerRow F → Bool
is_hit email r = str_eq r.email email && r.active

unfoldable pub find_row :
    {F : Type 0} → (EngineerRow F → Bool) → List (EngineerRow F) → Option (EngineerRow F)
find_row p [] = none
find_row p (r ∷ rs) = if p r then some r else find_row p rs

-- SET on every row that the WHERE clause selects
unfoldable pub set_rows :
    {F : Type 0}
    → (EngineerRow F → Bool)
    → (EngineerRow F → EngineerRow F)
    → List (EngineerRow F)
    → List (EngineerRow F)
set_rows p f [] = []
set_rows p f (r ∷ rs) = (if p r then f r else r) ∷ set_rows p f rs

abbrev pub or_else {ℓ} : {A : Type ℓ} → Option A → A → A
or_else none a = a
or_else (some b) a = b

-- isUniqueViolation, on the text of an error
unfoldable pub error_of : String → EngineerError
unfolding contains
error_of e = if contains e "SQLSTATE 23505" then exists else other e

module _ {F : Type 0} (fl : Float F) (sv : Server F) where
  -- COALESCE(NULLIF($6, 0), 25.00)
  unfoldable pub budget_or : F → F → F
  budget_or default x = if fl.le x (fl.decimal 0 0) && fl.le (fl.decimal 0 0) x then default else x

  unfoldable pub new_row : EngineerCreate F → F → F → EngineerRow F
  new_row input daily monthly = record {
    id = sv.new_id;
    email = input.email;
    name = input.name;
    github_username = input.github_username;
    slack_user_id = input.slack_user_id;
    manager_slack_id = input.manager_slack_id;
    daily_budget_usd = daily;
    monthly_budget_usd = monthly;
    team = input.team;
    active = true;
    created_at = sv.now;
    updated_at = sv.now;
  }

  unfoldable pub insert_row :
      EngineerCreate F
      → Result F
      → Result F
      → List (EngineerRow F)
      → Outcome (EngineerRow F) × List (EngineerRow F)
  insert_row input (err e) monthly t = (failed_with (other e), t)
  insert_row input (ok daily) (err e) t = (failed_with (other e), t)
  insert_row input (ok daily) (ok monthly) t =
      if has_email input.email t || has_github input.github_username t
      then (failed_with exists, t)
      else (done (new_row input daily monthly), t ++ new_row input daily monthly ∷ [])

  -- CreateEngineer
  unfoldable pub create_engineer :
      Option Fault
      → EngineerCreate F
      → List (EngineerRow F)
      → Outcome (EngineerRow F) × List (EngineerRow F)
  create_engineer (some (refused e)) input t = (failed_with (error_of e), t)
  create_engineer (some (reply_lost e)) input t = (
    failed_with (error_of e),
    (insert_row input (sv.numeric (budget_or (fl.decimal 2500 2) input.daily_budget_usd))
        (sv.numeric (budget_or (fl.decimal 50000 2) input.monthly_budget_usd)) t).1,
  )
  create_engineer none input t =
      insert_row input (sv.numeric (budget_or (fl.decimal 2500 2) input.daily_budget_usd))
        (sv.numeric (budget_or (fl.decimal 50000 2) input.monthly_budget_usd)) t

  -- the SET clause, on budgets that are rounded to the column's type
  unfoldable pub patch : EngineerUpdate F → Option F → Option F → EngineerRow F → EngineerRow F
  patch input daily monthly r = record r {
    name = or_else input.name r.name;
    github_username = or_else input.github_username r.github_username;
    slack_user_id = or_else input.slack_user_id r.slack_user_id;
    manager_slack_id = or_else input.manager_slack_id r.manager_slack_id;
    daily_budget_usd = or_else daily r.daily_budget_usd;
    monthly_budget_usd = or_else monthly r.monthly_budget_usd;
    team = or_else input.team r.team;
    updated_at = sv.now;
  }

  abbrev pub round_given : Option F → Result (Option F)
  round_given none = ok none
  round_given (some x) = elim (sv.numeric x) [ ok y ↦ ok (some y) | err e ↦ err e ]

  -- the row that an UPDATE hits is changed, unless its new GitHub name is another row's
  unfoldable pub update_hit :
      String
      → EngineerUpdate F
      → Option F
      → Option F
      → Option (EngineerRow F)
      → List (EngineerRow F)
      → Outcome (EngineerRow F) × List (EngineerRow F)
  update_hit email input daily monthly none t = (failed_with not_found, t)
  update_hit email input daily monthly (some r) t =
      if is_taken (patch input daily monthly r).github_username email t
      then (failed_with exists, t)
      else (
        done (patch input daily monthly r),
        set_rows (is_hit email) (patch input daily monthly) t,
      )

  unfoldable pub update_rounded :
      String
      → EngineerUpdate F
      → Result (Option F)
      → Result (Option F)
      → List (EngineerRow F)
      → Outcome (EngineerRow F) × List (EngineerRow F)
  update_rounded email input (err e) monthly t = (failed_with (other e), t)
  update_rounded email input (ok daily) (err e) t = (failed_with (other e), t)
  update_rounded email input (ok daily) (ok monthly) t =
      update_hit email input daily monthly (find_row (is_hit email) t) t

  -- UpdateEngineer
  unfoldable pub update_engineer :
      Option Fault
      → String
      → EngineerUpdate F
      → List (EngineerRow F)
      → Outcome (EngineerRow F) × List (EngineerRow F)
  update_engineer (some (refused e)) email input t = (failed_with (error_of e), t)
  update_engineer (some (reply_lost e)) email input t = (
    failed_with (error_of e),
    (update_rounded email input (round_given input.daily_budget_usd)
        (round_given input.monthly_budget_usd) t).1,
  )
  update_engineer none email input t =
      update_rounded email input (round_given input.daily_budget_usd)
        (round_given input.monthly_budget_usd) t

  -- DeactivateEngineer
  unfoldable pub deactivate_engineer :
      Option Fault → String → List (EngineerRow F) → Outcome (Unit {0}) × List (EngineerRow F)
  deactivate_engineer (some (refused e)) email t = (failed_with (other e), t)
  deactivate_engineer (some (reply_lost e)) email t = (
    failed_with (other e),
    set_rows (is_hit email) (λ r. record r { active = false; updated_at = sv.now }) t,
  )
  deactivate_engineer none email t = elim (find_row (is_hit email) t) [
    | none ↦ (failed_with not_found, t)
    | some _ ↦
        (done tt, set_rows (is_hit email) (λ r. record r { active = false; updated_at = sv.now }) t)
  ]

-- GetEngineerByEmail
unfoldable pub get_engineer_by_email :
    {F : Type 0} → Option String → String → List (EngineerRow F) → Outcome (EngineerRow F)
get_engineer_by_email (some e) email t = failed_with (other e)
get_engineer_by_email none email t = elim (find_row (λ r. str_eq r.email email) t) [
  | none ↦ failed_with not_found
  | some r ↦ done r
]
