-- ===== src/Tests/EngineerExamples.antt =====
-- An engineer who is created and deactivated.
use mathlib.Core.List.{Perm}
use enterprise_llm_tracker.Engineers.Detail.{
  EngineerWithUsage, insert_by, order_by, list_engineers, attach_usage, list,
}
use enterprise_llm_tracker.Engineers.Detail.Ordered.{IsInOrder, list-IsInOrder}
use enterprise_llm_tracker.Usage.Queries.{select, answer}
use enterprise_llm_tracker.Base.{ℕ, String, true, false, ◌≡◌, refl, none, some, List, [], ◌∷◌, map}
use enterprise_llm_tracker.Base.Act.{Result, ok, err}
use enterprise_llm_tracker.Base.Text.{trim_left, trim_right}
use enterprise_llm_tracker.Engineers.{
  EngineerRow, EngineerCreate, EngineerUpdate, done, Server, has_email, has_github, is_hit,
  find_row, new_row, budget_or, insert_row, create_engineer, deactivate_engineer,
}
use enterprise_llm_tracker.Engineers.Known.{create_known, deactivate_known}
use enterprise_llm_tracker.Engineers.Refresh.{as_engineer, refresh_registry_known}
use enterprise_llm_tracker.Engineers.Service.{
  State, Texts, to_registry, clean_create, check_create, refresh_registry, settle, create,
  deactivate,
}
use enterprise_llm_tracker.Engineers.Columns.{IsUnique}
use enterprise_llm_tracker.Registry.{Registry, lookup_by_email}
use enterprise_llm_tracker.Tests.Fakes.{thousandths, noon}

abbrev pub server : Server ℕ
server = record { new_id = "id"; now = noon; numeric = λ x. ok x }

abbrev pub texts : Texts
texts = record { to_lower = λ s. s; is_address = λ s. true }

abbrev empty_registry : Registry ℕ
empty_registry = record {
  snap = record { by_email = []; by_github = [] };
  stats = record { count = 0; last_refresh_at = 0; last_refresh_error = "" };
}

abbrev pub input : EngineerCreate ℕ
input = record {
  email = "a@x.io ";
  name = "Ann";
  github_username = "ann";
  slack_user_id = "";
  manager_slack_id = "";
  daily_budget_usd = 0;
  monthly_budget_usd = 100_000;
  team = "";
}

abbrev change : EngineerUpdate ℕ
change = record {
  name = none;
  github_username = some "ann2";
  slack_user_id = none;
  manager_slack_id = none;
  daily_budget_usd = none;
  monthly_budget_usd = none;
  team = none;
}

abbrev pub ann : EngineerRow ℕ
ann = record {
  id = "id";
  email = "a@x.io";
  name = "Ann";
  github_username = "ann";
  slack_user_id = "";
  manager_slack_id = "";
  daily_budget_usd = 25_000;
  monthly_budget_usd = 100_000;
  team = "";
  active = true;
  created_at = noon;
  updated_at = noon;
}

abbrev start : State ℕ
start = record { table = []; registry = empty_registry }

abbrev pub one : State ℕ
one = record { table = ann ∷ []; registry = empty_registry }

ann-IsUnique : IsUnique (ann ∷ [])
unfolding IsUnique has_email has_github
ann-IsUnique = (refl, refl, tt)

none-IsUnique : IsUnique start.table
unfolding IsUnique
none-IsUnique = tt

created :
    (create thousandths server texts (record { statement = none; refresh = none }) input start).0
    ≡ done ann
unfolding create check_create clean_create settle create_engineer insert_row new_row budget_or
    has_email has_github trim_left trim_right
created = refl

deactivated :
    (deactivate thousandths server (record { statement = none; refresh = none }) "a@x.io" one).0
    ≡ done tt
unfolding deactivate settle deactivate_engineer find_row
deactivated = refl

refresh_registry_known_example :
    lookup_by_email
      (refresh_registry thousandths server none (ann ∷ []) empty_registry).registry
      "a@x.io"
    ≡ as_engineer (find_row (is_hit "a@x.io") (ann ∷ []))
refresh_registry_known_example =
    refresh_registry_known thousandths server (ann ∷ []) empty_registry "a@x.io" ann-IsUnique

create_known_example :
    let after =
      create thousandths server texts (record { statement = none; refresh = none }) input start in
    (after.1.table ≡ ann ∷ [])
    × ("a@x.io" ≡ (clean_create thousandths texts input).email)
    × (has_email "a@x.io" start.table ≡ false)
    × (lookup_by_email after.1.registry "a@x.io" ≡ some (to_registry ann))
    × IsUnique after.1.table
create_known_example =
    create_known thousandths server texts none input start ann none-IsUnique created

deactivate_known_example :
    let after =
      deactivate thousandths server (record { statement = none; refresh = none }) "a@x.io" one in
    (lookup_by_email after.1.registry "a@x.io" ≡ none) × IsUnique after.1.table
deactivate_known_example =
    deactivate_known thousandths server none "a@x.io" one ann-IsUnique deactivated

abbrev bob : EngineerRow ℕ
bob = record ann { email = "b@x.io"; name = "Bob"; active = false }

abbrev no_counter : String → String → Result ℕ
no_counter email period = err "connection refused"

abbrev shown : List (EngineerWithUsage ℕ)
shown = record { engineer = ann; cost_today_usd = 0; cost_month_usd = 0 } ∷ []

listed : list thousandths no_counter (λ a b. true) none (ann ∷ bob ∷ []) ≡ ok shown
unfolding list list_engineers order_by insert_by select answer attach_usage
listed = refl

list-IsInOrder_example :
    IsInOrder (λ (a b : EngineerRow ℕ). true) (map (λ (e : EngineerWithUsage ℕ). e.engineer) shown)
    × Perm
        (map (λ (e : EngineerWithUsage ℕ). e.engineer) shown)
        (select (λ (r : EngineerRow ℕ). r.active) (ann ∷ bob ∷ []))
list-IsInOrder_example =
    list-IsInOrder thousandths no_counter (λ a b. true) (λ a b e. refl) (λ a b c d e. refl)
      (ann ∷ bob ∷ []) shown listed
