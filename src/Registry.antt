-- ===== src/Registry.antt =====
-- internal/registry/registry.go: the in-memory snapshot of the active engineers. The lock makes
-- each method atomic, so a method is a function on the registry's state.
use enterprise_llm_tracker.Base.{
  ℕ, String, Bool, Option, none, some, List, [], ◌∷◌, length, map, str_eq, if◌then◌else◌,
}
use enterprise_llm_tracker.Base.Act.{Result, ok, err}
use enterprise_llm_tracker.Base.Dict.{Dict, lookup, insert}
use enterprise_llm_tracker.Clock.{Time}
use enterprise_llm_tracker.Query.{QueryResult, query_failed, rows}

pub record Engineer (F : Type 0) : Type 0 where
  pub id : String
  pub email : String
  pub name : String
  pub github_username : String
  pub slack_user_id : String
  pub manager_slack_id : String
  pub daily_budget_usd : F
  pub monthly_budget_usd : F
  pub team : String
  pub active : Bool

pub record Stats : Type 0 where
  pub count : ℕ
  pub last_refresh_at : Time
  pub last_refresh_error : String

pub record Snapshot (F : Type 0) : Type 0 where
  pub by_email : Dict (Engineer F)
  pub by_github : Dict (Engineer F)

pub record Registry (F : Type 0) : Type 0 where
  pub snap : Snapshot F
  pub stats : Stats

-- the loop of AllGitHubUsernames
unfoldable pub skip_empty : List String → List String
skip_empty [] = []
skip_empty (u ∷ us) = let rest = skip_empty us in if str_eq u "" then rest else u ∷ rest

module _ {F : Type 0} where
  unfoldable pub new : Registry F
  new = record {
    snap = record { by_email = []; by_github = [] };
    stats = record { count = 0; last_refresh_at = 0; last_refresh_error = "" };
  }

  unfoldable pub record_error : String → Registry F → Registry F
  record_error e r = record r { stats = record r.stats { last_refresh_error = e } }

  -- the loop of Load, over the two maps that it fills
  unfoldable pub scan_rows : List (Result (Engineer F)) → Snapshot F → Result (Snapshot F)
  scan_rows [] s = ok s
  scan_rows (err e ∷ rs) s = err e
  scan_rows (ok e ∷ rs) s = scan_rows rs (record {
    by_email = insert e.email e s.by_email;
    by_github = insert e.github_username e s.by_github;
  })

  unfoldable pub store_snapshot : Snapshot F → Time → Registry F → Registry F
  store_snapshot s now r = record {
    snap = s;
    stats = record { count = length s.by_email; last_refresh_at = now; last_refresh_error = "" };
  }

  unfoldable pub finish_load :
      Result (Snapshot F) → Option String → Time → Registry F → Result (Unit {0}) × Registry F
  unfolding record_error store_snapshot
  finish_load (err e) after now r = (err e, record_error e r)
  finish_load (ok s) (some e) now r = (err e, record_error e r)
  finish_load (ok s) none now r = (ok tt, store_snapshot s now r)

  -- `now` is the time at which the snapshot is swapped in
  unfoldable pub load :
      QueryResult (Engineer F) → Time → Registry F → Result (Unit {0}) × Registry F
  unfolding finish_load scan_rows record_error
  load (query_failed e) now r = (err e, record_error e r)
  load (rows rs after) now r =
      finish_load (scan_rows rs (record { by_email = []; by_github = [] })) after now r

  unfoldable pub lookup_by_email : Registry F → String → Option (Engineer F)
  unfolding lookup
  lookup_by_email r email = lookup email r.snap.by_email

  unfoldable pub lookup_by_github : Registry F → String → Option (Engineer F)
  unfolding lookup
  lookup_by_github r username = lookup username r.snap.by_github

  unfoldable pub all_emails : Registry F → List String
  all_emails r = map (λ e. e.0) r.snap.by_email

  unfoldable pub all_github_usernames : Registry F → List String
  unfolding skip_empty
  all_github_usernames r = skip_empty (map (λ e. e.0) r.snap.by_github)

  unfoldable pub all_active : Registry F → List (Engineer F)
  all_active r = map (λ e. e.1) r.snap.by_email
