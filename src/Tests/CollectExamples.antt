-- ===== src/Tests/CollectExamples.antt =====
-- Runs of the collector over two pull requests, and the events that ask for one.
use mathlib.Core.List.{Memᴰ}
use enterprise_llm_tracker.Base.{
  ℕ, ◌-◌, ◌≤◌, ◌≡◌, refl, String, true, false, none, some, Option, List, [], ◌∷◌, All, arith,
}
use enterprise_llm_tracker.Base.Act.{ok}
use enterprise_llm_tracker.Base.Int.{pos}
use enterprise_llm_tracker.Clock.{hour}
use enterprise_llm_tracker.Config.{GitHubConfig}
use enterprise_llm_tracker.Efficiency.{new_collector, trigger}
use enterprise_llm_tracker.Efficiency.Collect.{
  Tables, Meets, run_pass, fetch_and_store, fetch_all, upsert_all, mark_engineer_dirty,
}
use enterprise_llm_tracker.Efficiency.Collect.Kept.{run_pass-single, run_pass-marked}
use enterprise_llm_tracker.Efficiency.Collect.Stored.{IsFetched, fetch_and_store-IsFetched}
use enterprise_llm_tracker.Models.{Event}
use enterprise_llm_tracker.Registry.{lookup_by_email}
use enterprise_llm_tracker.Reverts.{is_member}
use enterprise_llm_tracker.Store.PullRequests.{is_pr, is_int4, has_int4s, upsert_github_pr}
use enterprise_llm_tracker.Store.PullRequests.Marks.{keyed_prs, reverted_since}
use enterprise_llm_tracker.Tests.Fakes.{thousandths, noon}
use enterprise_llm_tracker.Tests.ReportExamples.{pr, prs}
use enterprise_llm_tracker.Tests.ThresholdExamples.{event, alice, reg}
use enterprise_llm_tracker.Workers.{is_trigger, TriggerState}
use enterprise_llm_tracker.Workers.Triggers.{handle_each, handle_each-asks}

abbrev cfg : GitHubConfig
cfg = record {
  org = "acme";
  repos = "acme/app" ∷ [];
  token_env = "GITHUB_TOKEN";
  scheduler = record { interval_seconds = pos 900; min_trigger_interval_seconds = pos 60 };
  lookback_days = pos 90;
  is_user = false;
}

abbrev meets : Meets ℕ
meets = record {
  fetch_at = noon;
  sync_at = noon;
  scan_at = noon;
  compute_at = noon;
  fetch = λ login since. ok prs;
  cost_of = λ email start end. ok 1_000;
  members_fault = none;
  del_fault = none;
  upsert_fault = λ p. none;
  sync_fault = λ repo. none;
  list_fault = λ repo. none;
  mark_fault = λ f. none;
  merged_fault = λ user. none;
  snapshot_fault = λ s. none;
}

-- the first of the two is there, and was marked an hour ago
abbrev before : Tables ℕ
before = record {
  prs =
      record (pr 1 "Add cache" (noon - hour)) { reverted = true; reverted_at = some (noon - hour) }
      ∷ [];
  syncs = [];
  snapshots = [];
  dirty = "alice-gh" ∷ [];
}

one_row : keyed_prs "acme/app" (pos 1) before.prs ≤ 1
unfolding keyed_prs is_pr
one_row = omega arith

marked : reverted_since "acme/app" (pos 1) before.prs ≡ some (some (noon - hour))
unfolding reverted_since is_pr
marked = refl

no_error : (fetch_and_store thousandths cfg meets ("alice-gh" ∷ []) before).0 ≡ none
unfolding fetch_and_store fetch_all upsert_all upsert_github_pr has_int4s is_int4
no_error = refl

run_pass-single_example :
    keyed_prs "acme/app"
      (pos 1)
      (run_pass thousandths cfg meets
        (mark_engineer_dirty "bob-gh")
        ("alice-gh" ∷ [])
        []
        before).prs
    ≤ 1
run_pass-single_example =
    run_pass-single thousandths cfg meets (mark_engineer_dirty "bob-gh") ("alice-gh" ∷ []) [] before
      "acme/app" (pos 1) one_row

run_pass-marked_example :
    reverted_since "acme/app"
      (pos 1)
      (run_pass thousandths cfg meets
        (mark_engineer_dirty "bob-gh")
        ("alice-gh" ∷ [])
        []
        before).prs
    ≡ some (some (noon - hour))
run_pass-marked_example =
    run_pass-marked thousandths cfg meets (mark_engineer_dirty "bob-gh") ("alice-gh" ∷ []) [] before
      "acme/app" (pos 1) (some (noon - hour)) marked

fetch_and_store-IsFetched_example :
    All
      (IsFetched thousandths cfg meets
        (fetch_and_store thousandths cfg meets ("alice-gh" ∷ []) before).1.prs)
      ("alice-gh" ∷ [])
fetch_and_store-IsFetched_example =
    fetch_and_store-IsFetched thousandths cfg meets ("alice-gh" ∷ []) before refl no_error

abbrev commit_event : Event ℕ
commit_event = record event { metric_name = "claude_code.commit.count" }

abbrev events : List (Option String × Event ℕ)
events = (none, event) ∷ (none, commit_event) ∷ (some "connection reset", commit_event) ∷ []

abbrev idle : TriggerState
idle = record { dirty = []; collector = some new_collector }

commit_asks : is_trigger commit_event ≡ true
unfolding is_trigger
commit_asks = refl

alice_known : lookup_by_email reg "alice@example.com" ≡ some alice
unfolding lookup_by_email
alice_known = refl

handle_each-asks_example :
    (is_member alice.github_username (handle_each reg events idle).dirty ≡ true)
    × ((handle_each reg events idle).collector ≡ some (trigger new_collector))
handle_each-asks_example =
    handle_each-asks reg commit_event alice commit_asks alice_known refl events idle new_collector
      (Memᴰ.tail (Memᴰ.head refl)) refl
