-- ===== src/Tests/GithubExamples.antt =====
-- Two pages of a search, at concrete inputs.
use enterprise_llm_tracker.Base.{
  ℕ, suc, String, true, false, ◌≡◌, refl, Option, none, some, [], ◌∷◌, arith,
}
use enterprise_llm_tracker.Base.Act.{ok}
use enterprise_llm_tracker.Base.Int.{pos}
use enterprise_llm_tracker.Github.{
  RateLimit, PullRequest, Page, GithubApi, new_client, pr_of_node, query_text, query, send,
  wait_if_throttled, prs_of_nodes, fetch_authored_prs,
}
use enterprise_llm_tracker.Github.Pages.{Answers, last, more, outcome, fetch_authored_prs-outcome}
use enterprise_llm_tracker.Tests.Fakes.{noon}

abbrev node : PullRequest
node = record {
  number = pos 7;
  title = "Add a cache";
  state = "MERGED";
  created_at = noon;
  merged_at = some noon;
  name_with_owner = "acme/api";
  login = "alice";
  review_count = pos 1;
  changed_files = pos 1;
  paths = "cache.go" ∷ [];
}

abbrev issue : PullRequest
issue = record node { number = pos 0 }

abbrev limit : RateLimit
limit = record { remaining = pos 4_999; reset_at = noon }

abbrev first_page : Page
first_page = record {
  nodes = node ∷ issue ∷ [];
  has_next_page = true;
  end_cursor = "next";
  rate_limit = limit;
}

abbrev last_page : Page
last_page = record { nodes = node ∷ []; has_next_page = false; end_cursor = ""; rate_limit = limit }

abbrev page_at : Option String → Page
page_at none = first_page
page_at (some cursor) = last_page

-- the world counts the queries
abbrev api : GithubApi ℕ
api = record {
  search = λ text cursor g. (ok (page_at cursor), suc g);
  now = λ g. (noon, g);
  sleep = λ duration g. (ok tt, g);
}

abbrev text : String
text = query_text "acme" "alice" "2026-01-01" false

two_pages : Answers api text none (new_client 0) 2 (ok (node ∷ issue ∷ node ∷ []))
unfolding query wait_if_throttled send
two_pages = more {page = first_page} refl refl (last {page = last_page} refl refl)

fetch_authored_prs-outcome_example :
    (fetch_authored_prs api 2 "acme" "alice" "2026-01-01" false (new_client 0)).0
    ≡ some (ok (pr_of_node noon node ∷ pr_of_node noon node ∷ []))
unfolding prs_of_nodes outcome
fetch_authored_prs-outcome_example =
    fetch_authored_prs-outcome api 2 2 "acme" "alice" "2026-01-01" false (new_client 0)
      (ok (node ∷ issue ∷ node ∷ [])) two_pages (omega arith)
