-- ===== src/Github.antt =====
-- internal/github/client.go and fetcher.go: the search for an engineer's pull requests, page by
-- page, under GitHub's rate limit. GitHub, the clock and sleeping are parameters.
pub mod Pages
use enterprise_llm_tracker.Base.{
  ℕ, zero, suc, ◌+◌, ◌-◌, String, Bool, true, false, ◌||◌, Option, none, some, List, [], ◌∷◌, ◌++◌,
  leb, if◌then◌else◌,
}
use enterprise_llm_tracker.Base.Act.{Result, ok, err, Act, ◌>>=◌, ◌>>◌, pure}
use enterprise_llm_tracker.Base.Format.{concat}
use enterprise_llm_tracker.Base.Int.{ℤ, pos, int_lt, int_eq}
use enterprise_llm_tracker.Clock.{Time, second, is_zero}
use enterprise_llm_tracker.Models.{GitHubPr}

pub record RateLimit : Type 0 where
  pub remaining : ℤ
  pub reset_at : Time

-- a node of the search's answer
pub record PullRequest : Type 0 where
  pub number : ℤ
  pub title : String
  pub state : String
  pub created_at : Time
  pub merged_at : Option Time
  pub name_with_owner : String
  pub login : String
  pub review_count : ℤ
  pub changed_files : ℤ
  pub paths : List String

pub record Page : Type 0 where
  pub nodes : List PullRequest
  pub has_next_page : Bool
  pub end_cursor : String
  pub rate_limit : RateLimit

-- the GraphQL client, time.Now, and the `select` on ctx.Done and time.After
pub record GithubApi (G : Type 0) : Type 0 where
  pub search : String → Option String → Act G (Result Page)
  pub now : Act G Time
  pub sleep : ℕ → Act G (Result (Unit {0}))

-- the client's state: the rate limit of the last answer, and the world
pub record Client (G : Type 0) : Type 0 where
  pub rate_limit : RateLimit
  pub world : G

-- the state of a new client
abbrev pub new_client : {G : Type 0} → G → Client G
new_client g = record { rate_limit = record { remaining = pos 5000; reset_at = 0 }; world = g }

unfoldable pub pr_of_node : Time → PullRequest → GitHubPr
pr_of_node now pr = record {
  engineer_github = pr.login;
  repo = pr.name_with_owner;
  pr_number = pr.number;
  title = pr.title;
  state = pr.state;
  created_at = pr.created_at;
  merged_at = pr.merged_at;
  review_count = pr.review_count;
  files_changed = pr.changed_files;
  files = pr.paths;
  reverted = false;
  reverted_at = none;
  last_synced_at = now;
}

-- the loop over the nodes of a page; a node that is no pull request has number 0
unfoldable pub prs_of_nodes : Time → List PullRequest → List GitHubPr
prs_of_nodes now [] = []
prs_of_nodes now (pr ∷ prs) =
    let rest = prs_of_nodes now prs in
    if int_eq pr.number (pos 0) then rest else pr_of_node now pr ∷ rest

-- the search text, with the date already formatted
unfoldable pub query_text : String → String → String → Bool → String
unfolding concat
query_text org login since is_user = concat (
    "type:pr author:"
    ∷ login
    ∷ (if is_user then " user:" else " org:")
    ∷ org
    ∷ " created:>="
    ∷ since
    ∷ [])

module _ {G : Type 0} (api : GithubApi G) where
  unfoldable pub wait_if_throttled : Act (Client G) (Result (Unit {0}))
  wait_if_throttled c =
      if int_lt (pos 200) c.rate_limit.remaining || is_zero c.rate_limit.reset_at
      then (ok tt, c)
      else (let (now, g) = api.now c.world in
          let (slept, g') = api.sleep (c.rate_limit.reset_at - now + second) g in
          if leb c.rate_limit.reset_at now
          then (ok tt, record c { world = g })
          else (slept, record c { world = g' }))

  -- Query, after waiting
  unfoldable pub send : String → Option String → Act (Client G) (Result Page)
  send text cursor c =
      let (answer, g) = api.search text cursor c.world in
      elim answer [
        | err e ↦ (err (concat ("graphql query: " ∷ e ∷ [])), record c { world = g })
        | ok page ↦ (ok page, record { rate_limit = page.rate_limit; world = g })
      ]

  -- Query
  unfoldable pub query : String → Option String → Act (Client G) (Result Page)
  query text cursor = do
    waited ← wait_if_throttled
    elim waited [ err e ↦ pure (err e) | ok _ ↦ send text cursor ]

  -- the loop of FetchAuthoredPRs, with the pull requests so far; `none` is no answer yet when the
  -- fuel, the number of queries, is spent
  unfoldable pub fetch_pages :
      ℕ
      → String
      → Time
      → Option String
      → List GitHubPr
      → Act (Client G) (Option (Result (List GitHubPr)))
  fetch_pages zero text now cursor out = pure none
  fetch_pages (suc fuel) text now cursor out = do
    answer ← query text cursor
    elim answer [
      | err e ↦ pure (some (err e))
      | ok page ↦ elim page.has_next_page [
        | true ↦
            fetch_pages fuel text now (some page.end_cursor) (out ++ prs_of_nodes now page.nodes)
        | false ↦ pure (some (ok (out ++ prs_of_nodes now page.nodes)))
      ]
    ]

  unfoldable pub fetch_authored_prs :
      ℕ → String → String → String → Bool → Act (Client G) (Option (Result (List GitHubPr)))
  unfolding fetch_pages
  fetch_authored_prs fuel org login since is_user c =
      let (now, g) = api.now c.world in
      fetch_pages fuel (query_text org login since is_user) now none [] (record c { world = g })
