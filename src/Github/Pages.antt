-- ===== src/Github/Pages.antt =====
-- The pages of a search are read to the end.
use enterprise_llm_tracker.Base.{
  ℕ, zero, suc, ◌≤◌, String, Bool, true, false, ◌≡◌, refl, Option, none, some, List, [], ◌∷◌, ◌++◌,
  arith,
}
use mathlib.Core.List.{append_assoc}
use enterprise_llm_tracker.Base.Act.{Result, ok, err}
use enterprise_llm_tracker.Clock.{Time}
use enterprise_llm_tracker.Github.{
  PullRequest, Page, GithubApi, Client, prs_of_nodes, query, query_text, fetch_pages,
  fetch_authored_prs,
}
use enterprise_llm_tracker.Models.{GitHubPr}

module _ {G : Type 0} (api : GithubApi G) (text : String) where
  -- the answers to the queries from a cursor on: their number, and all their nodes or the error
  pub data Answers : Option String → Client G → ℕ → Result (List PullRequest) → Type 0 where
    failed :
        {cursor : Option String} {c c' : Client G} {e : String}
        → query api text cursor c ≡ (err e, c')
        → Answers cursor c 1 (err e)
    last :
        {cursor : Option String} {c c' : Client G} {page : Page}
        → query api text cursor c ≡ (ok page, c')
        → page.has_next_page ≡ false
        → Answers cursor c 1 (ok page.nodes)
    more :
        {cursor : Option String} {c c' : Client G} {page : Page} {n : ℕ} {nodes : List PullRequest}
        → query api text cursor c ≡ (ok page, c')
        → page.has_next_page ≡ true
        → Answers (some page.end_cursor) c' n (ok nodes)
        → Answers cursor c (suc n) (ok (page.nodes ++ nodes))
    more_failed :
        {cursor : Option String} {c c' : Client G} {page : Page} {n : ℕ} {e : String}
        → query api text cursor c ≡ (ok page, c')
        → page.has_next_page ≡ true
        → Answers (some page.end_cursor) c' n (err e)
        → Answers cursor c (suc n) (err e)

-- what is made of all the nodes
unfoldable pub outcome : List GitHubPr → Time → Result (List PullRequest) → Result (List GitHubPr)
outcome out now (err e) = err e
outcome out now (ok nodes) = ok (out ++ prs_of_nodes now nodes)

prs_of_nodes-append :
    (now : Time) (xs ys : List PullRequest)
    → prs_of_nodes now (xs ++ ys) ≡ prs_of_nodes now xs ++ prs_of_nodes now ys
unfolding prs_of_nodes
prs_of_nodes-append now [] ys = refl
prs_of_nodes-append now (x ∷ xs) ys = ground (arith, prs_of_nodes-append now xs ys)

module _ {G : Type 0} (api : GithubApi G) (text : String) (now : Time) where
  fetch_pages-outcome :
      (fuel n : ℕ) (cursor : Option String) (out : List GitHubPr) (c : Client G)
      (r : Result (List PullRequest))
      → Answers api text cursor c n r
      → n ≤ fuel
      → (fetch_pages api fuel text now cursor out c).0 ≡ some (outcome out now r)
  unfolding fetch_pages outcome
  fetch_pages-outcome zero _ cursor out c _ (failed q) h = absurd (omega arith)
  fetch_pages-outcome zero _ cursor out c _ (last q l) h = absurd (omega arith)
  fetch_pages-outcome zero _ cursor out c _ (more q l a) h = absurd (omega arith)
  fetch_pages-outcome zero _ cursor out c _ (more_failed q l a) h = absurd (omega arith)
  fetch_pages-outcome (suc fuel) _ cursor out c _ (failed q) h = ground (arith, q)
  fetch_pages-outcome (suc fuel) _ cursor out c _ (last q l) h = ground (arith, q, l)
  fetch_pages-outcome (suc fuel) _ cursor out c _
        (more {c' = c'} {page = page} {n = n} {nodes = nodes} q l a) h =
      let out' = out ++ prs_of_nodes now page.nodes in
      ground (
        arith,
        q,
        l,
        fetch_pages-outcome fuel n (some page.end_cursor) out' c' (ok nodes) a (omega arith),
        prs_of_nodes-append now page.nodes nodes,
        append_assoc out (prs_of_nodes now page.nodes) (prs_of_nodes now nodes),
      )
  fetch_pages-outcome (suc fuel) _ cursor out c _
        (more_failed {c' = c'} {page = page} {n = n} {e = e} q l a) h =
      let out' = out ++ prs_of_nodes now page.nodes in
      ground (
        arith,
        q,
        l,
        fetch_pages-outcome fuel n (some page.end_cursor) out' c' (err e) a (omega arith),
      )

-- Whenever the answers to the queries for an engineer end, with an error or with a page that has no
-- next one, as many queries as there are answers are enough: FetchAuthoredPRs returns the error, and
-- not part of the result, or the pull requests of all the pages in order.
pub fetch_authored_prs-outcome :
    {G : Type 0} (api : GithubApi G) (fuel n : ℕ) (org login since : String) (is_user : Bool)
    (c : Client G) (r : Result (List PullRequest))
    → Answers api
        (query_text org login since is_user)
        none
        (record c { world = (api.now c.world).1 })
        n
        r
    → n ≤ fuel
    → (fetch_authored_prs api fuel org login since is_user c).0
      ≡ some (outcome [] (api.now c.world).0 r)
unfolding fetch_authored_prs
fetch_authored_prs-outcome api fuel n org login since is_user c r answers enough =
    let (now, g) = api.now c.world in
    fetch_pages-outcome api (query_text org login since is_user) now fuel n none []
      (record c { world = g }) r answers enough
