-- ===== src/Efficiency/Collect/Kept.antt =====
-- What a run of the collector leaves alone in github_prs: every change of the table is an upsert or a
-- mark.
use enterprise_llm_tracker.Base.{
  ◌≤◌, String, ◌≡◌, List, [], ◌∷◌, Option, none, some, str_eq, arith, inl, inr, Bool-cases,
}
use enterprise_llm_tracker.Base.Act.{Result-cases}
use enterprise_llm_tracker.Base.Int.{ℤ}
use enterprise_llm_tracker.Clock.{Time}
use enterprise_llm_tracker.Config.{GitHubConfig}
use enterprise_llm_tracker.Efficiency.Collect.{
  Tables, Meets, days_back, upsert_all, fetch_all, fetch_and_store, mark_all,
  detect_and_mark_reverts, run_pass, drain_dirty_engineers,
}
use enterprise_llm_tracker.Float.{Float}
use enterprise_llm_tracker.Models.{GitHubPr}
use enterprise_llm_tracker.Registry.{Engineer}
use enterprise_llm_tracker.Reverts.{RevertFinding, detect_reverts}
use enterprise_llm_tracker.Query.{Fault, refused, reply_lost}
use enterprise_llm_tracker.Store.PullRequests.{
  has_int4s, is_int4, upsert_pr, upsert_github_pr, mark_rows, mark_pr_reverted,
  list_recent_prs_by_repo,
}
use enterprise_llm_tracker.Store.PullRequests.Marks.{
  reverted_since, keyed_prs, keyed_prs-upsert_pr, keyed_prs-mark_rows, reverted_since-upsert_pr,
  reverted_since-mark_rows,
}

module _ {F : Type 0} (fl : Float F) (cfg : GitHubConfig) (m : Meets F) (P : List GitHubPr → Type 0)
    (upserted : (pr : GitHubPr) (t : List GitHubPr) → P t → P (upsert_pr pr t))
    (marked : (repo : String) (number : ℤ) (at : Time) (t : List GitHubPr)
      → P t
      → P (mark_rows repo number at t)) where
  upsert_github_pr-keeps :
      (fault : Option Fault) (pr : GitHubPr) (t : List GitHubPr)
      → P t
      → P (upsert_github_pr fault pr t).1
  unfolding upsert_github_pr
  upsert_github_pr-keeps (some (refused e)) pr t p = p
  upsert_github_pr-keeps (some (reply_lost e)) pr t p = elim (Bool-cases (has_int4s pr)) [
    | inl fits ↦ rw (fits, upsert_github_pr) (upserted pr t p)
    | inr large ↦ rw (large, upsert_github_pr) p
  ]
  upsert_github_pr-keeps none pr t p = elim (Bool-cases (has_int4s pr)) [
    | inl fits ↦ rw (fits, upsert_github_pr) (upserted pr t p)
    | inr large ↦ rw (large, upsert_github_pr) p
  ]

  mark_pr_reverted-keeps :
      (fault : Option Fault) (repo : String) (number : ℤ) (at : Time) (t : List GitHubPr)
      → P t
      → P (mark_pr_reverted fault repo number at t).1
  unfolding mark_pr_reverted
  mark_pr_reverted-keeps (some (refused e)) repo number at t p = p
  mark_pr_reverted-keeps (some (reply_lost e)) repo number at t p =
      elim (Bool-cases (is_int4 number)) [
        | inl fits ↦ rw (fits, mark_pr_reverted) (marked repo number at t p)
        | inr large ↦ rw (large, mark_pr_reverted) p
      ]
  mark_pr_reverted-keeps none repo number at t p = elim (Bool-cases (is_int4 number)) [
    | inl fits ↦ rw (fits, mark_pr_reverted) (marked repo number at t p)
    | inr large ↦ rw (large, mark_pr_reverted) p
  ]

  pub upsert_all-keeps :
      (prs : List GitHubPr) (last : Option String) (t : List GitHubPr)
      → P t
      → P (upsert_all fl cfg m prs last t).1
  unfolding upsert_all
  upsert_all-keeps [] last t p = p
  upsert_all-keeps (pr ∷ prs) last t p =
      let out = upsert_github_pr (m.upsert_fault pr) pr t in
      let kept = upsert_github_pr-keeps (m.upsert_fault pr) pr t p in
      elim (Result-cases out.0) [
        | inl (_, stored) ↦ rw (stored, upsert_all) (upsert_all-keeps prs last out.1 kept)
        | inr (e, failed) ↦ rw (failed, upsert_all) (upsert_all-keeps prs (some e) out.1 kept)
      ]

  pub fetch_all-keeps :
      (logins : List String) (last : Option String) (t : List GitHubPr)
      → P t
      → P (fetch_all fl cfg m logins last t).1
  unfolding fetch_all
  fetch_all-keeps [] last t p = p
  fetch_all-keeps (login ∷ logins) last t p = elim (Bool-cases (str_eq login "")) [
    | inl blank ↦ rw (blank, fetch_all) (fetch_all-keeps logins last t p)
    | inr named ↦ elim (Result-cases (m.fetch login (days_back cfg.lookback_days m.fetch_at))) [
      | inl (prs, fetched) ↦
          rw (named, fetched, fetch_all)
            (fetch_all-keeps logins (upsert_all fl cfg m prs last t).0
              (upsert_all fl cfg m prs last t).1 (upsert_all-keeps prs last t p))
      | inr (e, failed) ↦ rw (named, failed, fetch_all) (fetch_all-keeps logins (some e) t p)
    ]
  ]

  fetch_and_store-keeps :
      (logins : List String) (w : Tables F) → P w.prs → P (fetch_and_store fl cfg m logins w).1.prs
  unfolding fetch_and_store
  fetch_and_store-keeps logins w p = elim (Bool-cases (str_eq cfg.org "")) [
    | inl blank ↦ rw (blank, fetch_and_store) p
    | inr set ↦ rw (set, fetch_and_store) (fetch_all-keeps logins none w.prs p)
  ]

  mark_all-keeps : (fs : List RevertFinding) (t : List GitHubPr) → P t → P (mark_all fl cfg m fs t)
  unfolding mark_all
  mark_all-keeps [] t p = p
  mark_all-keeps (f ∷ fs) t p =
      mark_all-keeps fs _
        (mark_pr_reverted-keeps (m.mark_fault f) f.original_repo f.original_pr f.reverted_at t p)

  detect-keeps :
      (repos : List String) (t : List GitHubPr) → P t → P (detect_and_mark_reverts fl cfg m repos t)
  unfolding detect_and_mark_reverts
  detect-keeps [] t p = p
  detect-keeps (repo ∷ repos) t p =
      let since = days_back cfg.lookback_days m.scan_at in
      elim (Result-cases (list_recent_prs_by_repo (m.list_fault repo) repo since t)) [
        | inl (prs, listed) ↦
            rw (listed, detect_and_mark_reverts)
              (detect-keeps repos _ (mark_all-keeps (detect_reverts fl prs) t p))
        | inr (e, failed) ↦ rw (failed, detect_and_mark_reverts) (detect-keeps repos t p)
      ]

  run_pass-keeps :
      (late : List String → List String) (logins : List String) (engineers : List (Engineer F))
      (w : Tables F)
      → P w.prs
      → P (run_pass fl cfg m late logins engineers w).prs
  unfolding run_pass
  run_pass-keeps late logins engineers w p =
      let drained = (drain_dirty_engineers m.members_fault m.del_fault late w.dirty).1 in
      let start = record w { dirty = drained } in
      detect-keeps cfg.repos (fetch_and_store fl cfg m logins start).1.prs
        (fetch_and_store-keeps logins start p)

module _ {F : Type 0} (fl : Float F) (cfg : GitHubConfig) (m : Meets F)
    (late : List String → List String) (logins : List String) (engineers : List (Engineer F))
    (w : Tables F) (repo : String) (number : ℤ) where
  -- A run of the collector never gives a pull request a second row, whatever GitHub answers and
  -- whichever statements fail.
  pub run_pass-single :
      keyed_prs repo number w.prs ≤ 1
      → keyed_prs repo number (run_pass fl cfg m late logins engineers w).prs ≤ 1
  run_pass-single h =
      run_pass-keeps fl cfg m (λ t. keyed_prs repo number t ≤ 1)
        (λ pr t one. ground (arith, one, keyed_prs-upsert_pr repo number pr t))
        (λ repo' number' at t one. rw (keyed_prs-mark_rows repo number repo' number' at t) one) late
        logins engineers w h

  -- A pull request that is marked as reverted stays so through a run of the collector, with the
  -- time of its first mark: neither a new fetch of it from GitHub nor a later finding changes it.
  pub run_pass-marked :
      (at : Option Time)
      → reverted_since repo number w.prs ≡ some at
      → reverted_since repo number (run_pass fl cfg m late logins engineers w).prs ≡ some at
  run_pass-marked at h =
      run_pass-keeps fl cfg m (λ t. reverted_since repo number t ≡ some at)
        (λ pr t. reverted_since-upsert_pr repo number pr t at)
        (λ repo' number' marked_at t.
          reverted_since-mark_rows repo number repo' number' marked_at t at)
        late logins engineers w h
