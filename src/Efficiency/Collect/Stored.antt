-- ===== src/Efficiency/Collect/Stored.antt =====
-- What fetchAndStore has stored when it reports no error.
use enterprise_llm_tracker.Base.{
  String, true, false, ◌≡◌, refl, sym, subst, List, [], ◌∷◌, Option, none, some, All, str_eq,
  eq_refl, arith, inl, inr, Bool-cases,
}
use enterprise_llm_tracker.Base.Act.{ok, Result-cases}
use enterprise_llm_tracker.Config.{GitHubConfig}
use enterprise_llm_tracker.Efficiency.Collect.{
  Tables, Meets, days_back, upsert_all, fetch_all, fetch_and_store,
}
use enterprise_llm_tracker.Efficiency.Collect.Kept.{upsert_all-keeps, fetch_all-keeps}
use enterprise_llm_tracker.Float.{Float}
use enterprise_llm_tracker.Models.{GitHubPr}
use enterprise_llm_tracker.Query.{Fault, refused, reply_lost}
use enterprise_llm_tracker.Store.PullRequests.{has_int4s, is_pr, upsert_github_pr}
use enterprise_llm_tracker.Store.PullRequests.Marks.{has_pr, has_pr-upsert_pr, has_pr-mark_rows}

-- the table has a row for the pull request
abbrev IsIn : List GitHubPr → GitHubPr → Type 0
IsIn t pr = has_pr pr.repo pr.pr_number t ≡ true

is_pr_self : (pr : GitHubPr) → is_pr pr.repo pr.pr_number pr ≡ true
unfolding is_pr
is_pr_self pr = ground (arith, eq_refl pr.repo)

upsert_github_pr-IsIn :
    (fault : Option Fault) (pr : GitHubPr) (t : List GitHubPr)
    → (upsert_github_pr fault pr t).0 ≡ ok tt
    → IsIn (upsert_github_pr fault pr t).1 pr
unfolding upsert_github_pr
upsert_github_pr-IsIn (some (refused e)) pr t h = absurd (ground (arith, h))
upsert_github_pr-IsIn (some (reply_lost e)) pr t h = absurd (ground (arith, h))
upsert_github_pr-IsIn none pr t h = elim (Bool-cases (has_int4s pr)) [
  | inl fits ↦
      rw (fits, upsert_github_pr)
        (ground (arith, has_pr-upsert_pr pr.repo pr.pr_number pr t, is_pr_self pr))
  | inr large ↦ absurd (ground (arith, h, large))
]

module _ {F : Type 0} (fl : Float F) (cfg : GitHubConfig) (m : Meets F) where
  IsIn-upsert_all :
      (prs : List GitHubPr) (last : Option String) (t : List GitHubPr) (pr : GitHubPr)
      → IsIn t pr
      → IsIn (upsert_all fl cfg m prs last t).1 pr
  IsIn-upsert_all prs last t pr h =
      upsert_all-keeps fl cfg m (λ t'. IsIn t' pr)
        (λ other t' p. ground (arith, p, has_pr-upsert_pr pr.repo pr.pr_number other t'))
        (λ repo number at t' p. rw (has_pr-mark_rows pr.repo pr.pr_number repo number at t') p) prs
        last t h

  IsIn-fetch_all :
      (logins : List String) (last : Option String) (t : List GitHubPr) (prs : List GitHubPr)
      → All (IsIn t) prs
      → All (IsIn (fetch_all fl cfg m logins last t).1) prs
  IsIn-fetch_all logins last t [] h = tt
  IsIn-fetch_all logins last t (pr ∷ prs) h = (
    fetch_all-keeps fl cfg m (λ t'. IsIn t' pr)
        (λ other t' p. ground (arith, p, has_pr-upsert_pr pr.repo pr.pr_number other t'))
        (λ repo number at t' p. rw (has_pr-mark_rows pr.repo pr.pr_number repo number at t') p)
        logins last t h.0,
    IsIn-fetch_all logins last t prs h.1,
  )

  upsert_all-IsIn :
      (prs : List GitHubPr) (last : Option String) (t : List GitHubPr)
      → (upsert_all fl cfg m prs last t).0 ≡ none
      → (last ≡ none) × All (IsIn (upsert_all fl cfg m prs last t).1) prs
  unfolding upsert_all
  upsert_all-IsIn [] last t h = (h, tt)
  upsert_all-IsIn (pr ∷ prs) last t h =
      let out = upsert_github_pr (m.upsert_fault pr) pr t in
      elim (Result-cases out.0) [
        | inl (_, stored) ↦
            let rest = upsert_all-IsIn prs last out.1 (rw (stored, upsert_all) at h) in
            let same : upsert_all fl cfg m (pr ∷ prs) last t ≡ upsert_all fl cfg m prs last out.1 =
              rw (stored, upsert_all) refl in
            let first =
              IsIn-upsert_all prs last out.1 pr
                (upsert_github_pr-IsIn (m.upsert_fault pr) pr t stored) in
            (rest.0, subst (λ o. All (IsIn o.1) (pr ∷ prs)) (sym same) (first, rest.1))
        | inr (e, failed) ↦
            absurd (
              ground (arith, (upsert_all-IsIn prs (some e) out.1 (rw (failed, upsert_all) at h)).0))
      ]

  -- the login is blank, or it was fetched and the table has a row for each of its pull requests
  pub data IsFetched (t : List GitHubPr) (login : String) : Type 0 where
    blank : str_eq login "" ≡ true → IsFetched t login
    fetched :
        (prs : List GitHubPr)
        → m.fetch login (days_back cfg.lookback_days m.fetch_at) ≡ ok prs
        → All (IsIn t) prs
        → IsFetched t login

  fetch_all-IsFetched :
      (logins : List String) (last : Option String) (t : List GitHubPr)
      → (fetch_all fl cfg m logins last t).0 ≡ none
      → (last ≡ none) × All (IsFetched (fetch_all fl cfg m logins last t).1) logins
  unfolding fetch_all
  fetch_all-IsFetched [] last t h = (h, tt)
  fetch_all-IsFetched (login ∷ logins) last t h = elim (Bool-cases (str_eq login "")) [
    | inl no_name ↦
        let rest = fetch_all-IsFetched logins last t (rw (no_name, fetch_all) at h) in
        let same : fetch_all fl cfg m (login ∷ logins) last t ≡ fetch_all fl cfg m logins last t =
          rw (no_name, fetch_all) refl in
        (
          rest.0,
          subst (λ o. All (IsFetched o.1) (login ∷ logins)) (sym same) (blank no_name, rest.1),
        )
    | inr named ↦ elim (Result-cases (m.fetch login (days_back cfg.lookback_days m.fetch_at))) [
      | inl (prs, got) ↦
          let out = upsert_all fl cfg m prs last t in
          let rest = fetch_all-IsFetched logins out.0 out.1 (rw (named, got, fetch_all) at h) in
          let stored = upsert_all-IsIn prs last t rest.0 in
          let same : fetch_all fl cfg m (login ∷ logins) last t
              ≡ fetch_all fl cfg m logins out.0 out.1 =
            rw (named, got, fetch_all) refl in
          (
            stored.0,
            subst (λ o. All (IsFetched o.1) (login ∷ logins)) (sym same)
                (fetched prs got (IsIn-fetch_all logins out.0 out.1 prs stored.1), rest.1),
          )
      | inr (e, failed) ↦ absurd (
          ground
            (arith, (fetch_all-IsFetched logins (some e) t (rw (named, failed, fetch_all) at h)).0))
    ]
  ]

  -- When fetchAndStore reports no error and an organisation is configured, every login with a name
  -- was fetched and the table has a row for each pull request that GitHub gave for it.
  pub fetch_and_store-IsFetched :
      (logins : List String) (w : Tables F)
      → str_eq cfg.org "" ≡ false
      → (fetch_and_store fl cfg m logins w).0 ≡ none
      → All (IsFetched (fetch_and_store fl cfg m logins w).1.prs) logins
  unfolding fetch_and_store
  fetch_and_store-IsFetched logins w set h =
      rw (set, fetch_and_store)
        (fetch_all-IsFetched logins none w.prs (rw (set, fetch_and_store) at h)).1
