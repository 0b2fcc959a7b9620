-- ===== src/Store/PullRequests/Marks.antt =====
-- The key of github_prs, and the marks that its statements leave alone.
use enterprise_llm_tracker.Base.{
  ℕ, String, Bool, true, false, ◌&&◌, ◌||◌, ◌≡◌, refl, List, [], ◌∷◌, Option, none, some, eq_iff,
  arith, count_if, ◌==◌, if◌then◌else◌, inl, inr, Bool-cases,
}
use enterprise_llm_tracker.Base.Int.{ℤ}
use enterprise_llm_tracker.Clock.{Time}
use enterprise_llm_tracker.Models.{GitHubPr}
use enterprise_llm_tracker.Store.PullRequests.{is_pr, resync, upsert_pr, mark_rows}

module _ (repo : String) (number : ℤ) where
  -- reverted_at of the pull request's row, if that is marked
  unfoldable pub reverted_since : List GitHubPr → Option (Option Time)
  reverted_since [] = none
  reverted_since (r ∷ rs) =
      let rest = reverted_since rs in
      if is_pr repo number r then if r.reverted then some r.reverted_at else none else rest

  unfoldable pub has_pr : List GitHubPr → Bool
  has_pr [] = false
  has_pr (r ∷ rs) = is_pr repo number r || has_pr rs

  -- how many rows have the key
  unfoldable pub keyed_prs : List GitHubPr → ℕ
  unfolding count_if
  keyed_prs t = count_if (is_pr repo number) t

  same_pr :
      (pr r : GitHubPr)
      → is_pr pr.repo pr.pr_number r ≡ true
      → is_pr repo number r ≡ is_pr repo number pr
  unfolding is_pr
  same_pr pr r h = ground (arith, h, eq_iff r.repo pr.repo)

  other_pr :
      (pr r : GitHubPr)
      → is_pr pr.repo pr.pr_number r ≡ false
      → (is_pr repo number r && is_pr repo number pr) ≡ false
  unfolding is_pr
  other_pr pr r h =
      ground (arith, h, eq_iff r.repo pr.repo, eq_iff r.repo repo, eq_iff pr.repo repo)

  is_pr-resync : (pr r : GitHubPr) → is_pr repo number (resync pr r) ≡ is_pr repo number r
  unfolding is_pr resync
  is_pr-resync pr r = refl

  pub keyed_prs-upsert_pr :
      (pr : GitHubPr) (t : List GitHubPr)
      → keyed_prs (upsert_pr pr t)
        ≡ (if is_pr repo number pr && (keyed_prs t == 0) then 1 else keyed_prs t)
  unfolding keyed_prs upsert_pr
  keyed_prs-upsert_pr pr [] = ground arith
  keyed_prs-upsert_pr pr (r ∷ rs) = elim (Bool-cases (is_pr pr.repo pr.pr_number r)) [
    | inl same ↦ ground (arith, same, same_pr pr r same, is_pr-resync pr r)
    | inr other ↦ ground (arith, other, other_pr pr r other, keyed_prs-upsert_pr pr rs)
  ]

  pub reverted_since-upsert_pr :
      (pr : GitHubPr) (t : List GitHubPr) (at : Option Time)
      → reverted_since t ≡ some at
      → reverted_since (upsert_pr pr t) ≡ some at
  unfolding reverted_since upsert_pr resync is_pr
  reverted_since-upsert_pr pr [] at h = absurd (ground (arith, h))
  reverted_since-upsert_pr pr (r ∷ rs) at h = elim (Bool-cases (is_pr pr.repo pr.pr_number r)) [
    | inl same ↦ ground (arith, same, h)
    | inr other ↦ ground (arith, other, h, reverted_since-upsert_pr pr rs at)
  ]

  pub has_pr-upsert_pr :
      (pr : GitHubPr) (t : List GitHubPr)
      → has_pr (upsert_pr pr t) ≡ (is_pr repo number pr || has_pr t)
  unfolding has_pr upsert_pr
  has_pr-upsert_pr pr [] = refl
  has_pr-upsert_pr pr (r ∷ rs) = elim (Bool-cases (is_pr pr.repo pr.pr_number r)) [
    | inl same ↦ ground (arith, same, same_pr pr r same, is_pr-resync pr r)
    | inr other ↦ ground (arith, other, has_pr-upsert_pr pr rs)
  ]

  -- a mark leaves the keys, and the marks that are there
  pub keyed_prs-mark_rows :
      (repo' : String) (number' : ℤ) (at : Time) (t : List GitHubPr)
      → keyed_prs (mark_rows repo' number' at t) ≡ keyed_prs t
  unfolding keyed_prs mark_rows is_pr
  keyed_prs-mark_rows repo' number' at [] = refl
  keyed_prs-mark_rows repo' number' at (r ∷ rs) =
      ground (arith, keyed_prs-mark_rows repo' number' at rs)

  pub has_pr-mark_rows :
      (repo' : String) (number' : ℤ) (at : Time) (t : List GitHubPr)
      → has_pr (mark_rows repo' number' at t) ≡ has_pr t
  unfolding has_pr mark_rows is_pr
  has_pr-mark_rows repo' number' at [] = refl
  has_pr-mark_rows repo' number' at (r ∷ rs) = ground (arith, has_pr-mark_rows repo' number' at rs)

  pub reverted_since-mark_rows :
      (repo' : String) (number' : ℤ) (marked_at : Time) (t : List GitHubPr) (at : Option Time)
      → reverted_since t ≡ some at
      → reverted_since (mark_rows repo' number' marked_at t) ≡ some at
  unfolding reverted_since mark_rows is_pr
  reverted_since-mark_rows repo' number' marked_at [] at h = absurd (ground (arith, h))
  reverted_since-mark_rows repo' number' marked_at (r ∷ rs) at h =
      ground (arith, h, reverted_since-mark_rows repo' number' marked_at rs at)

  -- a mark of a pull request that is there sets it, or finds it set
  pub mark_rows-marks :
      (marked_at : Time) (t : List GitHubPr)
      → has_pr t ≡ true
      → reverted_since (mark_rows repo number marked_at t)
        ≡ (elim (reverted_since t) [ none ↦ some (some marked_at) | some at ↦ some at ])
  unfolding reverted_since mark_rows has_pr is_pr
  mark_rows-marks marked_at [] h = absurd (ground (arith, h))
  mark_rows-marks marked_at (r ∷ rs) h = ground (arith, h, mark_rows-marks marked_at rs)
