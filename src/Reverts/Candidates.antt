-- ===== src/Reverts/Candidates.antt =====
-- What both loops take as the original pull request.
use mathlib.Core.List.{Memᴰ}
use enterprise_llm_tracker.Base.{
  ◌<◌, String, true, false, ◌&&◌, ◌||◌, ◌≡◌, refl, sym, ap, ◌∙◌, ◌⊎◌, inl, inr, Option, none, some,
  List, [], ◌∷◌, arith, Bool-cases, Option-cases, eq_iff,
}
use enterprise_llm_tracker.Base.Text.{contains}
use enterprise_llm_tracker.Base.Int.{int_eq}
use enterprise_llm_tracker.Clock.{Time, before, after}
use enterprise_llm_tracker.Float.{Float}
use enterprise_llm_tracker.Models.{GitHubPr}
use enterprise_llm_tracker.Reverts.{
  RevertFinding, Best, is_other, stripped_title, title_round, title_loop, finding_of,
  detect_from_title, overlap_round, overlap_loop, detect_from_file_overlap,
}

-- `prior` is another pull request of the same repository, merged before `at`
pub record Precedes (revert prior : GitHubPr) (at : Time) : Type 0 where
  pub another : int_eq prior.pr_number revert.pr_number ≡ false
  pub same_repo : prior.repo ≡ revert.repo
  pub merged : Time
  pub was_merged : prior.merged_at ≡ some merged
  pub earlier : merged < at

-- the loop keeps its best, or takes a member of its list
abbrev TakenFrom : {X : Type 0} → (GitHubPr → Type 0) → List GitHubPr → Best X → Best X → Type 0
TakenFrom P rest old new =
    (new.0 ≡ old.0) ⊎ ((prior : GitHubPr) × Memᴰ prior rest × (new.0 ≡ some prior) × P prior)

taken_later :
    {X : Type 0} {P : GitHubPr → Type 0} (prior : GitHubPr) (rest : List GitHubPr)
    (old middle new : Best X)
    → (middle.0 ≡ old.0) ⊎ ((middle.0 ≡ some prior) × P prior)
    → TakenFrom P rest middle new
    → TakenFrom P (prior ∷ rest) old new
taken_later prior rest old middle new round (inr (p, listed, chosen, holds)) =
    inr (p, Memᴰ.tail listed, chosen, holds)
taken_later prior rest old middle new (inl kept) (inl same) = inl (same ∙ kept)
taken_later prior rest old middle new (inr (taken, holds)) (inl same) =
    inr (prior, Memᴰ.head refl, same ∙ taken, holds)

-- the fields of the finding about `best`
fields_of :
    (heuristic : String) (revert : GitHubPr) (at : Time) (best : GitHubPr) (f : RevertFinding)
    → finding_of heuristic revert at (some best) ≡ some f
    → (f.original_repo ≡ best.repo)
      × (f.original_pr ≡ best.pr_number)
      × (f.reverted_at ≡ at)
      × (f.reverting_pr ≡ revert.pr_number)
unfolding finding_of
fields_of heuristic revert at best f h = ground (arith, h)

other_means :
    (revert prior : GitHubPr)
    → is_other revert prior ≡ true
    → (int_eq prior.pr_number revert.pr_number ≡ false) × (prior.repo ≡ revert.repo)
unfolding is_other
other_means revert prior h =
    (ground (arith, h), (eq_iff prior.repo revert.repo).0 (ground (arith, h)))

precedes :
    (revert prior : GitHubPr) (at merged : Time)
    → is_other revert prior ≡ true
    → prior.merged_at ≡ some merged
    → before merged at ≡ true
    → Precedes revert prior at
precedes revert prior at merged other was earlier =
    let (another, same_repo) = other_means revert prior other in
    record {
      another = another;
      same_repo = same_repo;
      merged = merged;
      was_merged = was;
      earlier = ground (arith, earlier);
    }

title_round_takes :
    (revert : GitHubPr) (at : Time) (stripped : String) (best : Best Time) (prior : GitHubPr)
    → ((title_round revert at stripped best prior).0 ≡ best.0)
      ⊎ (((title_round revert at stripped best prior).0 ≡ some prior) × Precedes revert prior at)
unfolding title_round
title_round_takes revert at stripped best prior = elim (Bool-cases (is_other revert prior)) [
  | inr not_so ↦ inl (ground (arith, not_so))
  | inl other ↦ elim (Option-cases prior.merged_at) [
    | inl unmerged ↦ inl (ground (arith, unmerged))
    | inr (merged, was) ↦
        elim (Bool-cases (
          before merged at
          && (contains prior.title stripped || contains stripped prior.title)
          && after merged best.1)) [
            | inr not_so ↦ inl (ground (arith, was, not_so))
            | inl so ↦ inr (
              ground (arith, other, was, so),
              precedes revert prior at merged other was (ground (arith, so)),
            )
          ]
  ]
]

title_loop_takes :
    (revert : GitHubPr) (at : Time) (stripped : String) (rest : List GitHubPr) (best : Best Time)
    → TakenFrom (λ p. Precedes revert p at) rest best (title_loop revert at stripped rest best)
unfolding title_loop
title_loop_takes revert at stripped [] best = inl refl
title_loop_takes revert at stripped (prior ∷ rest) best =
    taken_later prior rest best (title_round revert at stripped best prior)
      (title_loop revert at stripped rest (title_round revert at stripped best prior))
      (title_round_takes revert at stripped best prior)
      (title_loop_takes revert at stripped rest (title_round revert at stripped best prior))

-- what both functions promise of a finding about `revert`
pub record IsFinding (prs : List GitHubPr) (revert : GitHubPr) (f : RevertFinding) : Type 0 where
  pub original : GitHubPr
  pub listed : Memᴰ original prs
  pub at : Time
  pub merged : revert.merged_at ≡ some at
  pub precedes : Precedes revert original at
  pub of_repo : f.original_repo ≡ revert.repo
  pub of_pr : f.original_pr ≡ original.pr_number
  pub when : f.reverted_at ≡ at
  pub by : f.reverting_pr ≡ revert.pr_number

IsFinding-of_best :
    (heuristic : String) (revert : GitHubPr) (at : Time) (best : Option GitHubPr)
    (f : RevertFinding) (prs : List GitHubPr)
    → revert.merged_at ≡ some at
    → (best ≡ none)
      ⊎ ((prior : GitHubPr) × Memᴰ prior prs × (best ≡ some prior) × Precedes revert prior at)
    → finding_of heuristic revert at best ≡ some f
    → IsFinding prs revert f
unfolding finding_of
IsFinding-of_best heuristic revert at best f prs merged (inl nothing) h =
    absurd (ground (arith, nothing, h))
IsFinding-of_best heuristic revert at best f prs merged (inr (prior, listed, chosen, before_it)) h =
    let fields =
      fields_of heuristic revert at prior f
        (ap (finding_of heuristic revert at) (sym chosen) ∙ h) in
    record {
      original = prior;
      listed = listed;
      at = at;
      merged = merged;
      precedes = before_it;
      of_repo = fields.0 ∙ before_it.same_repo;
      of_pr = fields.1;
      when = fields.2;
      by = fields.3;
    }

pub detect_from_title-IsFinding :
    (prs : List GitHubPr) (revert : GitHubPr) (f : RevertFinding)
    → detect_from_title revert prs ≡ some f
    → IsFinding prs revert f
unfolding detect_from_title
detect_from_title-IsFinding prs revert f h = elim (Option-cases revert.merged_at) [
  | inl unmerged ↦ absurd (ground (arith, unmerged, h))
  | inr (at, merged) ↦
      let loop = title_loop revert at (stripped_title revert.title) prs (none, 0) in
      IsFinding-of_best "title" revert at loop.0 f prs merged
        (title_loop_takes revert at (stripped_title revert.title) prs (none, 0))
        (ground (arith, merged, h))
]

module _ {F : Type 0} (fl : Float F) where
  overlap_cases :
      (suspect : GitHubPr) (at merged : Time) (best : Best F) (prior : GitHubPr)
      → is_other suspect prior ≡ true
      → prior.merged_at ≡ some merged
      → before merged at ≡ true
      → ((overlap_round fl suspect at best prior).0 ≡ best.0)
        ⊎ ((overlap_round fl suspect at best prior).0 ≡ some prior)
  unfolding overlap_round
  overlap_cases suspect at merged best prior other was so = rw (other, was, so) (ground arith)

  overlap_round_takes :
      (suspect : GitHubPr) (at : Time) (best : Best F) (prior : GitHubPr)
      → ((overlap_round fl suspect at best prior).0 ≡ best.0)
        ⊎ (((overlap_round fl suspect at best prior).0 ≡ some prior) × Precedes suspect prior at)
  unfolding overlap_round
  overlap_round_takes suspect at best prior = elim (Bool-cases (is_other suspect prior)) [
    | inr not_so ↦ inl (ground (arith, not_so))
    | inl other ↦ elim (Option-cases prior.merged_at) [
      | inl unmerged ↦ inl (ground (arith, unmerged))
      | inr (merged, was) ↦ elim (Bool-cases (before merged at)) [
        | inr not_so ↦ inl (ground (arith, was, not_so))
        | inl so ↦ elim (overlap_cases suspect at merged best prior other was so) [
          | inl kept ↦ inl kept
          | inr taken ↦ inr (taken, precedes suspect prior at merged other was so)
        ]
      ]
    ]
  ]

  overlap_loop_takes :
      (suspect : GitHubPr) (at : Time) (rest : List GitHubPr) (best : Best F)
      → TakenFrom (λ p. Precedes suspect p at) rest best (overlap_loop fl suspect at rest best)
  unfolding overlap_loop
  overlap_loop_takes suspect at [] best = inl refl
  overlap_loop_takes suspect at (prior ∷ rest) best =
      taken_later prior rest best (overlap_round fl suspect at best prior)
        (overlap_loop fl suspect at rest (overlap_round fl suspect at best prior))
        (overlap_round_takes suspect at best prior)
        (overlap_loop_takes suspect at rest (overlap_round fl suspect at best prior))

  pub detect_from_file_overlap-IsFinding :
      (prs : List GitHubPr) (suspect : GitHubPr) (f : RevertFinding)
      → detect_from_file_overlap fl suspect prs ≡ some f
      → IsFinding prs suspect f
  unfolding detect_from_file_overlap
  detect_from_file_overlap-IsFinding prs suspect f h = elim (Option-cases suspect.merged_at) [
    | inl unmerged ↦ absurd (ground (arith, unmerged, h))
    | inr (at, merged) ↦
        IsFinding-of_best "file_overlap" suspect at
          (overlap_loop fl suspect at prs (none, fl.decimal 0 0)).0 f prs merged
          (overlap_loop_takes suspect at prs (none, fl.decimal 0 0)) (ground (arith, merged, h))
  ]
