-- ===== src/Reverts.antt =====
-- internal/github/revert.go: pull requests that undo earlier ones, by their titles and by the files
-- they touch. A set of file names is a list without repetitions.
pub mod Candidates
pub mod Sound
pub mod Distinct
use Prim.Native.Char.{code}
use text.Mathlib.Text.{starts_with}
use enterprise_llm_tracker.Base.{
  ℕ, ◌+◌, ◌-◌, ◌*◌, String, Bool, true, false, not, ◌&&◌, ◌||◌, Option, none, some, List, [], ◌∷◌,
  leb, ◌==◌, length, count_if, map, str_eq, if◌then◌else◌,
}
use enterprise_llm_tracker.Base.Dict.{Dict, lookup, insert}
use enterprise_llm_tracker.Base.Format.{concat, show_int}
use enterprise_llm_tracker.Base.Int.{ℤ, pos, negsuc, int_eq, int_lt, sub_int, wrap_64}
use enterprise_llm_tracker.Base.Text.{trim_prefix, trim_space, trim_func, contains}
use enterprise_llm_tracker.Clock.{Time, day, before, after}
use enterprise_llm_tracker.Float.{Float}
use enterprise_llm_tracker.Models.{GitHubPr}

pub record RevertFinding : Type 0 where
  pub original_repo : String
  pub original_pr : ℤ
  pub reverted_at : Time
  pub reverting_pr : ℤ
  pub heuristic : String

-- the letter `lower`, or its capital
abbrev is_letter : ℕ → ℕ → Bool
is_letter lower c = (c == lower) || (c == lower - 32)

-- `[ :"']`, which begins no word, so that `\b` holds before it
unfoldable pub is_delimiter : String → Bool
is_delimiter String.[] = false
is_delimiter (String.◌∷◌ c s) =
    (code c == b' ') || (code c == b':') || (code c == b'"') || (code c == 39)

-- revertTitleRe, from the letters that are still to come
unfoldable pub matches_word : List ℕ → String → Bool
unfolding is_delimiter
matches_word [] s = is_delimiter s
matches_word (l ∷ ls) String.[] = false
matches_word (l ∷ ls) (String.◌∷◌ c s) = is_letter l (code c) && matches_word ls s

unfoldable pub is_revert_title : String → Bool
unfolding matches_word
is_revert_title title = matches_word (b'r' ∷ b'e' ∷ b'v' ∷ b'e' ∷ b'r' ∷ b't' ∷ []) title

abbrev pub is_quote : ℕ → Bool
is_quote c = (c == b'"') || (c == 39) || (c == b' ')

-- the quoted or trailing portion of the title
unfoldable pub stripped_title : String → String
stripped_title title =
    trim_func is_quote (trim_space (trim_prefix (trim_prefix title "Revert") ":"))

-- the best prior pull request so far, if any, with the time or the score that the loop compares
abbrev pub Best : Type 0 → Type 0
Best X = Option GitHubPr × X

-- the guards at the head of both loops: another pull request of the same repository
unfoldable pub is_other : GitHubPr → GitHubPr → Bool
is_other revert prior =
    not (int_eq prior.pr_number revert.pr_number) && str_eq prior.repo revert.repo

-- one round of the loop of detectFromTitle, for a revert that was merged `at`
unfoldable pub title_round : GitHubPr → Time → String → Best Time → GitHubPr → Best Time
title_round revert at stripped best prior =
    if not (is_other revert prior) then best else elim prior.merged_at [
      | none ↦ best
      | some merged ↦
          if not (before merged at)
          then best
          else if contains prior.title stripped || contains stripped prior.title
          then if after merged best.1 then (some prior, merged) else best
          else best
    ]

unfoldable pub title_loop : GitHubPr → Time → String → List GitHubPr → Best Time → Best Time
title_loop revert at stripped [] best = best
title_loop revert at stripped (prior ∷ rest) best =
    title_loop revert at stripped rest (title_round revert at stripped best prior)

-- what both functions return; no pull request has the number 0, so 0 stands for none
unfoldable pub finding_of : String → GitHubPr → Time → Option GitHubPr → Option RevertFinding
finding_of heuristic revert at none = none
finding_of heuristic revert at (some best) =
    if int_eq best.pr_number (pos 0)
    then none
    else some (record {
      original_repo = best.repo;
      original_pr = best.pr_number;
      reverted_at = at;
      reverting_pr = revert.pr_number;
      heuristic = heuristic;
    })

unfoldable pub detect_from_title : GitHubPr → List GitHubPr → Option RevertFinding
detect_from_title revert all = elim revert.merged_at [
  | none ↦ none
  | some at ↦
      if not (is_revert_title revert.title)
      then none
      else if str_eq (stripped_title revert.title) ""
      then none
      else finding_of "title" revert at
          (title_loop revert at (stripped_title revert.title) all (none, 0)).0
]

unfoldable pub is_member : String → List String → Bool
is_member k [] = false
is_member k (x ∷ xs) = str_eq x k || is_member k xs

unfoldable pub to_set : List String → List String
unfolding is_member
to_set [] = []
to_set (v ∷ vs) = let rest = to_set vs in if is_member v rest then rest else v ∷ rest

-- `k * z` on int
abbrev pub times : ℕ → ℤ → ℤ
times k (pos n) = wrap_64 (pos (k * n))
times k (negsuc n) = wrap_64 (negsuc (k * n + k - 1))

module _ {F : Type 0} (fl : Float F) where
  unfoldable pub jaccard : List String → List String → F
  unfolding count_if is_member
  jaccard a b =
      let inter = count_if (λ k. is_member k b) a in
      let union = length a + length b - inter in
      if (length a == 0) || (length b == 0)
      then fl.decimal 0 0
      else if union == 0
      then fl.decimal 0 0
      else fl.div (fl.of_int (pos inter)) (fl.of_int (pos union))

  -- one round of the loop of detectFromFileOverlap; the cutoff is 14 days before the merge
  unfoldable pub overlap_round : GitHubPr → Time → Best F → GitHubPr → Best F
  overlap_round suspect at best prior =
      if not (is_other suspect prior) then best else elim prior.merged_at [
        | none ↦ best
        | some merged ↦
            if before merged (at - 14 * day) || not (before merged at)
            then best
            else if length prior.files == 0
            then best
            else if int_lt (times 3 prior.files_changed) (times 2 suspect.files_changed)
            then best
            else (let score = jaccard (to_set suspect.files) (to_set prior.files) in
                if fl.le (fl.decimal 6 1) score && fl.lt best.1 score
                then (some prior, score)
                else best)
      ]

  unfoldable pub overlap_loop : GitHubPr → Time → List GitHubPr → Best F → Best F
  overlap_loop suspect at [] best = best
  overlap_loop suspect at (prior ∷ rest) best =
      overlap_loop suspect at rest (overlap_round suspect at best prior)

  unfoldable pub detect_from_file_overlap : GitHubPr → List GitHubPr → Option RevertFinding
  detect_from_file_overlap suspect all = elim suspect.merged_at [
    | none ↦ none
    | some at ↦
        if length suspect.files == 0
        then none
        else finding_of "file_overlap" suspect at
            (overlap_loop suspect at all (none, fl.decimal 0 0)).0
  ]

-- the key of `seen`
unfoldable pub key_of : RevertFinding → String
key_of f = concat (f.original_repo ∷ "#" ∷ show_int f.original_pr ∷ [])

-- `if _, exists := seen[k]; !exists { seen[k] = f }`
unfoldable pub add_new : Option RevertFinding → Dict RevertFinding → Dict RevertFinding
add_new none seen = seen
add_new (some f) seen = elim (lookup (key_of f) seen) [
  | none ↦ insert (key_of f) f seen
  | some _ ↦ seen
]

-- one of the two loops of DetectReverts
unfoldable pub detect_loop :
    (GitHubPr → Option RevertFinding) → List GitHubPr → Dict RevertFinding → Dict RevertFinding
detect_loop detect [] seen = seen
detect_loop detect (candidate ∷ rest) seen =
    detect_loop detect rest (add_new (detect candidate) seen)

-- DetectReverts, with the findings in the order of their keys' first appearance: Go's order varies
unfoldable pub detect_reverts : {F : Type 0} → Float F → List GitHubPr → List RevertFinding
detect_reverts fl prs =
    map (λ e. e.1)
      (detect_loop (λ c. detect_from_file_overlap fl c prs) prs
        (detect_loop (λ c. detect_from_title c prs) prs []))
