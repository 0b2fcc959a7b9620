-- ===== src/Reverts/Sound.antt =====
-- Every finding is a later merge of the same repository that follows the pull request it undoes.
use mathlib.Core.List.{Memᴰ}
use enterprise_llm_tracker.Base.{
  String, ◌≡◌, refl, inl, inr, Option, none, some, List, [], ◌∷◌, All, map, str_eq, Bool-cases,
  Option-cases,
}
use enterprise_llm_tracker.Base.Dict.{Dict, lookup, insert}
use enterprise_llm_tracker.Float.{Float}
use enterprise_llm_tracker.Models.{GitHubPr}
use enterprise_llm_tracker.Reverts.{
  RevertFinding, detect_from_title, detect_from_file_overlap, key_of, add_new, detect_loop,
  detect_reverts,
}
use enterprise_llm_tracker.Reverts.Candidates.{
  IsFinding, detect_from_title-IsFinding, detect_from_file_overlap-IsFinding,
}

module _ (P : String × RevertFinding → Type 0) where
  All-insert :
      (k : String) (f : RevertFinding) (m : Dict RevertFinding)
      → P (k, f)
      → All P m
      → All P (insert k f m)
  unfolding insert
  All-insert k f [] here rest = (here, tt)
  All-insert k f (entry ∷ m) here rest = elim (Bool-cases (str_eq entry.0 k)) [
    | inl same ↦ rw same (here, rest.1)
    | inr other ↦ rw other (rest.0, All-insert k f m here rest.1)
  ]

  All-add_new :
      (o : Option RevertFinding) (m : Dict RevertFinding)
      → ((f : RevertFinding) → o ≡ some f → P (key_of f, f))
      → All P m
      → All P (add_new o m)
  unfolding add_new
  All-add_new none m here rest = rest
  All-add_new (some f) m here rest = elim (Option-cases (lookup (key_of f) m)) [
    | inl new ↦ rw (new, add_new) (All-insert (key_of f) f m (here f refl) rest)
    | inr (g, old) ↦ rw (old, add_new) rest
  ]

  All-detect_loop :
      (detect : GitHubPr → Option RevertFinding) (rest : List GitHubPr) (seen : Dict RevertFinding)
      → ((c : GitHubPr) (f : RevertFinding) → Memᴰ c rest → detect c ≡ some f → P (key_of f, f))
      → All P seen
      → All P (detect_loop detect rest seen)
  unfolding detect_loop
  All-detect_loop detect [] seen holds start = start
  All-detect_loop detect (c ∷ rest) seen holds start =
      All-detect_loop detect rest (add_new (detect c) seen) (λ d f m. holds d f (Memᴰ.tail m))
        (All-add_new (detect c) seen (λ f. holds c f (Memᴰ.head refl)) start)

All-values :
    (P : RevertFinding → Type 0) (m : Dict RevertFinding)
    → All (λ e. P e.1) m
    → All P (map (λ e. e.1) m)
All-values P [] h = tt
All-values P (e ∷ m) h = (h.0, All-values P m h.1)

-- Every finding is about two pull requests of the list: the reverting one was merged, at the time
-- that the finding gives, and the original one is another of the same repository that was merged
-- earlier.
pub detect_reverts-IsFinding :
    {F : Type 0} (fl : Float F) (prs : List GitHubPr)
    → All
        (λ f. (revert : GitHubPr) × Memᴰ revert prs × IsFinding prs revert f)
        (detect_reverts fl prs)
unfolding detect_reverts
detect_reverts-IsFinding fl prs = All-values IsListed _ (
    All-detect_loop (λ e. IsListed e.1) (λ c. detect_from_file_overlap fl c prs) prs _
      (λ c f m h. (c, m, detect_from_file_overlap-IsFinding fl prs c f h))
      (All-detect_loop (λ e. IsListed e.1) (λ c. detect_from_title c prs) prs []
        (λ c f m h. (c, m, detect_from_title-IsFinding prs c f h)) tt))
  where
    IsListed : RevertFinding → Type 0
    IsListed f = (revert : GitHubPr) × Memᴰ revert prs × IsFinding prs revert f
