-- ===== src/Store/PullRequests.antt =====
-- internal/store/github.go and PRCountsForEngineer of signals.go: the statements on github_prs and
-- github_repo_sync. The table is the list of its rows in the order of their insertion; (repo,
-- pr_number) is its unique key. A statement may fail for a reason of the connection (`fault`), or
-- because a number does not fit INT. A time is stored as it is.
pub mod Marks
use enterprise_llm_tracker.Base.{
  ℕ, ◌+◌, ◌^◌, String, Bool, true, false, not, ◌&&◌, ◌||◌, List, [], ◌∷◌, Option, none, some,
  str_eq, ltb, leb, count_if, if◌then◌else◌,
}
use enterprise_llm_tracker.Base.Act.{Result, ok, err}
use enterprise_llm_tracker.Base.Int.{ℤ, pos, negsuc, int_eq}
use enterprise_llm_tracker.Clock.{Time}
use enterprise_llm_tracker.Models.{GitHubPr}
use enterprise_llm_tracker.Query.{Fault, refused, reply_lost}
use enterprise_llm_tracker.Rollup.{EngineerPrCounts}

-- the range of INT
unfoldable pub is_int4 : ℤ → Bool
is_int4 (pos n) = ltb n (2 ^ 31)
is_int4 (negsuc n) = ltb n (2 ^ 31)

unfoldable pub has_int4s : GitHubPr → Bool
unfolding is_int4
has_int4s pr = is_int4 pr.pr_number && is_int4 pr.review_count && is_int4 pr.files_changed

-- repo = $1 AND pr_number = $2
unfoldable pub is_pr : String → ℤ → GitHubPr → Bool
is_pr repo number r = str_eq r.repo repo && int_eq r.pr_number number

-- the SET of ON CONFLICT: created_at, reverted and reverted_at stay
unfoldable pub resync : GitHubPr → GitHubPr → GitHubPr
resync pr r = record r {
  engineer_github = pr.engineer_github;
  title = pr.title;
  state = pr.state;
  merged_at = pr.merged_at;
  review_count = pr.review_count;
  files_changed = pr.files_changed;
  last_synced_at = pr.last_synced_at;
  files = pr.files;
}

-- INSERT ... ON CONFLICT (repo, pr_number) DO UPDATE
unfoldable pub upsert_pr : GitHubPr → List GitHubPr → List GitHubPr
unfolding is_pr resync
upsert_pr pr [] = pr ∷ []
upsert_pr pr (r ∷ rs) =
    let rest = upsert_pr pr rs in
    if is_pr pr.repo pr.pr_number r then resync pr r ∷ rs else r ∷ rest

unfoldable pub upsert_github_pr :
    Option Fault → GitHubPr → List GitHubPr → Result (Unit {0}) × List GitHubPr
unfolding has_int4s upsert_pr
upsert_github_pr (some (refused e)) pr t = (err e, t)
upsert_github_pr (some (reply_lost e)) pr t = (err e, if has_int4s pr then upsert_pr pr t else t)
upsert_github_pr none pr t =
    if has_int4s pr then (ok tt, upsert_pr pr t) else (err "integer out of range", t)

-- UPDATE ... WHERE repo = $1 AND pr_number = $2 AND reverted = FALSE
unfoldable pub mark_rows : String → ℤ → Time → List GitHubPr → List GitHubPr
unfolding is_pr
mark_rows repo number at [] = []
mark_rows repo number at (r ∷ rs) =
    (if is_pr repo number r && not r.reverted
      then record r { reverted = true; reverted_at = some at }
      else r)
    ∷ mark_rows repo number at rs

unfoldable pub mark_pr_reverted :
    Option Fault → String → ℤ → Time → List GitHubPr → Result (Unit {0}) × List GitHubPr
unfolding is_int4 mark_rows
mark_pr_reverted (some (refused e)) repo number at t = (err e, t)
mark_pr_reverted (some (reply_lost e)) repo number at t =
    (err e, if is_int4 number then mark_rows repo number at t else t)
mark_pr_reverted none repo number at t =
    if is_int4 number then (ok tt, mark_rows repo number at t) else (err "integer out of range", t)

-- ORDER BY created_at DESC and merged_at DESC; rows of the same time may come in any order, and here
-- the later ones come first
unfoldable pub insert_latest : (GitHubPr → Time) → GitHubPr → List GitHubPr → List GitHubPr
insert_latest time_of x [] = x ∷ []
insert_latest time_of x (y ∷ ys) =
    let rest = insert_latest time_of x ys in
    if ltb (time_of y) (time_of x) then x ∷ y ∷ ys else y ∷ rest

unfoldable pub latest_first : (GitHubPr → Bool) → (GitHubPr → Time) → List GitHubPr → List GitHubPr
unfolding insert_latest
latest_first p time_of [] = []
latest_first p time_of (r ∷ rs) =
    let rest = latest_first p time_of rs in if p r then insert_latest time_of r rest else rest

unfoldable pub is_recent : String → Time → GitHubPr → Bool
is_recent repo since r = str_eq r.repo repo && leb since r.created_at

unfoldable pub list_recent_prs_by_repo :
    Option String → String → Time → List GitHubPr → Result (List GitHubPr)
unfolding latest_first is_recent
list_recent_prs_by_repo (some e) repo since t = err e
list_recent_prs_by_repo none repo since t =
    ok (latest_first (is_recent repo since) (λ r. r.created_at) t)

-- a time that is not NULL lies in the half-open range
abbrev pub within : Time → Time → Option Time → Bool
within start end none = false
within start end (some at) = leb start at && ltb at end

abbrev pub since_given : Time → Option Time → Bool
since_given since none = false
since_given since (some at) = leb since at

abbrev merged_time : GitHubPr → Time
merged_time r = elim r.merged_at [ none ↦ 0 | some at ↦ at ]

unfoldable pub list_merged_prs_by_engineer_github :
    Option String → String → Time → List GitHubPr → Result (List GitHubPr)
unfolding latest_first
list_merged_prs_by_engineer_github (some e) user since t = err e
list_merged_prs_by_engineer_github none user since t = ok (
    latest_first (λ r. str_eq r.engineer_github user && since_given since r.merged_at) merged_time
      t)

-- the four counts of PRCountsForEngineer
abbrev closed_unmerged : Time → Time → GitHubPr → Bool
closed_unmerged start end r =
    str_eq r.state "CLOSED"
    && elim r.merged_at [ none ↦ within start end (some r.created_at) | some at ↦ false ]

abbrev reverted_or_merged : GitHubPr → Option Time
reverted_or_merged r = elim r.reverted_at [ none ↦ r.merged_at | some at ↦ some at ]

unfoldable pub pr_counts_for_engineer :
    Option String → String → Time → Time → List GitHubPr → Result EngineerPrCounts
unfolding count_if
pr_counts_for_engineer (some e) user start end t = err e
pr_counts_for_engineer none user start end t =
    let count : (GitHubPr → Bool) → ℤ =
      λ p. pos (count_if (λ r. str_eq r.engineer_github user && p r) t) in
    ok (record {
      opened = count (λ r. within start end (some r.created_at));
      merged = count (λ r. within start end r.merged_at);
      closed_unmerged = count (closed_unmerged start end);
      reverted = count (λ r. r.reverted && within start end (reverted_or_merged r));
    })

pub record RepoSync : Type 0 where
  pub repo : String
  pub last_synced_at : Option Time
  pub last_error : Option String
  pub last_error_at : Option Time

-- INSERT ... ON CONFLICT (repo) DO UPDATE, by the new row and the SET
unfoldable pub upsert_sync : RepoSync → (RepoSync → RepoSync) → List RepoSync → List RepoSync
upsert_sync new set [] = new ∷ []
upsert_sync new set (r ∷ rs) =
    let rest = upsert_sync new set rs in if str_eq r.repo new.repo then set r ∷ rs else r ∷ rest

-- a statement whose reply is lost is carried out
abbrev is_refused : Option Fault → Bool
is_refused none = false
is_refused (some (refused e)) = true
is_refused (some (reply_lost e)) = false

unfoldable pub record_repo_sync_ok : Option Fault → String → Time → List RepoSync → List RepoSync
unfolding upsert_sync
record_repo_sync_ok fault repo at t =
    if is_refused fault
    then t
    else upsert_sync
        (record { repo = repo; last_synced_at = some at; last_error = none; last_error_at = none })
        (λ r. record r { last_synced_at = some at; last_error = none; last_error_at = none }) t

unfoldable pub record_repo_sync_err :
    Option Fault → String → String → Time → List RepoSync → List RepoSync
unfolding upsert_sync
record_repo_sync_err fault repo message at t =
    if is_refused fault
    then t
    else upsert_sync
        (record {
          repo = repo;
          last_synced_at = none;
          last_error = some message;
          last_error_at = some at;
        })
        (λ r. record r { last_error = some message; last_error_at = some at }) t
