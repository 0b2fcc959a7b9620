-- ===== src/Efficiency/Collect.antt =====
-- internal/service/efficiency.go: the work of one run of the collector, on the tables it reads and
-- writes and on the dirty set in Redis (internal/store/github.go). How each statement fares, and what
-- FetchAuthoredPRs answers, are inputs.
pub mod Kept
pub mod Stored
use enterprise_llm_tracker.Base.{
  ℕ, ◌+◌, ◌*◌, suc, String, Bool, true, false, not, List, [], ◌∷◌, ◌++◌, Option, none, some, str_eq,
  if◌then◌else◌,
}
use enterprise_llm_tracker.Base.Act.{Result, ok, err}
use enterprise_llm_tracker.Base.Int.{ℤ, pos, negsuc}
use enterprise_llm_tracker.Clock.{Time, day, days_ago}
use enterprise_llm_tracker.Config.{GitHubConfig}
use enterprise_llm_tracker.Efficiency.{compute_snapshots}
use enterprise_llm_tracker.Float.{Float}
use enterprise_llm_tracker.Models.{GitHubPr, EfficiencySnapshot}
use enterprise_llm_tracker.Query.{Fault, refused, reply_lost}
use enterprise_llm_tracker.Registry.{Engineer}
use enterprise_llm_tracker.Reverts.{RevertFinding, detect_reverts, is_member}
use enterprise_llm_tracker.Store.PullRequests.{
  RepoSync, upsert_github_pr, mark_pr_reverted, list_recent_prs_by_repo,
  list_merged_prs_by_engineer_github, record_repo_sync_ok, record_repo_sync_err,
}

-- github_prs, github_repo_sync, efficiency_snapshots, and the dirty set
pub record Tables (F : Type 0) : Type 0 where
  pub prs : List GitHubPr
  pub syncs : List RepoSync
  pub snapshots : List (EfficiencySnapshot F)
  pub dirty : List String

-- what a run meets: the clock at each of its stages, GitHub, CostForEngineerWindow, and the faults
pub record Meets (F : Type 0) : Type 0 where
  pub fetch_at : Time
  pub sync_at : Time
  pub scan_at : Time
  pub compute_at : Time
  pub fetch : String → Time → Result (List GitHubPr)
  pub cost_of : String → Time → Time → Result F
  pub members_fault : Option String
  pub del_fault : Option String
  pub upsert_fault : GitHubPr → Option Fault
  pub sync_fault : String → Option Fault
  pub list_fault : String → Option String
  pub mark_fault : RevertFinding → Option Fault
  pub merged_fault : String → Option String
  pub snapshot_fault : EfficiencySnapshot F → Option Fault

-- t.AddDate(0, 0, -n)
unfoldable pub days_back : ℤ → Time → Time
days_back (pos n) t = days_ago n t
days_back (negsuc n) t = t + suc n * day

-- MarkEngineerDirty, where SADD succeeds
unfoldable pub mark_engineer_dirty : String → List String → List String
unfolding is_member
mark_engineer_dirty user dirty =
    if str_eq user "" then dirty else if is_member user dirty then dirty else dirty ++ user ∷ []

-- DrainDirtyEngineers: SMEMBERS, then DEL; `late` is what other clients make of the set in between
unfoldable pub drain_dirty_engineers :
    Option String
    → Option String
    → (List String → List String)
    → List String
    → Result (List String) × List String
drain_dirty_engineers (some e) del late dirty = (err e, late dirty)
drain_dirty_engineers none del late [] = (ok [], late [])
drain_dirty_engineers none (some e) late (u ∷ us) = (err e, late (u ∷ us))
drain_dirty_engineers none none late (u ∷ us) = (ok (u ∷ us), [])

module _ {F : Type 0} (fl : Float F) (cfg : GitHubConfig) (m : Meets F) where
  -- the inner loop of fetchAndStore: the last error so far, and the table
  unfoldable pub upsert_all :
      List GitHubPr → Option String → List GitHubPr → Option String × List GitHubPr
  upsert_all [] last t = (last, t)
  upsert_all (pr ∷ prs) last t =
      let (result, after) = upsert_github_pr (m.upsert_fault pr) pr t in
      elim result [ err e ↦ upsert_all prs (some e) after | ok _ ↦ upsert_all prs last after ]

  unfoldable pub fetch_all :
      List String → Option String → List GitHubPr → Option String × List GitHubPr
  unfolding upsert_all days_back
  fetch_all [] last t = (last, t)
  fetch_all (login ∷ logins) last t = elim (str_eq login "") [
    | true ↦ fetch_all logins last t
    | false ↦ elim (m.fetch login (days_back cfg.lookback_days m.fetch_at)) [
      | err e ↦ fetch_all logins (some e) t
      | ok prs ↦ let (last', after) = upsert_all prs last t in fetch_all logins last' after
    ]
  ]

  -- the loop over the configured repositories
  unfoldable pub record_syncs : List String → Option String → List RepoSync → List RepoSync
  record_syncs [] last t = t
  record_syncs (repo ∷ repos) (some e) t =
      record_syncs repos (some e) (record_repo_sync_err (m.sync_fault repo) repo e m.sync_at t)
  record_syncs (repo ∷ repos) none t =
      record_syncs repos none (record_repo_sync_ok (m.sync_fault repo) repo m.sync_at t)

  unfoldable pub fetch_and_store : List String → Tables F → Option String × Tables F
  unfolding fetch_all record_syncs
  fetch_and_store logins w =
      if str_eq cfg.org ""
      then (none, w)
      else let (last, prs) = fetch_all logins none w.prs in
        (last, record w { prs = prs; syncs = record_syncs cfg.repos last w.syncs })

  -- detectAndMarkReverts
  unfoldable pub mark_all : List RevertFinding → List GitHubPr → List GitHubPr
  mark_all [] t = t
  mark_all (f ∷ fs) t =
      mark_all fs
        (mark_pr_reverted (m.mark_fault f) f.original_repo f.original_pr f.reverted_at t).1

  unfoldable pub detect_and_mark_reverts : List String → List GitHubPr → List GitHubPr
  unfolding mark_all days_back
  detect_and_mark_reverts [] t = t
  detect_and_mark_reverts (repo ∷ repos) t =
      elim (list_recent_prs_by_repo (m.list_fault repo) repo (days_back cfg.lookback_days m.scan_at)
        t) [
          | err e ↦ detect_and_mark_reverts repos t
          | ok prs ↦ detect_and_mark_reverts repos (mark_all (detect_reverts fl prs) t)
        ]

  -- WriteEfficiencySnapshot of each row
  unfoldable pub write_snapshots :
      List (EfficiencySnapshot F) → List (EfficiencySnapshot F) → List (EfficiencySnapshot F)
  write_snapshots [] t = t
  write_snapshots (s ∷ ss) t = elim (m.snapshot_fault s) [
    | some (refused e) ↦ write_snapshots ss t
    | some (reply_lost e) ↦ write_snapshots ss (t ++ s ∷ [])
    | none ↦ write_snapshots ss (t ++ s ∷ [])
  ]

  -- runOnce, from its drain to its snapshots
  unfoldable pub run_pass :
      (List String → List String) → List String → List (Engineer F) → Tables F → Tables F
  unfolding fetch_and_store detect_and_mark_reverts write_snapshots
  run_pass late logins engineers w =
      let (_, dirty) = drain_dirty_engineers m.members_fault m.del_fault late w.dirty in
      let (_, fetched) = fetch_and_store logins (record w { dirty = dirty }) in
      let prs = detect_and_mark_reverts cfg.repos fetched.prs in
      let merged : String → Time → Result (List GitHubPr) =
        λ user since. list_merged_prs_by_engineer_github (m.merged_fault user) user since prs in
      record fetched {
        prs = prs;
        snapshots =
            write_snapshots (compute_snapshots fl m.cost_of merged m.compute_at engineers)
              fetched.snapshots;
      }
