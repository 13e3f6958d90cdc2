-- ===== src/Delivery/Route.antt =====
-- `route_and_deliver` of src/agentit/portal/delivery.py, as an action that logs its effects on the
-- store and on the repositories. The theorems stand in Route/Locking and Route/Refusals.
mod Effects
pub mod Quiet
mod Logs
pub mod Locking
mod Origin
pub mod Refusals
use agent_it.Base.{
  String, Bool, true, false, ◌&&◌, ◌||◌, not, Option, none, some, List, [], ◌∷◌, ◌++◌, any,
  is_empty, is_empty_text, is_some, if◌then◌else◌, lookup, get_or, ◌++ₛ◌,
}
use agent_it.Delivery.{
  FileCategory, cluster_config, cicd_shared_namespace, source_patch, narrative_report,
  manifest_at_rest, secret_blocked, Tools, Entry, Mechanism, infra_repo_commit, source_repo_pr,
  app_repo_pr, mechanism_for, category_eq, Groups, deliverable_groups, without_placeholders,
}
use agent_it.Delivery.Chart.Remap.{
  PathName, remap_self_managed_cluster_files, remap_self_managed_cicd_files,
}
pub use Effects.{
  Status, delivered, partial, failed, Resolution, unchanged, not_delivered, Step, claim, create,
  deliver, update, schedule, release, Reason, in_progress, call_failed, Result, ok, raised, Trace,
  Exec, perform, pure, raise, settle, continue, ◌>>=◌, ◌>>◌,
}

-- What one delivery mechanism returned: its `error` and its `pr_url`.
pub record Outcome : Type 0 where
  pub error : Option String
  pub pr_url : String

abbrev pub refused : String → Outcome
refused why = record { error = some why; pr_url = "" }

-- The world of one call. `path_name` is the name of a path. `fails` says which of the calls raise; `claimed` is the answer of
-- `claim_delivery_lock`; `outcome` is what the mechanism of a category returns.
pub record World : Type 0 where
  pub tools : Tools
  pub path_name : PathName
  pub infra_repo_url : Option String
  pub self_managed : Bool
  pub has_report : Bool
  pub claimed : Bool
  pub fails : Step → Bool
  pub outcome : FileCategory → Outcome

abbrev pub Outcomes : Type 0
Outcomes = List (FileCategory × Outcome)

-- Files at rest are refused, with no pull request.
refuse_at_rest : List Entry → Outcomes
refuse_at_rest files =
    if is_empty files
    then []
    else (manifest_at_rest, refused "MECHANISM_APP_REPO_PR (.agentit/ dump) is refused") ∷ []

abbrev pub any_error : Outcomes → Bool
any_error os = any (λ (o : FileCategory × Outcome). is_some o.1.error) os

abbrev pub opened_pr : Outcomes → Bool
opened_pr os = any (λ (o : FileCategory × Outcome). not (is_empty_text o.1.pr_url)) os

abbrev pub status_of : Outcomes → Status
status_of os = if any_error os then partial else delivered

abbrev pub resolution_of : Bool → Outcomes → Resolution
resolution_of dry_run os = if opened_pr os || dry_run then unchanged else not_delivered

abbrev pub is_infra_commit : Option Mechanism → Bool
is_infra_commit (some infra_repo_commit) = true
is_infra_commit _ = false

abbrev pub lock_key : String → String
lock_key app_name = "delivery:" ++ₛ app_name

module _ (w : World) where
  abbrev pub call : Step → Exec Unit
  call s = perform (w.fails s) s

  abbrev pub mechanism_of : FileCategory → Option Mechanism
  mechanism_of c = mechanism_for w.infra_repo_url w.self_managed c

  -- The files of a category that `route_and_deliver` still holds when it selects mechanisms.
  abbrev pub files_for : FileCategory → List Entry → List Entry
  files_for c files =
      without_placeholders w.tools (get_or [] (lookup c (deliverable_groups w.tools files)))

  -- The files of a category as the source repository of a self-managed application gets them.
  abbrev pub remapped : FileCategory → List Entry → List Entry
  unfolding remap_self_managed_cluster_files remap_self_managed_cicd_files
  remapped cicd_shared_namespace files = remap_self_managed_cicd_files w.tools w.path_name files
  remapped _ files = remap_self_managed_cluster_files w.tools w.path_name files

  open_pr : FileCategory → Mechanism → List Entry → Exec Outcomes
  open_pr c m files = do call (deliver c m files); pure ((c, w.outcome c) ∷ [])

  -- The branches on the mechanism of `cluster_config` and of `cicd_shared_namespace`.
  by_mechanism : FileCategory → List Entry → Option Mechanism → Exec Outcomes
  unfolding open_pr remapped
  by_mechanism c files (some infra_repo_commit) =
      if w.has_report
      then open_pr c infra_repo_commit files
      else pure ((c, refused "no GitOps infra repo") ∷ [])
  by_mechanism c files (some source_repo_pr) =
      if w.has_report
      then open_pr c source_repo_pr (remapped c files)
      else pure ((c, refused "no GitOps infra repo") ∷ [])
  by_mechanism c files _ = pure ((c, refused "no GitOps infra repo") ∷ [])

  deliver_cluster : FileCategory → List Entry → Exec Outcomes
  unfolding by_mechanism
  deliver_cluster c files =
      if is_empty files then pure [] else by_mechanism c files (mechanism_of c)

  deliver_source : List Entry → Exec Outcomes
  unfolding open_pr
  deliver_source files =
      if is_empty files
      then pure []
      else if w.has_report
      then open_pr source_patch source_repo_pr files
      else pure ((source_patch, refused "no assessment report available") ∷ [])

  -- The SLO watch: once, for the first of the two categories that goes to the infra repository.
  watch_slos : List Entry → List Entry → Exec Unit
  watch_slos cluster_files cicd_files =
      if (not (is_empty cluster_files) && is_infra_commit (mechanism_of cluster_config))
        || (not (is_empty cicd_files) && is_infra_commit (mechanism_of cicd_shared_namespace))
      then call schedule
      else pure tt

  -- The row of the delivery gets its final status, and the SLO watch is scheduled.
  record_outcomes : List Entry → Bool → Outcomes → Exec Outcomes
  unfolding watch_slos
  record_outcomes files dry_run outcomes = do
    call (update (status_of outcomes) (resolution_of dry_run outcomes))
    watch_slos (files_for cluster_config files) (files_for cicd_shared_namespace files)
    pure outcomes

  -- The body of the `try`.
  deliver_all : List Entry → Bool → Exec Outcomes
  unfolding deliver_cluster deliver_source refuse_at_rest record_outcomes
  deliver_all files dry_run = do
    cluster ← deliver_cluster cluster_config (files_for cluster_config files)
    cicd ← deliver_cluster cicd_shared_namespace (files_for cicd_shared_namespace files)
    source ← deliver_source (files_for source_patch files)
    record_outcomes files dry_run
        (cluster ++ (cicd ++ (source ++ refuse_at_rest (files_for manifest_at_rest files))))

  -- `except Exception: update_delivery(failed); raise`
  abbrev pub or_mark_failed : Result Outcomes → Exec Outcomes
  or_mark_failed (ok os) = pure os
  or_mark_failed (raised e) = do call (update failed unchanged); raise e

  -- `finally: if lock_held: release_delivery_lock(lock_key)`
  abbrev pub or_release : Bool → String → Result Outcomes → Exec Outcomes
  or_release false key r = settle r
  or_release true key r = do call (release key); settle r

  guarded : Bool → String → Exec Outcomes → Exec Outcomes
  guarded lock_held key body t =
      let (r, t1) = body t in let (r', t2) = or_mark_failed r t1 in or_release lock_held key r' t2

  -- From the claim of the lock on. A claim that another delivery holds is refused.
  take_lock : String → Exec Unit
  take_lock key = do call (claim key); if w.claimed then pure tt else raise in_progress

  unfoldable pub route_and_deliver : List Entry → String → Bool → Exec Outcomes
  unfolding take_lock guarded deliver_all
  route_and_deliver files app_name dry_run = do
    if dry_run then pure tt else take_lock (lock_key app_name)
    call create
    guarded (not dry_run) (lock_key app_name) (deliver_all files dry_run)
