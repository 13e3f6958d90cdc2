-- ===== src/Delivery/Route/Refusals.antt =====
-- What `route_and_deliver` never delivers.
use agent_it.Base.{
  String, Bool, true, false, not, Option, some, List, [], ◌∷◌, ◌++◌, ◌≡◌, refl, if◌then◌else◌,
  is_empty, arith, All, inl, inr, ◌⊎◌,
}
use agent_it.Delivery.{
  FileCategory, cluster_config, cicd_shared_namespace, source_patch, manifest_at_rest, Entry,
  Mechanism, infra_repo_commit, source_repo_pr, mechanism_for, resolve_cluster_config_mechanism,
}
use agent_it.Delivery.Route.{
  World, Step, claim, create, deliver, update, schedule, release, failed, unchanged, in_progress,
  Result, ok, raised, Exec, pure, Outcomes, call, mechanism_of, files_for, remapped, by_mechanism,
  deliver_cluster, deliver_source, open_pr, watch_slos, record_outcomes, deliver_all, guarded,
  take_lock, lock_key, route_and_deliver, or_mark_failed, or_release, refuse_at_rest, status_of,
  resolution_of,
}
use agent_it.Delivery.Route.Origin.{
  IsCluster, IsFrom, has_secret, files_for-IsFrom, handed-IsFrom, one_of, no_secrets,
}
use agent_it.Delivery.Route.Logs.{
  Logs, Logs-pure, Logs-raise, Logs-settle, Logs-if, Logs-perform, Logs-bind,
}

-- What holds of each delivery that is made: each of its files is one of the batch that has the category
-- and no placeholder, but for its target; the files of the two categories of cluster manifests have no
-- Secret; a report is there, and the mechanism is the category's own; fleet apps get their
-- configuration by the infra repository and self-managed apps by their source repository.
pub record IsSound (w : World) (files : List Entry) (c : FileCategory) (m : Mechanism)
    (fs : List Entry) : Type 0 where
  category : (c ≡ source_patch) ⊎ IsCluster c
  nonempty : (f : Entry) × IsFrom w files c f
  origin : All (IsFrom w files c) fs
  no_secret : IsCluster c → All (λ (f : Entry). has_secret w.tools f ≡ false) fs
  has_report : w.has_report ≡ true
  by_category : mechanism_for w.infra_repo_url w.self_managed c ≡ some m
  mechanism : (m ≡ infra_repo_commit) × (w.self_managed ≡ false) ⊎ (m ≡ source_repo_pr)

abbrev pub Sound : World → List Entry → Step → Type 0
Sound w files (deliver c m fs) = IsSound w files c m fs
Sound w files _ = Unit

module _ (w : World) (files : List Entry) where
  open_pr-Logs :
      (c : FileCategory) (m : Mechanism) (fs : List Entry)
      → IsSound w files c m fs
      → Logs (Sound w files) (open_pr w c m fs)
  unfolding open_pr
  open_pr-Logs c m fs s =
      Logs-bind (call w (deliver c m fs)) _ (Logs-perform _ _ s)
        λ _. Logs-pure ((c, w.outcome c) ∷ [])

  cluster_mechanism :
      (c : FileCategory) (m : Mechanism)
      → IsCluster c
      → mechanism_of w c ≡ some m
      → (m ≡ infra_repo_commit) ⊎ (m ≡ source_repo_pr)
      → (m ≡ infra_repo_commit) × (w.self_managed ≡ false) ⊎ (m ≡ source_repo_pr)
  unfolding mechanism_for resolve_cluster_config_mechanism
  cluster_mechanism cluster_config m h e sent = ground arith
  cluster_mechanism c m h e sent = ground arith

  open_pr_if-Logs :
      (c : FileCategory) (m : Mechanism) (fs : List Entry) (os : Outcomes)
      → (w.has_report ≡ true → IsSound w files c m fs)
      → Logs (Sound w files) (if w.has_report then open_pr w c m fs else pure os)
  open_pr_if-Logs c m fs os sound =
      Logs-if w.has_report _ _ (λ e. open_pr-Logs c m fs (sound e)) (λ _. Logs-pure os)

  by_mechanism-Logs :
      (c : FileCategory) (fs : List Entry) (o : Option Mechanism)
      → ((m : Mechanism) (gs : List Entry)
          → w.has_report ≡ true
          → o ≡ some m
          → (m ≡ infra_repo_commit) ⊎ (m ≡ source_repo_pr)
          → (gs ≡ fs) ⊎ (gs ≡ remapped w c fs)
          → IsSound w files c m gs)
      → Logs (Sound w files) (by_mechanism w c fs o)
  unfolding by_mechanism
  by_mechanism-Logs c fs (some infra_repo_commit) sound =
      open_pr_if-Logs c _ fs _ (λ r. sound _ fs r refl (inl refl) (inl refl))
  by_mechanism-Logs c fs (some source_repo_pr) sound =
      open_pr_if-Logs c _ (remapped w c fs) _
        (λ r. sound _ (remapped w c fs) r refl (inr refl) (inr refl))
  by_mechanism-Logs c fs _ sound = Logs-pure _

  deliver_cluster-Logs :
      (c : FileCategory)
      → IsCluster c
      → Logs (Sound w files) (deliver_cluster w c (files_for w c files))
  unfolding deliver_cluster
  deliver_cluster-Logs c h =
      Logs-if (is_empty (files_for w c files)) _ _ (λ _. Logs-pure [])
        λ some_file.
          by_mechanism-Logs c (files_for w c files) (mechanism_of w c)
            λ m gs reported own sent handed. record {
              category = inr h;
              nonempty =
                  one_of w files c (files_for w c files) some_file (files_for-IsFrom w files c);
              origin = handed-IsFrom w files c gs handed;
              no_secret = λ k. no_secrets w files c gs k (handed-IsFrom w files c gs handed);
              has_report = reported;
              by_category = own;
              mechanism = cluster_mechanism c m h own sent;
            }

  deliver_source-Logs : Logs (Sound w files) (deliver_source w (files_for w source_patch files))
  unfolding deliver_source
  deliver_source-Logs =
      let fs = files_for w source_patch files in
      Logs-if (is_empty fs) _ _ (λ _. Logs-pure [])
        λ some_file. open_pr_if-Logs source_patch source_repo_pr fs _ λ reported. record {
          category = inl refl;
          nonempty =
              one_of w files source_patch fs some_file (files_for-IsFrom w files source_patch);
          origin = files_for-IsFrom w files source_patch;
          no_secret =
              λ k. no_secrets w files source_patch fs k (files_for-IsFrom w files source_patch);
          has_report = reported;
          by_category = unfold mechanism_for in refl;
          mechanism = inr refl;
        }

  watch_slos-Logs : (xs ys : List Entry) → Logs (Sound w files) (watch_slos w xs ys)
  unfolding watch_slos
  watch_slos-Logs xs ys =
      Logs-if _ _ _ (λ _. Logs-perform (w.fails schedule) schedule tt) (λ _. Logs-pure tt)

  record_outcomes-Logs :
      (dry_run : Bool) (os : Outcomes) → Logs (Sound w files) (record_outcomes w files dry_run os)
  unfolding record_outcomes
  record_outcomes-Logs dry_run os =
      Logs-bind (call w (update (status_of os) (resolution_of dry_run os))) _ (Logs-perform _ _ tt)
        λ _.
          Logs-bind
            (watch_slos w (files_for w cluster_config files)
              (files_for w cicd_shared_namespace files))
            _ (watch_slos-Logs _ _) λ _. Logs-pure os

  deliver_all-Logs : (dry_run : Bool) → Logs (Sound w files) (deliver_all w files dry_run)
  unfolding deliver_all
  deliver_all-Logs dry_run =
      Logs-bind (deliver_cluster w cluster_config (files_for w cluster_config files)) _
        (deliver_cluster-Logs _ (inl refl))
        λ cluster.
          Logs-bind
            (deliver_cluster w cicd_shared_namespace (files_for w cicd_shared_namespace files)) _
            (deliver_cluster-Logs _ (inr refl))
            λ cicd.
              Logs-bind (deliver_source w (files_for w source_patch files)) _ deliver_source-Logs
                λ source. record_outcomes-Logs dry_run (
                  cluster
                  ++ (cicd ++ (source ++ refuse_at_rest (files_for w manifest_at_rest files))))

  or_mark_failed-Logs : (r : Result Outcomes) → Logs (Sound w files) (or_mark_failed w r)
  or_mark_failed-Logs (ok os) = Logs-pure os
  or_mark_failed-Logs (raised e) =
      Logs-bind (call w (update failed unchanged)) _ (Logs-perform _ _ tt) λ _. Logs-raise e

  or_release-Logs :
      (held : Bool) (key : String) (r : Result Outcomes)
      → Logs (Sound w files) (or_release w held key r)
  or_release-Logs false key r = Logs-settle r
  or_release-Logs true key r =
      Logs-bind (call w (release key)) _ (Logs-perform _ _ tt) λ _. Logs-settle r

  guarded-Logs :
      (held : Bool) (key : String) (body : Exec Outcomes)
      → Logs (Sound w files) body
      → Logs (Sound w files) (guarded w held key body)
  unfolding guarded
  guarded-Logs held key body logs = record {
    at = λ t h.
        let (r, t1) = body t in
        let (r', t2) = or_mark_failed w r t1 in
        (or_release-Logs held key r').at t2 ((or_mark_failed-Logs r).at t1 (logs.at t h));
  }

  take_lock-Logs : (key : String) → Logs (Sound w files) (take_lock w key)
  unfolding take_lock
  take_lock-Logs key =
      Logs-bind (call w (claim key)) _ (Logs-perform _ _ tt)
        λ _. Logs-if w.claimed _ _ (λ _. Logs-pure tt) (λ _. Logs-raise in_progress)

  route_and_deliver-Logs :
      (app_name : String) (dry_run : Bool)
      → Logs (Sound w files) (route_and_deliver w files app_name dry_run)
  unfolding route_and_deliver
  route_and_deliver-Logs app_name dry_run =
      Logs-bind (if dry_run then pure tt else take_lock w (lock_key app_name)) _
        (Logs-if dry_run _ _ (λ _. Logs-pure tt) (λ _. take_lock-Logs _))
        λ _. Logs-bind (call w create) _ (Logs-perform _ create tt) λ _.
          guarded-Logs (not dry_run) (lock_key app_name) (deliver_all w files dry_run)
            (deliver_all-Logs dry_run)

  -- Whatever calls raise, each file that `route_and_deliver` hands to a delivery mechanism has the
  -- path and the content of a file of the batch that `classify_file` puts in the category of the
  -- delivery and that has no unresolved placeholder, and the batch has such a file. The category is
  -- one of the two of cluster manifests, in whose files no document is a Secret, or that of source
  -- patches; the mechanism is the category's own, a report is there, and the infra repository is never
  -- used for a self-managed application.
  pub route_and_deliver-IsSound :
      (app_name : String) (dry_run : Bool)
      → All (Sound w files) (route_and_deliver w files app_name dry_run []).1
  route_and_deliver-IsSound app_name dry_run = (route_and_deliver-Logs app_name dry_run).at [] tt
