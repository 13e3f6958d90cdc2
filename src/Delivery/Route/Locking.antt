-- ===== src/Delivery/Route/Locking.antt =====
-- The delivery lock of `route_and_deliver`: claimed and released once, unless `create_delivery` raises.
use agent_it.Base.{
  String, Bool, true, false, Option, none, some, List, ◌∷◌, ◌++◌, ◌≡◌, refl, ap, ◌∙◌, Bool-cases,
  inl, inr,
}
use agent_it.Delivery.{
  FileCategory, cluster_config, cicd_shared_namespace, source_patch, manifest_at_rest, Entry,
  Mechanism, infra_repo_commit,
}
use agent_it.Delivery.Route.{
  World, claim, create, update, schedule, release, in_progress, call_failed, Result, ok, raised,
  Trace, Exec, Outcomes, by_mechanism, deliver_cluster, deliver_source, open_pr, watch_slos,
  deliver_all, guarded, take_lock, lock_key, route_and_deliver, or_mark_failed, call, settle,
  files_for, record_outcomes, refuse_at_rest, status_of, resolution_of,
}
use agent_it.Delivery.Route.Quiet.{
  Quiet, quiet_rules, lock_steps, Quiet-if, Quiet-bind, Quiet-perform, Quiet-pure, Quiet-continue,
  Quiet-settle,
}

module _ (w : World) where
  open_pr-Quiet :
      (c : FileCategory) (m : Mechanism) (files : List Entry) → Quiet (open_pr w c m files)
  unfolding open_pr
  open_pr-Quiet c m files = search quiet_rules

  by_mechanism-Quiet :
      (c : FileCategory) (files : List Entry) (m : Option Mechanism)
      → Quiet (by_mechanism w c files m)
  unfolding by_mechanism
  by_mechanism-Quiet c files none = search quiet_rules
  by_mechanism-Quiet c files (some infra_repo_commit) = search quiet_rules
  by_mechanism-Quiet c files (some m) = search quiet_rules

  ruleset route_rules = (quiet_rules, by_mechanism-Quiet, open_pr-Quiet)

  deliver_cluster-Quiet :
      (c : FileCategory) (files : List Entry) → Quiet (deliver_cluster w c files)
  unfolding deliver_cluster
  deliver_cluster-Quiet c files = search route_rules

  deliver_source-Quiet : (files : List Entry) → Quiet (deliver_source w files)
  unfolding deliver_source
  deliver_source-Quiet files = search route_rules depth 7

  watch_slos-Quiet : (xs ys : List Entry) → Quiet (watch_slos w xs ys)
  unfolding watch_slos
  watch_slos-Quiet xs ys = Quiet-if _ _ _ (Quiet-perform _ schedule refl) (Quiet-pure tt)

  record_outcomes-Quiet :
      (files : List Entry) (dry_run : Bool) (os : Outcomes)
      → Quiet (record_outcomes w files dry_run os)
  unfolding record_outcomes
  record_outcomes-Quiet files dry_run os =
      Quiet-bind (call w (update (status_of os) (resolution_of dry_run os))) _
        (Quiet-perform _ _ refl)
        λ _.
          Quiet-bind
            (watch_slos w (files_for w cluster_config files)
              (files_for w cicd_shared_namespace files))
            _ (watch_slos-Quiet _ _) λ _. Quiet-pure os

  deliver_all-Quiet : (files : List Entry) (dry_run : Bool) → Quiet (deliver_all w files dry_run)
  unfolding deliver_all
  deliver_all-Quiet files dry_run =
      Quiet-bind (deliver_cluster w cluster_config (files_for w cluster_config files)) _
        (deliver_cluster-Quiet _ _)
        λ cluster.
          Quiet-bind
            (deliver_cluster w cicd_shared_namespace (files_for w cicd_shared_namespace files)) _
            (deliver_cluster-Quiet _ _)
            λ cicd.
              Quiet-bind (deliver_source w (files_for w source_patch files)) _
                (deliver_source-Quiet _)
                λ source. record_outcomes-Quiet files dry_run (
                  cluster
                  ++ (cicd ++ (source ++ refuse_at_rest (files_for w manifest_at_rest files))))

  or_mark_failed-Quiet : (r : Result Outcomes) → Quiet (or_mark_failed w r)
  or_mark_failed-Quiet (ok os) = Quiet-pure os
  or_mark_failed-Quiet (raised e) = search quiet_rules

  -- The body with the lock held ends in one release, whether it returns or raises.
  lock_steps-guarded :
      (key : String) (body : Exec Outcomes)
      → Quiet body
      → (t : Trace) → lock_steps (guarded w true key body t).1 ≡ release key ∷ lock_steps t
  unfolding guarded
  lock_steps-guarded key body quiet t =
      let (r, t1) = body t in
      let (r', t2) = or_mark_failed w r t1 in
      (Quiet-continue _ (λ _. settle r') (λ _. Quiet-settle r')).at (release key ∷ t2)
      ∙ ap (λ (l : Trace). release key ∷ l) ((or_mark_failed-Quiet r).at t1 ∙ quiet.at t)

  lock_steps-guarded_dry :
      (key : String) (body : Exec Outcomes)
      → Quiet body
      → (t : Trace) → lock_steps (guarded w false key body t).1 ≡ lock_steps t
  unfolding guarded
  lock_steps-guarded_dry key body quiet t =
      let (r, t1) = body t in (or_mark_failed-Quiet r).at t1 ∙ quiet.at t

  -- Where a delivery that is not a dry run gets the lock of its application, and neither the claim
  -- nor `create_delivery` raises, it adds to the lock steps of the log one claim and then one
  -- release, whatever other calls raise.
  pub route_and_deliver-releases :
      (files : List Entry) (app_name : String) (t : Trace)
      → w.claimed ≡ true
      → w.fails (claim (lock_key app_name)) ≡ false
      → w.fails create ≡ false
      → lock_steps (route_and_deliver w files app_name false t).1
        ≡ release (lock_key app_name) ∷ claim (lock_key app_name) ∷ lock_steps t
  unfolding route_and_deliver take_lock
  route_and_deliver-releases files app_name t claimed claims creates =
      rw (claims, claimed, creates)
        (lock_steps-guarded (lock_key app_name) (deliver_all w files false)
          (deliver_all-Quiet files false) (create ∷ claim (lock_key app_name) ∷ t))

  -- Where another delivery of the application holds the lock and the claim does not raise, a
  -- delivery that is not a dry run raises DeliveryInProgressError, and the claim is the only call
  -- that it makes.
  route_and_deliver-in_progress :
      (files : List Entry) (app_name : String) (t : Trace)
      → w.claimed ≡ false
      → w.fails (claim (lock_key app_name)) ≡ false
      → route_and_deliver w files app_name false t
        ≡ (raised in_progress, claim (lock_key app_name) ∷ t)
  unfolding route_and_deliver take_lock
  route_and_deliver-in_progress files app_name t held claims = rw (claims, held)

  -- A dry run neither claims nor releases the lock, whatever calls raise.
  pub route_and_deliver-dry_run :
      (files : List Entry) (app_name : String) (t : Trace)
      → lock_steps (route_and_deliver w files app_name true t).1 ≡ lock_steps t
  unfolding route_and_deliver
  route_and_deliver-dry_run files app_name t = elim (Bool-cases (w.fails create)) [
    | inl e ↦ rw e
    | inr e ↦ rw e (
        lock_steps-guarded_dry (lock_key app_name) (deliver_all w files true)
          (deliver_all-Quiet files true) (create ∷ t))
  ]

  -- Where a delivery that is not a dry run claims the lock and then `create_delivery` raises, the
  -- call raises, and the claim and `create_delivery` are all the calls that it makes: the lock is
  -- not released.
  route_and_deliver-keeps_lock :
      (files : List Entry) (app_name : String) (t : Trace)
      → w.claimed ≡ true
      → w.fails (claim (lock_key app_name)) ≡ false
      → w.fails create ≡ true
      → route_and_deliver w files app_name false t
        ≡ (raised (call_failed create), create ∷ claim (lock_key app_name) ∷ t)
  unfolding route_and_deliver take_lock
  route_and_deliver-keeps_lock files app_name t claimed claims creates =
      rw (claims, claimed, creates)
