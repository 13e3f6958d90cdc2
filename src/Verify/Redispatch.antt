-- ===== src/Verify/Redispatch.antt =====
-- One more fix of a finding (`redispatch_finding_fix`), and the decision between it and an escalation.
use agent_it.Base.{
  ℕ, ◌+◌, String, Bool, true, false, not, Option, none, some, List, [], ◌∷◌, max, leb, first_some,
  is_empty, is_empty_text, if◌then◌else◌, get_or, lookup, ◌++ₛ◌, show,
}
use agent_it.Registry.{FindingKey}
use agent_it.Delivery.{Entry, cluster_config, category_eq}
use agent_it.Delivery.Route.{
  Outcome, Outcomes, Step, claim, create, deliver, update, schedule, release, Status, delivered,
  partial, failed, Resolution, unchanged, not_delivered, Result, ok, raised, Trace,
  route_and_deliver, lock_key,
}
use agent_it.Store.Locks.{claim_delivery_lock, release_delivery_lock}
use agent_it.Store.Deliveries.{create_delivery, update_delivery, get_finding_failure_count}
use agent_it.Store.Skills.{CooldownInfo, get_skill_cooldown, skill_cooldown_same_reason}
use agent_it.Verify.{Db, log_outcome}
use agent_it.Verify.Dispatch.{Generated, Outside, dispatch}
use agent_it.Verify.Attribution.{skill_names_for_findings}
use agent_it.Verify.Escalation.{escalate_unresolved_finding}

abbrev pub finding_escalation_threshold : ℕ
finding_escalation_threshold = 3

-- `action` and `reason`; the name of the agent is left out.
abbrev pub Redispatched : Type 0
Redispatched = String × String

-- What was decided: an escalation, with its event, or one more fix.
pub data Decision : Type 0 where
  escalated : ℕ → ℕ → Option CooldownInfo → Decision
  redispatched : ℕ → Redispatched → Decision

-- A state, and the exception of a call.
abbrev pub Exec : Type 0 → Type 0
Exec A = Db → Result A × Db

abbrev pub continue : {A B : Type 0} → Result A → (A → Exec B) → Exec B
continue (ok a) f db = f a db
continue (raised e) f db = (raised e, db)

abbrev pub status_text : Status → String
status_text delivered = "delivered"
status_text partial = "partial"
status_text failed = "failed"

abbrev resolution_text : Resolution → Option String
resolution_text unchanged = none
resolution_text not_delivered = some "not_delivered"

-- Outside a dry run the details of an `update` have a `pr_url` where its resolution is unchanged,
-- but for that of a failure, which has none.
abbrev brings_pr : Status → Resolution → Bool
brings_pr failed _ = false
brings_pr _ unchanged = true
brings_pr _ not_delivered = false

-- A step of `route_and_deliver` on the tables. The row that it updates is the one that it created,
-- the last one.
abbrev pub step : String → FindingKey → ℕ → ℕ → Step → Db → Db
step app finding now row (claim key) db = record db {
  locks = (claim_delivery_lock key now db.locks).1;
}
step app finding now row create db = record db {
  fresh = row + 1;
  deliveries = create_delivery row app (finding ∷ []) db.deliveries;
}
step app finding now row (deliver c m files) db = db
step app finding now row (update s r) db = record db {
  deliveries =
      update_delivery row (some (status_text s)) (resolution_text r) (brings_pr s r) db.deliveries;
}
step app finding now row schedule db = db
step app finding now row (release key) db = record db { locks = release_delivery_lock key db.locks }

-- The newest step stands first.
unfoldable pub replay : String → FindingKey → ℕ → ℕ → Trace → Db → Db
replay app finding now row [] db = db
replay app finding now row (s ∷ trace) db =
    step app finding now row s (replay app finding now row trace db)

module _ (o : Outside) where
  -- `route_and_deliver`, with the lock as the table has it.
  abbrev pub routed : List Entry → String → Db → Result Outcomes × Trace
  routed files app db =
      let claimed = (claim_delivery_lock (lock_key app) o.now_seconds db.locks).0 in
      route_and_deliver (record o.world { claimed = claimed }) files app false []

  -- And on the tables; a statement that raises has its effect all the same.
  unfoldable pub deliver_fix : List Entry → String → FindingKey → Exec Outcomes
  unfolding replay
  deliver_fix files app finding db =
      let (result, trace) = routed files app db in
      (result, replay app finding o.now_seconds db.fresh trace db)

abbrev of_cluster : Option Outcome → Redispatched
of_cluster none = ("delivered", "Delivered via the unified router")
of_cluster (some c) =
    if not (is_empty_text c.pr_url)
    then ("delivered", "Opened PR " ++ₛ c.pr_url ++ₛ " -- awaiting human merge")
    else if not (is_empty_text (get_or "" c.error))
    then ("routing-error", get_or "" c.error)
    else ("delivered", "Delivered via the unified router")

abbrev cluster_outcome : Outcomes → Option Outcome
cluster_outcome outcomes = lookup cluster_config outcomes

abbrev or_default : Option String → String
or_default none = "dispatcher produced no files"
or_default (some why) = if is_empty_text why then "dispatcher produced no files" else why

-- The first contract skill of the finding that is cooling down.
unfoldable pub same_reject_reason_blocks_redispatch : String → FindingKey → Db → Option CooldownInfo
same_reject_reason_blocks_redispatch app finding db =
    first_some (λ (name : String). get_skill_cooldown app name skill_cooldown_same_reason db.skills)
      (skill_names_for_findings (finding ∷ []))

abbrev pub learner_summary : CooldownInfo → String
learner_summary info =
    "Queued skill-learner for '"
    ++ₛ info.skill_name
    ++ₛ "' after "
    ++ₛ show info.count
    ++ₛ " identical rejects ("
    ++ₛ info.reason_prefix
    ++ₛ ") — skipped blind redispatch"

module _ (o : Outside) where
  unfoldable pub log_redispatched : String → FindingKey → Redispatched → Exec Redispatched
  log_redispatched app finding (action, reason) db = (
    ok (action, reason),
    (log_outcome app "finding-redispatched" "info"
        ("Re-dispatched a fresh fix for '" ++ₛ finding.0
          ++ₛ "' after a confirmed still-present finding: " ++ₛ action ++ₛ " -- " ++ₛ reason)
        db).1,
  )

  unfoldable pub deliver_generated : Generated → String → FindingKey → Exec Redispatched
  unfolding log_redispatched
  deliver_generated g app finding db =
      if is_empty g.files
      then (
        ok ("no-fix-available", or_default g.error),
        (log_outcome app "finding-redispatch-no-fix" "warning"
            ("Re-dispatch for '" ++ₛ finding.0 ++ₛ "' produced no fix: " ++ₛ or_default g.error)
            db).1,
      )
      else (let (result, db1) = deliver_fix o g.files app finding db in
          continue result
            (λ (outcomes : Outcomes).
              log_redispatched app finding (of_cluster (cluster_outcome outcomes)))
            db1)

  unfoldable pub redispatch_finding_fix : String → FindingKey → Exec Redispatched
  unfolding deliver_generated
  redispatch_finding_fix app finding db =
      deliver_generated (dispatch o app finding.0 db) app finding db

  unfoldable pub blocked_or_again : Option CooldownInfo → ℕ → String → FindingKey → Exec Decision
  unfolding redispatch_finding_fix
  blocked_or_again (some info) failure_count app finding db =
      let (event_id, db1) = escalate_unresolved_finding app finding (max failure_count 1) db in
      let (_, db2) = log_outcome app "skill-learner-queued" "info" (learner_summary info) db1 in
      (ok (escalated event_id failure_count (some info)), db2)
  blocked_or_again none failure_count app finding db =
      let (result, db1) = redispatch_finding_fix app finding db in
      continue result (λ (r : Redispatched). λ (d : Db). (ok (redispatched failure_count r), d)) db1

  unfoldable pub handle_confirmed_finding_failure : String → FindingKey → Exec Decision
  unfolding blocked_or_again
  handle_confirmed_finding_failure app finding db =
      let failure_count = get_finding_failure_count app finding.0 db.deliveries in
      let (event_id, db1) = escalate_unresolved_finding app finding failure_count db in
      if leb finding_escalation_threshold failure_count
      then (ok (escalated event_id failure_count none), db1)
      else blocked_or_again (same_reject_reason_blocks_redispatch app finding db) failure_count app
          finding db
