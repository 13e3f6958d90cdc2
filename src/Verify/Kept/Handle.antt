-- ===== src/Verify/Kept/Handle.antt =====
-- The handling of a finding that is still there keeps what new rows keep.
use agent_it.Base.{ℕ, String, Option, none, some, List, [], ◌∷◌, max}
use agent_it.Registry.{FindingKey}
use agent_it.Diff.{AssessmentReport}
use agent_it.Delivery.{Entry}
use agent_it.Store.Deliveries.{Delivery, Deliveries}
use agent_it.Store.Skills.{CooldownInfo}
use agent_it.Store.Events.{Event}
use agent_it.Verify.{Db}
use agent_it.Verify.Escalation.{escalate_unresolved_finding, escalate_over, open_escalation}
use agent_it.Verify.Dispatch.{Outside, dispatch}
use agent_it.Verify.Redispatch.{
  routed, blocked_or_again, deliver_fix, redispatch_finding_fix, handle_confirmed_finding_failure,
}
use agent_it.Verify.Correlate.{Correlation}
use agent_it.Verify.Recheck.{handle_each, mark, recorded, on_resolved, on_still_present}
use agent_it.Verify.Kept.{Stable, Kept, continue-keeps, log-keeps, replay-keeps, if-keeps}

module _ (low : ℕ) (Q : Deliveries → Type 0) (stable : Stable low Q) (app : String) where
  escalate-keeps :
      (finding : FindingKey) (n : ℕ) (db : Db)
      → Kept low Q db
      → Kept low Q (escalate_unresolved_finding app finding n db).1
  unfolding escalate_unresolved_finding
  escalate-keeps finding n db h = over (open_escalation app finding.0 db.events)
    where
      over : (e : Option Event) → Kept low Q (escalate_over e app finding n db).1
      over (some e) = h
      over none = log-keeps low Q stable app _ "critical" _ db h

  module _ (o : Outside) where
    deliver_fix-keeps :
        (files : List Entry) (finding : FindingKey) (db : Db)
        → Kept low Q db
        → Kept low Q (deliver_fix o files app finding db).1
    unfolding deliver_fix
    deliver_fix-keeps files finding db h =
        replay-keeps low Q stable app finding o.now_seconds db.fresh ((routed o files app db).1) db
          h.used h

    redispatch-keeps :
        (finding : FindingKey) (db : Db)
        → Kept low Q db
        → Kept low Q (redispatch_finding_fix o app finding db).1
    unfolding redispatch_finding_fix
    redispatch-keeps finding db h =
        if-keeps low Q stable app _ _ _ (log-keeps low Q stable app _ "warning" _ db h) (
          continue-keeps low Q stable app
            (deliver_fix o (dispatch o app finding.0 db).files app finding db) _
            (deliver_fix-keeps (dispatch o app finding.0 db).files finding db h)
            (λ outcomes d k. log-keeps low Q stable app _ "info" _ d k))

    blocked_or_again-keeps :
        (b : Option CooldownInfo) (n : ℕ) (finding : FindingKey) (db : Db)
        → Kept low Q db
        → Kept low Q (blocked_or_again o b n app finding db).1
    unfolding blocked_or_again
    blocked_or_again-keeps (some info) n finding db h =
        log-keeps low Q stable app _ "info" _ _ (escalate-keeps finding (max n 1) db h)
    blocked_or_again-keeps none n finding db h =
        continue-keeps low Q stable app (redispatch_finding_fix o app finding db) _
          (redispatch-keeps finding db h) (λ r d k. k)

    pub handle-keeps :
        (finding : FindingKey) (db : Db)
        → Kept low Q db
        → Kept low Q (handle_confirmed_finding_failure o app finding db).1
    unfolding handle_confirmed_finding_failure
    handle-keeps finding db h =
        if-keeps low Q stable app _ _ _ (escalate-keeps finding _ db h)
          (blocked_or_again-keeps _ _ finding db h)

    module _ (report : AssessmentReport) where
      pub handle_each-keeps :
          (keys : List FindingKey) (db : Db)
          → Kept low Q db
          → Kept low Q (handle_each o app report keys db).1
      unfolding handle_each
      handle_each-keeps [] db h = h
      handle_each-keeps (k ∷ keys) db h =
          continue-keeps low Q stable app (handle_confirmed_finding_failure o app k db) _
            (handle-keeps k db h)
            (λ d db2 h2.
              continue-keeps low Q stable app (handle_each o app report keys db2) _
                (handle_each-keeps keys db2 h2) (λ ds db4 h4. h4))

      pub recorded-keeps :
          (keys : List FindingKey) (outcome reason : String) (db : Db)
          → Kept low Q db
          → Kept low Q (recorded o app report keys outcome reason db)
      recorded-keeps [] outcome reason db h = h
      recorded-keeps (k ∷ keys) outcome reason db h = record { used = h.used; rows = h.rows }

      pub on_resolved-keeps :
          (d : Delivery) (c : Correlation) (db : Db)
          → Kept low Q (mark o app report d.id "resolved" db)
          → Kept low Q (on_resolved o app report d c db).1
      unfolding on_resolved
      on_resolved-keeps d c db h =
          recorded-keeps _ "approved" _ _ (log-keeps low Q stable app _ "info" _ _ h)

      pub on_still_present-keeps :
          (d : Delivery) (c : Correlation) (db : Db)
          → Kept low Q (mark o app report d.id "still_present" db)
          → Kept low Q (on_still_present o app report d c db).1
      unfolding on_still_present
      on_still_present-keeps d c db h =
          continue-keeps low Q stable app (handle_each o app report c.still_present_findings _) _
            (handle_each-keeps c.still_present_findings _ (
              recorded-keeps c.resolved_findings "approved" _ _ (
                recorded-keeps c.still_present_findings "rejected" _ _
                  (log-keeps low Q stable app _ "warning" _ _ h))))
            (λ ds d k. k)
