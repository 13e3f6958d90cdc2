-- ===== src/Verify/Stops.antt =====
-- Where the retries of a finding stop.
use agent_it.Base.{
  ℕ, ◌≤◌, String, true, false, Option, none, some, ◌≡◌, ◌⊎◌, inl, inr, refl, sym, ap, ◌∙◌, arith,
  max, le→leb, leb, is_empty_text, Bool-cases, is_some, Option-cases, subst,
}
use agent_it.Registry.{FindingKey}
use agent_it.Delivery.Route.{Result, ok}
use agent_it.Store.Deliveries.{get_finding_failure_count}
use agent_it.Store.Skills.{CooldownInfo}
use agent_it.Verify.{Db, log_outcome}
use agent_it.Verify.Escalation.{escalate_unresolved_finding, has_quote}
use agent_it.Verify.Open.{
  open_count, AreBefore, escalate_unresolved_finding-open_count,
  escalate_unresolved_finding-deliveries, list_unresolved-log_outcome,
}
use agent_it.Verify.Dispatch.{Outside}
use agent_it.Verify.Redispatch.{
  Decision, escalated, handle_confirmed_finding_failure, finding_escalation_threshold,
  same_reject_reason_blocks_redispatch, learner_summary,
}

-- No more automatic fix: the finding failed often enough, or a skill of its contract is cooling down.
abbrev pub IsExhausted : String → FindingKey → Db → Type 0
IsExhausted app finding db =
    (finding_escalation_threshold ≤ get_finding_failure_count app finding.0 db.deliveries)
    ⊎ (is_some (same_reject_reason_blocks_redispatch app finding db) ≡ true)

-- What was decided is an escalation, no delivery changes, and an event for the category stands open.
pub record IsEscalated (o : Outside) (app : String) (finding : FindingKey) (db : Db) : Type 0 where
  pub event_id : ℕ
  pub blocked : Option CooldownInfo
  pub decided :
      (handle_confirmed_finding_failure o app finding db).0
      ≡ ok (escalated event_id (get_finding_failure_count app finding.0 db.deliveries) blocked)
  pub same_deliveries :
      (handle_confirmed_finding_failure o app finding db).1.deliveries ≡ db.deliveries
  pub is_open :
      1 ≤ open_count app finding.0 (handle_confirmed_finding_failure o app finding db).1.events

-- From one equation for the whole result.
of_result :
    (o : Outside) (app : String) (finding : FindingKey) (db db' : Db) (event_id : ℕ)
    (blocked : Option CooldownInfo)
    → handle_confirmed_finding_failure o app finding db ≡ (
      ok (escalated event_id (get_finding_failure_count app finding.0 db.deliveries) blocked),
      db',
    )
    → db'.deliveries ≡ db.deliveries
    → 1 ≤ open_count app finding.0 db'.events
    → IsEscalated o app finding db
of_result o app finding db db' event_id blocked e same le = record {
  event_id = event_id;
  blocked = blocked;
  decided = ap (λ (r : Result Decision × Db). r.0) e;
  same_deliveries = ap (λ (r : Result Decision × Db). r.1.deliveries) e ∙ same;
  is_open =
      subst (λ (r : Result Decision × Db). 1 ≤ open_count app finding.0 r.1.events) (sym e) le;
}

module _ (o : Outside) (app : String) (finding : FindingKey) (db : Db)
    (named : is_empty_text finding.0 ≡ false) (h : has_quote finding.0 ≡ false)
    (before : AreBefore db) where
  escalated-open :
      (n : ℕ) → 1 ≤ open_count app finding.0 (escalate_unresolved_finding app finding n db).1.events
  escalated-open n =
      omega (arith, escalate_unresolved_finding-open_count app finding n db named h before)

  of_count :
      leb finding_escalation_threshold (get_finding_failure_count app finding.0 db.deliveries)
        ≡ true
      → IsEscalated o app finding db
  unfolding handle_confirmed_finding_failure
  of_count often =
      let n = get_finding_failure_count app finding.0 db.deliveries in
      let (event_id, db1) = escalate_unresolved_finding app finding n db in
      of_result o app finding db db1 event_id none (rw often refl)
        (escalate_unresolved_finding-deliveries app finding n db) (escalated-open n)

  of_blocked :
      (info : CooldownInfo)
      → leb finding_escalation_threshold (get_finding_failure_count app finding.0 db.deliveries)
        ≡ false
      → same_reject_reason_blocks_redispatch app finding db ≡ some info
      → IsEscalated o app finding db
  unfolding handle_confirmed_finding_failure log_outcome
  of_blocked info few blocked =
      let n = get_finding_failure_count app finding.0 db.deliveries in
      let (event_id, db1) = escalate_unresolved_finding app finding (max n 1) db in
      let db2 = (log_outcome app "skill-learner-queued" "info" (learner_summary info) db1).1 in
      of_result o app finding db db2 event_id (some info) (rw (few, blocked) refl)
        (escalate_unresolved_finding-deliveries app finding (max n 1) db)
        (rw
          (list_unresolved-log_outcome app "skill-learner-queued" "info" (learner_summary info) db1
            refl)
          (escalated-open (max n 1)))

-- A finding that failed three times or more, or one of whose contract skills is cooling down, gets
-- no more automatic fix: the decision is an escalation, no delivery is created or changed, and an
-- escalation of the category stands open (for a category that is not empty and has no quote, and
-- replies that are to events already there).
pub handle_confirmed_finding_failure-IsEscalated :
    (o : Outside) (app : String) (finding : FindingKey) (db : Db)
    → is_empty_text finding.0 ≡ false
    → has_quote finding.0 ≡ false
    → AreBefore db
    → IsExhausted app finding db
    → IsEscalated o app finding db
handle_confirmed_finding_failure-IsEscalated o app finding db named h before (inl often) =
    of_count o app finding db named h before (le→leb _ _ often)
handle_confirmed_finding_failure-IsEscalated o app finding db named h before (inr blocked) =
    elim (Option-cases (same_reject_reason_blocks_redispatch app finding db)) [
      | inl free ↦ absurd (cc (sym blocked ∙ ap (is_some {A = CooldownInfo}) free))
      | inr (info, e) ↦
          elim (Bool-cases (
            leb finding_escalation_threshold
              (get_finding_failure_count app finding.0 db.deliveries))) [
                | inl often ↦ of_count o app finding db named h before often
                | inr few ↦ of_blocked o app finding db named h before info few e
              ]
    ]
