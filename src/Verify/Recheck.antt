-- ===== src/Verify/Recheck.antt =====
-- `check_pending_delivery_verifications`: the walk over the deliveries that wait for an assessment.
use agent_it.Base.{
  ℕ, String, false, Option, none, some, List, [], ◌∷◌, is_empty, is_empty_text, if◌then◌else◌,
  ◌++ₛ◌, show, join, map,
}
use agent_it.Registry.{FindingKey}
use agent_it.Diff.{AssessmentReport}
use agent_it.Delivery.Route.{ok}
use agent_it.Store.Deliveries.{
  Delivery, Deliveries, update_delivery, list_deliveries_pending_finding_check,
}
use agent_it.Verify.{Db, log_outcome}
use agent_it.Verify.Attribution.{record_skill_outcomes_for_findings}
use agent_it.Verify.Correlate.{
  Correlation, Status, resolved, still_present, correlate_delivery_finding,
}
use agent_it.Verify.Dispatch.{Outside}
use agent_it.Verify.Redispatch.{Exec, continue, Decision, handle_confirmed_finding_failure}

-- A result of the walk. A resolved delivery has no escalations.
pub record Checked : Type 0 where
  pub delivery_id : ℕ
  pub outcome : Correlation
  pub escalations : List Decision

abbrev describe_finding : FindingKey → String
describe_finding (category, desc_key) = category ++ₛ " ('" ++ₛ desc_key ++ₛ "')"

abbrev described : List FindingKey → String
described keys = join ", " (map describe_finding keys)

abbrev or_target : String → String
or_target text = if is_empty_text text then "target finding" else text

abbrev or_targets : List FindingKey → List FindingKey → List FindingKey
or_targets resolved_findings target_findings =
    if is_empty resolved_findings then target_findings else resolved_findings

abbrev resolved_note : List FindingKey → String
resolved_note keys = if is_empty keys then "" else (" (" ++ₛ described keys ++ₛ " did resolve)")

module _ (o : Outside) (app : String) (report : AssessmentReport) where
  unfoldable pub handle_each : List FindingKey → Exec (List Decision)
  handle_each [] db = (ok [], db)
  handle_each (k ∷ keys) db =
      let (result, db1) = handle_confirmed_finding_failure o app k db in
      continue result
        (λ (d : Decision). λ (db2 : Db).
          (let (rest, db3) = handle_each keys db2 in
            continue rest (λ (ds : List Decision). λ (db4 : Db). (ok (d ∷ ds), db4)) db3))
        db1

  abbrev pub recorded : List FindingKey → String → String → Db → Db
  recorded keys outcome reason db = if is_empty keys then db else record db {
    skills = record_skill_outcomes_for_findings app keys outcome reason o.now db.skills;
  }

  abbrev delivery_text : ℕ → String
  delivery_text id = "(delivery " ++ₛ show id ++ₛ ")"

  unfoldable pub mark : ℕ → String → Db → Db
  mark id finding_resolution db = record db {
    deliveries = update_delivery id none (some finding_resolution) false db.deliveries;
  }

  unfoldable pub on_resolved : Delivery → Correlation → Exec Checked
  unfolding mark
  on_resolved d c db =
      let (_, db1) =
        log_outcome app "delivery-finding-resolved" "info"
          ("Delivery "
            ++ₛ show d.id
            ++ₛ " confirmed resolved: "
            ++ₛ or_target (described c.resolved_findings)
            ++ₛ " no longer present on re-assessment")
          (mark d.id "resolved" db) in
      let db2 =
        recorded (or_targets c.resolved_findings c.target_findings) "approved"
          ("finding cleared after merge " ++ₛ delivery_text d.id) db1 in
      (ok (record { delivery_id = d.id; outcome = c; escalations = [] }), db2)

  unfoldable pub on_still_present : Delivery → Correlation → Exec Checked
  unfolding mark handle_each
  on_still_present d c db =
      let (_, db1) =
        log_outcome app "delivery-finding-still-present" "warning"
          ("Delivery "
            ++ₛ show d.id
            ++ₛ " did NOT resolve: "
            ++ₛ described c.still_present_findings
            ++ₛ " still present on re-assessment"
            ++ₛ resolved_note c.resolved_findings)
          (mark d.id "still_present" db) in
      let db2 =
        recorded c.still_present_findings "rejected"
          ("finding still present after merge " ++ₛ delivery_text d.id) db1 in
      let db3 =
        recorded c.resolved_findings "approved"
          ("finding cleared after merge " ++ₛ delivery_text d.id) db2 in
      let (result, db4) = handle_each c.still_present_findings db3 in
      continue result
        (λ (ds : List Decision).
          λ (db5 : Db). (ok (record { delivery_id = d.id; outcome = c; escalations = ds }), db5))
        db4

  -- A delivery that is neither resolved nor still present is passed over.
  abbrev pub check_by : Status → Delivery → Correlation → Exec (Option Checked)
  check_by resolved d c db =
      let (result, db1) = on_resolved d c db in
      continue result (λ (r : Checked). λ (db2 : Db). (ok (some r), db2)) db1
  check_by still_present d c db =
      let (result, db1) = on_still_present d c db in
      continue result (λ (r : Checked). λ (db2 : Db). (ok (some r), db2)) db1
  check_by _ d c db = (ok none, db)

  unfoldable pub check_delivery : Delivery → Exec (Option Checked)
  unfolding on_resolved on_still_present
  check_delivery d db =
      let c = correlate_delivery_finding d.target_findings (some report) in check_by c.status d c db

  abbrev pub with_result : Option Checked → List Checked → List Checked
  with_result none rs = rs
  with_result (some r) rs = r ∷ rs

  unfoldable pub check_all : Deliveries → Exec (List Checked)
  unfolding check_delivery
  check_all [] db = (ok [], db)
  check_all (d ∷ rows) db =
      let (result, db1) = check_delivery d db in
      continue result
        (λ (r : Option Checked). λ (db2 : Db).
          (let (rest, db3) = check_all rows db2 in
            continue rest (λ (rs : List Checked). λ (db4 : Db). (ok (with_result r rs), db4)) db3))
        db1

  unfoldable pub check_pending_delivery_verifications : Exec (List Checked)
  unfolding check_all
  check_pending_delivery_verifications db =
      check_all (list_deliveries_pending_finding_check app db.deliveries) db
